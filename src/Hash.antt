-- ===== src/Hash.antt =====
-- crypto/hash/hash.go and proto/nodeinfo.go: hashes, account addresses, and their text. A `Hash`, 32
-- bytes, is the number that its bytes write with the least significant byte first.
use Prim.Native.Char.{Char, code}
use native.Mathlib.Nat.{pow-suc}
use go_crawling_bazaar.Base.{
  ℕ, zero, suc, ◌+◌, ◌-◌, ◌*◌, ◌/◌, ◌%◌, ◌^◌, ◌<◌, ◌≡◌, refl, Bool, true, false, ◌&&◌, Option, none,
  some, List, [], ◌∷◌, arith, String, ap, ◌∙◌, ◌⊎◌, inl, inr, ltb, leb, nat_beq, if◌then◌else◌,
}

abbrev pub hash_size : ℕ
hash_size = 32

-- AsBytes
unfoldable pub bytes_from : ℕ → ℕ → List ℕ
bytes_from zero h = []
bytes_from (suc n) h = (h % 256) ∷ bytes_from n (h / 256)

abbrev pub as_bytes : ℕ → List ℕ
as_bytes h = bytes_from hash_size h

-- bytes.Compare(a, b) < 0
unfoldable pub bytes_less : List ℕ → List ℕ → Bool
bytes_less [] [] = false
bytes_less [] (b ∷ bs) = true
bytes_less (a ∷ as_) [] = false
bytes_less (a ∷ as_) (b ∷ bs) =
    if ltb a b then true else if ltb b a then false else bytes_less as_ bs

unfoldable pub hex_digit : ℕ → Char
hex_digit d =
    if ltb d 8
    then (if ltb d 4
        then (if ltb d 2 then (if ltb d 1 then "0" else "1") else if ltb d 3 then "2" else "3")
        else if ltb d 6
        then (if ltb d 5 then "4" else "5")
        else if ltb d 7
        then "6"
        else "7")
    else (if ltb d 12
        then (if ltb d 10 then (if ltb d 9 then "8" else "9") else if ltb d 11 then "a" else "b")
        else if ltb d 14
        then (if ltb d 13 then "c" else "d")
        else if ltb d 15
        then "e"
        else "f")

-- The value of a digit, in either case, as `hex.Decode` reads it.
unfoldable pub hex_value : ℕ → Option ℕ
hex_value c =
    if leb b'0' c && leb c b'9'
    then some (c - b'0')
    else if leb b'a' c && leb c b'f'
    then some (c - b'a' + 10)
    else if leb b'A' c && leb c b'F'
    then some (c - b'A' + 10)
    else none

-- The last `n` hexadecimal digits of `h`, in front of `acc`.
unfoldable pub hex_digits : ℕ → ℕ → String → String
hex_digits zero h acc = acc
hex_digits (suc n) h acc = hex_digits n (h / 16) (String.◌∷◌ (hex_digit (h % 16)) acc)

-- String: the hexadecimal text of the bytes, most significant first.
unfoldable pub to_string : ℕ → String
to_string h = hex_digits (2 * hash_size) h ""

unfoldable pub count : String → ℕ
count String.[] = 0
count (String.◌∷◌ c s) = suc (count s)

abbrev accept : ℕ → Option ℕ → Option ℕ
accept v none = none
accept v (some d) = some (16 * v + d)

-- hex.Decode, the value of the digits; `none` at a character that is no digit.
unfoldable pub parse_hex : ℕ → String → Option ℕ
unfolding hex_value
parse_hex v String.[] = some v
parse_hex v (String.◌∷◌ c s) = elim (hex_value (code c)) [
  | none ↦ none
  | some d ↦ parse_hex (16 * v + d) s
]

-- Decode and NewHashFromStr: at most 64 characters; missing ones are zeros in front. A text with a
-- character that is no digit, of one byte or more, is an error on either test.
unfoldable pub decode : String → Option ℕ
unfolding count parse_hex
decode s = if ltb (2 * hash_size) (count s) then none else parse_hex 0 s

abbrev reads_back : ℕ → Bool
reads_back d = elim (hex_value (code (hex_digit d))) [ none ↦ false | some v ↦ nat_beq v d ]

-- The test at the digits from `d` on, `n` of them.
passes : (ℕ → Bool) → ℕ → ℕ → Bool
passes test d zero = true
passes test d (suc n) = if test d then passes test (d + 1) n else false

test_first :
    (test : ℕ → Bool) (d n : ℕ)
    → passes test d (suc n) ≡ true
    → (test d ≡ true) × (passes test (d + 1) n ≡ true)
unfolding passes
test_first test d n h = ground arith

count-cases : (k : ℕ) → (k ≡ 0) ⊎ ((j : ℕ) × (k ≡ j + 1))
count-cases zero = inl refl
count-cases (suc j) = inr (j, ground arith)

passes-at : (test : ℕ → Bool) (n d k : ℕ) → passes test d n ≡ true → k < n → test (d + k) ≡ true
unfolding passes
passes-at test zero d k h b = absurd (ground arith)
passes-at test (suc n) d k h b =
    let (here, later) = test_first test d n h in
    elim (count-cases k) [
      | inl z ↦ ap test (ground arith) ∙ here
      | inr (j, z) ↦ ap test (ground arith) ∙ passes-at test n (d + 1) j later (ground arith)
    ]

digits_read_back : passes reads_back 0 16 ≡ true
unfolding passes hex_value hex_digit
digits_read_back = refl

hex_digit_value : (d : ℕ) → d < 16 → hex_value (code (hex_digit d)) ≡ some d
hex_digit_value d h = ground (arith, passes-at reads_back 16 0 d digits_read_back h)

count-hex_digits : (n h : ℕ) (acc : String) → count (hex_digits n h acc) ≡ n + count acc
unfolding count hex_digits
count-hex_digits zero h acc = omega arith
count-hex_digits (suc n) h acc =
    omega (arith, count-hex_digits n (h / 16) (String.◌∷◌ (hex_digit (h % 16)) acc))

parse_hex_step :
    (v d : ℕ) (acc : String)
    → d < 16
    → parse_hex v (String.◌∷◌ (hex_digit d) acc) ≡ parse_hex (16 * v + d) acc
unfolding count parse_hex
parse_hex_step v d acc h = rw (hex_digit_value d h, parse_hex)

regroup : (v p h : ℕ) → 16 * (v * p + h / 16) + h % 16 ≡ v * (16 * p) + h
regroup v p h = omega arith

parse_hex-hex_digits :
    (n v h : ℕ) (acc : String)
    → h < 16 ^ n
    → parse_hex v (hex_digits n h acc) ≡ parse_hex (v * 16 ^ n + h) acc
unfolding parse_hex hex_digits
parse_hex-hex_digits zero v h acc b =
    let e : v ≡ v * 1 + h = omega arith in ap (λ w. parse_hex w acc) e
parse_hex-hex_digits (suc n) v h acc b =
    parse_hex-hex_digits n v (h / 16) (String.◌∷◌ (hex_digit (h % 16)) acc)
      (omega (arith, pow-suc 16 n))
    ∙ parse_hex_step (v * 16 ^ n + h / 16) (h % 16) acc (omega arith)
    ∙ ap (λ w. parse_hex w acc)
        (regroup v (16 ^ n) h ∙ ap (λ q. v * q + h) (omega (arith, pow-suc 16 n)))

-- The text of a hash has 64 characters.
pub count-to_string : (h : ℕ) → count (to_string h) ≡ 64
unfolding to_string count
count-to_string h = count-hex_digits 64 h ""

fits : (h : ℕ) → ltb (2 * hash_size) (count (to_string h)) ≡ false
fits h = ground (arith, count-to_string h)

parse_hex-to_string : (h : ℕ) → h < 2 ^ 256 → parse_hex 0 (to_string h) ≡ some h
unfolding to_string parse_hex
parse_hex-to_string h b = parse_hex-hex_digits 64 0 h "" b ∙ ap some (omega arith)

-- A hash, a number below 2 ^ 256, is read back from its text.
pub decode-to_string : (h : ℕ) → h < 2 ^ 256 → decode (to_string h) ≡ some h
unfolding decode
decode-to_string h b = rw (fits h) (parse_hex-to_string h b)
