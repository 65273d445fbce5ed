-- ===== src/Merkle.antt =====
-- merkle/merkletrie.go: the root of the merkle tree of a list of hashes. A hash is a number; `merge`
-- is the hash of two concatenated hashes.
use go_crawling_bazaar.Base.{
  ℕ, zero, suc, ◌+◌, ◌-◌, ◌*◌, ◌/◌, ◌^◌, Option, none, some, List, [], ◌∷◌, ◌++◌, map, length,
  get_elem?, set,
}
use go_crawling_bazaar.Word.{add64, sub64}
use Prim.Native.Nat.{bit_or}

-- n |= n >> k
abbrev smear : ℕ → ℕ → ℕ
smear k n = bit_or n (n / 2 ^ k)

-- upperPowOfTwo
unfoldable pub upper_pow_of_two : ℕ → ℕ
upper_pow_of_two n =
    add64 (smear 32 (smear 16 (smear 8 (smear 4 (smear 2 (smear 1 (sub64 n 1))))))) 1

-- make([]*hash.Hash, n)
unfoldable pub nils : ℕ → List (Option ℕ)
nils zero = []
nils (suc n) = none ∷ nils n

-- hashArray[i]; every index that is read is in range.
unfoldable pub hash_at : List (Option ℕ) → ℕ → Option ℕ
hash_at hs i = elim (get_elem? hs i) [ none ↦ none | some h ↦ h ]

module _ (merge : ℕ → ℕ → ℕ) where
  -- The three branches of the loop's body.
  unfoldable pub parent_hash : Option ℕ → Option ℕ → Option ℕ
  parent_hash none _ = none
  parent_hash (some l) none = some (merge l l)
  parent_hash (some l) (some r) = some (merge l r)

  -- The loop of NewMerkle over `n` pairs from `i`.
  unfoldable pub tree_rounds : ℕ → ℕ → ℕ → List (Option ℕ) → List (Option ℕ)
  unfolding hash_at parent_hash
  tree_rounds zero i offset hs = hs
  tree_rounds (suc n) i offset hs =
      tree_rounds n (i + 2) (offset + 1)
        (set hs offset (parent_hash (hash_at hs i) (hash_at hs (i + 1))))

  -- NewMerkle: the array, with as many pairs as there are elements before the last one, halved.
  unfoldable pub new_merkle : List ℕ → List (Option ℕ)
  unfolding tree_rounds upper_pow_of_two nils
  new_merkle items =
      let hs : List ℕ = elim items as (λ _. List ℕ) [ [] ↦ 0 ∷ [] | x ∷ xs ↦ x ∷ xs ] in
      let upper = upper_pow_of_two (length hs) in
      let size = upper * 2 - 1 in
      tree_rounds (upper - 1) 0 upper (map some hs ++ nils (size - length hs))

  -- GetRoot; the last element is not nil.
  unfoldable pub get_root : List (Option ℕ) → ℕ
  unfolding hash_at
  get_root tree = elim (hash_at tree (length tree - 1)) [ none ↦ 0 | some h ↦ h ]
