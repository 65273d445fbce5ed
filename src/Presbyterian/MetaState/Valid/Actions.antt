-- ===== src/Presbyterian/MetaState/Valid/Actions.antt =====
-- The methods of the ledger keep it valid.
use go_crawling_bazaar.Base.{
  ℕ, ◌<◌, ◌≡◌, Option, none, some, nat_key, string_key, ◌==◌, arith, inl, inr, Option-cases,
}
use go_crawling_bazaar.GoMap
use go_crawling_bazaar.Word.{u64_mod}
use go_crawling_bazaar.Exec.{Outcome, ok}
use go_crawling_bazaar.Exec.Triple.{
  Triple, Triple-pure, Triple-raise, Triple-crash, Triple-if, Triple-modify, Triple-bind,
  Triple-bind-lift,
}
use go_crawling_bazaar.Types.{Account, listed, set_balance, wave, particle}
use go_crawling_bazaar.Presbyterian.Env.{Error, account_exists}
use go_crawling_bazaar.Presbyterian.MetaIndex.{safe_add, safe_sub}
use go_crawling_bazaar.Presbyterian.MetaState.{
  MetaState, Loaded, in_dirty, in_readonly, stored, load_or_store_account_object,
}
use go_crawling_bazaar.Presbyterian.MetaState.Tokens.{
  account_for_write, write_balance, increase_account_token, decrease_account_token, merged_balance,
  merge_account, set_both, store_base_account,
}
use go_crawling_bazaar.Presbyterian.MetaState.Valid.{
  IsWords, IsValid, put_account-IsValid, put_readonly_account-IsValid,
}

-- A pointer to an account whose balances are words.
abbrev pub IsWordsOr : Option Account → Type 0
IsWordsOr none = Unit
IsWordsOr (some o) = IsWords o

abbrev pub IsAlways : Unit {0} → Type 0
IsAlways _ = Unit

pub set_balance-IsWords :
    (o : Account) (t b : ℕ)
    → IsWords o
    → b < u64_mod
    → IsWords (record o { token_balance = set_balance o.token_balance t b })
set_balance-IsWords o t b w h u = ground (arith, w u)

pub account_for_write-Triple :
    (e : Error) (k : ℕ) → Triple IsValid (account_for_write e k) IsWordsOr
unfolding account_for_write
account_for_write-Triple e k = record {
  at = λ s v. elim (Option-cases (GoMap.get s.dirty.accounts k)) [
    | inr (none, d) ↦ rw (d, account_for_write) (v, tt)
    | inr (some o, d) ↦ rw (d, account_for_write) (v, v.dirty_words k o d)
    | inl d ↦
        rw (d, account_for_write)
          (elim (Option-cases (GoMap.get s.readonly.accounts k)) [
            | inl r ↦ rw r (v, tt)
            | inr (o, r) ↦ rw r (put_account-IsValid k o s (v.words k o r) v, v.words k o r)
          ])
  ];
}

write_balance-Triple :
    (k : ℕ) (f : ℕ → Outcome Error ℕ) (t : ℕ) (dst : Option Account)
    → ((x y : ℕ) → x < u64_mod → f x ≡ ok y → y < u64_mod)
    → IsWordsOr dst
    → Triple IsValid (write_balance k f t dst) IsAlways
unfolding write_balance
write_balance-Triple k f t none fw w = Triple-crash
write_balance-Triple k f t (some o) fw w =
    Triple-if (listed t) _ _
      (λ _. Triple-bind-lift (f (o.token_balance t)) _ λ b e. Triple-modify _ λ s v.
        put_account-IsValid k _ s (set_balance-IsWords o t b w (fw (o.token_balance t) b (w t) e))
          v)
      (λ _. Triple-crash)

pub safe_add-word : (amount x y : ℕ) → x < u64_mod → safe_add x amount ≡ ok y → y < u64_mod
unfolding safe_add
safe_add-word amount x y h e = ground arith

pub safe_sub-word : (amount x y : ℕ) → x < u64_mod → safe_sub x amount ≡ ok y → y < u64_mod
unfolding safe_sub
safe_sub-word amount x y h e = ground arith

pub increase_account_token-Triple :
    (k amount t : ℕ) → Triple IsValid (increase_account_token k amount t) IsAlways
unfolding increase_account_token
increase_account_token-Triple k amount t =
    Triple-bind _ _ (account_for_write-Triple _ k)
      λ dst w. write_balance-Triple k _ t dst (safe_add-word amount) w

pub decrease_account_token-Triple :
    (k amount t : ℕ) → Triple IsValid (decrease_account_token k amount t) IsAlways
unfolding decrease_account_token
decrease_account_token-Triple k amount t =
    Triple-bind _ _ (account_for_write-Triple _ k)
      λ dst w. write_balance-Triple k _ t dst (safe_sub-word amount) w

-- The account that a load-or-store call found.
abbrev IsWordsFound : Loaded Account → Type 0
IsWordsFound (in_dirty o) = IsWords o
IsWordsFound (in_readonly o) = IsWords o
IsWordsFound stored = Unit

pub load_or_store-Triple :
    (k : ℕ) (o : Account)
    → IsWords o
    → Triple IsValid (load_or_store_account_object k o) IsWordsFound
unfolding load_or_store_account_object
load_or_store-Triple k o w = record {
  at = λ s v. elim (Option-cases (GoMap.get s.dirty.accounts k)) [
    | inr (none, d) ↦ absurd (v.live k d)
    | inr (some p, d) ↦ rw (d, load_or_store_account_object) (v, v.dirty_words k p d)
    | inl d ↦
        rw (d, load_or_store_account_object)
          (elim (Option-cases (GoMap.get s.readonly.accounts k)) [
            | inl r ↦ rw r (put_account-IsValid k o s w v, tt)
            | inr (p, r) ↦ rw r (v, v.words k p r)
          ])
  ];
}

merged_balance-words :
    (ao v : Account) (cb sb : ℕ)
    → IsWords ao
    → merged_balance ao v ≡ ok (cb, sb)
    → (cb < u64_mod) × (sb < u64_mod)
unfolding merged_balance safe_add
merged_balance-words ao v cb sb w e = ground (arith, w wave, w particle)

set_both-IsWords :
    (ao : Account) (cb sb : ℕ)
    → IsWords ao
    → (cb < u64_mod) × (sb < u64_mod)
    → IsWords (set_both ao cb sb)
set_both-IsWords ao cb sb w b t = ground (arith, w t)

merge_account-Triple :
    (write : Account → MetaState → MetaState) (ao v : Account)
    → ((o : Account) (s : MetaState) → IsWords o → IsValid s → IsValid (write o s))
    → IsWords ao
    → Triple IsValid (merge_account write ao v) IsAlways
unfolding merge_account
merge_account-Triple write ao v keep w =
    Triple-if (ao.next_nonce == 0) _ _
      (λ _. Triple-bind-lift (merged_balance ao v) _ λ sums e. Triple-modify _ λ s h.
        keep (set_both ao sums.0 sums.1) s
          (set_both-IsWords ao sums.0 sums.1 w (merged_balance-words ao v sums.0 sums.1 w e)) h)
      (λ _. Triple-raise account_exists)

pub store_base_account-Triple :
    (k : ℕ) (v : Account) → IsWords v → Triple IsValid (store_base_account k v) IsAlways
unfolding store_base_account
store_base_account-Triple k v w = Triple-bind _ _ (load_or_store-Triple k v w) (elim [
  | stored ↦ λ q. Triple-pure tt tt
  | in_dirty ao ↦ λ q. merge_account-Triple _ ao v (λ o s. put_account-IsValid k o s) q
  | in_readonly ao ↦ λ q. merge_account-Triple _ ao v (λ o s. put_readonly_account-IsValid k o s) q
])
