-- ===== src/Presbyterian/MetaState/Transfers.antt =====
-- What a transfer between accounts does to every balance of the ledger.
use go_crawling_bazaar.Base.{
  ℕ, ◌+◌, ◌-◌, ◌<◌, ◌≤◌, ◌≡◌, ◌≢◌, refl, ◌∙◌, inl, inr, Option-cases, Bool-cases, ◌||◌, Option,
  none, some, nat_key, ◌==◌, arith, if◌then◌else◌,
}
use go_crawling_bazaar.Exec.{Outcome, ok, err, panic, Outcome-cases}
use go_crawling_bazaar.Word.{u64_mod, add64}
use go_crawling_bazaar.Types.{Account, set_balance, empty_account}
use go_crawling_bazaar.Types.Transactions.{Transfer}
use go_crawling_bazaar.Presbyterian.Env.{Env, Error}
use go_crawling_bazaar.Presbyterian.MetaState.{
  MetaState, load_account_object, load_or_store_account_object,
}
use go_crawling_bazaar.Presbyterian.MetaIndex.{safe_add, safe_sub}
use go_crawling_bazaar.Presbyterian.MetaState.Tokens.{
  check_sender, move_tokens, transfer_account_token, pay, proceed_transfer, move_between,
}
use go_crawling_bazaar.Presbyterian.MetaState.View.{
  IsLive, load-put_account, find_account_lem, load-load_or_store, IsLive-load_or_store,
  load_or_store_found,
}

abbrev pub account_balance : Option Account → ℕ → ℕ
account_balance none t = 0
account_balance (some o) t = o.token_balance t

-- The balance that the ledger shows; 0 where there is no account.
abbrev pub balance : MetaState → ℕ → ℕ → ℕ
balance s k t = account_balance (load_account_object s k) t

-- The balances after the transfer.
abbrev pub moved : Transfer → MetaState → ℕ → ℕ → ℕ
moved t s k u =
    if u == t.token_type
    then (if k == t.sender
        then balance s k u - t.amount
        else if k == t.receiver
        then balance s k u + t.amount
        else balance s k u)
    else balance s k u

-- What a step of a transfer does: the balances move if it succeeds, and stay if it fails.
abbrev Effect : Transfer → MetaState → Outcome Error (Unit {0}) → MetaState → ℕ → ℕ → Type 0
Effect t s (ok _) s' k u =
    (balance s' k u ≡ moved t s k u) × (t.amount ≤ balance s t.sender t.token_type)
Effect t s _ s' k u = balance s' k u ≡ balance s k u

proceed_balance :
    (t : Transfer) (sb rb : ℕ) (so ro : Account) (s : MetaState) (k u : ℕ)
    → balance (proceed_transfer t sb rb (some so) (some ro) s) k u ≡ (
        if t.receiver == k
        then set_balance ro.token_balance t.token_type rb u
        else if t.sender == k
        then set_balance so.token_balance t.token_type sb u
        else balance s k u)
unfolding proceed_transfer
proceed_balance t sb rb so ro s k u = simp load-put_account (ground arith)

pay-Effect :
    (t : Transfer) (so ro : Account) (s : MetaState) (k u : ℕ)
    → load_account_object s t.sender ≡ some so
    → load_account_object s t.receiver ≡ some ro
    → t.sender ≢ t.receiver
    → ro.token_balance t.token_type < u64_mod
    → t.amount < u64_mod
    → Effect t s (pay t (some so) (some ro) s).0 (pay t (some so) (some ro) s).1 k u
unfolding pay safe_add safe_sub
pay-Effect t so ro s k u es er d br ba = ground (
  arith,
  proceed_balance t (so.token_balance t.token_type - t.amount)
      (add64 (ro.token_balance t.token_type) t.amount) so ro s k u,
)

-- Between two accounts of the ledger.
move_between-Effect :
    (t : Transfer) (s : MetaState) (k u : ℕ)
    → IsLive s
    → t.sender ≢ t.receiver
    → ((o : Account)
        → load_account_object s t.receiver ≡ some o
        → o.token_balance t.token_type < u64_mod)
    → t.amount < u64_mod
    → Effect t s (move_between t s).0 (move_between t s).1 k u
unfolding move_between
move_between-Effect t s k u l d br ba =
    rw (find_account_lem t.sender s l) (elim (Option-cases (load_account_object s t.sender)) [
      | inl none_s ↦ rw none_s refl
      | inr (so, es) ↦
          rw (es, find_account_lem t.receiver s l)
            (elim (Option-cases (load_account_object s t.receiver)) [
              | inl none_r ↦ rw none_r refl
              | inr (ro, er) ↦ rw er (pay-Effect t so ro s k u es er d (br ro er) ba)
            ])
    ])

-- Creating the empty receiver changes no balance.
balance-load_or_store :
    (k j u : ℕ) (s : MetaState)
    → IsLive s
    → balance (load_or_store_account_object k (empty_account k) s).1 j u ≡ balance s j u
balance-load_or_store k j u s l = ground (arith, load-load_or_store k j (empty_account k) s l)

Effect-of_same :
    (t : Transfer) (s₁ s s' : MetaState) (k u : ℕ) (r : Outcome Error (Unit {0}))
    → ((j v : ℕ) → balance s₁ j v ≡ balance s j v)
    → Effect t s₁ r s' k u
    → Effect t s r s' k u
Effect-of_same t s₁ s s' k u (ok _) b h = ground (arith, b k u, b t.sender t.token_type)
Effect-of_same t s₁ s s' k u (err e) b h = h ∙ b k u
Effect-of_same t s₁ s s' k u panic b h = h ∙ b k u

receiver_word :
    (t : Transfer) (s : MetaState)
    → IsLive s
    → balance s t.receiver t.token_type < u64_mod
    → (o : Account)
    → load_account_object
        (load_or_store_account_object t.receiver (empty_account t.receiver) s).1
        t.receiver
      ≡ some o
    → o.token_balance t.token_type < u64_mod
receiver_word t s l b o h =
    ground (arith, load-load_or_store t.receiver t.receiver (empty_account t.receiver) s l)

move_tokens-Effect :
    (t : Transfer) (s : MetaState) (k u : ℕ)
    → IsLive s
    → t.sender ≢ t.receiver
    → balance s t.receiver t.token_type < u64_mod
    → t.amount < u64_mod
    → Effect t s (move_tokens t s).0 (move_tokens t s).1 k u
unfolding move_tokens
move_tokens-Effect t s k u l d br ba =
    rw (load_or_store_found t.receiver (empty_account t.receiver) s) (
      Effect-of_same t (load_or_store_account_object t.receiver (empty_account t.receiver) s).1 s _
        k u _ (λ j v. balance-load_or_store t.receiver j v s l)
        (move_between-Effect t _ k u
          (IsLive-load_or_store t.receiver (empty_account t.receiver) s l) d
          (receiver_word t s l br) ba))

-- The promise of transferAccountToken: a transfer to another account that succeeds takes the amount
-- from the sender and adds it to the receiver.
abbrev pub Transferred :
    Transfer → MetaState → Outcome Error (Unit {0}) → MetaState → ℕ → ℕ → Type 0
Transferred t s (ok _) s' k u =
    (balance s' k u ≡ (if t.sender == t.receiver then balance s k u else moved t s k u))
    × (t.sender ≢ t.receiver → t.amount ≤ balance s t.sender t.token_type)
Transferred t s _ s' k u = balance s' k u ≡ balance s k u

Transferred-of_Effect :
    (t : Transfer) (s s' : MetaState) (k u : ℕ) (r : Outcome Error (Unit {0}))
    → t.sender ≢ t.receiver
    → Effect t s r s' k u
    → Transferred t s r s' k u
Transferred-of_Effect t s s' k u (ok _) d h = (ground arith, λ _. h.1)
Transferred-of_Effect t s s' k u (err e) d h = h
Transferred-of_Effect t s s' k u panic d h = h

-- On a ledger without pending deletions, with the amount and the receiver's balance in 64 bits,
-- every outcome of transferAccountToken is one of two. If it returns no error, the balance of the
-- sender falls and that of the receiver grows by the amount, which the sender had, and no balance
-- of another account or token changes (a transfer to oneself changes none). If it returns an error
-- or panics, no balance of any account and token has changed.
pub transfer_account_token-Transferred :
    (env : Env) (t : Transfer) (s : MetaState) (k u : ℕ)
    → IsLive s
    → balance s t.receiver t.token_type < u64_mod
    → t.amount < u64_mod
    → Transferred t s (transfer_account_token env t s).0 (transfer_account_token env t s).1 k u
unfolding transfer_account_token
transfer_account_token-Transferred env t s k u l br ba =
    elim (Outcome-cases (check_sender env t.signee t.sender)) [
      | inl (a, e) ↦ rw e (elim (Bool-cases (t.sender == t.receiver || t.amount == 0)) [
        | inl skip ↦ rw skip (ground arith)
        | inr go ↦ rw go (
            Transferred-of_Effect t s _ k u _ (ground arith)
              (move_tokens-Effect t s k u l (ground arith) br ba))
      ])
      | inr (inl (x, e)) ↦ rw e refl
      | inr (inr e) ↦ rw e refl
    ]
