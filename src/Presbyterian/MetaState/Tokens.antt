-- ===== src/Presbyterian/MetaState/Tokens.antt =====
-- presbyterian/metastate.go: balances, nonces and transfers between accounts.
use go_crawling_bazaar.Base.{ℕ, ◌||◌, Option, none, some, nat_key, ◌==◌, if◌then◌else◌}
use go_crawling_bazaar.GoMap
use go_crawling_bazaar.Word.{add32}
use go_crawling_bazaar.Exec.{Outcome, ok, err, panic, pure, raise, crash, lift, modify, ◌>>=◌, ◌>>◌}
use go_crawling_bazaar.Types.{Account, listed, set_balance, particle, wave, empty_account}
use go_crawling_bazaar.Types.Transactions.{Transfer}
use go_crawling_bazaar.Presbyterian.Env.{
  Env, Error, account_not_found, account_exists, invalid_sender, wrapped, pub_key_hash,
}
use go_crawling_bazaar.Presbyterian.MetaIndex.{safe_add, safe_sub}
use go_crawling_bazaar.Presbyterian.MetaState.{
  MetaState, Action, put_account, put_readonly_account, in_dirty, in_readonly, stored,
  load_or_store_account_object,
}

-- The pointer that `dst` is after `if dst, ok = s.dirty.accounts[k]; !ok { copy }`: nil for a
-- pending deletion.
unfoldable pub account_for_write : Error → ℕ → Action (Option Account)
account_for_write e k s = elim (GoMap.get s.dirty.accounts k) [
  | some o ↦ (ok o, s)
  | none ↦ elim (GoMap.get s.readonly.accounts k) [
    | none ↦ (err e, s)
    | some o ↦ (ok (some o), put_account k (some o) s)
  ]
]

-- A change of dst.TokenBalance[t]: a nil pointer and an index out of range panic.
unfoldable pub write_balance : ℕ → (ℕ → Outcome Error ℕ) → ℕ → Option Account → Action (Unit {0})
write_balance k f t none = crash
write_balance k f t (some o) =
    if listed t
    then (do
      b ← lift (f (o.token_balance t))
      modify (put_account k (some (record o { token_balance = set_balance o.token_balance t b }))))
    else crash

-- increaseAccountToken
unfoldable pub increase_account_token : ℕ → ℕ → ℕ → Action (Unit {0})
unfolding account_for_write write_balance
increase_account_token k amount t = do
  dst ← account_for_write (wrapped account_not_found) k
  write_balance k (λ b. safe_add b amount) t dst

-- decreaseAccountToken
unfoldable pub decrease_account_token : ℕ → ℕ → ℕ → Action (Unit {0})
unfolding account_for_write write_balance
decrease_account_token k amount t = do
  dst ← account_for_write (wrapped account_not_found) k
  write_balance k (λ b. safe_sub b amount) t dst

-- increaseAccountStableBalance, decreaseAccountStableBalance
abbrev pub increase_account_stable_balance : ℕ → ℕ → Action (Unit {0})
increase_account_stable_balance k amount = increase_account_token k amount particle

abbrev pub decrease_account_stable_balance : ℕ → ℕ → Action (Unit {0})
decrease_account_stable_balance k amount = decrease_account_token k amount particle

-- increaseAccountCovenantBalance, decreaseAccountCovenantBalance
abbrev pub increase_account_covenant_balance : ℕ → ℕ → Action (Unit {0})
increase_account_covenant_balance k amount = increase_account_token k amount wave

abbrev pub decrease_account_covenant_balance : ℕ → ℕ → Action (Unit {0})
decrease_account_covenant_balance k amount = decrease_account_token k amount wave

-- The two sums of storeBaseAccount.
unfoldable pub merged_balance : Account → Account → Outcome Error (ℕ × ℕ)
merged_balance ao v = elim (safe_add (ao.token_balance wave) (v.token_balance wave)) [
  | ok cb ↦ elim (safe_add (ao.token_balance particle) (v.token_balance particle)) [
    | ok sb ↦ ok (cb, sb)
    | err e ↦ err e
    | panic ↦ panic
  ]
  | err e ↦ err e
  | panic ↦ panic
]

abbrev pub set_both : Account → ℕ → ℕ → Account
set_both ao cb sb = record ao {
  token_balance = set_balance (set_balance ao.token_balance wave cb) particle sb;
}

-- The body of storeBaseAccount for an account that was there; `write` goes through its pointer.
unfoldable pub merge_account :
    (Account → MetaState → MetaState) → Account → Account → Action (Unit {0})
unfolding merged_balance
merge_account write ao v =
    if ao.next_nonce == 0
    then (do sums ← lift (merged_balance ao v); modify (write (set_both ao sums.0 sums.1)))
    else raise account_exists

-- storeBaseAccount. Where the account is committed and not pending, the pointer leads into the
-- committed map.
unfoldable pub store_base_account : ℕ → Account → Action (Unit {0})
unfolding merge_account load_or_store_account_object
store_base_account k v = do
  found ← load_or_store_account_object k v
  elim found [
    | stored ↦ pure tt
    | in_dirty ao ↦ merge_account (λ o. put_account k (some o)) ao v
    | in_readonly ao ↦ merge_account (put_readonly_account k) ao v
  ]

-- The object behind `if so, sd = s.dirty.accounts[k]; !sd { so, ok = s.readonly.accounts[k] }`.
unfoldable pub find_account : ℕ → Action (Option Account)
find_account k s = elim (GoMap.get s.dirty.accounts k) [
  | some o ↦ (ok o, s)
  | none ↦ elim (GoMap.get s.readonly.accounts k) [
    | none ↦ (err account_not_found, s)
    | some o ↦ (ok (some o), s)
  ]
]

-- o.TokenBalance[t]
unfoldable pub balance_of : Option Account → ℕ → Outcome Error ℕ
balance_of none t = panic
balance_of (some o) t = if listed t then ok (o.token_balance t) else panic

-- Proceed transfer: the new balances are written to pending copies.
unfoldable pub proceed_transfer :
    Transfer → ℕ → ℕ → Option Account → Option Account → MetaState → MetaState
proceed_transfer t sb rb (some so) (some ro) s =
    put_account t.receiver
      (some (record ro { token_balance = set_balance ro.token_balance t.token_type rb }))
      (put_account t.sender
        (some (record so { token_balance = set_balance so.token_balance t.token_type sb })) s)
proceed_transfer t sb rb _ _ s = s

-- Try transfer, for the two objects that were found.
unfoldable pub pay : Transfer → Option Account → Option Account → Action (Unit {0})
unfolding balance_of proceed_transfer
pay t so ro = do
  sb ← lift (balance_of so t.token_type)
  rb ← lift (balance_of ro t.token_type)
  sb' ← lift (safe_sub sb t.amount)
  rb' ← lift (safe_add rb t.amount)
  modify (proceed_transfer t sb' rb' so ro)

-- Load sender and receiver objects, and pay.
unfoldable pub move_between : Transfer → Action (Unit {0})
move_between t = do so ← find_account t.sender; ro ← find_account t.receiver; pay t so ro

-- The part of transferAccountToken behind the checks: an empty receiver is created if not found.
unfoldable pub move_tokens : Transfer → Action (Unit {0})
move_tokens t = do
  found ← load_or_store_account_object t.receiver (empty_account t.receiver)
  move_between t

module _ (env : Env) where
  -- realSender, err := PubKeyHash(signee), and realSender == sender.
  unfoldable pub check_sender : Option ℕ → ℕ → Outcome Error (Unit {0})
  check_sender signee sender = elim (pub_key_hash env signee) [
    | ok a ↦ if a == sender then ok tt else err (wrapped invalid_sender)
    | err e ↦ err (wrapped e)
    | panic ↦ panic
  ]

  -- transferAccountToken. A nil signee is refused by PubKeyHash.
  unfoldable pub transfer_account_token : Transfer → Action (Unit {0})
  unfolding check_sender
  transfer_account_token t = do
    lift (check_sender t.signee t.sender)
    if t.sender == t.receiver || t.amount == 0 then pure tt else move_tokens t

-- nextNonce
unfoldable pub next_nonce : ℕ → Action ℕ
next_nonce addr s = elim (GoMap.get s.dirty.accounts addr) [
  | some none ↦ (panic, s)
  | some (some o) ↦ (ok o.next_nonce, s)
  | none ↦ elim (GoMap.get s.readonly.accounts addr) [
    | none ↦ (err account_not_found, s)
    | some o ↦ (ok o.next_nonce, s)
  ]
]

unfoldable pub write_nonce : ℕ → Option Account → Action (Unit {0})
write_nonce k none = crash
write_nonce k (some o) =
    modify (put_account k (some (record o { next_nonce = add32 o.next_nonce 1 })))

-- increaseNonce
unfoldable pub increase_nonce : ℕ → Action (Unit {0})
unfolding account_for_write write_nonce
increase_nonce addr = do dst ← account_for_write account_not_found addr; write_nonce addr dst
