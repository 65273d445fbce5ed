-- ===== src/Presbyterian/MetaState/Arrears.antt =====
-- presbyterian/metastate.go: where the amount of a transfer to a domain goes.
use go_crawling_bazaar.Base.{ℕ, ◌+◌, ◌≡◌, ◌<◌, ◌≤◌, List, arith, nat_key, inl, inr}
use go_crawling_bazaar.Word.{u64_mod}
use go_crawling_bazaar.Exec.{ok, Outcome-cases}
use go_crawling_bazaar.Types.{Account, SqlChainUser, MinerInfo}
use go_crawling_bazaar.Presbyterian.MetaIndex.{safe_add}
use go_crawling_bazaar.Presbyterian.MetaState.Deposits.{
  Settled, process_arrears, fill_deposit, revive, deposit_user,
}

-- The user, the amount and the account that process_arrears leaves on success.
process_arrears_lem :
    (t : ℕ) (user : SqlChainUser) (miners : List MinerInfo) (amount : ℕ) (account : Account)
    (settled : Settled)
    → amount < u64_mod
    → account.token_balance t < u64_mod
    → process_arrears t user miners amount account ≡ ok settled
    → (settled.user.arrears ≡ 0)
      × (settled.user.deposit ≡ user.deposit)
      × (settled.user.advance_payment ≡ user.advance_payment)
      × (settled.amount ≡ amount)
      × (settled.account.token_balance t ≡ account.token_balance t)
      × (user.arrears ≤ amount)
unfolding process_arrears
process_arrears_lem t user miners amount account settled ha hb h = ground arith

fill_deposit_lem :
    (d amount : ℕ) (user filled : SqlChainUser)
    → user.deposit + amount < u64_mod
    → user.advance_payment + amount < u64_mod
    → fill_deposit d amount user ≡ ok filled
    → (filled.deposit + filled.advance_payment ≡ user.deposit + user.advance_payment + amount)
      × (filled.arrears ≡ user.arrears)
unfolding fill_deposit safe_add
fill_deposit_lem d amount user filled hd ha h = ground arith

revive_lem :
    (d : ℕ) (user : SqlChainUser)
    → ((revive d user).deposit ≡ user.deposit)
      × ((revive d user).advance_payment ≡ user.advance_payment)
      × ((revive d user).arrears ≡ user.arrears)
unfolding revive
revive_lem d user = ground arith

-- The round for the sender's entry in a transfer to a domain, if it returns no error. The whole
-- amount, and no more, becomes deposit or advance payment, and leaves the balance of the account.
-- Arrears of at most the amount are cleared, yet nothing is taken for them: neither the amount nor
-- the balance falls by them. The sums have to stay in 64 bits, and the account has the amount.
pub deposit_user-conserves :
    (t d amount : ℕ) (user user' : SqlChainUser) (miners miners' : List MinerInfo)
    (account account' : Account)
    → user.deposit + amount < u64_mod
    → user.advance_payment + amount < u64_mod
    → account.token_balance t < u64_mod
    → amount ≤ account.token_balance t
    → deposit_user t d amount user miners account ≡ ok (user', miners', account')
    → (user'.deposit + user'.advance_payment ≡ user.deposit + user.advance_payment + amount)
      × (account'.token_balance t + amount ≡ account.token_balance t)
      × (user'.arrears ≡ 0)
      × (user.arrears ≤ amount)
unfolding deposit_user
deposit_user-conserves t d amount user user' miners miners' account account' hd ha hb hm h =
    elim (Outcome-cases (process_arrears t user miners amount account)) [
      | inl (settled, r) ↦ elim (Outcome-cases (fill_deposit d settled.amount settled.user)) [
        | inl (filled, f) ↦
            let first =
              process_arrears_lem t user miners amount account settled (ground arith) hb r in
            let second =
              fill_deposit_lem d settled.amount settled.user filled (ground arith) (ground arith)
                f in
            ground (arith, revive_lem d filled)
        | inr (inl (e, f)) ↦ ground arith
        | inr (inr f) ↦ ground arith
      ]
      | inr (inl (e, r)) ↦ ground arith
      | inr (inr r) ↦ ground arith
    ]
