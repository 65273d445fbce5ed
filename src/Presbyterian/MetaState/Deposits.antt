-- ===== src/Presbyterian/MetaState/Deposits.antt =====
-- presbyterian/metastate.go: transferSQLChainTokenBalance, a transfer to a chain's user account.
use go_crawling_bazaar.Base.{
  ℕ, ◌+◌, ◌-◌, Option, none, some, List, [], ◌∷◌, ◌++◌, nat_key, ◌==◌, not, leb, ltb, length,
  get_elem?, if◌then◌else◌,
}
use go_crawling_bazaar.Hash.{to_string}
use go_crawling_bazaar.Word.{add64, sub64}
use go_crawling_bazaar.Exec.{Outcome, ok, err, panic, lift, ask, pure, raise, modify, ◌>>=◌, ◌>>◌}
use go_crawling_bazaar.Types.{
  Account, SqlChainProfile, SqlChainUser, MinerInfo, UserArrears, normal, listed, set_balance,
  enable_query,
}
use go_crawling_bazaar.Types.Transactions.{Transfer}
use go_crawling_bazaar.Presbyterian.Env.{
  Env, Error, invalid_sender, database_not_found, wrong_token_type, insufficient_balance,
  insufficient_transfer,
}
use go_crawling_bazaar.Presbyterian.MetaIndex.{safe_add}
use go_crawling_bazaar.Presbyterian.MetaState.{
  MetaState, Action, put_account, put_domain, load_account_object, require_domain,
}
use go_crawling_bazaar.Presbyterian.MetaState.Tokens.{check_sender}
use go_crawling_bazaar.Presbyterian.MetaState.Matching.{min_deposit}

-- miner.UserArrears[i].Arrears; `i` never passes the end.
abbrev arrears_at : List UserArrears → ℕ → ℕ
arrears_at uas i = elim (get_elem? uas i) [ none ↦ 0 | some ua ↦ ua.arrears ]

-- The loop over one miner's arrears. `i` counts the entries of other users, and a hit adds the
-- arrears that stand at place `i`; the list `newUserArrears` is built and dropped.
unfoldable pub settle_rounds : List UserArrears → ℕ → ℕ → List UserArrears → ℕ → ℕ
settle_rounds all user i [] income = income
settle_rounds all user i (ua ∷ uas) income =
    let hit = ua.user == user in
    settle_rounds all user (if hit then i else i + 1) uas
      (if hit then add64 income (arrears_at all i) else income)

unfoldable pub settle_miners : ℕ → List MinerInfo → List MinerInfo
unfolding settle_rounds
settle_miners user [] = []
settle_miners user (m ∷ ms) =
    record m {
      pending_income = settle_rounds m.user_arrears user 0 m.user_arrears m.pending_income;
    }
    ∷ settle_miners user ms

-- What the treatment of the arrears leaves: the user, the miners, the amount and the account.
pub record Settled : Type 0 where
  pub user : SqlChainUser
  pub miners : List MinerInfo
  pub amount : ℕ
  pub account : Account

-- process arrears. The user's arrears are set to 0 before they are subtracted from the amount and
-- from the account's balance.
unfoldable pub process_arrears :
    ℕ → SqlChainUser → List MinerInfo → ℕ → Account → Outcome Error Settled
unfolding settle_miners
process_arrears t user miners amount account =
    if ltb 0 user.arrears
    then (if leb user.arrears amount
        then (let cleared = record user { arrears = 0; status = normal } in
            ok (record {
              user = cleared;
              miners = settle_miners user.address miners;
              amount = sub64 amount cleared.arrears;
              account = record account {
                token_balance =
                    set_balance account.token_balance t
                      (sub64 (account.token_balance t) cleared.arrears);
              };
            }))
        else err insufficient_transfer)
    else ok (record { user = user; miners = miners; amount = amount; account = account })

-- The deposit is filled up first, and the rest is an advance payment.
unfoldable pub fill_deposit : ℕ → ℕ → SqlChainUser → Outcome Error SqlChainUser
fill_deposit min_dep amount user =
    if ltb user.deposit min_dep
    then (let diff = min_dep - user.deposit in
        if leb amount diff
        then ok (record user { deposit = add64 user.deposit amount })
        else ok (record user {
          deposit = min_dep;
          advance_payment = add64 user.advance_payment (amount - diff);
        }))
    else elim (safe_add user.advance_payment amount) [
      | ok a ↦ ok (record user { advance_payment = a })
      | err e ↦ err e
      | panic ↦ panic
    ]

-- A user who may not query may do so again once the advance payment passes the minimal deposit.
unfoldable pub revive : ℕ → SqlChainUser → SqlChainUser
revive min_dep user =
    if not (enable_query user.status)
    then (if ltb min_dep user.advance_payment then record user { status = normal } else user)
    else user

-- account.TokenBalance[t] -= amount
abbrev pub charge : ℕ → ℕ → Account → Account
charge t amount account = record account {
  token_balance = set_balance account.token_balance t (sub64 (account.token_balance t) amount);
}

-- The body of the loop for the sender's entry: the new user, the miners and the account.
unfoldable pub deposit_user :
    ℕ
    → ℕ
    → ℕ
    → SqlChainUser
    → List MinerInfo
    → Account
    → Outcome Error (SqlChainUser × List MinerInfo × Account)
unfolding process_arrears fill_deposit revive
deposit_user t min_dep amount user miners account =
    elim (process_arrears t user miners amount account) [
      | err e ↦ err e
      | panic ↦ panic
      | ok settled ↦ elim (fill_deposit min_dep settled.amount settled.user) [
        | err e ↦ err e
        | panic ↦ panic
        | ok filled ↦
            ok (revive min_dep filled, settled.miners, charge t settled.amount settled.account)
      ]
    ]

-- The first entry of the sender, with the users before and behind it.
unfoldable pub split_user :
    ℕ → List SqlChainUser → Option (List SqlChainUser × SqlChainUser × List SqlChainUser)
split_user addr [] = none
split_user addr (u ∷ us) =
    let rest = split_user addr us in
    if u.address == addr
    then some ([], u, us)
    else elim rest [ none ↦ none | some (before, v, after) ↦ some (u ∷ before, v, after) ]

-- The sender's account, which has the amount. A missing account is a nil pointer.
unfoldable pub funded_account : Transfer → MetaState → Outcome Error Account
funded_account t s = elim (load_account_object s t.sender) [
  | none ↦ panic
  | some account ↦
      if listed t.token_type
      then (if ltb (account.token_balance t.token_type) t.amount
          then err insufficient_balance
          else ok account)
      else panic
]

module _ (env : Env) where
  -- The signature of the transfer.
  unfoldable pub check_signee : Transfer → Outcome Error (Unit {0})
  unfolding check_sender
  check_signee t = elim t.signee [
    | none ↦ err invalid_sender
    | some k ↦ check_sender env (some k) t.sender
  ]

  -- The loop over the users stops at the sender's entry. A sender who is no user changes nothing.
  unfoldable pub deposit_into :
      Transfer
      → SqlChainProfile
      → Account
      → Option (List SqlChainUser × SqlChainUser × List SqlChainUser)
      → Action (Unit {0})
  unfolding deposit_user
  deposit_into t chain account none = pure tt
  deposit_into t chain account (some (before, user, after)) = do
    let min_dep = min_deposit env chain.gas_price (length chain.miners)
    done ← lift (deposit_user t.token_type min_dep t.amount user chain.miners account)
    let chain' = record chain { users = before ++ done.0 ∷ after; miners = done.1 }
    modify (λ s.
        put_account t.sender (some done.2) (put_domain (to_string t.receiver) (some chain') s))

  -- transferSQLChainTokenBalance
  unfoldable pub transfer_sql_chain_token_balance : Transfer → Action (Unit {0})
  unfolding check_signee funded_account deposit_into split_user
  transfer_sql_chain_token_balance t = do
    lift (check_signee t)
    chain ← ask (require_domain database_not_found (to_string t.receiver))
    if chain.token_type == t.token_type
        then (do
          account ← ask (funded_account t)
          deposit_into t chain account (split_user t.sender chain.users))
        else raise wrong_token_type
