-- ===== src/Presbyterian/MetaState/Valid/Deposits.antt =====
-- A transfer to a chain keeps the ledger valid.
use go_crawling_bazaar.Base.{
  ℕ, Option, none, some, List, String, nat_key, string_key, ◌==◌, arith, inl, inr, Option-cases,
  Bool-cases, leb, ltb, length,
}
use go_crawling_bazaar.Exec.{Outcome, ok, err, panic, Outcome-cases, lift, ask}
use go_crawling_bazaar.Exec.Triple.{
  Triple, Post, Triple-pure, Triple-raise, Triple-lift, Triple-if, Triple-modify, Triple-bind,
  Triple-bind-lift, Triple-ask,
}
use go_crawling_bazaar.Types.{SqlChainProfile, SqlChainUser, Account, listed, MinerInfo}
use go_crawling_bazaar.Types.Transactions.{Transfer}
use go_crawling_bazaar.Presbyterian.Env.{wrong_token_type, Env, Error}
use go_crawling_bazaar.Presbyterian.MetaState.{MetaState, load_account_object, require_domain}
use go_crawling_bazaar.Presbyterian.MetaState.Matching.{min_deposit}
use go_crawling_bazaar.Presbyterian.MetaState.Deposits.{
  process_arrears, charge, deposit_user, fill_deposit, deposit_into, check_signee, funded_account,
  transfer_sql_chain_token_balance, split_user,
}
use go_crawling_bazaar.Presbyterian.MetaState.Valid.{
  IsWords, IsValid, put_account-IsValid, put_domain-IsValid, load-IsWords,
}
use go_crawling_bazaar.Presbyterian.MetaState.Valid.Actions.{IsAlways, set_balance-IsWords}

pub always : {A : Type 0} (r : Outcome Error A) → Post {A = A} (λ _. Unit) r
always (ok a) = tt
always (err e) = tt
always panic = tt

pub require_domain-Triple :
    (e : Error) (k : String) → Triple IsValid (ask (require_domain e k)) (λ _. Unit)
require_domain-Triple e k = Triple-ask _ λ s v. always (require_domain e k s)

process_arrears-IsWords :
    (t : ℕ) (u : SqlChainUser) (ms : List MinerInfo) (amount : ℕ) (a : Account)
    → IsWords a
    → Post (λ r. IsWords r.account) (process_arrears t u ms amount a)
unfolding process_arrears
process_arrears-IsWords t u ms amount a w = elim (Bool-cases (ltb 0 u.arrears)) [
  | inr b ↦ rw b w
  | inl b ↦ rw b (elim (Bool-cases (leb u.arrears amount)) [
    | inr c ↦ rw c tt
    | inl c ↦ rw c (set_balance-IsWords a t _ w (omega arith))
  ])
]

charge-IsWords : (t amount : ℕ) (a : Account) → IsWords a → IsWords (charge t amount a)
charge-IsWords t amount a w = set_balance-IsWords a t _ w (omega arith)

deposit_user-IsWords :
    (t min_dep amount : ℕ) (u : SqlChainUser) (ms : List MinerInfo) (a : Account)
    → IsWords a
    → Post (λ r. IsWords r.2) (deposit_user t min_dep amount u ms a)
unfolding deposit_user
deposit_user-IsWords t min_dep amount u ms a w =
    elim (Outcome-cases (process_arrears t u ms amount a)) [
      | inr (inl (x, e)) ↦ rw (e, deposit_user) tt
      | inr (inr e) ↦ rw (e, deposit_user) tt
      | inl (r, e) ↦
          rw (e, deposit_user)
            (elim (Outcome-cases (fill_deposit min_dep r.amount r.user)) [
              | inr (inl (x, f)) ↦ rw f tt
              | inr (inr f) ↦ rw f tt
              | inl (filled, f) ↦ rw f (
                  charge-IsWords t r.amount r.account
                    (rw e at (process_arrears-IsWords t u ms amount a w)))
            ])
    ]

deposit_into-Triple :
    (env : Env) (t : Transfer) (chain : SqlChainProfile) (a : Account)
    (place : Option (List SqlChainUser × SqlChainUser × List SqlChainUser))
    → IsWords a
    → Triple IsValid (deposit_into env t chain a place) IsAlways
unfolding deposit_into
deposit_into-Triple env t chain a none w = Triple-pure tt tt
deposit_into-Triple env t chain a (some (before, user, after)) w =
    Triple-bind {A = SqlChainUser × List MinerInfo × Account} {Q = λ d. IsWords d.2}
      (lift (
        deposit_user t.token_type (min_deposit env chain.gas_price (length chain.miners)) t.amount
          user chain.miners a))
      _ (Triple-lift _ (deposit_user-IsWords t.token_type _ t.amount user chain.miners a w))
      λ done q.
        Triple-modify _ λ s v. put_account-IsValid t.sender done.2 _ q (put_domain-IsValid _ _ s v)

funded_account-IsWords :
    (t : Transfer) (s : MetaState) → IsValid s → Post IsWords (funded_account t s)
unfolding funded_account
funded_account-IsWords t s v = elim (Option-cases (load_account_object s t.sender)) [
  | inl n ↦ rw (n, funded_account) tt
  | inr (a, e) ↦
      rw (e, funded_account)
        (elim (Bool-cases (listed t.token_type)) [
          | inr l ↦ rw l tt
          | inl l ↦ rw l (elim (Bool-cases (ltb (a.token_balance t.token_type) t.amount)) [
            | inl b ↦ rw b tt
            | inr b ↦ rw b (load-IsWords t.sender a s v e)
          ])
        ])
]

pub transfer_sql_chain_token_balance-Triple :
    (env : Env) (t : Transfer) → Triple IsValid (transfer_sql_chain_token_balance env t) IsAlways
unfolding transfer_sql_chain_token_balance
transfer_sql_chain_token_balance-Triple env t = Triple-bind-lift (check_signee env t) _ λ _ _.
    Triple-bind _ _ (require_domain-Triple _ _) λ chain _.
      Triple-if (chain.token_type == t.token_type) _ _
        (λ _.
          Triple-bind (ask (funded_account t))
            (λ a. deposit_into env t chain a (split_user t.sender chain.users))
            (Triple-ask _ λ s v. funded_account-IsWords t s v)
            λ a w. deposit_into-Triple env t chain a (split_user t.sender chain.users) w)
        (λ _. Triple-raise wrong_token_type)
