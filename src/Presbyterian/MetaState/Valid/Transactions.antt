-- ===== src/Presbyterian/MetaState/Valid/Transactions.antt =====
-- Every transaction keeps the ledger valid.
use go_crawling_bazaar.Base.{
  ℕ, none, some, List, String, nat_key, string_key, arith, if◌then◌else◌, inl, inr, Option-cases,
  Bool-cases, leb,
}
use go_crawling_bazaar.Hash.{to_string}
use go_crawling_bazaar.Exec.{Outcome-cases, pure, ask, modify}
use go_crawling_bazaar.Exec.Triple.{
  Triple, Triple-pure, Triple-raise, Triple-if, Triple-modify, Triple-bind, Triple-bind-lift,
  Triple-ask, Triple-gets,
}
use go_crawling_bazaar.Types.{SqlChainProfile, empty_account, particle, MinerInfo}
use go_crawling_bazaar.Types.Transactions.{
  Transfer, ProvideService, CreateDomain, UpdatePermission, IssueKeys, UpdateBilling, Transaction,
  transfer, base_account, provide_service, create_domain, update_permission, issue_keys,
  update_billing, wrapper, other,
}
use go_crawling_bazaar.Presbyterian.Env.{encoding_failed, Env, pub_key_hash, is_database_not_found}
use go_crawling_bazaar.Presbyterian.MetaIndex.{safe_add}
use go_crawling_bazaar.Presbyterian.MetaState.{MetaState, load_provider_object, put_domain}
use go_crawling_bazaar.Presbyterian.MetaState.Permissions
use go_crawling_bazaar.Presbyterian.MetaState.Permissions.{permit, keyed_copy}
use go_crawling_bazaar.Presbyterian.MetaState.Billing.{billed, check_billing}
use go_crawling_bazaar.Presbyterian.MetaState.Billing
use go_crawling_bazaar.Presbyterian.MetaState.Providers.{
  refund, update_provider_list, wrap_outcome, height_fix_provide_service,
}
use go_crawling_bazaar.Presbyterian.MetaState.Matching.{
  check_create_domain, Choice, chosen, stopped,
}
use go_crawling_bazaar.Presbyterian.MetaState.Domains.{
  domain_address, or_error, store_domain, refuse_existing, found_domain, match_with_choice,
  match_providers_with_user,
}
use go_crawling_bazaar.Presbyterian.MetaState.Deposits.{transfer_sql_chain_token_balance}
use go_crawling_bazaar.Presbyterian.MetaState.Valid.Deposits.{
  always, require_domain-Triple, transfer_sql_chain_token_balance-Triple,
}
use go_crawling_bazaar.Presbyterian.MetaState.Apply.{apply_transfer, apply_transaction}
use go_crawling_bazaar.Presbyterian.MetaState.Valid.{
  IsWords, IsValid, put_account-IsValid, put_domain-IsValid, put_provider-IsValid,
  take_providers-IsValid,
}
use go_crawling_bazaar.Presbyterian.MetaState.Valid.Actions.{
  IsAlways, increase_account_token-Triple, decrease_account_token-Triple, store_base_account-Triple,
}
use go_crawling_bazaar.Presbyterian.MetaState.Valid.Transfers.{transfer_account_token-Triple}

refund-Triple : (sender height : ℕ) → Triple IsValid (refund sender height) IsAlways
unfolding refund
refund-Triple sender height = record {
  at = λ s v. elim (Bool-cases (leb height_fix_provide_service height)) [
    | inr b ↦ rw (b, refund) (v, tt)
    | inl b ↦
        rw (b, refund)
          (elim (Option-cases (load_provider_object s sender)) [
            | inl n ↦ rw n (v, tt)
            | inr (po, e) ↦ rw e (
                (Triple-bind _ _ (increase_account_token-Triple sender po.deposit particle)
                    λ _ _. Triple-modify _ (λ r w. put_provider-IsValid sender none r w)).at
                  s v)
          ])
  ];
}

update_provider_list-Triple :
    (env : Env) (tx : ProvideService) (height : ℕ)
    → Triple IsValid (update_provider_list env tx height) IsAlways
unfolding update_provider_list
update_provider_list-Triple env tx height =
    Triple-bind-lift (wrap_outcome (pub_key_hash env tx.signee)) _ λ sender _.
      Triple-bind _ _ (refund-Triple sender height) λ _ _.
        Triple-bind _ _ (decrease_account_token-Triple sender _ particle)
          λ _ _. Triple-modify _ λ s v. put_provider-IsValid sender _ s v

update_permission-Triple :
    (env : Env) (tx : UpdatePermission)
    → Triple IsValid (Permissions.update_permission env tx) IsAlways
unfolding Permissions.update_permission
update_permission-Triple env tx = Triple-bind-lift (pub_key_hash env tx.signee) _ λ sender _.
    Triple-bind _ _ (require_domain-Triple _ _) λ so _.
      Triple-bind-lift (permit sender tx.target_user tx.permission so.users) _
        λ users _. Triple-modify _ λ s v. put_domain-IsValid _ _ s v

update_keys-Triple :
    (env : Env) (tx : IssueKeys) → Triple IsValid (Permissions.update_keys env tx) IsAlways
unfolding Permissions.update_keys
update_keys-Triple env tx =
    Triple-bind _ _ (require_domain-Triple _ _)
      λ so _. Triple-bind-lift (keyed_copy env tx so) (λ _. pure tt) λ _ _. Triple-pure tt tt

update_billing-Triple :
    (env : Env) (tx : UpdateBilling) → Triple IsValid (Billing.update_billing env tx) IsAlways
unfolding Billing.update_billing
update_billing-Triple env tx = Triple-bind _ _ (require_domain-Triple _ _) λ p _.
    Triple-bind-lift (check_billing env tx p)
      (λ charged.
        if charged
        then modify (put_domain (to_string tx.receiver) (some (billed env tx p)))
        else pure tt)
      λ charged _.
        Triple-if charged _ (pure tt) (λ _. Triple-modify _ λ s v. put_domain-IsValid _ _ s v)
          (λ _. Triple-pure tt tt)

store_domain-IsValid :
    (addr : ℕ) (sp : SqlChainProfile) (s : MetaState) → IsValid s → IsValid (store_domain addr sp s)
unfolding store_domain
store_domain-IsValid addr sp s v = take_providers-IsValid sp.miners _ (
    put_domain-IsValid sp.id (some sp) _
      (put_account-IsValid addr (empty_account addr) s (λ t. omega arith) v))

refuse_existing-Triple : (id : String) → Triple IsValid (ask (refuse_existing id)) IsAlways
refuse_existing-Triple id = Triple-ask _ λ s v. always (refuse_existing id s)

found_domain-Triple :
    (env : Env) (tx : CreateDomain) (sender deposit : ℕ) (ms : List MinerInfo)
    → Triple IsValid (found_domain env tx sender deposit ms) IsAlways
unfolding found_domain
found_domain-Triple env tx sender deposit ms =
    Triple-bind-lift (domain_address env tx.resource_meta.domain) _ λ addr _.
      Triple-bind-lift (safe_add deposit tx.advance_payment) _ λ all _.
        Triple-bind _ _ (decrease_account_token-Triple sender all tx.token_type) λ _ _.
          Triple-bind-lift (or_error (env.genesis_bytes tx.timestamp) encoding_failed) _
            λ genesis _.
              Triple-bind _ _ (refuse_existing-Triple tx.resource_meta.domain)
                λ _ _. Triple-modify _ λ s v. store_domain-IsValid addr _ s v

match_with_choice-Triple :
    (env : Env) (tx : CreateDomain) (sender deposit : ℕ) (c : Choice)
    → Triple IsValid (match_with_choice env tx sender deposit c) IsAlways
unfolding match_with_choice
match_with_choice-Triple env tx sender deposit (stopped none) = Triple-pure tt tt
match_with_choice-Triple env tx sender deposit (stopped (some e)) = Triple-raise e
match_with_choice-Triple env tx sender deposit (chosen ms) =
    found_domain-Triple env tx sender deposit ms

match_providers_with_user-Triple :
    (env : Env) (tx : CreateDomain) → Triple IsValid (match_providers_with_user env tx) IsAlways
unfolding match_providers_with_user
match_providers_with_user-Triple env tx =
    Triple-bind-lift (check_create_domain env tx) _ λ checked _.
      Triple-bind _ _ (Triple-gets {Q = λ _. Unit} _ λ s v. tt)
        λ choice _. match_with_choice-Triple env tx checked.0 checked.2 choice

apply_transfer-Triple : (env : Env) (t : Transfer) → Triple IsValid (apply_transfer env t) IsAlways
unfolding apply_transfer
apply_transfer-Triple env t = record {
  at = λ s v.
      let kept = (transfer_sql_chain_token_balance-Triple env t).at s v in
      elim (Outcome-cases (transfer_sql_chain_token_balance env t s).0) [
        | inl (u, e) ↦ rw (e, apply_transfer) (kept.0, tt)
        | inr (inr e) ↦ rw (e, apply_transfer) (kept.0, tt)
        | inr (inl (x, e)) ↦
            rw (e, apply_transfer)
              (elim (Bool-cases (is_database_not_found x)) [
                | inr b ↦ rw b (kept.0, tt)
                | inl b ↦ rw b (
                    (transfer_account_token-Triple env t).at
                      (transfer_sql_chain_token_balance env t s).1 kept.0)
              ])
      ];
}

-- A new base account brings balances that are words.
abbrev pub IsWordsTx : Transaction → Type 0
IsWordsTx (base_account a) = IsWords a
IsWordsTx (wrapper t) = IsWordsTx t
IsWordsTx _ = Unit

apply_transaction-Triple :
    (env : Env) (t : Transaction) (height : ℕ)
    → IsWordsTx t
    → Triple IsValid (apply_transaction env t height) IsAlways
unfolding apply_transaction
apply_transaction-Triple env (transfer t) height w = record {
  at = λ s v. (apply_transfer-Triple env t).at s v;
}
apply_transaction-Triple env (base_account a) height w = record {
  at = λ s v. (store_base_account-Triple a.address a w).at s v;
}
apply_transaction-Triple env (provide_service t) height w = record {
  at = λ s v. (update_provider_list-Triple env t height).at s v;
}
apply_transaction-Triple env (create_domain t) height w = record {
  at = λ s v. (match_providers_with_user-Triple env t).at s v;
}
apply_transaction-Triple env (update_permission t) height w = record {
  at = λ s v. (update_permission-Triple env t).at s v;
}
apply_transaction-Triple env (issue_keys t) height w = record {
  at = λ s v. (update_keys-Triple env t).at s v;
}
apply_transaction-Triple env (update_billing t) height w = record {
  at = λ s v. (update_billing-Triple env t).at s v;
}
apply_transaction-Triple env (wrapper t) height w = record {
  at = λ s v. (apply_transaction-Triple env t height w).at s v;
}
apply_transaction-Triple env other height w = record { at = λ s v. (v, tt) }

-- From a valid ledger, whatever the transaction and the height, and whether it succeeds, fails or
-- panics, the ledger that it leaves is valid: each of the six maps has one entry a key, no account
-- is pending deletion, and every pending and committed balance is below 2 ^ 64. The balances that a
-- base-account transaction brings have to be such words.
pub apply_transaction-IsValid :
    (env : Env) (t : Transaction) (height : ℕ) (s : MetaState)
    → IsWordsTx t
    → IsValid s
    → IsValid (apply_transaction env t height s).1
apply_transaction-IsValid env t height s w v = ((apply_transaction-Triple env t height w).at s v).0
