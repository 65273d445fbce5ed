-- ===== src/Presbyterian/MetaState/Apply.antt =====
-- presbyterian/metastate.go: applyTransaction and apply, and the changes that are written to disk.
use go_crawling_bazaar.Base.{
  ℕ, Option, none, some, List, [], ◌∷◌, ◌++◌, String, map, ◌==◌, nat_key, if◌then◌else◌,
}
use go_crawling_bazaar.GoMap
use go_crawling_bazaar.Exec.{ok, err, panic}
use go_crawling_bazaar.Types.{Account, SqlChainProfile, ProviderProfile, MinerInfo}
use go_crawling_bazaar.Types.Transactions.{
  Transaction, transfer, base_account, provide_service, create_domain, update_permission,
  issue_keys, update_billing, wrapper, other, Transfer,
}
use go_crawling_bazaar.Presbyterian.Env.{Env, is_database_not_found, unknown_transaction_type}
use go_crawling_bazaar.Presbyterian.MetaState.{MetaState, Action}
use go_crawling_bazaar.Presbyterian.MetaState.Tokens.{store_base_account, transfer_account_token}
use go_crawling_bazaar.Presbyterian.MetaState.Permissions
use go_crawling_bazaar.Presbyterian.MetaState.Providers.{update_provider_list}
use go_crawling_bazaar.Presbyterian.MetaState.Domains.{match_providers_with_user}
use go_crawling_bazaar.Presbyterian.MetaState.Deposits.{transfer_sql_chain_token_balance}
use go_crawling_bazaar.Presbyterian.MetaState.Billing

module _ (env : Env) where
  -- The case of a transfer: to a chain, and to an account if there is no such chain.
  unfoldable pub apply_transfer : Transfer → Action (Unit {0})
  apply_transfer t s =
      let (r, s') = transfer_sql_chain_token_balance env t s in
      elim r [
        | ok _ ↦ (ok tt, s')
        | panic ↦ (panic, s')
        | err e ↦ if is_database_not_found e then transfer_account_token env t s' else (err e, s')
      ]

  -- applyTransaction
  unfoldable pub apply_transaction : Transaction → ℕ → Action (Unit {0})
  unfolding apply_transfer
  apply_transaction (transfer t) height s = apply_transfer t s
  apply_transaction (base_account a) height s = store_base_account a.address a s
  apply_transaction (provide_service t) height s = update_provider_list env t height s
  apply_transaction (create_domain t) height s = match_providers_with_user env t s
  apply_transaction (update_permission t) height s = Permissions.update_permission env t s
  apply_transaction (issue_keys t) height s = Permissions.update_keys env t s
  apply_transaction (update_billing t) height s = Billing.update_billing env t s
  apply_transaction (wrapper t) height s = apply_transaction t height s
  apply_transaction other height s = (err unknown_transaction_type, s)

  -- apply: the checks of the nonce are commented out in the source.
  abbrev pub apply : Transaction → ℕ → Action (Unit {0})
  apply t height = apply_transaction t height

-- The procedures of storage.go that compileChanges lists.
pub data StorageProcedure : Type 0 where
  update_account : Account → StorageProcedure
  delete_account : ℕ → StorageProcedure
  update_shard_chain : SqlChainProfile → StorageProcedure
  delete_shard_chain : String → StorageProcedure
  update_provider : ProviderProfile → StorageProcedure
  delete_provider : ℕ → StorageProcedure

unfoldable pub account_change : ℕ × Option Account → StorageProcedure
account_change (k, none) = delete_account k
account_change (k, some v) = update_account v

unfoldable pub domain_change : String × Option SqlChainProfile → StorageProcedure
domain_change (k, none) = delete_shard_chain k
domain_change (k, some v) = update_shard_chain v

unfoldable pub provider_change : ℕ × Option ProviderProfile → StorageProcedure
provider_change (k, none) = delete_provider k
provider_change (k, some v) = update_provider v

-- compileChanges
unfoldable pub compile_changes : MetaState → List StorageProcedure → List StorageProcedure
unfolding account_change domain_change provider_change
compile_changes s dst =
    ((dst ++ map account_change (GoMap.range s.dirty.accounts))
      ++ map domain_change (GoMap.range s.dirty.domains))
    ++ map provider_change (GoMap.range s.dirty.provider)

-- The copies of one domain that loadROSQLChains returns, one for each entry of the miner.
unfoldable pub served : ℕ → SqlChainProfile → List MinerInfo → List SqlChainProfile
served addr db [] = []
served addr db (m ∷ ms) =
    let rest = served addr db ms in if m.address == addr then db ∷ rest else rest

unfoldable pub served_in : ℕ → List (String × SqlChainProfile) → List SqlChainProfile
served_in addr [] = []
served_in addr (kv ∷ kvs) = served addr kv.1 kv.1.miners ++ served_in addr kvs

-- loadROSQLChains: the committed domains that the miner serves.
unfoldable pub load_ro_sql_chains : ℕ → MetaState → List SqlChainProfile
load_ro_sql_chains addr s = served_in addr (GoMap.range s.readonly.domains)
