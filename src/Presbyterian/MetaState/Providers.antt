-- ===== src/Presbyterian/MetaState/Providers.antt =====
-- presbyterian/metastate.go: the providers that offer their service.
use go_crawling_bazaar.Base.{ℕ, none, some, nat_key, leb, if◌then◌else◌}
use go_crawling_bazaar.Exec.{Outcome, ok, err, panic, lift, modify, ◌>>=◌, ◌>>◌}
use go_crawling_bazaar.Types.{ProviderProfile, particle}
use go_crawling_bazaar.Types.Transactions.{ProvideService}
use go_crawling_bazaar.Presbyterian.Env.{Env, Error, pub_key_hash, wrapped}
use go_crawling_bazaar.Presbyterian.MetaState.{
  Action, put_provider, delete_provider_object, load_provider_object,
}
use go_crawling_bazaar.Presbyterian.MetaState.Tokens.{
  increase_account_stable_balance, decrease_account_stable_balance,
}

-- PBHeightCIPFixProvideService
abbrev pub height_fix_provide_service : ℕ
height_fix_provide_service = 675550

-- The refund of the previous deposit.
unfoldable pub refund : ℕ → ℕ → Action (Unit {0})
refund sender height s =
    if leb height_fix_provide_service height
    then elim (load_provider_object s sender) [
      | none ↦ (ok tt, s)
      | some po ↦
          (do
            increase_account_stable_balance sender po.deposit
            modify (delete_provider_object sender))
            s
    ]
    else (ok tt, s)

abbrev pub wrap_outcome : Outcome Error ℕ → Outcome Error ℕ
wrap_outcome (ok a) = ok a
wrap_outcome (err e) = err (wrapped e)
wrap_outcome panic = panic

module _ (env : Env) where
  -- The new provider of updateProviderList; its token type is left at the zero value.
  abbrev pub provider_of : ℕ → ProvideService → ProviderProfile
  provider_of sender tx = record {
    provider = sender;
    space = tx.space;
    memory = tx.memory;
    load_avg_per_cpu = tx.load_avg_per_cpu;
    target_user = tx.target_user;
    deposit = env.config.min_provider_deposit;
    gas_price = tx.gas_price;
    token_type = particle;
    node_id = tx.node_id;
  }

  -- updateProviderList
  unfoldable pub update_provider_list : ProvideService → ℕ → Action (Unit {0})
  unfolding refund
  update_provider_list tx height = do
    sender ← lift (wrap_outcome (pub_key_hash env tx.signee))
    refund sender height
    decrease_account_stable_balance sender env.config.min_provider_deposit
    modify (put_provider sender (some (provider_of sender tx)))
