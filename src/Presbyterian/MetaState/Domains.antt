-- ===== src/Presbyterian/MetaState/Domains.antt =====
-- presbyterian/metastate.go: matchProvidersWithUser, which creates a domain with its chain.
use go_crawling_bazaar.Base.{ℕ, Option, none, some, List, [], ◌∷◌, String}
use go_crawling_bazaar.Hash.{to_string, decode}
use go_crawling_bazaar.Exec.{Outcome, ok, err, lift, ask, gets, modify, ◌>>=◌, ◌>>◌}
use go_crawling_bazaar.Types.{
  SqlChainProfile, SqlChainUser, MinerInfo, normal, empty_account, particle,
}
use go_crawling_bazaar.Types.Permission.{user_permission_from_role, admin_role}
use go_crawling_bazaar.Types.Transactions.{CreateDomain}
use go_crawling_bazaar.Presbyterian.Env.{
  Env, Error, wrapped, invalid_hash_text, encoding_failed, database_exists,
}
use go_crawling_bazaar.Presbyterian.MetaIndex.{safe_add}
use go_crawling_bazaar.Presbyterian.MetaState.{
  MetaState, Action, put_account, put_domain, load_sql_chain_object,
}
use go_crawling_bazaar.Presbyterian.MetaState.Tokens.{decrease_account_token}
use go_crawling_bazaar.Presbyterian.MetaState.Matching.{
  Choice, chosen, stopped, choose_miners, check_create_domain, take_providers, return_error,
  sqlchain_period,
}

-- users[0], the owner.
abbrev pub owner_user : ℕ → ℕ → ℕ → SqlChainUser
owner_user sender deposit advance = record {
  address = sender;
  permission = some (user_permission_from_role admin_role);
  advance_payment = advance;
  arrears = 0;
  deposit = deposit;
  status = normal;
}

-- The profile `sp`.
abbrev pub domain_profile : CreateDomain → ℕ → ℕ → ℕ → List MinerInfo → List ℕ → SqlChainProfile
domain_profile tx sender deposit addr miners genesis = record {
  id = tx.resource_meta.domain;
  address = addr;
  period = sqlchain_period;
  gas_price = tx.gas_price;
  last_updated_height = 0;
  token_type = particle;
  owner = sender;
  miners = miners;
  users = owner_user sender deposit tx.advance_payment ∷ [];
  encoded_genesis = genesis;
  meta = tx.resource_meta;
}

-- The writes at the end.
unfoldable pub store_domain : ℕ → SqlChainProfile → MetaState → MetaState
store_domain addr sp s =
    take_providers sp.miners
      (put_domain sp.id (some sp) (put_account addr (some (empty_account addr)) s))

-- _, loaded := s.loadSQLChainObject(id); loaded
unfoldable pub refuse_existing : String → MetaState → Outcome Error (Unit {0})
refuse_existing id s = elim (load_sql_chain_object s id) [
  | some p ↦ err (wrapped database_exists)
  | none ↦ ok tt
]

abbrev pub or_error : {A : Type 0} → Option A → Error → Outcome Error A
or_error none e = err e
or_error (some a) e = ok a

module _ (env : Env) where
  -- The address of a domain: the hash of its name, through its text and back.
  unfoldable pub domain_address : String → Outcome Error ℕ
  domain_address name = or_error (decode (to_string (env.thash name))) (wrapped invalid_hash_text)

  -- From the choice of the miners on: the sender pays, and then the domain is stored.
  unfoldable pub found_domain : CreateDomain → ℕ → ℕ → List MinerInfo → Action (Unit {0})
  unfolding domain_address refuse_existing store_domain
  found_domain tx sender deposit miners = do
    addr ← lift (domain_address tx.resource_meta.domain)
    all ← lift (safe_add deposit tx.advance_payment)
    decrease_account_token sender all tx.token_type
    genesis ← lift (or_error (env.genesis_bytes tx.timestamp) encoding_failed)
    ask (refuse_existing tx.resource_meta.domain)
    modify (store_domain addr (domain_profile tx sender deposit addr miners genesis))

  unfoldable pub match_with_choice : CreateDomain → ℕ → ℕ → Choice → Action (Unit {0})
  unfolding found_domain
  match_with_choice tx sender deposit (stopped e) = return_error e
  match_with_choice tx sender deposit (chosen miners) = found_domain tx sender deposit miners

  -- matchProvidersWithUser
  unfoldable pub match_providers_with_user : CreateDomain → Action (Unit {0})
  unfolding match_with_choice
  match_providers_with_user tx = do
    checked ← lift (check_create_domain env tx)
    choice ← gets (λ s. choose_miners env s tx checked.0 checked.1)
    match_with_choice tx checked.0 checked.2 choice
