-- ===== src/Presbyterian/MetaState.antt =====
-- presbyterian/metastate.go: the ledger, committed values under pending changes. The operations of
-- the state stand here; the transactions are in the modules below.
pub mod View
pub mod Commit
pub mod Transfers
pub mod Valid
pub mod Tokens
pub mod Users
pub mod Permissions
pub mod Providers
pub mod Matching
pub mod Domains
pub mod Deposits
pub mod Billing
pub mod Apply
pub mod SuperUsers
pub mod Strangers
pub mod Arrears
pub mod Charges
use go_crawling_bazaar.Base.{
  ℕ, Bool, true, false, Option, none, some, List, [], ◌∷◌, String, nat_key, string_key, ◌==◌,
  if◌then◌else◌,
}
use go_crawling_bazaar.GoMap
use go_crawling_bazaar.GoMap.{GoMap}
use go_crawling_bazaar.GoMap.Overlay.{overlay, override}
use go_crawling_bazaar.Word.{add64}
use go_crawling_bazaar.Exec.{Outcome, ok, err, Exec}
use go_crawling_bazaar.Types.{Account, SqlChainProfile, ProviderProfile, MinerInfo, listed}
use go_crawling_bazaar.Presbyterian.Env.{Error, domain_not_exist}
use go_crawling_bazaar.Presbyterian.MetaIndex.{MetaIndex, DirtyIndex, new_meta_index}

pub record MetaState : Type 0 where
  pub dirty : DirtyIndex
  pub readonly : MetaIndex

abbrev pub Action : Type 0 → Type 0
Action = Exec Error MetaState

-- s.dirty.accounts[k] = v, and so on.
abbrev pub put_account : ℕ → Option Account → MetaState → MetaState
put_account k v s = record s {
  dirty = record s.dirty { accounts = GoMap.put s.dirty.accounts k v };
}

abbrev pub put_domain : String → Option SqlChainProfile → MetaState → MetaState
put_domain k v s = record s { dirty = record s.dirty { domains = GoMap.put s.dirty.domains k v } }

abbrev pub put_provider : ℕ → Option ProviderProfile → MetaState → MetaState
put_provider k v s = record s {
  dirty = record s.dirty { provider = GoMap.put s.dirty.provider k v };
}

-- A write through the pointer that the committed map holds.
abbrev pub put_readonly_account : ℕ → Account → MetaState → MetaState
put_readonly_account k v s = record s {
  readonly = record s.readonly { accounts = GoMap.put s.readonly.accounts k v };
}

-- loadAccountObject: the value and `loaded`. A pending deletion hides the committed value.
unfoldable pub load_account_object : MetaState → ℕ → Option Account
load_account_object s k = override (GoMap.get s.dirty.accounts k) (GoMap.get s.readonly.accounts k)

-- loadSQLChainObject
unfoldable pub load_sql_chain_object : MetaState → String → Option SqlChainProfile
load_sql_chain_object s k = override (GoMap.get s.dirty.domains k) (GoMap.get s.readonly.domains k)

-- so, loaded := s.loadSQLChainObject(k); if !loaded { return e }
unfoldable pub require_domain : Error → String → MetaState → Outcome Error SqlChainProfile
require_domain e k s = elim (load_sql_chain_object s k) [ none ↦ err e | some p ↦ ok p ]

-- loadProviderObject
unfoldable pub load_provider_object : MetaState → ℕ → Option ProviderProfile
load_provider_object s k = override (GoMap.get s.dirty.provider k) (GoMap.get s.readonly.provider k)

-- Which object a load-or-store call returns a pointer to, if it was there before.
pub data Loaded (A : Type 0) : Type 0 where
  in_dirty : A → Loaded A
  in_readonly : A → Loaded A
  stored : Loaded A

-- A pending deletion does not hide the committed value here.
unfoldable pub find_or_stored : {A : Type 0} → Option (Option A) → Option A → Loaded A
find_or_stored (some (some o)) r = in_dirty o
find_or_stored (some none) none = stored
find_or_stored (some none) (some o) = in_readonly o
find_or_stored none none = stored
find_or_stored none (some o) = in_readonly o

-- loadOrStoreAccountObject
unfoldable pub load_or_store_account_object : ℕ → Account → Action (Loaded Account)
unfolding find_or_stored
load_or_store_account_object k v s =
    elim (find_or_stored (GoMap.get s.dirty.accounts k) (GoMap.get s.readonly.accounts k)) [
      | stored ↦ (ok stored, put_account k (some v) s)
      | in_dirty o ↦ (ok (in_dirty o), s)
      | in_readonly o ↦ (ok (in_readonly o), s)
    ]

-- loadOrStoreSQLChainObject
unfoldable pub load_or_store_sql_chain_object :
    String → SqlChainProfile → Action (Loaded SqlChainProfile)
unfolding find_or_stored
load_or_store_sql_chain_object k v s =
    elim (find_or_stored (GoMap.get s.dirty.domains k) (GoMap.get s.readonly.domains k)) [
      | stored ↦ (ok stored, put_domain k (some v) s)
      | in_dirty o ↦ (ok (in_dirty o), s)
      | in_readonly o ↦ (ok (in_readonly o), s)
    ]

-- loadOrStoreProviderObject
unfoldable pub load_or_store_provider_object : ℕ → ProviderProfile → Action (Loaded ProviderProfile)
unfolding find_or_stored
load_or_store_provider_object k v s =
    elim (find_or_stored (GoMap.get s.dirty.provider k) (GoMap.get s.readonly.provider k)) [
      | stored ↦ (ok stored, put_provider k (some v) s)
      | in_dirty o ↦ (ok (in_dirty o), s)
      | in_readonly o ↦ (ok (in_readonly o), s)
    ]

-- deleteAccountObject, deleteSQLChainObject, deleteProviderObject
abbrev pub delete_account_object : ℕ → MetaState → MetaState
delete_account_object k = put_account k none

abbrev pub delete_sql_chain_object : String → MetaState → MetaState
delete_sql_chain_object k = put_domain k none

abbrev pub delete_provider_object : ℕ → MetaState → MetaState
delete_provider_object k = put_provider k none

-- commit, its three loops in the given orders of iteration; the pending changes are then dropped.
unfoldable pub commit_in :
    List (ℕ × Option Account)
    → List (String × Option SqlChainProfile)
    → List (ℕ × Option ProviderProfile)
    → MetaState
    → MetaState
commit_in accounts domains providers s = record {
  dirty = new_meta_index;
  readonly = record {
    accounts = overlay accounts s.readonly.accounts;
    domains = overlay domains s.readonly.domains;
    provider = overlay providers s.readonly.provider;
  };
}

-- commit, in the order of `range`.
unfoldable pub commit : MetaState → MetaState
unfolding commit_in
commit s =
    commit_in (GoMap.range s.dirty.accounts) (GoMap.range s.dirty.domains)
      (GoMap.range s.dirty.provider) s

-- clean
abbrev pub clean : MetaState → MetaState
clean s = record s { dirty = new_meta_index }

-- makeCopy: the pending changes are dropped, the committed values copied.
abbrev pub make_copy : MetaState → MetaState
make_copy s = record { dirty = new_meta_index; readonly = s.readonly }

-- loadAccountTokenBalance: the balance, and whether an account was found.
unfoldable pub load_account_token_balance : MetaState → ℕ → ℕ → ℕ × Bool
unfolding find_or_stored
load_account_token_balance s addr t =
    if listed t
    then elim (find_or_stored (GoMap.get s.dirty.accounts addr)
        (GoMap.get s.readonly.accounts addr)) [
          | stored ↦ (0, false)
          | in_dirty o ↦ (o.token_balance t, true)
          | in_readonly o ↦ (o.token_balance t, true)
        ]
    else (0, false)

-- The loop over the miners: the balance of `addr` and the sum, which wraps.
unfoldable pub sum_miner_balances : MetaState → ℕ → ℕ → List MinerInfo → ℕ × ℕ → ℕ × ℕ
sum_miner_balances s addr t [] acc = acc
sum_miner_balances s addr t (m ∷ ms) (balance, total) =
    let (b, found) = load_account_token_balance s m.address t in
    sum_miner_balances s addr t ms (if m.address == addr then b else balance, add64 total b)

-- loadDomainAccountTokenBalanceAndTotal: reads the committed domains only.
unfoldable pub load_domain_account_token_balance_and_total :
    MetaState → String → ℕ → ℕ → Outcome Error (ℕ × ℕ)
load_domain_account_token_balance_and_total s domain_id addr t =
    if listed t
    then elim (GoMap.get s.readonly.domains domain_id) [
      | none ↦ err domain_not_exist
      | some domain ↦ ok (sum_miner_balances s addr t domain.miners (0, 0))
    ]
    else ok (0, 0)
