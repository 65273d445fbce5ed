-- ===== src/Presbyterian/MetaState/View.antt =====
-- How the accounts that the ledger shows follow from its two maps.
use go_crawling_bazaar.Base.{
  ℕ, ◌≡◌, ◌≢◌, Option, none, some, String, nat_key, string_key, ◌==◌, arith, if◌then◌else◌,
}
use go_crawling_bazaar.GoMap
use go_crawling_bazaar.GoMap.{get-put}
use go_crawling_bazaar.Exec.{ok, err}
use go_crawling_bazaar.Types.{Account, SqlChainProfile, ProviderProfile}
use go_crawling_bazaar.Presbyterian.Env.{account_not_found}
use go_crawling_bazaar.Presbyterian.MetaState.{
  MetaState, put_account, put_domain, put_provider, load_account_object, load_sql_chain_object,
  load_provider_object, load_or_store_account_object, find_or_stored,
}
use go_crawling_bazaar.Presbyterian.MetaState.Tokens.{find_account}

-- No account is pending deletion.
abbrev pub IsLive : MetaState → Type 0
IsLive s = (k : ℕ) → GoMap.get s.dirty.accounts k ≢ some none

pub load-put_account :
    (k j : ℕ) (v : Option Account) (s : MetaState)
    → load_account_object (put_account k v s) j ≡ (if k == j then v else load_account_object s j)
unfolding load_account_object
load-put_account k j v s = ground (arith, get-put s.dirty.accounts k j v)

pub load-put_domain :
    (k j : String) (v : Option SqlChainProfile) (s : MetaState)
    → load_sql_chain_object (put_domain k v s) j ≡ (if k == j then v else load_sql_chain_object s j)
unfolding load_sql_chain_object
load-put_domain k j v s = ground (arith, get-put s.dirty.domains k j v)

pub load-put_provider :
    (k j : ℕ) (v : Option ProviderProfile) (s : MetaState)
    → load_provider_object (put_provider k v s) j ≡ (if k == j then v else load_provider_object s j)
unfolding load_provider_object
load-put_provider k j v s = ground (arith, get-put s.dirty.provider k j v)

-- Without pending deletions the search for an account is the lookup in the view.
pub find_account_lem :
    (k : ℕ) (s : MetaState)
    → IsLive s
    → find_account k s
      ≡ (elim (load_account_object s k) [ none ↦ err account_not_found | some o ↦ ok (some o) ], s)
unfolding find_account load_account_object
find_account_lem k s l = ground (arith, l k)

-- Load-or-store adds the account where there is none.
pub load-load_or_store :
    (k j : ℕ) (v : Account) (s : MetaState)
    → IsLive s
    → load_account_object (load_or_store_account_object k v s).1 j ≡ (
        if k == j
        then (elim (load_account_object s k) [ none ↦ some v | some o ↦ some o ])
        else load_account_object s j)
unfolding load_or_store_account_object load_account_object
load-load_or_store k j v s l = ground (arith, l k, get-put s.dirty.accounts k j (some v))

pub IsLive-put_account :
    (k : ℕ) (o : Account) (s : MetaState) → IsLive s → IsLive (put_account k (some o) s)
IsLive-put_account k o s l j h = ground (arith, l j, get-put s.dirty.accounts k j (some o))

pub IsLive-load_or_store :
    (k : ℕ) (v : Account) (s : MetaState) → IsLive s → IsLive (load_or_store_account_object k v s).1
unfolding load_or_store_account_object
IsLive-load_or_store k v s l j h = ground (arith, l j, l k, get-put s.dirty.accounts k j (some v))

pub load_or_store_found :
    (k : ℕ) (v : Account) (s : MetaState)
    → (load_or_store_account_object k v s).0
      ≡ ok (find_or_stored (GoMap.get s.dirty.accounts k) (GoMap.get s.readonly.accounts k))
unfolding load_or_store_account_object
load_or_store_found k v s = ground arith
