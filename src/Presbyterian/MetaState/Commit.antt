-- ===== src/Presbyterian/MetaState/Commit.antt =====
-- commit against the view of the ledger, in which a pending change stands over a committed value.
use go_crawling_bazaar.Base.{ℕ, ◌≡◌, Option, List, String, nat_key, string_key}
use go_crawling_bazaar.GoMap.{Enumerates, get-empty}
use go_crawling_bazaar.GoMap.Overlay.{get-overlay}
use go_crawling_bazaar.Types.{Account, SqlChainProfile, ProviderProfile}
use go_crawling_bazaar.Presbyterian.MetaState.{
  MetaState, commit_in, load_account_object, load_sql_chain_object, load_provider_object,
}

-- Two states show the same accounts, domains and providers.
pub record SameView (s t : MetaState) : Type 0 where
  pub accounts : (k : ℕ) → load_account_object s k ≡ load_account_object t k
  pub domains : (k : String) → load_sql_chain_object s k ≡ load_sql_chain_object t k
  pub providers : (k : ℕ) → load_provider_object s k ≡ load_provider_object t k

-- In whatever order the three loops of commit run through the pending changes, the committed ledger
-- shows what the pending one showed: every account, domain and provider is loaded as before.
pub commit-SameView :
    (as_ : List (ℕ × Option Account)) (ds : List (String × Option SqlChainProfile))
    (ps : List (ℕ × Option ProviderProfile)) (s : MetaState)
    → Enumerates as_ s.dirty.accounts
    → Enumerates ds s.dirty.domains
    → Enumerates ps s.dirty.provider
    → SameView (commit_in as_ ds ps s) s
unfolding commit_in load_account_object load_sql_chain_object load_provider_object
commit-SameView as_ ds ps s ea ed ep = record {
  accounts = λ k. rw get-empty (get-overlay as_ s.dirty.accounts s.readonly.accounts k ea);
  domains = λ k. rw get-empty (get-overlay ds s.dirty.domains s.readonly.domains k ed);
  providers = λ k. rw get-empty (get-overlay ps s.dirty.provider s.readonly.provider k ep);
}
