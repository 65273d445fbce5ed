-- ===== src/Presbyterian/MetaState/Valid.antt =====
-- The well-formedness of the ledger: its maps have one entry a key, no account is pending deletion,
-- and every balance is a 64-bit word. Each write of the transactions keeps it.
pub mod Actions
pub mod Transfers
pub mod Deposits
pub mod Transactions
pub mod Histories
use go_crawling_bazaar.Base.{
  ℕ, ◌<◌, ◌≡◌, ◌≢◌, Option, none, some, String, nat_key, string_key, arith, List, [], ◌∷◌,
}
use go_crawling_bazaar.GoMap
use go_crawling_bazaar.GoMap.{IsMap, get-put, put-IsMap, empty-IsMap}
use go_crawling_bazaar.GoMap.Overlay.{override}
use go_crawling_bazaar.Word.{u64_mod}
use go_crawling_bazaar.Types.{Account, SqlChainProfile, ProviderProfile, MinerInfo}
use go_crawling_bazaar.Presbyterian.MetaIndex.{new_meta_index, new_readonly_index}
use go_crawling_bazaar.Presbyterian.MetaState.{
  MetaState, put_account, put_readonly_account, put_domain, put_provider, load_account_object,
}
use go_crawling_bazaar.Presbyterian.MetaState.View.{IsLive, IsLive-put_account}
use go_crawling_bazaar.Presbyterian.MetaState.Matching.{take_providers}

-- Every balance of the account is a 64-bit word.
abbrev pub IsWords : Account → Type 0
IsWords o = (t : ℕ) → o.token_balance t < u64_mod

pub record IsValid (s : MetaState) : Type 0 where
  pub dirty_accounts : IsMap s.dirty.accounts
  pub dirty_domains : IsMap s.dirty.domains
  pub dirty_provider : IsMap s.dirty.provider
  pub accounts : IsMap s.readonly.accounts
  pub domains : IsMap s.readonly.domains
  pub provider : IsMap s.readonly.provider
  pub live : IsLive s
  pub dirty_words : (k : ℕ) (o : Account) → GoMap.get s.dirty.accounts k ≡ some (some o) → IsWords o
  pub words : (k : ℕ) (o : Account) → GoMap.get s.readonly.accounts k ≡ some o → IsWords o

pub put_account-IsValid :
    (k : ℕ) (o : Account) (s : MetaState)
    → IsWords o
    → IsValid s
    → IsValid (put_account k (some o) s)
put_account-IsValid k o s w v = record {
  dirty_accounts = put-IsMap s.dirty.accounts k (some o) v.dirty_accounts;
  dirty_domains = v.dirty_domains;
  dirty_provider = v.dirty_provider;
  accounts = v.accounts;
  domains = v.domains;
  provider = v.provider;
  live = IsLive-put_account k o s v.live;
  dirty_words = λ j p h t. ground (
    arith,
    get-put s.dirty.accounts k j (some o),
    w t,
    v.dirty_words j p,
    λ (e : GoMap.get s.dirty.accounts j ≡ some (some p)). v.dirty_words j p e t,
  );
  words = v.words;
}

pub put_readonly_account-IsValid :
    (k : ℕ) (o : Account) (s : MetaState)
    → IsWords o
    → IsValid s
    → IsValid (put_readonly_account k o s)
put_readonly_account-IsValid k o s w v = record {
  dirty_accounts = v.dirty_accounts;
  dirty_domains = v.dirty_domains;
  dirty_provider = v.dirty_provider;
  accounts = put-IsMap s.readonly.accounts k o v.accounts;
  domains = v.domains;
  provider = v.provider;
  live = v.live;
  dirty_words = v.dirty_words;
  words = λ j p h t. ground (
    arith,
    get-put s.readonly.accounts k j o,
    w t,
    λ (e : GoMap.get s.readonly.accounts j ≡ some p). v.words j p e t,
  );
}

pub put_domain-IsValid :
    (k : String) (p : Option SqlChainProfile) (s : MetaState)
    → IsValid s
    → IsValid (put_domain k p s)
put_domain-IsValid k p s v = record {
  dirty_accounts = v.dirty_accounts;
  dirty_domains = put-IsMap s.dirty.domains k p v.dirty_domains;
  dirty_provider = v.dirty_provider;
  accounts = v.accounts;
  domains = v.domains;
  provider = v.provider;
  live = v.live;
  dirty_words = v.dirty_words;
  words = v.words;
}

pub put_provider-IsValid :
    (k : ℕ) (p : Option ProviderProfile) (s : MetaState) → IsValid s → IsValid (put_provider k p s)
put_provider-IsValid k p s v = record {
  dirty_accounts = v.dirty_accounts;
  dirty_domains = v.dirty_domains;
  dirty_provider = put-IsMap s.dirty.provider k p v.dirty_provider;
  accounts = v.accounts;
  domains = v.domains;
  provider = v.provider;
  live = v.live;
  dirty_words = v.dirty_words;
  words = v.words;
}

pub take_providers-IsValid :
    (ms : List MinerInfo) (s : MetaState) → IsValid s → IsValid (take_providers ms s)
unfolding take_providers
take_providers-IsValid [] s v = v
take_providers-IsValid (m ∷ ms) s v =
    take_providers-IsValid ms (put_provider m.address none s)
      (put_provider-IsValid m.address none s v)

-- What the ledger shows is valid where its maps are.
pub load-IsWords :
    (k : ℕ) (o : Account) (s : MetaState) → IsValid s → load_account_object s k ≡ some o → IsWords o
unfolding load_account_object
load-IsWords k o s v h t = ground (
  arith,
  λ (e : GoMap.get s.dirty.accounts k ≡ some (some o)). v.dirty_words k o e t,
  λ (e : GoMap.get s.readonly.accounts k ≡ some o). v.words k o e t,
)
