-- ===== src/Presbyterian/MetaIndex.antt =====
-- presbyterian/metaindex.go: the safe arithmetic of balances and the three maps of the ledger.
use go_crawling_bazaar.Base.{ℕ, ◌+◌, ◌-◌, ◌<◌, ◌≡◌, ◌↔◌, arith, Option, String, ltb, if◌then◌else◌}
use go_crawling_bazaar.GoMap.{GoMap}
use go_crawling_bazaar.GoMap
use go_crawling_bazaar.Exec.{Outcome, ok, err}
use go_crawling_bazaar.Word.{u64_mod, add64}
use go_crawling_bazaar.Types.{Account, SqlChainProfile, ProviderProfile}
use go_crawling_bazaar.Presbyterian.Env.{Error, balance_overflow, insufficient_balance}

-- safeAdd(&x, &y), the new value of x.
unfoldable pub safe_add : ℕ → ℕ → Outcome Error ℕ
safe_add x y = if ltb (add64 x y) x then err balance_overflow else ok (add64 x y)

-- safeSub(&x, &y)
unfoldable pub safe_sub : ℕ → ℕ → Outcome Error ℕ
safe_sub x y = if ltb x y then err insufficient_balance else ok (x - y)

-- The committed values.
pub record MetaIndex : Type 0 where
  pub accounts : GoMap ℕ Account
  pub domains : GoMap String SqlChainProfile
  pub provider : GoMap ℕ ProviderProfile

-- The same maps as pending changes: a nil pointer marks a deletion.
pub record DirtyIndex : Type 0 where
  pub accounts : GoMap ℕ (Option Account)
  pub domains : GoMap String (Option SqlChainProfile)
  pub provider : GoMap ℕ (Option ProviderProfile)

-- newMetaIndex
abbrev pub new_meta_index : DirtyIndex
new_meta_index = record { accounts = GoMap.empty; domains = GoMap.empty; provider = GoMap.empty }

abbrev pub new_readonly_index : MetaIndex
new_readonly_index = record {
  accounts = GoMap.empty;
  domains = GoMap.empty;
  provider = GoMap.empty;
}

-- On words, addition succeeds exactly if the sum is one.
pub safe_add-eq-ok :
    (x y z : ℕ) → x < u64_mod → y < u64_mod → (safe_add x y ≡ ok z) ↔ ((z ≡ x + y) × (z < u64_mod))
unfolding safe_add
safe_add-eq-ok x y z hx hy = (λ h. (ground arith, ground arith), λ h. ground arith)

pub safe_sub-eq-ok : (x y z : ℕ) → (safe_sub x y ≡ ok z) ↔ (z + y ≡ x)
unfolding safe_sub
safe_sub-eq-ok x y z = (λ h. ground arith, λ h. ground arith)
