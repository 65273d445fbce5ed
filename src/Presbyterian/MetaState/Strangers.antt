-- ===== src/Presbyterian/MetaState/Strangers.antt =====
-- presbyterian/metastate.go: updatePermission for a sender who is no user of the domain.
use go_crawling_bazaar.Base.{
  ℕ, ◌+◌, ◌≡◌, ◌≢◌, refl, false, Option, none, some, List, [], ◌∷◌, ◌++◌, nat_key, ◌==◌, arith,
  if◌then◌else◌,
}
use go_crawling_bazaar.Exec.{ok}
use go_crawling_bazaar.Types.{SqlChainUser}
use go_crawling_bazaar.Types.Permission.{UserPermission, has_super_permission}
use go_crawling_bazaar.Presbyterian.MetaState.Users.{has_user, new_user}
use go_crawling_bazaar.Presbyterian.MetaState.Permissions.{scan_users, set_permission, permit}

-- The place of the last entry of `target` in a list that starts at place `i`.
unfoldable pub last_index : ℕ → ℕ → List SqlChainUser → Option ℕ → Option ℕ
last_index target i [] index = index
last_index target i (u ∷ us) index =
    last_index target (i + 1) us (if target == u.address then some i else index)

scan_users-stranger :
    (sender target i : ℕ) (us : List SqlChainUser) (c : ℕ) (index : Option ℕ)
    → has_user sender us ≡ false
    → (n : ℕ) × (scan_users sender target i us (c, index) ≡ ok (n, last_index target i us index))
unfolding scan_users has_user last_index
scan_users-stranger sender target i [] c index h = (c, refl)
scan_users-stranger sender target i (u ∷ us) c index h =
    let (n, e) =
      scan_users-stranger sender target (i + 1) us
        (if has_super_permission u.permission then c + 1 else c)
        (if target == u.address then some i else index) (ground arith) in
    (n, ground (arith, e))

-- A sender who is no user of the domain passes the check: the permission of any other account is
-- changed as asked, in the last entry of that account that the loop found, or in a new entry.
pub permit-stranger :
    (sender target : ℕ) (p : Option UserPermission) (us : List SqlChainUser)
    → has_user sender us ≡ false
    → target ≢ sender
    → permit sender target p us
      ≡ ok (elim (last_index target 0 us none) [
        | none ↦ us ++ new_user target p ∷ []
        | some i ↦ set_permission i p us
      ])
unfolding permit
permit-stranger sender target p us h d =
    let (n, e) = scan_users-stranger sender target 0 us 0 none h in ground (arith, e)
