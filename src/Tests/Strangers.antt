-- ===== src/Tests/Strangers.antt =====
-- A stranger who takes the administrator's permission away.
use go_crawling_bazaar.Base.{ℕ, ◌≡◌, ◌≢◌, refl, false, none, [], ◌∷◌, arith, nat_key}
use go_crawling_bazaar.Exec.{ok}
use go_crawling_bazaar.Presbyterian.MetaState.Users.{has_user}
use go_crawling_bazaar.Presbyterian.MetaState.Permissions.{permit, set_permission}
use go_crawling_bazaar.Presbyterian.MetaState.Strangers.{last_index, permit-stranger}
use go_crawling_bazaar.Tests.Sample.{admin}

not_listed : has_user 8 (admin ∷ []) ≡ false
unfolding has_user
not_listed = refl

other_address : ◌≢◌ {A = ℕ} 1 8
other_address e = ground arith

permit-stranger_example :
    permit 8 1 none (admin ∷ []) ≡ ok (record admin { permission = none } ∷ [])
unfolding last_index set_permission
permit-stranger_example = permit-stranger 8 1 none (admin ∷ []) not_listed other_address
