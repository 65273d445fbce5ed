-- ===== src/Presbyterian/MetaState/Permissions.antt =====
-- presbyterian/metastate.go: the change of a user's permission and of the miners' keys.
use go_crawling_bazaar.Base.{
  ℕ, zero, suc, ◌+◌, ◌&&◌, Option, none, some, List, [], ◌∷◌, ◌++◌, String, nat_key, string_key,
  ◌==◌, not, leb, if◌then◌else◌,
}
use go_crawling_bazaar.Hash.{to_string}
use go_crawling_bazaar.Exec.{Outcome, ok, err, panic, lift, ask, pure, modify, ◌>>=◌}
use go_crawling_bazaar.Types.{SqlChainProfile, SqlChainUser, MinerInfo}
use go_crawling_bazaar.Types.Permission.{UserPermission, has_super_permission}
use go_crawling_bazaar.Types.Transactions.{UpdatePermission, IssueKeys, MinerKey}
use go_crawling_bazaar.Presbyterian.Env.{
  Env, Error, database_not_found, account_permission_deny, no_super_user_left, pub_key_hash,
  signee_address,
}
use go_crawling_bazaar.Presbyterian.MetaState.{Action, put_domain, require_domain}
use go_crawling_bazaar.Presbyterian.MetaState.Users.{new_user}

-- What the loop of updatePermission finds: the number of super users and the last place of the
-- target; an error where the sender is met without the super permission.
unfoldable pub scan_users :
    ℕ → ℕ → ℕ → List SqlChainUser → ℕ × Option ℕ → Outcome Error (ℕ × Option ℕ)
scan_users sender target i [] acc = ok acc
scan_users sender target i (u ∷ us) (supers, index) =
    let super = has_super_permission u.permission in
    let rest =
      scan_users sender target (i + 1) us
        (if super then supers + 1 else supers, if target == u.address then some i else index) in
    if sender == u.address && not super then err account_permission_deny else rest

-- so.Users[i].Permission = p
unfoldable pub set_permission : ℕ → Option UserPermission → List SqlChainUser → List SqlChainUser
set_permission i p [] = []
set_permission zero p (u ∷ us) = record u { permission = p } ∷ us
set_permission (suc i) p (u ∷ us) = u ∷ set_permission i p us

-- The users after updatePermission.
unfoldable pub permit :
    ℕ → ℕ → Option UserPermission → List SqlChainUser → Outcome Error (List SqlChainUser)
unfolding scan_users set_permission
permit sender target perm us = elim (scan_users sender target 0 us (0, none)) [
  | err e ↦ err e
  | panic ↦ panic
  | ok (supers, index) ↦
      if leb supers 1 && (target == sender && not (has_super_permission perm))
      then err no_super_user_left
      else ok (elim index [
        | none ↦ us ++ new_user target perm ∷ []
        | some i ↦ set_permission i perm us
      ])
]

-- The check of updateKeys: the first user with the sender's address has the super permission.
unfoldable pub check_issuer : ℕ → List SqlChainUser → Outcome Error (Unit {0})
check_issuer sender [] = ok tt
check_issuer sender (u ∷ us) =
    if sender == u.address
    then (if has_super_permission u.permission then ok tt else err account_permission_deny)
    else check_issuer sender us

-- keyMap[a]: the last key that is listed for the miner.
unfoldable pub key_of : List MinerKey → ℕ → Option String
key_of [] a = none
key_of (k ∷ ks) a = elim (key_of ks a) [
  | some key ↦ some key
  | none ↦ if k.miner == a then some k.encryption_key else none
]

unfoldable pub issue : List MinerKey → List MinerInfo → List MinerInfo
issue ks [] = []
issue ks (m ∷ ms) =
    (elim (key_of ks m.address) [ none ↦ m | some key ↦ record m { encryption_key = key } ])
    ∷ issue ks ms

module _ (env : Env) where
  -- updatePermission
  unfoldable pub update_permission : UpdatePermission → Action (Unit {0})
  unfolding permit
  update_permission tx = do
    let id = to_string tx.target_sql_chain
    sender ← lift (pub_key_hash env tx.signee)
    so ← ask (require_domain database_not_found id)
    users ← lift (permit sender tx.target_user tx.permission so.users)
    modify (put_domain id (some (record so { users = users })))

  -- The copy of the profile that updateKeys changes.
  unfoldable pub keyed_copy : IssueKeys → SqlChainProfile → Outcome Error SqlChainProfile
  unfolding check_issuer issue
  keyed_copy tx so = elim (check_issuer (signee_address env tx.signee) so.users) [
    | err e ↦ err e
    | panic ↦ panic
    | ok _ ↦ ok (record so { miners = issue tx.miner_keys so.miners })
  ]

  -- updateKeys: the changed copy is not stored.
  unfoldable pub update_keys : IssueKeys → Action (Unit {0})
  unfolding keyed_copy
  update_keys tx = do
    so ← ask (require_domain database_not_found (to_string tx.target_sql_chain))
    copy ← lift (keyed_copy tx so)
    pure tt
