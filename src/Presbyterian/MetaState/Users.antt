-- ===== src/Presbyterian/MetaState/Users.antt =====
-- presbyterian/metastate.go: a domain's chain and the users in it.
use go_crawling_bazaar.Base.{
  ℕ, zero, suc, ◌+◌, ◌-◌, Bool, true, false, ◌&&◌, Option, none, some, List, [], ◌∷◌, ◌++◌, map,
  String, nat_key, string_key, ◌==◌, not, length, get_elem?, take, set, if◌then◌else◌,
}
use go_crawling_bazaar.GoMap
use go_crawling_bazaar.GoMap.{GoMap}
use go_crawling_bazaar.Exec.{Outcome, ok, err, panic, crash, lift, modify, ◌>>=◌}
use go_crawling_bazaar.Types.{SqlChainProfile, SqlChainUser, ResourceMeta, unknown_status}
use go_crawling_bazaar.Types.Permission.{UserPermission, user_permission_from_role, admin_role}
use go_crawling_bazaar.Presbyterian.Env.{
  Error, account_not_found, database_not_found, database_exists, database_user_exists,
}
use go_crawling_bazaar.Presbyterian.MetaState.{Action, put_domain}

-- The zero ResourceMeta.
abbrev empty_meta : ResourceMeta
empty_meta = record {
  target_miners = [];
  node = 0;
  domain = "";
  space = 0;
  memory = 0;
  load_avg_per_cpu = 0;
  encryption_key = "";
  use_eventual_consistency = false;
  consistency_level = 0;
  isolation_level = 0;
}

-- &SQLChainUser{Address: a, Permission: p, Status: st}
abbrev pub new_user : ℕ → Option UserPermission → SqlChainUser
new_user a p = record {
  address = a;
  permission = p;
  advance_payment = 0;
  arrears = 0;
  deposit = 0;
  status = unknown_status;
}

-- The profile that createSQLChain stores.
abbrev pub new_profile : ℕ → String → SqlChainProfile
new_profile addr id = record {
  id = id;
  address = 0;
  period = 0;
  gas_price = 0;
  last_updated_height = 0;
  token_type = 0;
  owner = addr;
  miners = [];
  users = new_user addr (some (user_permission_from_role admin_role)) ∷ [];
  encoded_genesis = [];
  meta = empty_meta;
}

-- _, ok := m[k]
abbrev has {ℓ} : {A : Type ℓ} → Option A → Bool
has none = false
has (some a) = true

-- createSQLChain; a pending deletion counts as an entry.
unfoldable pub create_sql_chain : ℕ → String → Action (Unit {0})
create_sql_chain addr id s =
    if not (has (GoMap.get s.dirty.accounts addr)) && not (has (GoMap.get s.readonly.accounts addr))
    then (err account_not_found, s)
    else if has (GoMap.get s.dirty.domains id)
    then (err database_exists, s)
    else if has (GoMap.get s.readonly.domains id)
    then (err database_exists, s)
    else (ok tt, put_domain id (some (new_profile addr id)) s)

-- The pointer `dst` after the copy from the committed map; nil for a pending deletion.
unfoldable pub domain_for_write : String → Action (Option SqlChainProfile)
domain_for_write k s = elim (GoMap.get s.dirty.domains k) [
  | some o ↦ (ok o, s)
  | none ↦ elim (GoMap.get s.readonly.domains k) [
    | none ↦ (err database_not_found, s)
    | some o ↦ (ok (some o), put_domain k (some o) s)
  ]
]

unfoldable pub has_user : ℕ → List SqlChainUser → Bool
has_user addr [] = false
has_user addr (u ∷ us) = if u.address == addr then true else has_user addr us

unfoldable pub write_users :
    String
    → (List SqlChainUser → Outcome Error (List SqlChainUser))
    → Option SqlChainProfile
    → Action (Unit {0})
write_users k f none = crash
write_users k f (some p) = do
  us ← lift (f p.users)
  modify (put_domain k (some (record p { users = us })))

unfoldable pub append_user :
    ℕ → Option UserPermission → List SqlChainUser → Outcome Error (List SqlChainUser)
unfolding has_user
append_user addr perm us =
    if has_user addr us then err database_user_exists else ok (us ++ new_user addr perm ∷ [])

-- addSQLChainUser
unfoldable pub add_sql_chain_user : String → ℕ → Option UserPermission → Action (Unit {0})
unfolding domain_for_write write_users append_user
add_sql_chain_user k addr perm = do
  dst ← domain_for_write k
  write_users k (append_user addr perm) dst

-- The loop of deleteSQLChainUser. It walks the array of `rounds + i` pointers that the slice had at
-- first; `len` is the present length of dst.Users. A hit moves the last user to its place, clears
-- that user's old place and shortens the slice; a cleared place that the walk meets is a nil pointer.
unfoldable pub delete_rounds :
    ℕ → ℕ → ℕ → ℕ → List (Option SqlChainUser) → Outcome Error (List (Option SqlChainUser))
delete_rounds zero i len addr us = ok (take len us)
delete_rounds (suc rounds) i len addr us = elim (get_elem? us i) [
  | none ↦ panic
  | some none ↦ panic
  | some (some v) ↦ elim (v.address == addr) [
    | false ↦ delete_rounds rounds (i + 1) len addr us
    | true ↦ elim (get_elem? us (len - 1)) [
      | none ↦ panic
      | some w ↦ delete_rounds rounds (i + 1) (len - 1) addr (set (set us i w) (len - 1) none)
    ]
  ]
]

-- The users that are left, all of them pointers to a user.
unfoldable pub present : List (Option SqlChainUser) → List SqlChainUser
present [] = []
present (none ∷ us) = present us
present (some u ∷ us) = u ∷ present us

unfoldable pub delete_user : ℕ → List SqlChainUser → Outcome Error (List SqlChainUser)
unfolding delete_rounds present
delete_user addr us = elim (delete_rounds (length us) 0 (length us) addr (map some us)) [
  | ok left ↦ ok (present left)
  | err e ↦ err e
  | panic ↦ panic
]

-- deleteSQLChainUser
unfoldable pub delete_sql_chain_user : String → ℕ → Action (Unit {0})
unfolding domain_for_write write_users delete_user
delete_sql_chain_user k addr = do dst ← domain_for_write k; write_users k (delete_user addr) dst

unfoldable pub alter_users : ℕ → Option UserPermission → List SqlChainUser → List SqlChainUser
alter_users addr perm [] = []
alter_users addr perm (u ∷ us) =
    (if u.address == addr then record u { permission = perm } else u) ∷ alter_users addr perm us

-- alterSQLChainUser
unfoldable pub alter_sql_chain_user : String → ℕ → Option UserPermission → Action (Unit {0})
unfolding domain_for_write write_users alter_users
alter_sql_chain_user k addr perm = do
  dst ← domain_for_write k
  write_users k (λ us. ok (alter_users addr perm us)) dst
