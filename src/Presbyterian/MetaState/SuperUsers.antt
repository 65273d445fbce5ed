-- ===== src/Presbyterian/MetaState/SuperUsers.antt =====
-- presbyterian/metastate.go: who may change permissions and keys, and what is left after it.
use go_crawling_bazaar.Base.{
  ℕ, zero, suc, ◌+◌, ◌≡◌, ◌<◌, refl, Bool, true, false, Option, none, some, List, [], ◌∷◌, ◌++◌,
  sym, ap, ◌∙◌, ◌≢◌, inl, inr, String, nat_key, string_key, ◌==◌, arith, Option-cases,
  if◌then◌else◌,
}
use go_crawling_bazaar.Hash.{to_string}
use go_crawling_bazaar.Exec.{Outcome, ok, err, panic, Outcome-cases}
use go_crawling_bazaar.Types.{SqlChainProfile, SqlChainUser}
use go_crawling_bazaar.Types.Permission.{UserPermission, has_super_permission}
use go_crawling_bazaar.Types.Transactions.{UpdatePermission, IssueKeys}
use go_crawling_bazaar.Presbyterian.Env.{Env, Error, pub_key_hash, database_not_found}
use go_crawling_bazaar.Presbyterian.MetaState.{
  MetaState, load_sql_chain_object, require_domain, put_domain,
}
use go_crawling_bazaar.Presbyterian.MetaState.View.{load-put_domain}
use go_crawling_bazaar.Presbyterian.MetaState.Users.{has_user, new_user}
use go_crawling_bazaar.Presbyterian.MetaState.Permissions.{
  scan_users, set_permission, permit, update_permission, update_keys, keyed_copy,
}

-- The number of users with the super permission.
unfoldable pub supers : List SqlChainUser → ℕ
supers [] = 0
supers (u ∷ us) = (if has_super_permission u.permission then 1 else 0) + supers us

-- The user `addr` is listed with the super permission.
unfoldable held : ℕ → List SqlChainUser → Bool
held addr [] = false
held addr (u ∷ us) =
    let rest = held addr us in
    if u.address == addr then (if has_super_permission u.permission then true else rest) else rest

unfoldable last_place : ℕ → List SqlChainUser → Option ℕ
last_place addr [] = none
last_place addr (u ∷ us) = elim (last_place addr us) [
  | some j ↦ some (suc j)
  | none ↦ if addr == u.address then some 0 else none
]

unfoldable shifted : ℕ → Option ℕ → Option ℕ → Option ℕ
shifted i idx none = idx
shifted i idx (some j) = some (i + j)

abbrev counted : SqlChainUser → ℕ → ℕ
counted u c = if has_super_permission u.permission then c + 1 else c

abbrev seen : ℕ → ℕ → SqlChainUser → Option ℕ → Option ℕ
seen target i u idx = if target == u.address then some i else idx

require_domain_lem :
    (k : String) (s : MetaState) (so : SqlChainProfile)
    → load_sql_chain_object s k ≡ some so
    → require_domain database_not_found k s ≡ ok so
unfolding require_domain
require_domain_lem k s so l = rw (l, require_domain) refl

scan_users_lem :
    (sender target i : ℕ) (us : List SqlChainUser) (c : ℕ) (idx : Option ℕ) (acc : ℕ × Option ℕ)
    → scan_users sender target i us (c, idx) ≡ ok acc
    → (acc.0 ≡ c + supers us) × (acc.1 ≡ shifted i idx (last_place target us))
unfolding scan_users supers last_place shifted
scan_users_lem sender target i [] c idx acc h = (ground arith, ground arith)
scan_users_lem sender target i (u ∷ us) c idx acc h =
    let ih = scan_users_lem sender target (i + 1) us (counted u c) (seen target i u idx) acc in
    (ground (arith, ih), ground (arith, ih))

scan_users-held :
    (sender target i : ℕ) (us : List SqlChainUser) (c : ℕ) (idx : Option ℕ) (acc : ℕ × Option ℕ)
    → scan_users sender target i us (c, idx) ≡ ok acc
    → has_user sender us ≡ true
    → held sender us ≡ true
unfolding scan_users has_user held
scan_users-held sender target i [] c idx acc h m = ground arith
scan_users-held sender target i (u ∷ us) c idx acc h m =
    ground (arith, scan_users-held sender target (i + 1) us (counted u c) (seen target i u idx) acc)

held-supers : (addr : ℕ) (us : List SqlChainUser) → held addr us ≡ true → 0 < supers us
unfolding held supers
held-supers addr [] h = ground arith
held-supers addr (u ∷ us) h = ground (arith, held-supers addr us)

supers-set_permission :
    (i : ℕ) (p : Option UserPermission) (us : List SqlChainUser)
    → supers us < supers (set_permission i p us) + 2
unfolding set_permission supers
supers-set_permission i p [] = ground arith
supers-set_permission zero p (u ∷ us) = ground arith
supers-set_permission (suc i) p (u ∷ us) = ground (arith, supers-set_permission i p us)

-- Changing another user's entry leaves the holder.
held-set_permission :
    (addr target i : ℕ) (p : Option UserPermission) (us : List SqlChainUser)
    → last_place target us ≡ some i
    → target ≢ addr
    → held addr us ≡ true
    → held addr (set_permission i p us) ≡ true
unfolding set_permission held last_place
held-set_permission addr target i p [] l d h = ground arith
held-set_permission addr target zero p (u ∷ us) l d h = ground arith
held-set_permission addr target (suc i) p (u ∷ us) l d h =
    ground (arith, held-set_permission addr target i p us)

supers-set_super :
    (target i : ℕ) (p : Option UserPermission) (us : List SqlChainUser)
    → last_place target us ≡ some i
    → has_super_permission p ≡ true
    → 0 < supers (set_permission i p us)
unfolding set_permission supers last_place
supers-set_super target i p [] l h = ground arith
supers-set_super target zero p (u ∷ us) l h = ground arith
supers-set_super target (suc i) p (u ∷ us) l h = ground (arith, supers-set_super target i p us)

supers-append : (us : List SqlChainUser) (u : SqlChainUser) → supers us < supers (us ++ u ∷ []) + 1
unfolding supers
supers-append [] u = ground arith
supers-append (v ∷ us) u = ground (arith, supers-append us u)

permit-supers :
    (sender target : ℕ) (p : Option UserPermission) (us us' : List SqlChainUser)
    → permit sender target p us ≡ ok us'
    → has_user sender us ≡ true
    → 0 < supers us'
unfolding permit shifted
permit-supers sender target p us us' h m =
    elim (Outcome-cases (scan_users sender target 0 us (0, none))) [
      | inr (inl (e, r)) ↦ ground arith
      | inr (inr r) ↦ ground arith
      | inl (acc, r) ↦
          let found = scan_users_lem sender target 0 us 0 none acc r in
          let kept = scan_users-held sender target 0 us 0 none acc r m in
          elim (Option-cases (last_place target us)) [
            | inl l ↦
                ground (arith, held-supers sender us kept, supers-append us (new_user target p))
            | inr (i, l) ↦ ground (
              arith,
              held-supers sender us kept,
              supers-set_permission i p us,
              held-set_permission sender target i p us l,
              held-supers sender (set_permission i p us),
              supers-set_super target i p us l,
            )
          ]
    ]

-- What updatePermission does once the domain is found.
updated :
    UpdatePermission
    → SqlChainProfile
    → MetaState
    → Outcome Error (List SqlChainUser)
    → Outcome Error (Unit {0}) × MetaState
updated tx so s (ok users) =
    (ok tt, put_domain (to_string tx.target_sql_chain) (some (record so { users = users })) s)
updated tx so s (err e) = (err e, s)
updated tx so s panic = (panic, s)

update_permission_lem :
    (env : Env) (tx : UpdatePermission) (s : MetaState) (so : SqlChainProfile) (sender : ℕ)
    → pub_key_hash env tx.signee ≡ ok sender
    → require_domain database_not_found (to_string tx.target_sql_chain) s ≡ ok so
    → update_permission env tx s
      ≡ updated tx so s (permit sender tx.target_user tx.permission so.users)
unfolding update_permission updated
update_permission_lem env tx s so sender k q = rw k (
    rw q (elim (Outcome-cases (permit sender tx.target_user tx.permission so.users)) [
      | inl (users, r) ↦ rw r refl
      | inr (inl (e, r)) ↦ rw r refl
      | inr (inr r) ↦ rw r refl
    ]))

-- If the domain is loaded, the key of the transaction has an address, and that address is a user of
-- the domain, then an updatePermission that returns no error leaves the domain with at least one
-- super user.
pub update_permission-supers :
    (env : Env) (tx : UpdatePermission) (s : MetaState) (so : SqlChainProfile) (sender : ℕ)
    → pub_key_hash env tx.signee ≡ ok sender
    → load_sql_chain_object s (to_string tx.target_sql_chain) ≡ some so
    → has_user sender so.users ≡ true
    → (update_permission env tx s).0 ≡ ok tt
    → (so' : SqlChainProfile) × (load_sql_chain_object
          (update_permission env tx s).1
          (to_string tx.target_sql_chain)
        ≡ some so')
      × (0 < supers so'.users)
unfolding updated
update_permission-supers env tx s so sender k l m h =
    let id = to_string tx.target_sql_chain in
    let whole = update_permission_lem env tx s so sender k (require_domain_lem id s so l) in
    elim (Outcome-cases (permit sender tx.target_user tx.permission so.users)) [
      | inl (users, r) ↦
          let so' = record so { users = users } in
          (
            so',
            ap (λ w. load_sql_chain_object w.1 id) (whole ∙ ap (updated tx so s) r)
                ∙ load-put_domain id id (some so') s
                ∙ ground (arith, string_key.same_iff id id),
            permit-supers sender tx.target_user tx.permission so.users users r m,
          )
      | inr (inl (e, r)) ↦
          absurd (ground (arith, sym h ∙ ap (λ w. w.0) (whole ∙ ap (updated tx so s) r)))
      | inr (inr r) ↦
          absurd (ground (arith, sym h ∙ ap (λ w. w.0) (whole ∙ ap (updated tx so s) r)))
    ]

-- Whatever updateKeys returns, it leaves the ledger as it was.
pub update_keys-unchanged :
    (env : Env) (tx : IssueKeys) (s : MetaState) → (update_keys env tx s).1 ≡ s
unfolding update_keys require_domain
update_keys-unchanged env tx s =
    elim (Outcome-cases (require_domain database_not_found (to_string tx.target_sql_chain) s)) [
      | inl (so, e) ↦ rw e (elim (Outcome-cases (keyed_copy env tx so)) [
        | inl (copy, r) ↦ rw r refl
        | inr (inl (x, r)) ↦ rw r refl
        | inr (inr r) ↦ rw r refl
      ])
      | inr (inl (x, e)) ↦ rw e refl
      | inr (inr e) ↦ rw e refl
    ]
