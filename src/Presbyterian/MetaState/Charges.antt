-- ===== src/Presbyterian/MetaState/Charges.antt =====
-- presbyterian/metastate.go: what a billing takes from the users, and that it counts once.
use go_crawling_bazaar.Base.{
  ℕ, zero, suc, ◌+◌, ◌≡◌, ◌≢◌, ◌<◌, ◌≤◌, refl, Bool, String, string_key, List, [], ◌∷◌, some, arith,
  nat_key, inl, inr, true, false, if◌then◌else◌, get_elem?, sym, subst, ap, ◌∙◌,
}
use go_crawling_bazaar.Hash.{to_string}
use go_crawling_bazaar.Word.{u64_mod, mul64, positive32}
use go_crawling_bazaar.Exec.{Outcome, ok, err, panic, Outcome-cases}
use go_crawling_bazaar.Types.{SqlChainProfile, SqlChainUser, MinerInfo, arrears}
use go_crawling_bazaar.Types.Transactions.{UpdateBilling, UserCost}
use go_crawling_bazaar.Presbyterian.Env.{Env, Error, wrapped, invalid_range, database_not_found}
use go_crawling_bazaar.Presbyterian.MetaState.{
  MetaState, put_domain, require_domain, load_sql_chain_object,
}
use go_crawling_bazaar.Presbyterian.MetaState.View.{load-put_domain}
use go_crawling_bazaar.Presbyterian.MetaState.Billing.{
  bill_user, bill_users, cost_of, billed, collect, bad_range, check_billing, update_billing,
}

-- A user before and behind a billing with the given cost in tokens.
abbrev pub Charged : ℕ → SqlChainUser → SqlChainUser → Type 0
Charged cost u u' =
    (u'.address ≡ u.address)
    × (u'.permission ≡ u.permission)
    × (u'.deposit ≡ u.deposit)
    × (cost ≤ u.advance_payment
        → (u'.advance_payment + cost ≡ u.advance_payment)
          × (u'.arrears ≡ u.arrears)
          × (u'.status ≡ u.status))
    × (u.advance_payment < cost → (u'.advance_payment ≡ 0) × (u'.status ≡ arrears))

module _ (env : Env) (costs : List UserCost) (gas_price : ℕ) where
  bill_user-Charged :
      (u : SqlChainUser) (miners : List MinerInfo)
      → u.advance_payment < u64_mod
      → Charged
          (mul64 (cost_of costs u.address 0) gas_price)
          u
          (bill_user env costs gas_price u miners).0
  unfolding bill_user
  bill_user-Charged u miners h = ground arith

  bill_users-Charged :
      (us : List SqlChainUser) (miners : List MinerInfo) (i : ℕ) (u : SqlChainUser)
      → get_elem? us i ≡ some u
      → u.advance_payment < u64_mod
      → (u' : SqlChainUser) × (get_elem? (bill_users env costs gas_price us miners).0 i ≡ some u')
        × Charged (mul64 (cost_of costs u.address 0) gas_price) u u'
  unfolding bill_users
  bill_users-Charged [] miners i u h w = absurd (ground arith)
  bill_users-Charged (v ∷ us) miners zero u h w = (
    (bill_user env costs gas_price v miners).0,
    refl,
    subst
        (λ x.
          Charged (mul64 (cost_of costs x.address 0) gas_price) x
            (bill_user env costs gas_price v miners).0)
        (ground arith) (bill_user-Charged v miners (ground arith)),
  )
  bill_users-Charged (v ∷ us) miners (suc i) u h w =
      bill_users-Charged us (bill_user env costs gas_price v miners).1 i u h w

-- For every user of a domain, whatever the miners: a billing leaves address, permission and deposit.
-- A user whose advance payment covers the cost (the last cost listed for the user, times the gas
-- price, in 64 bits) pays exactly that, with arrears and status as before; any other user loses the
-- whole advance payment and gets the status `arrears`.
pub billed-Charged :
    (env : Env) (tx : UpdateBilling) (p : SqlChainProfile) (i : ℕ) (u : SqlChainUser)
    → get_elem? p.users i ≡ some u
    → u.advance_payment < u64_mod
    → (u' : SqlChainUser) × (get_elem? (billed env tx p).users i ≡ some u')
      × Charged (mul64 (cost_of tx.users u.address 0) p.gas_price) u u'
unfolding billed
billed-Charged env tx p i u h w =
    bill_users-Charged env tx.users p.gas_price p.users (collect p.miners) i u h w

billed-bad_range :
    (env : Env) (tx : UpdateBilling) (p : SqlChainProfile)
    → positive32 tx.version ≡ true
    → bad_range tx p ≡ false
    → bad_range tx (billed env tx p) ≡ true
unfolding bad_range billed
billed-bad_range env tx p v h = ground arith

require_domain_lem :
    (e : Error) (k : String) (s : MetaState) (p : SqlChainProfile)
    → load_sql_chain_object s k ≡ some p
    → require_domain e k s ≡ ok p
unfolding require_domain
require_domain_lem e k s p l = rw (l, require_domain) refl

-- What updateBilling does once the domain is found.
settled :
    Env
    → UpdateBilling
    → SqlChainProfile
    → MetaState
    → Outcome Error Bool
    → Outcome Error (Unit {0}) × MetaState
settled env tx p s (ok charged) =
    (ok tt, if charged then put_domain (to_string tx.receiver) (some (billed env tx p)) s else s)
settled env tx p s (err e) = (err e, s)
settled env tx p s panic = (panic, s)

update_billing_lem :
    (env : Env) (tx : UpdateBilling) (s : MetaState) (p : SqlChainProfile)
    → load_sql_chain_object s (to_string tx.receiver) ≡ some p
    → update_billing env tx s ≡ settled env tx p s (check_billing env tx p)
unfolding update_billing settled
update_billing_lem env tx s p l =
    rw (require_domain_lem (wrapped database_not_found) (to_string tx.receiver) s p l)
      (elim (Outcome-cases (check_billing env tx p)) [
        | inl (true, r) ↦ rw r refl
        | inl (false, r) ↦ rw r refl
        | inr (inl (e, r)) ↦ rw r refl
        | inr (inr r) ↦ rw r refl
      ])

check_billing_lem :
    (env : Env) (tx : UpdateBilling) (p : SqlChainProfile) (b : Bool)
    → p.gas_price ≢ 0
    → check_billing env tx p ≡ ok b
    → (b ≡ true) × (bad_range tx p ≡ false)
unfolding check_billing
check_billing_lem env tx p b g h = ground arith

check_billing-bad_range :
    (env : Env) (tx : UpdateBilling) (p : SqlChainProfile)
    → bad_range tx p ≡ true
    → check_billing env tx p ≡ err (wrapped invalid_range)
unfolding check_billing
check_billing-bad_range env tx p h = ground arith

-- For a domain with a gas price, a billing with a positive version counts once: after it has
-- succeeded, the same transaction returns the error for an invalid range and changes nothing.
pub update_billing-once :
    (env : Env) (tx : UpdateBilling) (s : MetaState) (p : SqlChainProfile)
    → load_sql_chain_object s (to_string tx.receiver) ≡ some p
    → p.gas_price ≢ 0
    → positive32 tx.version ≡ true
    → (update_billing env tx s).0 ≡ ok tt
    → update_billing env tx (update_billing env tx s).1
      ≡ (err (wrapped invalid_range), (update_billing env tx s).1)
unfolding settled
update_billing-once env tx s p l g v h =
    let id = to_string tx.receiver in
    let first = update_billing_lem env tx s p l in
    let second =
      update_billing_lem env tx (put_domain id (some (billed env tx p)) s) (billed env tx p) (
        load-put_domain id id (some (billed env tx p)) s
        ∙ ground (arith, string_key.same_iff id id)) in
    elim (Outcome-cases (check_billing env tx p)) [
      | inl (b, r) ↦
          let passed = check_billing_lem env tx p b g r in
          let done : update_billing env tx s ≡ (ok tt, put_domain id (some (billed env tx p)) s) =
            first ∙ ap (settled env tx p s) (r ∙ ap ok passed.0) in
          let refused =
            check_billing-bad_range env tx (billed env tx p)
              (billed-bad_range env tx p v passed.1) in
          ap (λ w. update_billing env tx w.1) done
          ∙ second
          ∙ ap (settled env tx (billed env tx p) (put_domain id (some (billed env tx p)) s)) refused
          ∙ ap (λ w. (err (wrapped invalid_range), w.1)) (sym done)
      | inr (inl (e, r)) ↦
          absurd (ground (arith, sym h ∙ ap (λ w. w.0) (first ∙ ap (settled env tx p s) r)))
      | inr (inr r) ↦
          absurd (ground (arith, sym h ∙ ap (λ w. w.0) (first ∙ ap (settled env tx p s) r)))
    ]
