-- ===== src/UrlChain/Chain/Charged.antt =====
-- urlchain/chain.go: the queries of a block are charged to the users and credited to the miners alike.
use go_crawling_bazaar.Base.{
  ℕ, ◌+◌, ◌%◌, ◌≡◌, refl, Option, List, [], ◌∷◌, nat_key, ◌==◌, arith, Bool-cases, Option-cases,
  inl, inr, true, false, if◌then◌else◌, sym, ◌∙◌, subst, ap,
}
use go_crawling_bazaar.GoMap.{GoMap, IsMap, get-put, put-IsMap}
use go_crawling_bazaar.GoMap.Totals.{total, total-put}
use go_crawling_bazaar.Word.{u64_mod, add64}
use go_crawling_bazaar.Exec.{ok}
use go_crawling_bazaar.Types.Queries.{read_query}
use go_crawling_bazaar.State.Execution.{QueryAsTx}
use go_crawling_bazaar.UrlChain.BlockIndex.{index_key_key}
use go_crawling_bazaar.UrlChain.Chain.Bills.{Bill, value, add_to, incomes, charge, bill_txs}

abbrev pub whole : ℕ → ℕ
whole x = x

-- A user's cost is the sum of the incomes from this user, as a 64-bit word.
pub record Balanced (b : Bill) : Type 0 where
  pub keyed : IsMap b.users
  pub maps : (u : ℕ) → IsMap (incomes b u)
  pub even : (u : ℕ) → value b.users u ≡ total whole (incomes b u) % u64_mod

value-add_to :
    (m : GoMap ℕ ℕ) (k x j : ℕ)
    → value (add_to m k x) j ≡ (if k == j then add64 (value m k) x else value m j)
unfolding value add_to
value-add_to m k x j = ground (arith, get-put m k j (add64 (value m k) x))

total-add_to :
    (m : GoMap ℕ ℕ) (k x : ℕ)
    → IsMap m
    → total whole (add_to m k x) % u64_mod ≡ (total whole m + x) % u64_mod
unfolding value add_to
total-add_to m k x w = ground (arith, total-put whole m k (add64 (value m k) x) w)

incomes-charge :
    (user miner x v : ℕ) (m : GoMap ℕ ℕ) (b : Bill)
    → incomes (charge user miner x m b) v ≡ (if user == v then add_to m miner x else incomes b v)
unfolding incomes charge
incomes-charge user miner x v m b = ground (arith, get-put b.miners user v (add_to m miner x))

add_to-IsMap : (m : GoMap ℕ ℕ) (k x : ℕ) → IsMap m → IsMap (add_to m k x)
unfolding add_to
add_to-IsMap m k x w = put-IsMap m k (add64 (value m k) x) w

charge-users :
    (user miner x : ℕ) (m : GoMap ℕ ℕ) (b : Bill)
    → (charge user miner x m b).users ≡ add_to b.users user x
unfolding charge
charge-users user miner x m b = refl

charge-Balanced :
    (user miner x : ℕ) (b : Bill) → Balanced b → Balanced (charge user miner x (incomes b user) b)
charge-Balanced user miner x b v =
    let m = incomes b user in
    let users = charge-users user miner x m b in
    let ours = λ (u : ℕ) (s : (user == u) ≡ true).
      let at : incomes (charge user miner x m b) u ≡ add_to m miner x =
        ground (arith, incomes-charge user miner x u m b, s) in
      at in
    let theirs = λ (u : ℕ) (o : (user == u) ≡ false).
      let at : incomes (charge user miner x m b) u ≡ incomes b u =
        ground (arith, incomes-charge user miner x u m b, o) in
      at in
    record {
      keyed = rw users (add_to-IsMap b.users user x v.keyed);
      maps = λ u. elim (Bool-cases (user == u)) [
        | inl s ↦
            subst (λ (i : GoMap ℕ ℕ). IsMap i) (sym (ours u s))
              (add_to-IsMap m miner x (v.maps user))
        | inr o ↦ subst (λ (i : GoMap ℕ ℕ). IsMap i) (sym (theirs u o)) (v.maps u)
      ];
      even = λ u. elim (Bool-cases (user == u)) [
        | inl s ↦
            let cost : value (add_to b.users user x) u ≡ add64 (value b.users user) x =
              ground (arith, value-add_to b.users user x u, s) in
            let even' : value (add_to b.users user x) u ≡ total whole (add_to m miner x) % u64_mod =
              omega (arith, cost, v.even user, total-add_to m miner x (v.maps user)) in
            ap (λ y. value y u) users
            ∙ even'
            ∙ ap (λ (i : GoMap ℕ ℕ). total whole i % u64_mod) (sym (ours u s))
        | inr o ↦
            let cost : value (add_to b.users user x) u ≡ value b.users u =
              ground (arith, value-add_to b.users user x u, o) in
            ap (λ y. value y u) users
            ∙ cost
            ∙ v.even u
            ∙ ap (λ (i : GoMap ℕ ℕ). total whole i % u64_mod) (sym (theirs u o))
      ];
    }

module _ (key_hash : ℕ → Option ℕ) where
  pub bill_txs-Balanced :
      (txs : List QueryAsTx) (b b' : Bill)
      → Balanced b
      → bill_txs key_hash txs b ≡ ok b'
      → Balanced b'
  unfolding bill_txs
  bill_txs-Balanced [] b b' v e = subst Balanced (ground (arith, e)) v
  bill_txs-Balanced (tx ∷ txs) b b' v e = elim (Option-cases (key_hash tx.request.signee)) [
    | inl n ↦ absurd (ground (arith, e, n))
    | inr (user, n) ↦
        let x = elim tx.request.query_type as (λ _. ℕ) [
          | read_query ↦ tx.response.row_count
          | _ ↦ tx.response.affected_rows
        ] in
        bill_txs-Balanced txs (charge user tx.response.response_account x (incomes b user) b) b'
          (charge-Balanced user tx.response.response_account x b v) (ground (arith, e, n))
  ]
