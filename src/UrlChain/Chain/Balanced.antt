-- ===== src/UrlChain/Chain/Balanced.antt =====
-- urlchain/chain.go: what billing takes from the users it gives to the miners.
use go_crawling_bazaar.Base.{
  ℕ, ◌+◌, ◌%◌, ◌≡◌, refl, Option, none, some, List, [], ◌∷◌, map, nat_key, ◌==◌, arith, Bool-cases,
  Option-cases, inl, inr, nat_beq_iff, sym, ◌∙◌, subst, ap, All, ltb,
}
use go_crawling_bazaar.GoMap
use go_crawling_bazaar.GoMap.{
  GoMap, IsMap, lookup, range-Enumerates, get-put, get-empty, empty-IsMap, put-IsMap,
}
use go_crawling_bazaar.GoMap.Totals.{total, total-empty}
use go_crawling_bazaar.Word.{u64_mod}
use go_crawling_bazaar.Exec.{ok, Outcome-cases}
use go_crawling_bazaar.Types.Transactions.{MinerIncome, UserCost, UpdateBilling}
use go_crawling_bazaar.UrlChain.Block.{Block}
use go_crawling_bazaar.UrlChain.BlockIndex.{
  BlockNode, root, child, info, load, descend, ancestor, IndexKey, index_key, index_key_key,
}
use go_crawling_bazaar.UrlChain.Chain.{Chain}
use go_crawling_bazaar.UrlChain.Chain.Fetches.{fetch_block, fetch_block_by_index_key}
use go_crawling_bazaar.UrlChain.Chain.Bills.{
  Bill, value, incomes, bill_txs, bill_failed, bill_block, recover, bill_node, bill_rounds,
  user_costs, billing,
}
use go_crawling_bazaar.GoMap.Totals.{total_entries}
use go_crawling_bazaar.GoMap.{Distinct}
use go_crawling_bazaar.UrlChain.Chain.Charged.{whole, Balanced, bill_txs-Balanced}

-- What the miners of a user get.
abbrev pub income_sum : List MinerIncome → ℕ
income_sum [] = 0
income_sum (m ∷ ms) = m.income + income_sum ms

-- The user pays what the miners get, as a 64-bit word.
abbrev pub IsPaid : UserCost → Type 0
IsPaid u = u.cost ≡ income_sum u.miners % u64_mod

income_sum-map :
    (kvs : List (ℕ × ℕ))
    → income_sum (map (λ m. record { miner = m.0; income = m.1 }) kvs) ≡ total_entries whole kvs
income_sum-map [] = refl
income_sum-map (kv ∷ kvs) = ground (arith, income_sum-map kvs)

All-map-weaken :
    (P Q : ℕ × ℕ → Type 0) (kvs : List (ℕ × ℕ))
    → ((kv : ℕ × ℕ) → P kv → Q kv)
    → All P kvs
    → All Q kvs
All-map-weaken P Q [] f h = tt
All-map-weaken P Q (kv ∷ kvs) f h = (f kv h.0, All-map-weaken P Q kvs f h.1)

-- Each entry is what its key is looked up as.
All-lookup : (kvs : List (ℕ × ℕ)) → Distinct kvs → All (λ kv. lookup kv.0 kvs ≡ some kv.1) kvs
unfolding lookup
All-lookup [] d = tt
All-lookup ((k, v) ∷ kvs) d = (
  ground (arith, nat_beq_iff k k),
  All-map-weaken (λ kv. lookup kv.0 kvs ≡ some kv.1) (λ kv. lookup kv.0 ((k, v) ∷ kvs) ≡ some kv.1)
      kvs
      (λ kv e. elim (Bool-cases (k == kv.0)) [
        | inl s ↦
            absurd
              (ground (arith, e, subst (λ j. lookup j kvs ≡ none) ((nat_beq_iff k kv.0).0 s) d.0))
        | inr o ↦ ground (arith, o, e)
      ])
      (All-lookup kvs d.1),
)

user_costs-IsPaid :
    (b : Bill) (kvs : List (ℕ × ℕ))
    → Balanced b
    → All (λ kv. value b.users kv.0 ≡ kv.1) kvs
    → All IsPaid (user_costs b kvs)
unfolding user_costs total
user_costs-IsPaid b [] v h = tt
user_costs-IsPaid b (kv ∷ kvs) v h = (
  sym h.0
      ∙ v.even kv.0
      ∙ ap (λ (x : ℕ). x % u64_mod) (sym (income_sum-map (GoMap.range (incomes b kv.0)))),
  user_costs-IsPaid b kvs v h.1,
)

Balanced-IsPaid : (b : Bill) → Balanced b → All IsPaid (user_costs b (GoMap.range b.users))
unfolding value
Balanced-IsPaid b v =
    let r = range-Enumerates b.users v.keyed in
    user_costs-IsPaid b (GoMap.range b.users) v (
      All-map-weaken (λ kv. lookup kv.0 (GoMap.range b.users) ≡ some kv.1)
        (λ kv. value b.users kv.0 ≡ kv.1) (GoMap.range b.users)
        (λ kv e. ground (arith, e, r.lookups kv.0)) (All-lookup (GoMap.range b.users) r.distinct))

no_bill-Balanced : Balanced (record { users = GoMap.empty; miners = GoMap.empty })
unfolding value incomes
no_bill-Balanced = record {
  keyed = empty-IsMap;
  maps = λ u. rw (get-empty {V = GoMap ℕ ℕ} u, incomes) empty-IsMap;
  even =
      λ u. ground (arith, get-empty {V = GoMap ℕ ℕ} u, get-empty {V = ℕ} u, total-empty ℕ ℕ whole);
}

module _ (key_hash : ℕ → Option ℕ) where
  bill_block-Balanced :
      (block : Block) (b b' : Bill)
      → block.failed_reqs ≡ []
      → Balanced b
      → bill_block key_hash block b ≡ ok b'
      → Balanced b'
  unfolding bill_block bill_failed
  bill_block-Balanced block b b' clean v e =
      elim (Outcome-cases (bill_txs key_hash block.query_txs b)) [
        | inl (x, q) ↦
            subst Balanced (ground (arith, e, q, clean))
              (bill_txs-Balanced key_hash block.query_txs b x v q)
        | inr (inl (x, q)) ↦ absurd (ground (arith, e, q))
        | inr (inr q) ↦ absurd (ground (arith, e, q))
      ]

  -- No block that is cached or stored has a failed request.
  abbrev pub NoneFailed : {Db : Type 0} → Chain Db → Type 0
  NoneFailed c =
      ((p : ℕ) (b : Block) → GoMap.get c.cache p ≡ some b → b.failed_reqs ≡ [])
      × ((k : IndexKey) (b : Block) → GoMap.get c.blocks_db k ≡ some b → b.failed_reqs ≡ [])

  module _ {Db : Type 0} (c : Chain Db) (clean : NoneFailed c) where
    fetch_block-clean : (h : ℕ) (b : Block) → fetch_block h c ≡ ok (some b) → b.failed_reqs ≡ []
    unfolding fetch_block fetch_block_by_index_key
    fetch_block-clean h b e = elim (Option-cases c.rt.head.node) [
      | inl n ↦ absurd (ground (arith, e, n))
      | inr (n, p) ↦ elim (Option-cases (ancestor h n)) [
        | inl q ↦ absurd (ground (arith, e, p, q))
        | inr (a, q) ↦ elim (Option-cases (GoMap.get c.blocks_db (index_key a))) [
          | inl r ↦ absurd (ground (arith, e, p, q, r))
          | inr (x, r) ↦ clean.1 (index_key a) b (ground (arith, e, p, q, r))
        ]
      ]
    ]

    recover-clean : (n : BlockNode) (b : Block) → recover c n ≡ ok (some b) → b.failed_reqs ≡ []
    unfolding recover
    recover-clean n b e = elim (Option-cases (load c.cache n)) [
      | inl q ↦ fetch_block-clean (info n).height b (ground (arith, e, q))
      | inr (x, q) ↦ clean.0 (info n).pointer b (ground (arith, e, q))
    ]

    bill_node-Balanced :
        (n : BlockNode) (b b' : Bill) → Balanced b → bill_node key_hash c n b ≡ ok b' → Balanced b'
    unfolding bill_node
    bill_node-Balanced n b b' v e = elim (Outcome-cases (recover c n)) [
      | inr (inl (x, q)) ↦ absurd (ground (arith, e, q))
      | inr (inr q) ↦ absurd (ground (arith, e, q))
      | inl (o, q) ↦ elim (Option-cases o) [
        | inl r ↦ absurd (ground (arith, e, q, r))
        | inr (block, r) ↦
            bill_block-Balanced block b b' (recover-clean n block (ground (arith, q, r))) v
              (ground (arith, e, q, r))
      ]
    ]

    bill_rounds-Balanced :
        (low : ℕ) (n : BlockNode) (b b' : Bill)
        → Balanced b
        → bill_rounds key_hash c low n b ≡ ok b'
        → Balanced b'
    unfolding bill_rounds
    bill_rounds-Balanced low (root d) b b' v e = elim (Bool-cases (ltb low d.height)) [
      | inl h ↦ bill_node-Balanced (root d) b b' v (ground (arith, e, h))
      | inr h ↦ subst Balanced (ground (arith, e, h)) v
    ]
    bill_rounds-Balanced low (child p d) b b' v e = elim (Bool-cases (ltb low d.height)) [
      | inr h ↦ subst Balanced (ground (arith, e, h)) v
      | inl h ↦ elim (Outcome-cases (bill_node key_hash c (child p d) b)) [
        | inl (x, q) ↦
            bill_rounds-Balanced low p x b' (bill_node-Balanced (child p d) b x v q)
              (ground (arith, e, h, q))
        | inr (inl (x, q)) ↦ absurd (ground (arith, e, h, q))
        | inr (inr q) ↦ absurd (ground (arith, e, h, q))
      ]
    ]

    -- Where no cached or stored block has a failed request, each user in a transaction that `billing`
    -- returns pays the sum of what the miners get from this user, as a 64-bit word.
    pub billing-IsPaid :
        (receiver h : ℕ) (n : BlockNode) (ub : UpdateBilling)
        → billing key_hash receiver h n c ≡ ok ub
        → All IsPaid ub.users
    unfolding billing
    billing-IsPaid receiver h n ub e =
        let low = c.rt.last_billing_height in
        let start : Bill = record { users = GoMap.empty; miners = GoMap.empty } in
        elim (Option-cases (descend h n)) [
          | inl q ↦
              subst (λ us. All IsPaid us) (ground (arith, e, q))
                (Balanced-IsPaid start no_bill-Balanced)
          | inr (m, q) ↦ elim (Outcome-cases (bill_rounds key_hash c low m start)) [
            | inl (b, r) ↦
                subst (λ us. All IsPaid us) (ground (arith, e, q, r))
                  (Balanced-IsPaid b (bill_rounds-Balanced low m start b no_bill-Balanced r))
            | inr (inl (x, r)) ↦ absurd (ground (arith, e, q, r))
            | inr (inr r) ↦ absurd (ground (arith, e, q, r))
          ]
        ]
