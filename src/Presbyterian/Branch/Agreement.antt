-- ===== src/Presbyterian/Branch/Agreement.antt =====
-- presbyterian/branch.go: a producer and a node that applies its block.
use go_crawling_bazaar.Base.{
  append_nil, append_one, ℕ, ◌+◌, ◌≡◌, ◌≢◌, ◌≤◌, inl, inr, false, none, some, List, [], ◌∷◌, ◌++◌,
  nat_key, ◌==◌, arith, Option-cases, Bool-cases, ap, sym, ◌∙◌, length, length-append, All,
}
use go_crawling_bazaar.GoMap
use go_crawling_bazaar.GoMap.{GoMap, get-put, get-delete}
use go_crawling_bazaar.Exec.{ok}
use go_crawling_bazaar.Types.Transactions.{Transaction}
use go_crawling_bazaar.Presbyterian.Env.{Env}
use go_crawling_bazaar.Presbyterian.MetaState.Apply.{apply}
use go_crawling_bazaar.Presbyterian.Branch.{
  Branch, tx_hash, put_packed, pack, pack_all, check_in_pool, refuse_packed,
}
use go_crawling_bazaar.Presbyterian.Branch.Produce.{produce_rounds}
use go_crawling_bazaar.Presbyterian.Branch.Pools.{pack-packed, pack_all_ok, pack_all-Packs}

module _ (env : Env) where
  -- The branch after the round of produceBlock that packs `v`.
  abbrev produced_with : Transaction → ℕ → Branch → Branch
  produced_with v h b = put_packed env v (record b {
    preview = (apply env v h b.preview).1;
    unpacked = GoMap.delete b.unpacked (tx_hash env v);
  })

  -- The transaction waits in the pool.
  abbrev pub IsPooled : Branch → Transaction → Type 0
  IsPooled b v = GoMap.get b.unpacked (tx_hash env v) ≢ none

  pack-pooled :
      (v : Transaction) (h : ℕ) (b : Branch)
      → IsPooled b v
      → (pack env v h b).0 ≡ ok tt
      → ((apply env v h b.preview).0 ≡ ok tt) × ((pack env v h b).1 ≡ produced_with v h b)
  unfolding pack check_in_pool refuse_packed
  pack-pooled v h b p e = elim (Option-cases (GoMap.get b.unpacked (tx_hash env v))) [
    | inl u ↦ absurd (p u)
    | inr (t, u) ↦ elim (Option-cases (GoMap.get b.packed (tx_hash env v))) [
      | inr (w, q) ↦ absurd (ground arith)
      | inl q ↦ (ground arith, ground arith)
    ]
  ]

  still-IsPooled :
      (v : Transaction) (h : ℕ) (b : Branch) (after : GoMap ℕ Transaction) (vs : List Transaction)
      → All (IsPooled b) vs
      → All
          (λ w.
            (GoMap.get (pack env v h b).1.packed (tx_hash env w) ≡ none)
            × (GoMap.get after (tx_hash env w) ≡ some w))
          vs
      → (pack env v h b).0 ≡ ok tt
      → (pack env v h b).1 ≡ produced_with v h b
      → All (IsPooled (produced_with v h b)) vs
  still-IsPooled v h b after [] p r e q = tt
  still-IsPooled v h b after (w ∷ vs) p r e q = (
    λ n. p.0 (
        ground (
          arith,
          n,
          get-delete b.unpacked (tx_hash env v) (tx_hash env w),
          (pack-packed env v h b (tx_hash env w) e).1,
          r.0.0,
        )),
    still-IsPooled v h b after vs p.1 r.1 e q,
  )

  -- One round that packs its transaction.
  round :
      (v : Transaction) (vs : List Transaction) (h n : ℕ) (out : List Transaction) (b : Branch)
      → (apply env v h b.preview).0 ≡ ok tt
      → length out + length (v ∷ vs) ≤ n
      → (length (out ++ v ∷ []) + length vs ≤ n
          → produce_rounds env vs h n (out ++ v ∷ []) (produced_with v h b)
            ≡ (ok ((out ++ v ∷ []) ++ vs), (pack_all env vs h (produced_with v h b)).1))
      → produce_rounds env (v ∷ vs) h n out b
        ≡ (ok ((out ++ v ∷ []) ++ vs), (pack_all env vs h (produced_with v h b)).1)
  unfolding produce_rounds pack_all
  round v [] h n out b a l k =
      rw (a, produce_rounds)
        (elim (Bool-cases (length (out ++ v ∷ []) == n)) [
          | inl full ↦
              rw full (ap (λ w. (ok w, produced_with v h b)) (sym (append_nil (out ++ v ∷ []))))
          | inr more ↦
              rw more (ap (λ w. (ok w, produced_with v h b)) (sym (append_nil (out ++ v ∷ []))))
        ])
  round v (w ∷ vs) h n out b a l k =
      let more : (length (out ++ v ∷ []) == n) ≡ false =
        ground (arith, length-append out (v ∷ [])) in
      rw (a, produce_rounds) (rw more (k (ground (arith, length-append out (v ∷ [])))))

  -- If all of a list of transactions wait in the pool, and a node with the same branch packs the list
  -- without an error, then the loop of produceBlock, with room for the list, packs all of it and
  -- leaves the very branch that this node has: its pools and its preview of the ledger.
  pub produce_rounds-pack_all :
      (vs : List Transaction) (h n : ℕ) (out : List Transaction) (b : Branch)
      → All (IsPooled b) vs
      → (pack_all env vs h b).0 ≡ ok tt
      → length out + length vs ≤ n
      → produce_rounds env vs h n out b ≡ (ok (out ++ vs), (pack_all env vs h b).1)
  unfolding produce_rounds pack_all
  produce_rounds-pack_all [] h n out b p e l = ap (λ w. (ok w, b)) (sym (append_nil out))
  produce_rounds-pack_all (v ∷ vs) h n out b p e l =
      let (first, whole) = pack_all_ok env v vs h b e in
      let (applied, same) = pack-pooled v h b p.0 first in
      let rest_ok : (pack_all env vs h (produced_with v h b)).0 ≡ ok tt =
        ap (λ w. (pack_all env vs h w).0) (sym same) ∙ sym (ap (λ w. w.0) whole) ∙ e in
      let rest =
        still-IsPooled v h b (pack_all env vs h (pack env v h b).1).1.packed vs p.1
          (pack_all-Packs env vs h (pack env v h b).1 (sym (ap (λ w. w.0) whole) ∙ e)).0 first
          same in
      let ends : produce_rounds env (v ∷ vs) h n out b
          ≡ (ok ((out ++ v ∷ []) ++ vs), (pack_all env vs h (produced_with v h b)).1) =
        round v vs h n out b applied l (λ m.
          produce_rounds-pack_all vs h n (out ++ v ∷ []) (produced_with v h b) rest rest_ok m) in
      ends
      ∙ ap (λ w. (ok w, (pack_all env vs h (produced_with v h b)).1)) (append_one out v vs)
      ∙ ap (λ w. (ok (out ++ v ∷ vs), (pack_all env vs h w).1)) (sym same)
      ∙ ap (λ w. (ok (out ++ v ∷ vs), w.1)) (sym whole)
