-- ===== src/Presbyterian/Branch/Produced.antt =====
-- presbyterian/branch.go: the blocks that a branch produces.
use go_crawling_bazaar.Base.{
  ℕ, ◌+◌, ◌≡◌, ◌≤◌, inl, inr, refl, Option, some, List, [], ◌∷◌, ◌++◌, nat_key, ◌==◌, arith,
  Option-cases, Bool-cases, ap, subst, length, length-append,
}
use go_crawling_bazaar.GoMap
use go_crawling_bazaar.GoMap.{GoMap, get-put, get-delete}
use go_crawling_bazaar.Exec.{Outcome, ok, Outcome-cases}
use go_crawling_bazaar.Types.Transactions.{Transaction}
use go_crawling_bazaar.Presbyterian.Env.{Env, Error}
use go_crawling_bazaar.Presbyterian.MetaState.{MetaState}
use go_crawling_bazaar.Presbyterian.MetaState.Apply.{apply}
use go_crawling_bazaar.Presbyterian.BlockNode.{Block, BlockNode, info, new_block_node}
use go_crawling_bazaar.Presbyterian.Branch.{
  Branch, max_transactions_per_block, tx_hash, make_arena, put_packed,
}
use go_crawling_bazaar.Presbyterian.Branch.Produce.{
  produce_rounds, produce_block, sort_unpacked_txs, pack_limit, unsigned_block,
}
use go_crawling_bazaar.Presbyterian.Branch.Pools.{IsDisjoint}

module _ (env : Env) where
  -- What every round keeps.
  abbrev Kept : Branch → ℕ → Outcome Error (List Transaction) × Branch → Type 0
  Kept b n result =
      (result.1.head ≡ b.head)
      × (IsDisjoint b → IsDisjoint result.1)
      × ((out : List Transaction) → result.0 ≡ ok out → length out ≤ n)

  moved-IsDisjoint :
      (v : Transaction) (b : Branch) (p : MetaState)
      → IsDisjoint b
      → IsDisjoint (
          put_packed env v
            (record b { preview = p; unpacked = GoMap.delete b.unpacked (tx_hash env v) }))
  moved-IsDisjoint v b p d k =
      ground
        (arith, d k, get-delete b.unpacked (tx_hash env v) k, get-put b.packed (tx_hash env v) k v)

  produce_rounds-Kept :
      (vs : List Transaction) (h n : ℕ) (out : List Transaction) (b : Branch)
      → length out + (elim vs [ [] ↦ 0 | _ ∷ _ ↦ 1 ]) ≤ n
      → Kept b n (produce_rounds env vs h n out b)
  unfolding produce_rounds
  produce_rounds-Kept [] h n out b l = (refl, λ d. d, λ o e. ground arith)
  produce_rounds-Kept (v ∷ vs) h n out b l = elim (Outcome-cases (apply env v h b.preview).0) [
    | inr (inr r) ↦ rw (r, produce_rounds) (refl, λ d. d, λ o e. absurd (ground arith))
    | inr (inl (e, r)) ↦
        rw (r, produce_rounds)
          (produce_rounds-Kept vs h n out (record b { preview = (apply env v h b.preview).1 })
            (ground arith))
    | inl (a, r) ↦
        rw (r, produce_rounds)
          (elim (Bool-cases (length (out ++ v ∷ []) == n)) [
            | inl full ↦ rw full (
              refl,
              moved-IsDisjoint v b (apply env v h b.preview).1,
              λ o q. ground (arith, length-append out (v ∷ [])),
            )
            | inr more ↦ rw more (
                let kept =
                  produce_rounds-Kept vs h n (out ++ v ∷ [])
                    (put_packed env v (record b {
                      preview = (apply env v h b.preview).1;
                      unpacked = GoMap.delete b.unpacked (tx_hash env v);
                    }))
                    (ground (arith, length-append out (v ∷ []))) in
                (kept.0, λ d. kept.1 (moved-IsDisjoint v b (apply env v h b.preview).1 d), kept.2))
          ])
  ]

  pack_limit_lem :
      (txs : List Transaction) → 0 + (elim txs [ [] ↦ 0 | _ ∷ _ ↦ 1 ]) ≤ pack_limit env txs
  pack_limit_lem [] = ground arith
  pack_limit_lem (v ∷ vs) = ground arith

  abbrev Produced : ℕ → Branch → Branch × Block → Type 0
  Produced h b result =
      (result.1.parent_hash ≡ (info b.head).hash)
      × (length result.1.transactions ≤ max_transactions_per_block)
      × (result.0.head ≡ new_block_node h result.1 (some b.head))
      × (IsDisjoint b → IsDisjoint result.0)

  -- A block that produceBlock returns stands on the old head and has no more transactions than the
  -- limit; the new head is its node, a child of the old head, and the new branch keeps its pools
  -- apart if the receiver did.
  pub produce_block_lem :
      (seal : Block → Option ℕ) (h ts addr : ℕ) (b b' : Branch) (block : Block)
      → (produce_block env seal h ts addr b).0 ≡ ok (b', block)
      → (block.parent_hash ≡ (info b.head).hash)
        × (length block.transactions ≤ max_transactions_per_block)
        × (b'.head ≡ new_block_node h block (some b.head))
        × (IsDisjoint b → IsDisjoint b')
  unfolding produce_block
  produce_block_lem seal h ts addr b b' block e =
      let txs = sort_unpacked_txs env b in
      let made = produce_rounds env txs h (pack_limit env txs) [] (make_arena b) in
      let kept =
        produce_rounds-Kept txs h (pack_limit env txs) [] (make_arena b) (pack_limit_lem txs) in
      elim (Outcome-cases made.0) [
        | inr (inl (x, r)) ↦ absurd (ground arith)
        | inr (inr r) ↦ absurd (ground arith)
        | inl (out, r) ↦
            elim (Option-cases (seal (unsigned_block (info made.1.head).hash ts addr out))) [
              | inl n ↦ absurd (ground arith)
              | inr (hash, g) ↦
                  let signed : Block = record (unsigned_block (info made.1.head).hash ts addr out) {
                    data_hash = hash;
                  } in
                  let node = λ (p : BlockNode). new_block_node h signed (some p) in
                  let whole : Path (Branch × Block)
                      (record made.1 { head = node made.1.head }, signed) (b', block) =
                    ground arith in
                  subst (Produced h b) whole (
                    ap (λ w. (info w).hash) kept.0,
                    ground (arith, kept.2 out r),
                    ap node kept.0,
                    kept.1,
                  )
            ]
      ]
