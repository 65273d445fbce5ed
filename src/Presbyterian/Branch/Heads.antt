-- ===== src/Presbyterian/Branch/Heads.antt =====
-- presbyterian/branch.go: which operations move the head of a branch.
use go_crawling_bazaar.Base.{
  ℕ, ◌≡◌, refl, List, [], ◌∷◌, arith, ◌∙◌, inl, inr, Option-cases, nat_key, Bool-cases, ltb, Option,
}
use go_crawling_bazaar.GoMap
use go_crawling_bazaar.Word.{add32}
use go_crawling_bazaar.Exec.{ok, Outcome-cases}
use go_crawling_bazaar.Types.Transactions.{Transaction}
use go_crawling_bazaar.Presbyterian.Env.{Env}
use go_crawling_bazaar.Presbyterian.MetaState.{MetaState, make_copy}
use go_crawling_bazaar.Presbyterian.BlockNode.{Block, BlockNode, info, load, fetch_node_list}
use go_crawling_bazaar.Presbyterian.Branch.{
  Branch, Pool, add_tx, check_in_pool, refuse_packed, pack, pack_all, apply_node, apply_nodes,
  new_branch, apply_block, make_arena, clear_packed_txs, clear_unpacked_txs,
  max_transactions_per_block,
}
use go_crawling_bazaar.Presbyterian.Branch.Produce.{
  produce_block, produce_rounds, sort_unpacked_txs, pack_limit, unsigned_block,
}

module _ (env : Env) where
  pub head-add_tx : (tx : Transaction) (b : Branch) → (add_tx env tx b).head ≡ b.head
  unfolding add_tx
  head-add_tx tx b = ground arith

  head-pack : (v : Transaction) (h : ℕ) (b : Branch) → (pack env v h b).1.head ≡ b.head
  unfolding pack check_in_pool refuse_packed
  head-pack v h b = ground arith

  head-pack_all :
      (vs : List Transaction) (h : ℕ) (b : Branch) → (pack_all env vs h b).1.head ≡ b.head
  unfolding pack_all
  head-pack_all [] h b = refl
  head-pack_all (v ∷ vs) h b = elim (Outcome-cases (pack env v h b).0) [
    | inl (a, r) ↦ rw r (head-pack_all vs h (pack env v h b).1 ∙ head-pack v h b)
    | inr (inl (x, r)) ↦ rw r (head-pack v h b)
    | inr (inr r) ↦ rw r (head-pack v h b)
  ]

  head-apply_node : (n : BlockNode) (b : Branch) → (apply_node env n b).1.head ≡ b.head
  unfolding apply_node
  head-apply_node n b = elim (Bool-cases (ltb max_transactions_per_block (info n).tx_count)) [
    | inl e ↦ rw e refl
    | inr e ↦ elim (Option-cases (load n)) [
      | inl l ↦ rw e (rw l refl)
      | inr (block, l) ↦ rw e (rw l (head-pack_all block.transactions (info n).height b))
    ]
  ]

  head-apply_nodes : (ns : List BlockNode) (b : Branch) → (apply_nodes env ns b).1.head ≡ b.head
  unfolding apply_nodes
  head-apply_nodes [] b = refl
  head-apply_nodes (n ∷ ns) b = elim (Outcome-cases (apply_node env n b).0) [
    | inl (a, r) ↦ rw r (head-apply_nodes ns (apply_node env n b).1 ∙ head-apply_node n b)
    | inr (inl (x, r)) ↦ rw r (head-apply_node n b)
    | inr (inr r) ↦ rw r (head-apply_node n b)
  ]

  -- The branch that newBranch returns has the head that was asked for.
  pub head-new_branch :
      (base head : BlockNode) (s : MetaState) (pool : Pool) (br : Branch)
      → new_branch env base head s pool ≡ ok br
      → br.head ≡ head
  unfolding new_branch
  head-new_branch base head s pool br e =
      elim (Option-cases (fetch_node_list (add32 (info base).count 1) head)) [
        | inl f ↦ absurd (ground arith)
        | inr (nodes, f) ↦
            let inst : Branch = record {
              head = head;
              preview = make_copy s;
              packed = GoMap.empty;
              unpacked = pool;
            } in
            let kept = head-apply_nodes nodes inst in
            elim (Outcome-cases (apply_nodes env nodes inst).0) [
              | inl (a, r) ↦ ground (arith, kept)
              | inr (inl (x, r)) ↦ absurd (ground arith)
              | inr (inr r) ↦ absurd (ground arith)
            ]
      ]

  -- What applyBlock and produceBlock leave of the receiver has the receiver's head.
  pub head-apply_block : (n : BlockNode) (b : Branch) → (apply_block env n b).1.head ≡ b.head
  unfolding apply_block
  head-apply_block n b = elim (Option-cases (load n)) [
    | inl l ↦ rw (l, apply_block) refl
    | inr (block, l) ↦
        elim (Outcome-cases (pack_all env block.transactions (info n).height (make_arena b)).0) [
          | inl (a, r) ↦ ground arith
          | inr (inl (x, r)) ↦ ground arith
          | inr (inr r) ↦ ground arith
        ]
  ]

  pub head-produce_block :
      (seal : Block → Option ℕ) (h ts addr : ℕ) (b : Branch)
      → (produce_block env seal h ts addr b).1.head ≡ b.head
  unfolding produce_block
  head-produce_block seal h ts addr b =
      let txs = sort_unpacked_txs env b in
      let made = produce_rounds env txs h (pack_limit env txs) [] (make_arena b) in
      elim (Outcome-cases made.0) [
        | inr (inl (x, r)) ↦ ground arith
        | inr (inr r) ↦ ground arith
        | inl (out, r) ↦
            elim (Option-cases (seal (unsigned_block (info made.1.head).hash ts addr out))) [
              | inl n ↦ ground arith
              | inr (hash, g) ↦ ground arith
            ]
      ]

  pub head-clear_packed_txs :
      (vs : List Transaction) (b : Branch) → (clear_packed_txs env vs b).head ≡ b.head
  unfolding clear_packed_txs
  head-clear_packed_txs [] b = refl
  head-clear_packed_txs (v ∷ vs) b = head-clear_packed_txs vs _

  pub head-clear_unpacked_txs :
      (vs : List Transaction) (b : Branch) → (clear_unpacked_txs env vs b).head ≡ b.head
  unfolding clear_unpacked_txs
  head-clear_unpacked_txs [] b = refl
  head-clear_unpacked_txs (v ∷ vs) b = head-clear_unpacked_txs vs _
