-- ===== src/Presbyterian/Branch/Pools.antt =====
-- presbyterian/branch.go: the two pools of a branch.
use go_crawling_bazaar.Base.{
  ℕ, ◌≡◌, ◌⊎◌, inl, inr, refl, none, some, List, [], ◌∷◌, nat_key, ◌==◌, arith, if◌then◌else◌, ap,
  sym, subst, ◌≤◌, All, ◌∙◌,
}
use go_crawling_bazaar.GoMap
use go_crawling_bazaar.GoMap.{GoMap, get-put, get-delete, get-empty}
use go_crawling_bazaar.Exec.{ok, Outcome-cases}
use go_crawling_bazaar.Types.Transactions.{Transaction}
use go_crawling_bazaar.Presbyterian.Env.{Env}
use go_crawling_bazaar.Presbyterian.BlockNode.{Block, BlockNode, info, load}
use go_crawling_bazaar.Presbyterian.Branch.{
  Branch, Pool, max_transactions_per_block, tx_hash, add_tx, check_in_pool, refuse_packed, pack,
  pack_all, apply_block, make_arena,
}

-- No hash is in both pools.
abbrev pub IsDisjoint : Branch → Type 0
IsDisjoint b = (k : ℕ) → (GoMap.get b.packed k ≡ none) ⊎ (GoMap.get b.unpacked k ≡ none)

module _ (env : Env) where
  -- A new transaction goes to one pool at most: addTx keeps the pools apart.
  pub add_tx-IsDisjoint :
      (tx : Transaction) (b : Branch) → IsDisjoint b → IsDisjoint (add_tx env tx b)
  unfolding add_tx
  add_tx-IsDisjoint tx b d k = ground (arith, d k, get-put b.unpacked (tx_hash env tx) k tx)

  pack-IsDisjoint :
      (v : Transaction) (h : ℕ) (b : Branch) → IsDisjoint b → IsDisjoint (pack env v h b).1
  unfolding pack check_in_pool refuse_packed
  pack-IsDisjoint v h b d k =
      ground
        (arith, d k, get-delete b.unpacked (tx_hash env v) k, get-put b.packed (tx_hash env v) k v)

  -- A transaction that a block adds was not packed, is packed now, and no other hash is touched.
  pub pack-packed :
      (v : Transaction) (h : ℕ) (b : Branch) (k : ℕ)
      → (pack env v h b).0 ≡ ok tt
      → (GoMap.get b.packed (tx_hash env v) ≡ none)
        × (GoMap.get (pack env v h b).1.packed k
            ≡ (if tx_hash env v == k then some v else GoMap.get b.packed k))
  unfolding pack check_in_pool refuse_packed
  pack-packed v h b k e = ground (arith, get-put b.packed (tx_hash env v) k v)

  pub pack_all_ok :
      (v : Transaction) (vs : List Transaction) (h : ℕ) (b : Branch)
      → (pack_all env (v ∷ vs) h b).0 ≡ ok tt
      → ((pack env v h b).0 ≡ ok tt)
        × (pack_all env (v ∷ vs) h b ≡ pack_all env vs h (pack env v h b).1)
  unfolding pack_all
  pack_all_ok v vs h b e = elim (Outcome-cases (pack env v h b).0) [
    | inl (a, r) ↦ (r, rw r refl)
    | inr (inl (x, r)) ↦ absurd (ground arith)
    | inr (inr r) ↦ absurd (ground arith)
  ]

  pack_all-IsDisjoint :
      (vs : List Transaction) (h : ℕ) (b : Branch)
      → IsDisjoint b
      → IsDisjoint (pack_all env vs h b).1
  unfolding pack_all
  pack_all-IsDisjoint [] h b d = d
  pack_all-IsDisjoint (v ∷ vs) h b d = elim (Outcome-cases (pack env v h b).0) [
    | inl (a, r) ↦ rw r (pack_all-IsDisjoint vs h (pack env v h b).1 (pack-IsDisjoint v h b d))
    | inr (inl (x, r)) ↦ rw r (pack-IsDisjoint v h b d)
    | inr (inr r) ↦ rw r (pack-IsDisjoint v h b d)
  ]

  -- What a list of transactions does to the pool of the packed ones, if no error stops it.
  abbrev pub Packs : List Transaction → Pool → Pool → Type 0
  Packs vs before after =
      All
        (λ v.
          (GoMap.get before (tx_hash env v) ≡ none) × (GoMap.get after (tx_hash env v) ≡ some v))
        vs
      × ((k : ℕ) (t : Transaction) → GoMap.get before k ≡ some t → GoMap.get after k ≡ some t)

  All-before :
      (v : Transaction) (vs : List Transaction) (before middle after : Pool)
      → ((k : ℕ) → GoMap.get middle k ≡ (if tx_hash env v == k then some v else GoMap.get before k))
      → All
          (λ w.
            (GoMap.get middle (tx_hash env w) ≡ none) × (GoMap.get after (tx_hash env w) ≡ some w))
          vs
      → All
          (λ w.
            (GoMap.get before (tx_hash env w) ≡ none) × (GoMap.get after (tx_hash env w) ≡ some w))
          vs
  All-before v [] before middle after m h = tt
  All-before v (w ∷ vs) before middle after m h =
      ((ground (arith, m (tx_hash env w), h.0.0), h.0.1), All-before v vs before middle after m h.1)

  pub pack_all-Packs :
      (vs : List Transaction) (h : ℕ) (b : Branch)
      → (pack_all env vs h b).0 ≡ ok tt
      → Packs vs b.packed (pack_all env vs h b).1.packed
  unfolding pack_all
  pack_all-Packs [] h b e = (tt, λ k t q. q)
  pack_all-Packs (v ∷ vs) h b e =
      let (first, whole) = pack_all_ok v vs h b e in
      let (rest, kept) = pack_all-Packs vs h (pack env v h b).1 (sym (ap (λ w. w.0) whole) ∙ e) in
      let middle = λ (k : ℕ). (pack-packed v h b k first).1 in
      subst (λ w. Packs (v ∷ vs) b.packed w.1.packed) (sym whole)
        (
          (
            (
              (pack-packed v h b 0 first).0,
              kept (tx_hash env v) v (ground (arith, middle (tx_hash env v))),
            ),
            All-before v vs b.packed (pack env v h b).1.packed _ middle rest,
          ),
          λ k t q. kept k t (ground (arith, middle k, (pack-packed v h b 0 first).0)),
        )

  apply_block_ok :
      (n : BlockNode) (block : Block) (b b' : Branch)
      → load n ≡ some block
      → (apply_block env n b).0 ≡ ok b'
      → ((info b.head).hash ≡ block.parent_hash)
        × ((info n).tx_count ≤ max_transactions_per_block)
        × ((pack_all env block.transactions (info n).height (make_arena b)).0 ≡ ok tt)
        × (record (pack_all env block.transactions (info n).height (make_arena b)).1 { head = n }
            ≡ b')
  unfolding apply_block
  apply_block_ok n block b b' l e =
      elim (Outcome-cases (pack_all env block.transactions (info n).height (make_arena b)).0) [
        | inl (a, r) ↦ (ground arith, ground arith, r, ground arith)
        | inr (inl (x, r)) ↦ absurd (ground arith)
        | inr (inr r) ↦ absurd (ground arith)
      ]

  -- If applyBlock returns a branch, the block stands on the old head and has no more transactions
  -- than the limit, the node is the new head, and every transaction of the block was not packed
  -- before and is packed now, beside all that were packed before.
  pub apply_block-Packs :
      (n : BlockNode) (block : Block) (b b' : Branch)
      → load n ≡ some block
      → (apply_block env n b).0 ≡ ok b'
      → ((info b.head).hash ≡ block.parent_hash)
        × ((info n).tx_count ≤ max_transactions_per_block)
        × (b'.head ≡ n)
        × Packs block.transactions b.packed b'.packed
  apply_block-Packs n block b b' l e =
      let (on_head, few, r, q) = apply_block_ok n block b b' l e in
      (
        on_head,
        few,
        sym (ap (λ w. w.head) q),
        subst (λ w. Packs block.transactions b.packed w.packed) q
            (pack_all-Packs block.transactions (info n).height (make_arena b) r),
      )

  -- The branch that applyBlock returns keeps its pools apart if the receiver did.
  pub apply_block-IsDisjoint :
      (n : BlockNode) (block : Block) (b b' : Branch)
      → load n ≡ some block
      → (apply_block env n b).0 ≡ ok b'
      → IsDisjoint b
      → IsDisjoint b'
  apply_block-IsDisjoint n block b b' l e d =
      let (on_head, few, r, q) = apply_block_ok n block b b' l e in
      subst IsDisjoint q (pack_all-IsDisjoint block.transactions (info n).height (make_arena b) d)
