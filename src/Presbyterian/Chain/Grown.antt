-- ===== src/Presbyterian/Chain/Grown.antt =====
-- presbyterian/chain.go: applying and producing a block keep the invariant of the branches.
use go_crawling_bazaar.Base.{
  ℕ, ◌+◌, ◌≤◌, ◌≡◌, ◌≢◌, refl, some, [], ◌∷◌, arith, All, get_elem?, nat_key, Bool-cases,
  Option-cases, inl, inr, subst, sym, ap, ◌∙◌, leb,
}
use go_crawling_bazaar.Exec.{ok, Outcome-cases}
use go_crawling_bazaar.Presbyterian.Env.{Env}
use go_crawling_bazaar.Presbyterian.BlockNode.{Block, info, new_block_node}
use go_crawling_bazaar.Presbyterian.Branch as Branches
use go_crawling_bazaar.Presbyterian.Branch.{Branch, new_branch}
use go_crawling_bazaar.Presbyterian.Branch.Pools.{apply_block-Packs}
use go_crawling_bazaar.Presbyterian.Branch.Heads.{head-apply_block, head-new_branch}
use go_crawling_bazaar.Presbyterian.Chain.{
  Chain, Database, store, insert_block, deref, head_branch_of, write_branch, replace_branch,
}
use go_crawling_bazaar.Presbyterian.Chain.Blocks.{find_parent, grow, fork, committed, append_branch}
use go_crawling_bazaar.Presbyterian.Chain.Slots.{
  Fits, IsHeaded, Within, All-at, get_elem?-bound, get_elem?-set-same,
}
use go_crawling_bazaar.Presbyterian.Chain.Heads.{
  store-keeps, written-Within, write_branch-IsHeaded, replace_branch-Within, append_branch-Within,
}
use go_crawling_bazaar.Presbyterian.Chain.Switched.{replace_and_switch_to_branch-Within}
use go_crawling_bazaar.Presbyterian.Chain.Room.{
  HasRoom, Grows, Within-widen, find_parent-Fits, new_block_node-Fits, grown-IsCounted,
}

module _ (env : Env) where
  pub fork-Grows :
      (db : Database) (height : ℕ) (bl : Block) (c : Chain) (s : IsHeaded c)
      → HasRoom c s
      → All (λ b. (info b.head).hash ≢ bl.parent_hash) c.branches
      → Grows c s (fork env db height bl c).1
  unfolding fork
  fork-Grows db height bl c s room other =
      let top = (info s.head.head).count in
      let now : Within top (top + 1) c = (s, ground arith, ground arith) in
      elim (Option-cases (find_parent bl.parent_hash (info c.last_irre).count c.branches)) [
        | inl e ↦ rw (e, fork) now
        | inr (p, e) ↦
            let made =
              new_branch env c.last_irre (new_block_node height bl (some p)) c.immutable
                c.tx_pool in
            elim (Outcome-cases made) [
              | inr (inl (x, r)) ↦ rw (e, fork, r) now
              | inr (inr r) ↦ rw (e, fork, r) now
              | inl (br, r) ↦
                  let (v, low, a) =
                    find_parent-Fits c.last_irre (info s.head.head).count bl.parent_hash c.branches
                      p s.fit other e in
                  let fits =
                    new_block_node-Fits c.last_irre (info s.head.head).count height bl p v low
                      (ground arith) a in
                  let is_head =
                    head-new_branch env c.last_irre (new_block_node height bl (some p)) c.immutable
                      c.tx_pool br r in
                  rw (e, fork, r)
                    (store-keeps (Within top (top + 1)) db (insert_block height bl ∷ [])
                      (append_branch br) c (written-Within top (top + 1)) now
                      (Within-widen top top top (top + 1) _ (ground arith) (ground arith) (
                        append_branch-Within br c s
                          (subst (Fits c.last_irre (info s.head.head).count) (sym is_head) fits))))
            ]
      ]

  -- The block's node is the head of the branch that applyBlock returns.
  head-grown :
      (height : ℕ) (bl : Block) (v br : Branch)
      → (Branches.apply_block env (new_block_node height bl (some v.head)) v).0 ≡ ok br
      → br.head ≡ new_block_node height bl (some v.head)
  unfolding new_block_node info
  head-grown height bl v br e =
      let (on_head, few, is_node, packs) =
        apply_block-Packs env (new_block_node height bl (some v.head)) bl v br refl e in
      is_node

  -- A grown branch that stays no longer than the head is not the head's.
  stored-Grows :
      (db : Database) (height : ℕ) (bl : Block) (i : ℕ) (v br : Branch) (c : Chain) (s : IsHeaded c)
      → HasRoom c s
      → get_elem? c.branches i ≡ some v
      → br.head ≡ new_block_node height bl (some v.head)
      → (info br.head).count ≤ (info s.head.head).count
      → Grows c s (store db (insert_block height bl ∷ []) (replace_branch i (committed br)) c).1
  unfolding new_block_node info
  stored-Grows db height bl i v br c s room at is_node short =
      let top = (info s.head.head).count in
      let (counted, low, a) = All-at (λ b. Fits c.last_irre top b.head) c.branches i v s.fit at in
      let count_is : (info br.head).count ≡ (info v.head).count + 1 =
        ground (arith, ap (λ n. (info n).count) is_node) in
      let other : i ≢ c.head_index = λ e.
        let v_is : v ≡ s.head = ground (arith, at, s.at_index, ap (get_elem? c.branches) e) in
        ground (arith, ap (λ b. (info b.head).count) v_is) in
      let fits =
        new_block_node-Fits c.last_irre top height bl v.head counted (ground arith) (ground arith)
          a in
      store-keeps (Within top (top + 1)) db (insert_block height bl ∷ [])
        (replace_branch i (committed br)) c (written-Within top (top + 1))
        (s, ground arith, ground arith)
        (Within-widen top top top (top + 1) _ (ground arith) (ground arith) (
          replace_branch-Within i (committed br) c s other
            (subst (Fits c.last_irre top) (sym is_node) fits)))

  pub grow-Grows :
      (db : Database) (height : ℕ) (bl : Block) (i : ℕ) (v : Branch) (c : Chain) (s : IsHeaded c)
      → HasRoom c s
      → get_elem? c.branches i ≡ some v
      → Grows c s (grow env db height bl i v c).1
  unfolding grow deref
  grow-Grows db height bl i v c s room at =
      let top = (info s.head.head).count in
      let node = new_block_node height bl (some v.head) in
      let made = Branches.apply_block env node v in
      let same = head-apply_block env node v in
      let c' = write_branch i made.1 c in
      let (s', same_top) = write_branch-IsHeaded i v made.1 c at same s in
      let now : Within top (top + 1) c' =
        (s', ground (arith, same_top), ground (arith, same_top)) in
      elim (Outcome-cases made.0) [
        | inr (inl (x, r)) ↦ rw (r, grow) now
        | inr (inr r) ↦ rw (r, grow) now
        | inl (br, r) ↦
            let there = get_elem?-set-same c.branches i made.1 v at in
            let is_node : br.head ≡ new_block_node height bl (some made.1.head) =
              head-grown height bl v br r
              ∙ ap (λ n. new_block_node height bl (some n)) (sym same) in
            let found : head_branch_of c' ≡ some s'.head =
              ap (deref c'.branches) s'.pointer ∙ s'.at_index in
            let room' : HasRoom c' s' = ground arith in
            let grown = grown-IsCounted height bl made.1 br c' s' i room' there is_node in
            elim (Bool-cases (leb (info br.head).count (info s'.head.head).count)) [
              | inl short ↦
                  rw (r, grow, found, short)
                    (Within-widen _ _ top (top + 1) _ (ground (arith, same_top))
                      (ground (arith, same_top))
                      (stored-Grows db height bl i made.1 br c' s' room' there is_node
                        (ground arith)))
              | inr long ↦
                  rw (r, grow, found, long)
                    (Within-widen _ _ top (top + 1) _ (ground (arith, same_top))
                      (ground (arith, same_top, grown.1))
                      (replace_and_switch_to_branch-Within env db height bl i br c' s'
                        (get_elem?-bound c'.branches i made.1 there) (ground arith) grown.0))
            ]
      ]
