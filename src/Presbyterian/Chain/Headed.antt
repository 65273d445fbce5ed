-- ===== src/Presbyterian/Chain/Headed.antt =====
-- presbyterian/chain.go: the chain that NewChain makes, and what applyBlock and produceAndStoreBlock
-- make of it.
use go_crawling_bazaar.Base.{
  ℕ, ◌+◌, ◌≡◌, some, arith, get_elem?, nat_key, Bool-cases, Option-cases, inl, inr, subst, sym, ap,
  ◌∙◌, Option,
}
use go_crawling_bazaar.Exec.{Outcome-cases}
use go_crawling_bazaar.Presbyterian.Env.{Env}
use go_crawling_bazaar.Presbyterian.BlockNode.{Block, info, new_block_node}
use go_crawling_bazaar.Presbyterian.Branch.{Branch}
use go_crawling_bazaar.Presbyterian.Branch.Produce.{produce_block}
use go_crawling_bazaar.Presbyterian.Branch.Produced.{produce_block_lem}
use go_crawling_bazaar.Presbyterian.Branch.Heads.{head-produce_block}
use go_crawling_bazaar.Presbyterian.Chain.{
  Chain, Database, slot, deref, head_branch_of, write_branch,
}
use go_crawling_bazaar.Presbyterian.Chain.Clock.{Settings, height_of_time}
use go_crawling_bazaar.Presbyterian.Chain.Switch.{replace_and_switch_to_branch}
use go_crawling_bazaar.Presbyterian.Chain.Blocks.{
  find_branch, is_known, apply_at, apply_block, switch_to_produced, write_head,
  produce_and_store_block,
}
use go_crawling_bazaar.Presbyterian.Chain.Slots.{IsHeaded, get_elem?-set-same, get_elem?-bound}
use go_crawling_bazaar.Presbyterian.Chain.Heads.{write_branch-IsHeaded}
use go_crawling_bazaar.Presbyterian.Chain.Switched.{replace_and_switch_to_branch-Within}
use go_crawling_bazaar.Presbyterian.Chain.Room.{
  HasRoom, Grows, Within-widen, grown-IsCounted, find_branch-some, find_branch-none,
}
use go_crawling_bazaar.Presbyterian.Chain.Grown.{grow-Grows, fork-Grows}

module _ (env : Env) where
  write_head-slot :
      (b : Branch) (c : Chain) (i : ℕ)
      → c.head_branch ≡ slot i
      → write_head env b c ≡ write_branch i b c
  unfolding write_head
  write_head-slot b c i e = ground arith

  apply_at-Grows :
      (db : Database) (height : ℕ) (bl : Block) (c : Chain) (s : IsHeaded c)
      → HasRoom c s
      → Grows c s (apply_at env db height bl c).1
  unfolding apply_at
  apply_at-Grows db height bl c s room =
      let now : Grows c s c = (s, ground arith, ground arith) in
      elim (Option-cases (find_branch bl.parent_hash 0 c.branches)) [
        | inr ((i, v), e) ↦
            let (k, at, found) = find_branch-some bl.parent_hash 0 c.branches i v e in
            rw (e, apply_at)
              (grow-Grows env db height bl i v c s room
                (subst (λ j. get_elem? c.branches j ≡ some v) (ground (arith, at)) found))
        | inl e ↦ elim (Bool-cases (is_known height bl.data_hash c.branches)) [
          | inl k ↦ rw (e, apply_at, k) now
          | inr k ↦
              rw (e, apply_at, k)
                (fork-Grows env db height bl c s room
                  (find_branch-none bl.parent_hash 0 c.branches e))
        ]
      ]

  -- If the chain is headed and its longest branch has room for one more block, applyBlock leaves a
  -- headed chain, its longest branch as long as before or one block longer, with any block, any answers
  -- of the database, and any outcome.
  pub apply_block-Grows :
      (cfg : Settings) (db : Database) (bl : Block) (c : Chain) (s : IsHeaded c)
      → HasRoom c s
      → Grows c s (apply_block env cfg db bl c).1
  unfolding apply_block
  apply_block-Grows cfg db bl c s room =
      let now : Grows c s c = (s, ground arith, ground arith) in
      elim (Outcome-cases (height_of_time cfg bl.timestamp)) [
        | inl (h, r) ↦ rw (r, apply_block) (apply_at-Grows db h bl c s room)
        | inr (inl (x, r)) ↦ rw (r, apply_block) now
        | inr (inr r) ↦ rw (r, apply_block) now
      ]

  -- The branch that a block has grown from the head takes the head's place.
  switched :
      (db : Database) (h : ℕ) (bl : Block) (v br : Branch) (c : Chain) (s : IsHeaded c)
      → HasRoom c s
      → get_elem? c.branches c.head_index ≡ some v
      → br.head ≡ new_block_node h bl (some v.head)
      → Grows c s (switch_to_produced env db h bl br c).1
  unfolding switch_to_produced new_block_node info
  switched db h bl v br c s room at is_node =
      let is_head : v ≡ s.head = ground (arith, at, s.at_index) in
      let count_is : (info br.head).count ≡ (info v.head).count + 1 =
        ground (arith, ap (λ n. (info n).count) is_node, ap (λ b. (info b.head).count) is_head) in
      let grown = grown-IsCounted h bl v br c s c.head_index room at is_node in
      let top = (info s.head.head).count in
      let kept =
        replace_and_switch_to_branch-Within env db h bl c.head_index br c s
          (get_elem?-bound c.branches c.head_index v at)
          (ground (arith, ap (λ b. (info b.head).count) is_head)) grown.0 in
      let wide =
        Within-widen top (info br.head).count top (top + 1) _ (ground arith) grown.1 kept in
      elim (Outcome-cases (replace_and_switch_to_branch env db h bl c.head_index br c).0) [
        | inl (a, w) ↦ rw (w, switch_to_produced) wide
        | inr (inl (x, w)) ↦ rw (w, switch_to_produced) wide
        | inr (inr w) ↦ rw (w, switch_to_produced) wide
      ]

  -- Likewise for produceAndStoreBlock.
  pub produce_and_store_block-Grows :
      (seal : Block → Option ℕ) (cfg : Settings) (db : Database) (now : ℕ) (c : Chain)
      (s : IsHeaded c)
      → HasRoom c s
      → Grows c s (produce_and_store_block env seal cfg db now c).1
  unfolding produce_and_store_block write_head deref
  produce_and_store_block-Grows seal cfg db now c s room =
      let top = (info s.head.head).count in
      let same_chain : Grows c s c = (s, ground arith, ground arith) in
      elim (Outcome-cases (height_of_time cfg now)) [
        | inr (inl (x, r)) ↦ rw (r, produce_and_store_block) same_chain
        | inr (inr r) ↦ rw (r, produce_and_store_block) same_chain
        | inl (h, r) ↦
            let found : head_branch_of c ≡ some s.head =
              ap (deref c.branches) s.pointer ∙ s.at_index in
            let made = produce_block env seal h now cfg.address s.head in
            let c' = write_branch c.head_index made.1 c in
            let wrote : write_head env made.1 c ≡ c' =
              write_head-slot made.1 c c.head_index s.pointer in
            let same = head-produce_block env seal h now cfg.address s.head in
            let (s', same_top) =
              write_branch-IsHeaded c.head_index s.head made.1 c s.at_index same s in
            let wrote_only : Grows c s c' =
              (s', ground (arith, same_top), ground (arith, same_top)) in
            elim (Outcome-cases made.0) [
              | inr (inl (x, q)) ↦ rw (r, produce_and_store_block, found, q, wrote) wrote_only
              | inr (inr q) ↦ rw (r, produce_and_store_block, found, q, wrote) wrote_only
              | inl ((br, bl), q) ↦
                  let (parent, few, is_node, apart) =
                    produce_block_lem env seal h now cfg.address s.head br bl q in
                  let there = get_elem?-set-same c.branches c.head_index made.1 s.head s.at_index in
                  let kept =
                    switched db h bl made.1 br c' s' (ground arith) there
                      (is_node ∙ ap (λ n. new_block_node h bl (some n)) (sym same)) in
                  rw (r, produce_and_store_block, found, q, wrote)
                    (Within-widen _ _ top (top + 1) _ (ground (arith, same_top))
                      (ground (arith, same_top)) kept)
            ]
      ]
