-- ===== src/Presbyterian/Chain/Blocks.antt =====
-- presbyterian/chain.go: the blocks that the chain applies and produces, and the transactions that it
-- takes in.
use go_crawling_bazaar.Base.{
  ℕ, suc, ◌-◌, Bool, true, false, Option, none, some, List, [], ◌∷◌, ◌++◌, nat_key, ◌==◌, leb, ltb,
  if◌then◌else◌,
}
use go_crawling_bazaar.GoMap
use go_crawling_bazaar.Word.{add32}
use go_crawling_bazaar.Exec.{ok, err, panic, lift, ◌>>=◌}
use go_crawling_bazaar.Types.Transactions.{Transaction}
use go_crawling_bazaar.Presbyterian.Env.{Env, Error, parent_not_found, wrapped}
use go_crawling_bazaar.Presbyterian.MetaState.{commit}
use go_crawling_bazaar.Presbyterian.BlockNode.{
  Block, BlockNode, info, new_block_node, ancestor, has_ancestor_with_min_count,
}
use go_crawling_bazaar.Presbyterian.Branch as Branches
use go_crawling_bazaar.Presbyterian.Branch.{Branch, tx_hash, verify, new_branch}
use go_crawling_bazaar.Presbyterian.Branch.Produce.{produce_block}
use go_crawling_bazaar.Presbyterian.Chain.{
  Chain, insert_block, Database, Update, slot, detached, store, head_branch_of, write_branch,
  replace_branch, store_tx,
}
use go_crawling_bazaar.Presbyterian.Chain.Clock.{Settings, height_of_time, may_produce}
use go_crawling_bazaar.Presbyterian.Chain.Switch.{replace_and_switch_to_branch}

-- The branch that the block would grow, with its index.
unfoldable pub find_branch : ℕ → ℕ → List Branch → Option (ℕ × Branch)
find_branch parent_hash i [] = none
find_branch parent_hash i (v ∷ vs) =
    let rest = find_branch parent_hash (suc i) vs in
    if (info v.head).hash == parent_hash then some (i, v) else rest

-- A branch has the block at its height.
unfoldable pub holds_block : ℕ → ℕ → Branch → Bool
holds_block height block_hash v = elim (ancestor height v.head) [
  | none ↦ false
  | some n ↦ (info n).hash == block_hash
]

unfoldable pub is_known : ℕ → ℕ → List Branch → Bool
unfolding holds_block
is_known height block_hash [] = false
is_known height block_hash (v ∷ vs) =
    if holds_block height block_hash v then true else is_known height block_hash vs

-- The first parent that a branch has among the blocks that may still be forked from.
unfoldable pub find_parent : ℕ → ℕ → List Branch → Option BlockNode
find_parent parent_hash min_count [] = none
find_parent parent_hash min_count (v ∷ vs) =
    let rest = find_parent parent_hash min_count vs in
    elim (has_ancestor_with_min_count parent_hash min_count v.head) [
      | none ↦ rest
      | some p ↦ some p
    ]

-- c.branches = append(c.branches, br)
abbrev pub append_branch : Branch → Chain → Chain
append_branch br c = record c { branches = c.branches ++ br ∷ [] }

-- br.preview.commit()
abbrev pub committed : Branch → Branch
committed br = record br { preview = commit br.preview }

module _ (env : Env) where
  -- A block on the head of the branch `v`, which has the index `i`.
  unfoldable pub grow : Database → ℕ → Block → ℕ → Branch → Update (Unit {0})
  unfolding store replace_branch replace_and_switch_to_branch
  grow db height bl i v c =
      let (r, v') = Branches.apply_block env (new_block_node height bl (some v.head)) v in
      let c' = write_branch i v' c in
      elim r [
        | err e ↦ (err (wrapped e), c')
        | panic ↦ (panic, c')
        | ok br ↦ elim (head_branch_of c') [
          | none ↦ (panic, c')
          | some head ↦
              if leb (info br.head).count (info head.head).count
              then store db (insert_block height bl ∷ []) (replace_branch i (committed br)) c'
              else replace_and_switch_to_branch env db height bl i br c'
        ]
      ]

  -- A block on an earlier block of some branch.
  unfoldable pub fork : Database → ℕ → Block → Update (Unit {0})
  unfolding store find_parent
  fork db height bl c = elim (find_parent bl.parent_hash (info c.last_irre).count c.branches) [
    | none ↦ (err parent_not_found, c)
    | some p ↦
        elim (new_branch env c.last_irre (new_block_node height bl (some p)) c.immutable
          c.tx_pool) [
            | err e ↦ (err (wrapped e), c)
            | panic ↦ (panic, c)
            | ok br ↦ store db (insert_block height bl ∷ []) (append_branch br) c
          ]
  ]

  -- applyBlock, at the height of the block's time.
  unfoldable pub apply_at : Database → ℕ → Block → Update (Unit {0})
  unfolding find_branch grow is_known fork
  apply_at db height bl c = elim (find_branch bl.parent_hash 0 c.branches) [
    | some (i, v) ↦ grow db height bl i v c
    | none ↦ if is_known height bl.data_hash c.branches then (ok tt, c) else fork db height bl c
  ]

  -- applyBlock
  unfoldable pub apply_block : Settings → Database → Block → Update (Unit {0})
  unfolding height_of_time apply_at
  apply_block cfg db bl = do height ← lift (height_of_time cfg bl.timestamp); apply_at db height bl

  -- pushBlock; `verifies` is what Verify of the block answers.
  unfoldable pub push_block :
      (Block → Option Error) → Settings → Database → Block → Update (Unit {0})
  unfolding apply_block
  push_block verifies cfg db b c = elim (verifies b) [
    | some e ↦ (err (wrapped e), c)
    | none ↦
        let (r, c') = apply_block cfg db b c in
        elim r [ ok _ ↦ (ok tt, c') | err e ↦ (err (wrapped e), c') | panic ↦ (panic, c') ]
  ]

  -- A write through headBranch.
  unfoldable pub write_head : Branch → Chain → Chain
  write_head b c = elim c.head_branch [
    | slot i ↦ write_branch i b c
    | detached _ ↦ record c { head_branch = detached b }
  ]

  -- The end of produceAndStoreBlock: the head's slot gets the produced branch.
  unfoldable pub switch_to_produced : Database → ℕ → Block → Branch → Update Block
  unfolding replace_and_switch_to_branch
  switch_to_produced db height bl br c =
      let (r, c') = replace_and_switch_to_branch env db height bl c.head_index br c in
      elim r [ err e ↦ (err (wrapped e), c') | panic ↦ (panic, c') | ok _ ↦ (ok bl, c') ]

  -- produceAndStoreBlock
  unfoldable pub produce_and_store_block :
      (Block → Option ℕ) → Settings → Database → ℕ → Update Block
  unfolding height_of_time write_head switch_to_produced produce_block
  produce_and_store_block seal cfg db now c = elim (height_of_time cfg now) [
    | err e ↦ (err e, c)
    | panic ↦ (panic, c)
    | ok height ↦ elim (head_branch_of c) [
      | none ↦ (panic, c)
      | some b ↦
          let (r, b') = produce_block env seal height now cfg.address b in
          let c' = write_head b' c in
          elim r [
            | err e ↦ (err (wrapped e), c')
            | panic ↦ (panic, c')
            | ok (br, bl) ↦ switch_to_produced db height bl br c'
          ]
    ]
  ]

  -- increaseNextHeight
  abbrev pub increase_next_height : Chain → Chain
  increase_next_height c = record c { next_height = add32 c.next_height 1 }

  -- advanceNextHeight: the block to broadcast, if one is produced; an error is only logged. `key` is
  -- whether the local private key can be read.
  unfoldable pub advance_next_height :
      (Block → Option ℕ) → Settings → Database → Bool → ℕ → ℕ → Update (Option Block)
  unfolding may_produce produce_and_store_block
  advance_next_height seal cfg db key now elapsed c = elim (may_produce cfg c.next_height elapsed) [
    | ok true ↦
        if key
        then (let (r, c') = produce_and_store_block seal cfg db now c in
            elim r [
              | ok bl ↦ (ok (some bl), increase_next_height c')
              | err _ ↦ (ok none, increase_next_height c')
              | panic ↦ (panic, c')
            ])
        else (ok none, increase_next_height c)
    | ok false ↦ (ok none, increase_next_height c)
    | err e ↦ (err e, c)
    | panic ↦ (panic, c)
  ]

  abbrev pub max_tx_broadcast_ttl : ℕ
  max_tx_broadcast_ttl = 1

  -- The time to live of the broadcast of a transaction, if there is one.
  unfoldable pub broadcast_ttl : ℕ → Option ℕ
  broadcast_ttl ttl =
      let capped = if ltb max_tx_broadcast_ttl ttl then max_tx_broadcast_ttl else ttl in
      if ltb 0 capped then some (capped - 1) else none

  -- processAddTxReq on a request that is not nil: the time to live of the broadcast, if there is one.
  unfoldable pub process_add_tx_req : Database → ℕ → Transaction → Update (Option ℕ)
  unfolding broadcast_ttl store_tx
  process_add_tx_req db ttl tx c = elim (GoMap.get c.tx_pool (tx_hash env tx)) [
    | some _ ↦ (ok none, c)
    | none ↦ elim (verify env tx) [
      | err _ ↦ (ok none, c)
      | panic ↦ (panic, c)
      | ok _ ↦
          let (r, c') = store_tx env db tx c in
          elim r [ panic ↦ (panic, c') | _ ↦ (ok (broadcast_ttl ttl), c') ]
    ]
  ]
