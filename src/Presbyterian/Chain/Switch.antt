-- ===== src/Presbyterian/Chain/Switch.antt =====
-- presbyterian/chain.go: replaceAndSwitchToBranch, which makes a grown branch the head, confirms the
-- blocks that have become irreversible, and prunes the branches that do not hold them.
use go_crawling_bazaar.Base.{
  ℕ, suc, Bool, true, false, none, some, List, [], ◌∷◌, ◌++◌, nat_key, ◌==◌, ltb, length, map,
  if◌then◌else◌,
}
use go_crawling_bazaar.GoMap
use go_crawling_bazaar.Word.{add32}
use go_crawling_bazaar.Exec.{Outcome, ok, err, panic, Exec, pure, ◌>>◌}
use go_crawling_bazaar.Types.Transactions.{Transaction}
use go_crawling_bazaar.Presbyterian.Env.{Env, Error}
use go_crawling_bazaar.Presbyterian.MetaState.{MetaState, commit, clean}
use go_crawling_bazaar.Presbyterian.MetaState.Tokens.{next_nonce}
use go_crawling_bazaar.Presbyterian.MetaState.Apply.{apply, compile_changes}
use go_crawling_bazaar.Presbyterian.BlockNode.{
  Block, BlockNode, info, load, last_irreversible, fetch_node_list, has_ancestor,
}
use go_crawling_bazaar.Presbyterian.Branch.{
  Branch, Pool, tx_hash, account_address, account_nonce, clear_packed_txs, clear_unpacked_txs,
}
use go_crawling_bazaar.Presbyterian.Chain.{
  Chain, Procedure, insert_block, build_block_index, update_irreversible, delete_txs, ledger_change,
  Database, Update, slot, detached, store,
}

-- The immutable state and resultTxPool.
abbrev pub Confirming : Type 0
Confirming = MetaState × Pool

-- b.load().Transactions, for a node that is loaded.
unfoldable pub node_txs : BlockNode → List Transaction
node_txs n = elim (load n) [ none ↦ [] | some b ↦ b.transactions ]

-- The loop over the branches: those that are kept, and the index of the new one. `i` is the index of
-- the first of the branches left.
unfoldable pub prune : BlockNode → ℕ → Branch → ℕ → List Branch → List Branch × ℕ → List Branch × ℕ
prune last_irre origin new i [] acc = acc
prune last_irre origin new i (b ∷ bs) (brs, idx) =
    if i == origin
    then prune last_irre origin new (suc i) bs (brs ++ new ∷ [], length brs)
    else if has_ancestor last_irre b.head
    then prune last_irre origin new (suc i) bs (brs ++ b ∷ [], idx)
    else prune last_irre origin new (suc i) bs (brs, idx)

module _ (env : Env) where
  -- The transactions of a block in the immutable state; an error is fatal. The account of a BaseAccount
  -- is taken as it was sent: that a preview may have changed it in the shared object is not modelled.
  unfoldable pub confirm_txs : List Transaction → ℕ → Exec Error Confirming (Unit {0})
  confirm_txs [] h st = (ok tt, st)
  confirm_txs (tx ∷ txs) h (s, pool) =
      let (r, s') = apply env tx h s in
      elim r [
        | ok _ ↦ confirm_txs txs h (s', GoMap.delete pool (tx_hash env tx))
        | _ ↦ (panic, (s', pool))
      ]

  unfoldable pub confirm_node : BlockNode → Exec Error Confirming (Unit {0})
  unfolding confirm_txs
  confirm_node n st = elim (load n) [
    | none ↦ (panic, st)
    | some b ↦ confirm_txs b.transactions (info n).height st
  ]

  unfoldable pub confirm_nodes : List BlockNode → Exec Error Confirming (Unit {0})
  unfolding confirm_node
  confirm_nodes [] = pure tt
  confirm_nodes (n ∷ ns) = confirm_node n >> confirm_nodes ns

  -- The test of the expiration; the nil pointer of a pending deletion panics.
  unfoldable pub is_expired : MetaState → Transaction → Outcome Error Bool
  is_expired s v = elim (next_nonce (account_address env v) s).0 [
    | ok base ↦ ok (ltb (account_nonce v) base)
    | err _ ↦ ok true
    | panic ↦ panic
  ]

  -- The loop over resultTxPool: the expired transactions, in order, and the pool without them.
  unfoldable pub expire :
      MetaState
      → List (ℕ × Transaction)
      → List Transaction × Pool
      → Outcome Error (List Transaction × Pool)
  unfolding is_expired
  expire s [] acc = ok acc
  expire s (kv ∷ kvs) (expired, pool) = elim (is_expired s kv.1) [
    | ok true ↦ expire s kvs (expired ++ kv.1 ∷ [], GoMap.delete pool kv.0)
    | ok false ↦ expire s kvs (expired, pool)
    | err e ↦ err e
    | panic ↦ panic
  ]

  unfoldable pub clear_packed_nodes : List BlockNode → Branch → Branch
  unfolding node_txs
  clear_packed_nodes [] b = b
  clear_packed_nodes (n ∷ ns) b = clear_packed_nodes ns (clear_packed_txs env (node_txs n) b)

  -- What the last loops leave of each branch.
  unfoldable pub clear_branch : List BlockNode → List Transaction → Branch → Branch
  unfolding clear_packed_nodes
  clear_branch irres expired b = clear_unpacked_txs env expired (clear_packed_nodes irres b)

  -- The callback `up`. Where no slot is the origin, the new branch is in none and the index is 0.
  unfoldable pub switch :
      BlockNode → List BlockNode → List Transaction → Pool → ℕ → Branch → Chain → Chain
  unfolding prune clear_branch
  switch last_irre irres expired pool origin new c =
      let committed : Branch = record new { preview = commit new.preview } in
      let (brs, idx) = prune last_irre origin committed 0 c.branches ([], 0) in
      record c {
        last_irre = last_irre;
        immutable = commit c.immutable;
        branches = map (clear_branch irres expired) brs;
        head_index = idx;
        head_branch = if ltb origin (length c.branches) then slot idx else detached new;
        tx_pool = pool;
      }

  -- deleteTxs(n.load().Transactions), for each node.
  unfoldable pub delete_irres : List BlockNode → List Procedure
  unfolding node_txs
  delete_irres [] = []
  delete_irres (n ∷ ns) = delete_txs (node_txs n) ∷ delete_irres ns

  unfoldable pub delete_expired : List Transaction → List Procedure
  delete_expired [] = []
  delete_expired (t ∷ ts) = delete_txs (t ∷ ts) ∷ []

  -- The procedures that a switch stores.
  unfoldable pub switch_procedures :
      MetaState → ℕ → Block → List BlockNode → List Transaction → BlockNode → List Procedure
  unfolding delete_irres delete_expired
  switch_procedures s height block irres expired last_irre =
      map ledger_change (compile_changes s [])
      ++ insert_block height block ∷ build_block_index height block ∷ delete_irres irres
      ++ delete_expired expired
      ++ update_irreversible (info last_irre).hash ∷ []

  -- A failed `store` drops the pending changes of the immutable state.
  unfoldable pub store_switch : Database → List Procedure → (Chain → Chain) → Update (Unit {0})
  unfolding store
  store_switch db sps up c =
      let (r, c') = store db sps up c in
      elim r [
        | err e ↦ (err e, record c' { immutable = clean c'.immutable })
        | ok _ ↦ (ok tt, c')
        | panic ↦ (panic, c')
      ]

  -- The part after the new irreversible blocks are known.
  unfoldable pub confirm_and_switch :
      Database → ℕ → Block → ℕ → Branch → BlockNode → List BlockNode → Update (Unit {0})
  unfolding confirm_nodes expire switch_procedures store_switch switch
  confirm_and_switch db height block origin new last_irre irres c =
      let (r, (s, pool)) = confirm_nodes irres (c.immutable, c.tx_pool) in
      let c' : Chain = record c { immutable = s } in
      elim r [
        | ok _ ↦ elim (expire s (GoMap.range pool) ([], pool)) [
          | ok (expired, rest) ↦
              store_switch db (switch_procedures s height block irres expired last_irre)
                (switch last_irre irres expired rest origin new) c'
          | err e ↦ (err e, c')
          | panic ↦ (panic, c')
        ]
        | err e ↦ (err e, c')
        | panic ↦ (panic, c')
      ]

  -- replaceAndSwitchToBranch
  unfoldable pub replace_and_switch_to_branch :
      Database → ℕ → Block → ℕ → Branch → Update (Unit {0})
  unfolding confirm_and_switch
  replace_and_switch_to_branch db height block origin new c =
      elim (last_irreversible c.confirms new.head) [
        | none ↦ (panic, c)
        | some last_irre ↦ elim (fetch_node_list (add32 (info c.last_irre).count 1) last_irre) [
          | none ↦ (panic, c)
          | some irres ↦ confirm_and_switch db height block origin new last_irre irres c
        ]
      ]
