-- ===== src/Presbyterian/Branch/Produce.antt =====
-- presbyterian/branch.go: the production of a block from the pool of a branch.
use go_crawling_bazaar.Base.{
  ℕ, Bool, true, false, Option, none, some, List, [], ◌∷◌, ◌++◌, nat_key, ◌==◌, ltb, length,
  if◌then◌else◌,
}
use go_crawling_bazaar.GoMap
use go_crawling_bazaar.GoMap.{GoMap}
use go_crawling_bazaar.Hash.{as_bytes, bytes_less}
use go_crawling_bazaar.Exec.{ok, err, panic}
use go_crawling_bazaar.Types.Transactions.{Transaction}
use go_crawling_bazaar.Presbyterian.Env.{Env, encoding_failed, wrapped}
use go_crawling_bazaar.Presbyterian.MetaState.Apply.{apply}
use go_crawling_bazaar.Presbyterian.BlockNode.{Block, info, new_block_node}
use go_crawling_bazaar.Presbyterian.Branch.{
  Branch, Step, max_transactions_per_block, make_arena, shared, account_nonce, account_address,
  tx_hash, put_packed,
}

-- The block before it is signed.
abbrev pub unsigned_block : ℕ → ℕ → ℕ → List Transaction → Block
unsigned_block parent_hash ts addr out = record {
  data_hash = 0;
  parent_hash = parent_hash;
  producer = addr;
  timestamp = ts;
  transactions = out;
}

module _ (env : Env) where
  -- The order of sortUnpackedTxs: by address, then by nonce.
  unfoldable pub tx_less : Transaction → Transaction → Bool
  unfolding account_address account_nonce
  tx_less s t =
      if account_address env s == account_address env t
      then ltb (account_nonce s) (account_nonce t)
      else bytes_less (as_bytes (account_address env s)) (as_bytes (account_address env t))

  unfoldable pub insert_tx : Transaction → List Transaction → List Transaction
  unfolding tx_less
  insert_tx t [] = t ∷ []
  insert_tx t (u ∷ us) = if tx_less u t then u ∷ insert_tx t us else t ∷ u ∷ us

  unfoldable pub sort_txs : List (ℕ × Transaction) → List Transaction
  unfolding insert_tx
  sort_txs [] = []
  sort_txs (kv ∷ kvs) = insert_tx kv.1 (sort_txs kvs)

  -- sortUnpackedTxs, one of the sorted orders.
  abbrev pub sort_unpacked_txs : Branch → List Transaction
  sort_unpacked_txs b = sort_txs (GoMap.range b.unpacked)

  -- The loop of produceBlock. A transaction that fails is skipped, and what it wrote stays.
  unfoldable pub produce_rounds :
      List Transaction → ℕ → ℕ → List Transaction → Step (List Transaction)
  produce_rounds [] h pack_count out b = (ok out, b)
  produce_rounds (v ∷ vs) h pack_count out b =
      let (r, p) = apply env v h b.preview in
      elim r [
        | panic ↦ (panic, record b { preview = p })
        | err e ↦ produce_rounds vs h pack_count out (record b { preview = p })
        | ok _ ↦
            let b' =
              put_packed env v
                (record b { preview = p; unpacked = GoMap.delete b.unpacked (tx_hash env v) }) in
            let out' = out ++ v ∷ [] in
            elim (length out' == pack_count) [
              | true ↦ (ok out', b')
              | false ↦ produce_rounds vs h pack_count out' b'
            ]
      ]

  abbrev pub pack_limit : List Transaction → ℕ
  pack_limit txs =
      if ltb (length txs) max_transactions_per_block then length txs else max_transactions_per_block

  -- produceBlock: the new branch and the block, with what is left of the receiver. `seal` is
  -- PackAndSignBlock, the hash of the signed block.
  unfoldable pub produce_block : (Block → Option ℕ) → ℕ → ℕ → ℕ → Step (Branch × Block)
  unfolding produce_rounds
  produce_block seal h ts addr b =
      let txs = sort_unpacked_txs b in
      let (r, cpy) = produce_rounds txs h (pack_limit txs) [] (make_arena b) in
      elim r [
        | panic ↦ (panic, shared cpy b)
        | err e ↦ (err e, shared cpy b)
        | ok out ↦
            let unsigned = unsigned_block (info cpy.head).hash ts addr out in
            elim (seal unsigned) [
              | none ↦ (err (wrapped encoding_failed), shared cpy b)
              | some hash ↦
                  let block : Block = record unsigned { data_hash = hash } in
                  (
                    ok (record cpy { head = new_block_node h block (some cpy.head) }, block),
                    shared cpy b,
                  )
            ]
      ]
