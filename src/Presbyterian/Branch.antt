-- ===== src/Presbyterian/Branch.antt =====
-- presbyterian/branch.go: a branch of the chain, its head, its preview of the ledger and its pools of
-- transactions, by their hashes.
pub mod Pools
pub mod Produce
pub mod Produced
pub mod Agreement
pub mod Heads
use go_crawling_bazaar.Base.{
  ℕ, zero, suc, ◌+◌, Bool, true, false, Option, none, some, List, [], ◌∷◌, ◌++◌, nat_key, ◌==◌, not,
  ltb, length, if◌then◌else◌,
}
use go_crawling_bazaar.GoMap
use go_crawling_bazaar.GoMap.{GoMap}
use go_crawling_bazaar.Hash.{as_bytes, bytes_less}
use go_crawling_bazaar.Word.{add32}
use go_crawling_bazaar.Exec.{Outcome, ok, err, panic, Exec, pure, ask, lift, modify, ◌>>=◌, ◌>>◌}
use go_crawling_bazaar.Types.Transactions.{
  Transaction, transfer, base_account, provide_service, create_domain, update_permission,
  issue_keys, update_billing, wrapper, other,
}
use go_crawling_bazaar.Presbyterian.Env.{
  Env, Error, existed_tx, parent_not_match, too_many_transactions_in_block, invalid_signature,
  encoding_failed, wrapped, signee_address,
}
use go_crawling_bazaar.Presbyterian.MetaState.{MetaState, make_copy, clean, commit}
use go_crawling_bazaar.Presbyterian.MetaState.Apply.{apply}
use go_crawling_bazaar.Presbyterian.BlockNode.{
  Block, BlockNode, info, load, new_block_node, fetch_node_list,
}

abbrev pub max_transactions_per_block : ℕ
max_transactions_per_block = 10000

abbrev pub Pool : Type 0
Pool = GoMap ℕ Transaction

pub record Branch : Type 0 where
  pub head : BlockNode
  pub preview : MetaState
  pub packed : Pool
  pub unpacked : Pool

abbrev pub Step : Type 0 → Type 0
Step = Exec Error Branch

-- makeArena. The preview shares its committed values with the receiver's.
abbrev pub make_arena : Branch → Branch
make_arena b = record b { preview = clean b.preview }

-- What a write through the committed values of an arena does to the branch it was made from.
abbrev pub shared : Branch → Branch → Branch
shared arena b = record b { preview = record b.preview { readonly = arena.preview.readonly } }

-- GetAccountNonce
unfoldable pub account_nonce : Transaction → ℕ
account_nonce (transfer t) = t.nonce
account_nonce (base_account a) = 0
account_nonce (provide_service t) = t.nonce
account_nonce (create_domain t) = t.nonce
account_nonce (update_permission t) = t.nonce
account_nonce (issue_keys t) = t.nonce
account_nonce (update_billing t) = t.nonce
account_nonce (wrapper t) = account_nonce t
account_nonce other = 0

module _ (env : Env) where
  -- Hash: a base account has the zero hash.
  unfoldable pub tx_hash : Transaction → ℕ
  tx_hash (base_account a) = 0
  tx_hash (wrapper t) = tx_hash t
  tx_hash t = env.signed_hash t

  -- Verify: a base account always passes.
  unfoldable pub verify : Transaction → Outcome Error (Unit {0})
  verify (base_account a) = ok tt
  verify (wrapper t) = verify t
  verify t = if env.signature_valid t then ok tt else err invalid_signature

  -- GetAccountAddress; nothing is known of the transactions that the main chain does not apply.
  unfoldable pub account_address : Transaction → ℕ
  account_address (transfer t) = t.sender
  account_address (base_account a) = a.address
  account_address (provide_service t) = signee_address env t.signee
  account_address (create_domain t) = signee_address env t.signee
  account_address (update_permission t) = signee_address env t.signee
  account_address (issue_keys t) = signee_address env t.signee
  account_address (update_billing t) = signee_address env t.signee
  account_address (wrapper t) = account_address t
  account_address other = 0

  -- addTx
  unfoldable pub add_tx : Transaction → Branch → Branch
  unfolding tx_hash
  add_tx tx b = elim (GoMap.get b.packed (tx_hash tx)) [
    | some _ ↦ b
    | none ↦ elim (GoMap.get b.unpacked (tx_hash tx)) [
      | some _ ↦ b
      | none ↦ record b { unpacked = GoMap.put b.unpacked (tx_hash tx) tx }
    ]
  ]

  -- A pooled transaction leaves the pool; any other is verified.
  unfoldable pub check_in_pool : Transaction → Step (Unit {0})
  unfolding tx_hash verify
  check_in_pool v b = elim (GoMap.get b.unpacked (tx_hash v)) [
    | some _ ↦ (ok tt, record b { unpacked = GoMap.delete b.unpacked (tx_hash v) })
    | none ↦ (verify v, b)
  ]

  unfoldable pub refuse_packed : Transaction → Branch → Outcome Error (Unit {0})
  refuse_packed v b = elim (GoMap.get b.packed (tx_hash v)) [
    | some _ ↦ err existed_tx
    | none ↦ ok tt
  ]

  -- b.packed[k] = v
  abbrev pub put_packed : Transaction → Branch → Branch
  put_packed v b = record b { packed = GoMap.put b.packed (tx_hash v) v }

  -- The preview applies the transaction.
  abbrev pub apply_tx : Transaction → ℕ → Step (Unit {0})
  apply_tx v h b = let (r, p) = apply env v h b.preview in (r, record b { preview = p })

  -- The body of the loops of newBranch and applyBlock.
  unfoldable pub pack : Transaction → ℕ → Step (Unit {0})
  unfolding check_in_pool refuse_packed
  pack v h = do check_in_pool v; ask (refuse_packed v); modify (put_packed v); apply_tx v h

  unfoldable pub pack_all : List Transaction → ℕ → Step (Unit {0})
  unfolding pack
  pack_all [] h = pure tt
  pack_all (v ∷ vs) h = pack v h >> pack_all vs h

  -- The transactions of one block of newBranch; a cleared block is a nil pointer.
  unfoldable pub apply_node : BlockNode → Step (Unit {0})
  unfolding pack_all
  apply_node n b =
      if ltb max_transactions_per_block (info n).tx_count
      then (err too_many_transactions_in_block, b)
      else elim (load n) [
        | none ↦ (panic, b)
        | some block ↦ pack_all block.transactions (info n).height b
      ]

  unfoldable pub apply_nodes : List BlockNode → Step (Unit {0})
  unfolding apply_node
  apply_nodes [] = pure tt
  apply_nodes (n ∷ ns) = apply_node n >> apply_nodes ns

  -- newBranch
  unfoldable pub new_branch : BlockNode → BlockNode → MetaState → Pool → Outcome Error Branch
  unfolding apply_nodes
  new_branch base_node head_node base_state base_pool =
      elim (fetch_node_list (add32 (info base_node).count 1) head_node) [
        | none ↦ panic
        | some nodes ↦
            let inst : Branch = record {
              head = head_node;
              preview = make_copy base_state;
              packed = GoMap.empty;
              unpacked = base_pool;
            } in
            let (r, b) = apply_nodes nodes inst in
            elim r [
              | ok _ ↦ ok (record b { preview = commit b.preview })
              | err e ↦ err e
              | panic ↦ panic
            ]
      ]

  -- applyBlock: the new branch, with what is left of the receiver.
  unfoldable pub apply_block : BlockNode → Step Branch
  unfolding pack_all
  apply_block n b = elim (load n) [
    | none ↦ (panic, b)
    | some block ↦
        if not ((info b.head).hash == block.parent_hash)
        then (err parent_not_match, b)
        else if ltb max_transactions_per_block (info n).tx_count
        then (err too_many_transactions_in_block, b)
        else (let (r, cpy) = pack_all block.transactions (info n).height (make_arena b) in
            elim r [
              | ok _ ↦ (ok (record cpy { head = n }), shared cpy b)
              | err e ↦ (err e, shared cpy b)
              | panic ↦ (panic, shared cpy b)
            ])
  ]

  -- clearPackedTxs
  unfoldable pub clear_packed_txs : List Transaction → Branch → Branch
  clear_packed_txs [] b = b
  clear_packed_txs (v ∷ vs) b =
      clear_packed_txs vs (record b { packed = GoMap.delete b.packed (tx_hash v) })

  -- clearUnpackedTxs
  unfoldable pub clear_unpacked_txs : List Transaction → Branch → Branch
  clear_unpacked_txs [] b = b
  clear_unpacked_txs (v ∷ vs) b =
      clear_unpacked_txs vs (record b { unpacked = GoMap.delete b.unpacked (tx_hash v) })

-- pi.TransactionState
pub data TransactionState : Type 0 where
  pending packed : TransactionState

-- queryTxState
unfoldable pub query_tx_state : Branch → ℕ → Option TransactionState
query_tx_state b h = elim (GoMap.get b.unpacked h) [
  | some _ ↦ some TransactionState.pending
  | none ↦ elim (GoMap.get b.packed h) [ some _ ↦ some TransactionState.packed | none ↦ none ]
]
