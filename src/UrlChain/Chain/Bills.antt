-- ===== src/UrlChain/Chain/Bills.antt =====
-- urlchain/chain.go: `billing`, what the users of a domain owe for the queries in the blocks, and to whom.
use go_crawling_bazaar.Base.{
  ℕ, Option, none, some, List, [], ◌∷◌, map, nat_key, ltb, length, if◌then◌else◌,
}
use go_crawling_bazaar.GoMap
use go_crawling_bazaar.GoMap.{GoMap}
use go_crawling_bazaar.Word.{add64}
use go_crawling_bazaar.Exec.{Outcome, ok, err, panic}
use go_crawling_bazaar.Types.Queries.{read_query, Request}
use go_crawling_bazaar.Types.Transactions.{UserCost, UpdateBilling}
use go_crawling_bazaar.State.Execution.{QueryAsTx}
use go_crawling_bazaar.UrlChain.Block.{Error, address_failed, Block}
use go_crawling_bazaar.UrlChain.BlockIndex.{BlockNode, info, load, descend}
use go_crawling_bazaar.UrlChain.Chain.{Chain}
use go_crawling_bazaar.UrlChain.Chain.Fetches.{fetch_block}

-- usersMap and minersMap, by addresses.
pub record Bill : Type 0 where
  pub users : GoMap ℕ ℕ
  pub miners : GoMap ℕ (GoMap ℕ ℕ)

unfoldable pub value : GoMap ℕ ℕ → ℕ → ℕ
value m k = elim (GoMap.get m k) [ none ↦ 0 | some v ↦ v ]

-- m[k] += x
unfoldable pub add_to : GoMap ℕ ℕ → ℕ → ℕ → GoMap ℕ ℕ
unfolding value
add_to m k x = GoMap.put m k (add64 (value m k) x)

-- minersMap[u], or an empty map; billing makes the map before it writes.
unfoldable pub incomes : Bill → ℕ → GoMap ℕ ℕ
incomes b u = elim (GoMap.get b.miners u) [ none ↦ GoMap.empty | some m ↦ m ]

-- Both sums, for a user whose map is `m`.
unfoldable pub charge : ℕ → ℕ → ℕ → GoMap ℕ ℕ → Bill → Bill
unfolding add_to
charge user miner x m b = record {
  users = add_to b.users user x;
  miners = GoMap.put b.miners user (add_to m miner x);
}

-- The loop over the queries, with the hash of a public key, which may fail.
unfoldable pub bill_txs : (ℕ → Option ℕ) → List QueryAsTx → Bill → Outcome Error Bill
unfolding charge incomes
bill_txs key_hash [] b = ok b
bill_txs key_hash (tx ∷ txs) b = elim (key_hash tx.request.signee) [
  | none ↦ err address_failed
  | some user ↦
      let x = elim tx.request.query_type as (λ _. ℕ) [
        | read_query ↦ tx.response.row_count
        | _ ↦ tx.response.affected_rows
      ] in
      bill_txs key_hash txs (charge user tx.response.response_account x (incomes b user) b)
]

-- The loop over the failed requests: without an income of the block's miner from the user, the user's
-- map is made anew.
unfoldable pub bill_failed : (ℕ → Option ℕ) → ℕ → List Request → Bill → Outcome Error Bill
unfolding charge incomes
bill_failed key_hash signee [] b = ok b
bill_failed key_hash signee (req ∷ reqs) b = elim (key_hash signee) [
  | none ↦ err address_failed
  | some miner ↦ elim (key_hash req.signee) [
    | none ↦ err address_failed
    | some user ↦
        let kept : GoMap ℕ ℕ = elim (GoMap.get (incomes b user) miner) [
          | none ↦ GoMap.empty
          | some _ ↦ incomes b user
        ] in
        bill_failed key_hash signee reqs (charge user miner (length req.queries) kept b)
  ]
]

unfoldable pub bill_block : (ℕ → Option ℕ) → Block → Bill → Outcome Error Bill
bill_block key_hash block b = elim (bill_txs key_hash block.query_txs b) [
  | ok b' ↦ bill_failed key_hash block.signee block.failed_reqs b'
  | err e ↦ err e
  | panic ↦ panic
]

module _ {Db : Type 0} where
  -- A node's block: the cached one, or the one that FetchBlock finds at its height.
  unfoldable pub recover : Chain Db → BlockNode → Outcome Error (Option Block)
  unfolding info
  recover c n = elim (load c.cache n) [
    | some block ↦ ok (some block)
    | none ↦ fetch_block (info n).height c
  ]

  -- A step of the second loop.
  unfoldable pub bill_node : (ℕ → Option ℕ) → Chain Db → BlockNode → Bill → Outcome Error Bill
  bill_node key_hash c n b = elim (recover c n) [
    | ok (some block) ↦ bill_block key_hash block b
    | ok none ↦ panic
    | err e ↦ err e
    | panic ↦ panic
  ]

  -- The second loop, down to the last billed height.
  unfoldable pub bill_rounds : (ℕ → Option ℕ) → Chain Db → ℕ → BlockNode → Bill → Outcome Error Bill
  bill_rounds key_hash c low (BlockNode.root d) b =
      let last = bill_node key_hash c (BlockNode.root d) b in
      if ltb low d.height then last else ok b
  bill_rounds key_hash c low (BlockNode.child p d) b =
      let rest : Outcome Error Bill = elim (bill_node key_hash c (BlockNode.child p d) b) [
        | ok b' ↦ bill_rounds key_hash c low p b'
        | err e ↦ err e
        | panic ↦ panic
      ] in
      if ltb low d.height then rest else ok b

-- The loop that makes the users of the transaction.
unfoldable pub user_costs : Bill → List (ℕ × ℕ) → List UserCost
unfolding incomes
user_costs b [] = []
user_costs b (kv ∷ kvs) =
    record {
      user = kv.0;
      cost = kv.1;
      miners = map (λ m. record { miner = m.0; income = m.1 }) (GoMap.range (incomes b kv.0));
    }
    ∷ user_costs b kvs

-- `billing` at the height `h`, with the address of the domain.
unfoldable pub billing :
    {Db : Type 0} → (ℕ → Option ℕ) → ℕ → ℕ → BlockNode → Chain Db → Outcome Error UpdateBilling
billing key_hash receiver h node c =
    let low = c.rt.last_billing_height in
    let none_yet : Bill = record { users = GoMap.empty; miners = GoMap.empty } in
    let bill : Outcome Error Bill = elim (descend h node) [
      | none ↦ ok none_yet
      | some n ↦ bill_rounds key_hash c low n none_yet
    ] in
    elim bill [
      | err e ↦ err e
      | panic ↦ panic
      | ok b ↦ ok (record {
        receiver = receiver;
        nonce = 0;
        users = user_costs b (GoMap.range b.users);
        range_from = low;
        range_to = h;
        version = 0;
        signee = none;
      })
    ]
