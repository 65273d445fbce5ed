-- ===== src/Tests/Bills.antt =====
-- The theorem on billing, at a chain with one query.
use go_crawling_bazaar.Base.{
  ℕ, ◌≡◌, refl, none, some, [], ◌∷◌, arith, All, Bool-cases, inl, inr, sym, ◌∙◌, nat_key,
}
use go_crawling_bazaar.GoMap.{empty, put, get, get-put, get-empty, lookup, without, range}
use go_crawling_bazaar.Exec.{ok}
use go_crawling_bazaar.Types.Transactions.{UpdateBilling}
use go_crawling_bazaar.UrlChain.AckIndex.{new_ack_index}
use go_crawling_bazaar.UrlChain.Block.{Block}
use go_crawling_bazaar.UrlChain.BlockIndex.{
  BlockNode, root, child, descend, IndexKey, index_key_key,
}
use go_crawling_bazaar.UrlChain.Runtime.{new_runtime}
use go_crawling_bazaar.UrlChain.Chain.{Chain}
use go_crawling_bazaar.UrlChain.Chain.Bills.{
  billing, bill_rounds, bill_node, bill_block, bill_txs, bill_failed, recover, user_costs,
}
use go_crawling_bazaar.UrlChain.Chain.Balanced.{IsPaid, billing-IsPaid}
use go_crawling_bazaar.Tests.Replicas.{one, database}
use go_crawling_bazaar.Tests.Domain.{block, config, signed}

abbrev query_block : Block
query_block = record block { query_txs = record { request = one; response = signed } ∷ [] }

abbrev node : BlockNode
node =
    child (root (record { pointer = 0; hash = 5; height = 0; count = 0 }))
      (record { pointer = 1; hash = 6; height = 1; count = 1 })

abbrev owing : Chain ℕ
owing = record {
  bi = empty;
  ai = new_ack_index;
  st = database;
  rt = record (new_runtime config) { head = record { node = some node; hash = 6; height = 1 } };
  blocks_db = put empty (record { height = 1; hash = 6 }) query_block;
  cache = put empty 1 query_block;
  pointers = 2;
  cached_block_count = 1;
  stash = [];
}

cache-clean : (p : ℕ) (b : Block) → get owing.cache p ≡ some b → b.failed_reqs ≡ []
cache-clean p b e =
    let e' = sym (get-put (empty {K = ℕ} {V = Block}) 1 p query_block) ∙ e in
    elim (Bool-cases (nat_key.same 1 p)) [
      | inl s ↦ ground (arith, e', s)
      | inr o ↦ absurd (ground (arith, e', o, get-empty {V = Block} p))
    ]

stored-clean : (k : IndexKey) (b : Block) → get owing.blocks_db k ≡ some b → b.failed_reqs ≡ []
stored-clean k b e =
    let key : IndexKey = record { height = 1; hash = 6 } in
    let e' = sym (get-put (empty {K = IndexKey} {V = Block}) key k query_block) ∙ e in
    elim (Bool-cases (index_key_key.same key k)) [
      | inl s ↦ ground (arith, e', s)
      | inr o ↦ absurd (ground (arith, e', o, get-empty {V = Block} k))
    ]

abbrev bill : UpdateBilling
bill = record {
  receiver = 9;
  nonce = 0;
  users = record { user = 7; cost = 1; miners = record { miner = 0; income = 1 } ∷ [] } ∷ [];
  range_from = 0;
  range_to = 1;
  version = 0;
  signee = none;
}

billed_once : billing (λ _. some 7) 9 1 node owing ≡ ok bill
unfolding billing bill_rounds bill_node bill_block bill_txs bill_failed recover user_costs descend
    get put empty lookup without range new_runtime
billed_once = refl

billing-IsPaid_example : All IsPaid bill.users
billing-IsPaid_example =
    billing-IsPaid (λ _. some 7) owing (cache-clean, stored-clean) 9 1 node bill billed_once
