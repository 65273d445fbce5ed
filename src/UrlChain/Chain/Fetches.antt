-- ===== src/UrlChain/Chain/Fetches.antt =====
-- urlchain/chain.go: what FetchBlock and FetchBlockByCount return, and the blocks that are no longer
-- cached.
use go_crawling_bazaar.Base.{ℕ, ◌-◌, Option, none, some, string_key, nat_key, ltb, if◌then◌else◌}
use go_crawling_bazaar.GoMap
use go_crawling_bazaar.GoMap.{GoMap}
use go_crawling_bazaar.Word.{sub32}
use go_crawling_bazaar.Exec.{Outcome, ok, err, panic}
use go_crawling_bazaar.UrlChain.Block.{Error, block_not_found, Block}
use go_crawling_bazaar.UrlChain.BlockIndex.{
  BlockNode, info, clear, ancestor, ancestor_by_count, IndexKey, index_key, index_key_key, Cache,
}
use go_crawling_bazaar.UrlChain.Chain.{Chain}

-- The first loop of pruneBlockCache: the node at the last count to prune, or none.
unfoldable pub prune_from : ℕ → BlockNode → Option BlockNode
unfolding info
prune_from last (BlockNode.root d) = if ltb last d.count then none else some (BlockNode.root d)
prune_from last (BlockNode.child p d) =
    let rest = prune_from last p in if ltb last d.count then rest else some (BlockNode.child p d)

-- The second loop of pruneBlockCache.
unfoldable pub prune_rounds : BlockNode → Cache × ℕ → Cache × ℕ
prune_rounds (BlockNode.root d) (cache, count) =
    let (cleared, cache') = clear (BlockNode.root d) cache in
    if cleared then (cache', sub32 count 1) else (cache, count)
prune_rounds (BlockNode.child p d) (cache, count) =
    let (cleared, cache') = clear (BlockNode.child p d) cache in
    let rest = prune_rounds p (cache', sub32 count 1) in if cleared then rest else (cache, count)

module _ {Db : Type 0} where
  -- fetchBlockByIndexKey
  unfoldable pub fetch_block_by_index_key : Chain Db → IndexKey → Outcome Error Block
  fetch_block_by_index_key c k = elim (GoMap.get c.blocks_db k) [
    | none ↦ err block_not_found
    | some b ↦ ok b
  ]

  -- FetchBlock; before the first block the head has no node, which is a panic.
  unfoldable pub fetch_block : ℕ → Chain Db → Outcome Error (Option Block)
  unfolding fetch_block_by_index_key
  fetch_block height c = elim c.rt.head.node [
    | none ↦ panic
    | some n ↦ elim (ancestor height n) [
      | none ↦ ok none
      | some a ↦ elim (fetch_block_by_index_key c (index_key a)) [
        | ok b ↦ ok (some b)
        | err e ↦ err e
        | panic ↦ panic
      ]
    ]
  ]

  -- FetchBlockByCount: the block, its count and its height; `none` is a count below 0.
  unfoldable pub fetch_block_by_count : Option ℕ → Chain Db → Outcome Error (Option Block × ℕ × ℕ)
  unfolding fetch_block_by_index_key info
  fetch_block_by_count count c = elim c.rt.head.node [
    | none ↦ elim count [ none ↦ ok (none, 0, 0) | some _ ↦ panic ]
    | some head ↦
        elim (elim count as (λ _. Option BlockNode) [
          | none ↦ some head
          | some k ↦ ancestor_by_count k head
        ]) [
          | none ↦ ok (none, 0, 0)
          | some n ↦ elim (fetch_block_by_index_key c (index_key n)) [
            | ok b ↦ ok (some b, (info n).count, (info n).height)
            | err e ↦ err e
            | panic ↦ panic
          ]
        ]
  ]

  -- pruneBlockCache; a last count below 0, which no node has, is none.
  unfoldable pub prune_block_cache : Chain Db → Chain Db
  unfolding prune_from prune_rounds
  prune_block_cache c =
      let lowest = c.rt.next_turn - c.rt.block_cache_ttl in
      let last = if ltb c.rt.last_billing_height lowest then c.rt.last_billing_height else lowest in
      let from : Option BlockNode =
        if ltb c.rt.next_turn c.rt.block_cache_ttl
        then none
        else elim c.rt.head.node [ none ↦ none | some n ↦ prune_from last n ] in
      elim from [
        | none ↦ c
        | some n ↦
            let (cache, count) = prune_rounds n (c.cache, c.cached_block_count) in
            record c { cache = cache; cached_block_count = count }
      ]
