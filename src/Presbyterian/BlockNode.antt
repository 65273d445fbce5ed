-- ===== src/Presbyterian/BlockNode.antt =====
-- presbyterian/blocknode.go: the nodes of the block tree, each with a pointer to its parent.
pub mod Ancestry
pub mod Searches
pub mod Segments
pub mod Descent
use go_crawling_bazaar.Base.{
  ℕ, zero, suc, ◌+◌, ◌-◌, Bool, true, false, ◌&&◌, Option, none, some, List, [], ◌∷◌, nat_key, ◌==◌,
  not, leb, ltb, if◌then◌else◌, length,
}
use go_crawling_bazaar.Word.{add32}
use go_crawling_bazaar.Types.Transactions.{Transaction}

-- What the chain reads of a types.PBBlock.
pub record Block : Type 0 where
  pub data_hash : ℕ
  pub parent_hash : ℕ
  pub producer : ℕ
  pub timestamp : ℕ
  pub transactions : List Transaction

-- The fields of a node beside the parent; `block` is nil once it is cleared.
pub record NodeInfo : Type 0 where
  pub count : ℕ
  pub height : ℕ
  pub hash : ℕ
  pub tx_count : ℕ
  pub block : Option Block

-- A node without a parent, and a node with one.
pub data BlockNode : Type 0 where
  root : NodeInfo → BlockNode
  child : BlockNode → NodeInfo → BlockNode

unfoldable pub info : BlockNode → NodeInfo
info (root d) = d
info (child p d) = d

unfoldable pub parent : BlockNode → Option BlockNode
parent (root d) = none
parent (child p d) = some p

abbrev pub with_count : ℕ → Block → ℕ → NodeInfo
with_count h b count = record {
  count = count;
  height = h;
  hash = b.data_hash;
  tx_count = length b.transactions;
  block = some b;
}

-- newBlockNode
unfoldable pub new_block_node : ℕ → Block → Option BlockNode → BlockNode
unfolding info
new_block_node h b none = root (with_count h b 0)
new_block_node h b (some p) = child p (with_count h b (add32 (info p).count 1))

-- load
abbrev pub load : BlockNode → Option Block
load n = (info n).block

-- clear
unfoldable pub clear : BlockNode → BlockNode
clear (root d) = root (record d { block = none })
clear (child p d) = child p (record d { block = none })

-- newNonCacheBlockNode
abbrev pub new_non_cache_block_node : ℕ → Block → Option BlockNode → BlockNode
new_non_cache_block_node h b p = clear (new_block_node h b p)

-- The loop of fetchNodeList, which fills the list from its end; `none` where it meets a nil pointer.
unfoldable pub fetch_rounds : ℕ → Option BlockNode → List BlockNode → Option (List BlockNode)
unfolding parent
fetch_rounds zero iter acc = some acc
fetch_rounds (suc i) none acc = none
fetch_rounds (suc i) (some n) acc = fetch_rounds i (parent n) (n ∷ acc)

-- fetchNodeList
unfoldable pub fetch_node_list : ℕ → BlockNode → Option (List BlockNode)
unfolding fetch_rounds info
fetch_node_list from n =
    if ltb (info n).count from
    then some []
    else fetch_rounds (add32 ((info n).count - from) 1) (some n) []

-- The loop of `ancestor`.
unfoldable pub descend : ℕ → BlockNode → Option BlockNode
descend h (root d) = if ltb h d.height then none else some (root d)
descend h (child p d) = let rest = descend h p in if ltb h d.height then rest else some (child p d)

-- ancestor
unfoldable pub ancestor : ℕ → BlockNode → Option BlockNode
unfolding descend info
ancestor h n =
    if ltb (info n).height h
    then none
    else elim (descend h n) [ none ↦ none | some a ↦ if (info a).height == h then some a else none ]

-- The loop of ancestorByCount.
unfoldable pub seek_count : ℕ → BlockNode → Option BlockNode
seek_count c (root d) = if d.count == c then some (root d) else none
seek_count c (child p d) =
    let rest = seek_count c p in if d.count == c then some (child p d) else rest

-- ancestorByCount
unfoldable pub ancestor_by_count : ℕ → BlockNode → Option BlockNode
unfolding seek_count info
ancestor_by_count c n = if ltb (info n).count c then none else seek_count c n

-- The loop of lastIrreversible; `none` where it meets a nil pointer.
unfoldable pub back_to : ℕ → BlockNode → Option BlockNode
back_to c (root d) = if ltb c d.count then none else some (root d)
back_to c (child p d) = let rest = back_to c p in if ltb c d.count then rest else some (child p d)

-- lastIrreversible
unfoldable pub last_irreversible : ℕ → BlockNode → Option BlockNode
unfolding back_to info
last_irreversible confirm n =
    back_to (if ltb confirm (info n).count then (info n).count - confirm else 0) n

-- hasAncestor
unfoldable pub has_ancestor : BlockNode → BlockNode → Bool
unfolding ancestor_by_count info
has_ancestor anc n = elim (ancestor_by_count (info anc).count n) [
  | none ↦ false
  | some m ↦ (info m).hash == (info anc).hash
]

-- hasAncestorWithMinCount; `ok` is whether there is a match.
unfoldable pub has_ancestor_with_min_count : ℕ → ℕ → BlockNode → Option BlockNode
has_ancestor_with_min_count block_hash min_count (root d) =
    if leb min_count d.count && d.hash == block_hash then some (root d) else none
has_ancestor_with_min_count block_hash min_count (child p d) =
    let rest = has_ancestor_with_min_count block_hash min_count p in
    if leb min_count d.count
    then (if d.hash == block_hash then some (child p d) else rest)
    else none
