-- ===== src/UrlChain/BlockIndex.antt =====
-- urlchain/blockindex.go: the nodes of a domain's chain, each with a pointer to its parent. The block
-- that a node caches can be cleared, so it stands in a map by the node's own pointer.
use go_crawling_bazaar.Base.{
  ℕ, ◌+◌, Bool, true, false, ◌&&◌, ◌≡◌, ◌↔◌, Option, none, some, nat_key, Key, ◌==◌, ltb, arith,
  if◌then◌else◌,
}
use go_crawling_bazaar.GoMap
use go_crawling_bazaar.GoMap.{GoMap}
use go_crawling_bazaar.UrlChain.Block.{Block}

-- The fields of a node beside the parent. In the source the height and the count are int32s, which a
-- chain of fewer than 2 ^ 31 blocks does not pass.
pub record NodeInfo : Type 0 where
  pub pointer : ℕ
  pub hash : ℕ
  pub height : ℕ
  pub count : ℕ

-- blockNode
pub data BlockNode : Type 0 where
  root : NodeInfo → BlockNode
  child : BlockNode → NodeInfo → BlockNode

unfoldable pub info : BlockNode → NodeInfo
info (root d) = d
info (child p d) = d

unfoldable pub parent : BlockNode → Option BlockNode
parent (root d) = none
parent (child p d) = some p

-- newBlockNodeEx, at a new pointer; its block is put into the cache apart.
unfoldable pub new_block_node_ex : ℕ → ℕ → ℕ → Option BlockNode → BlockNode
unfolding info
new_block_node_ex pointer height hash none =
    root (record { pointer = pointer; hash = hash; height = height; count = 0 })
new_block_node_ex pointer height hash (some p) =
    child p (record { pointer = pointer; hash = hash; height = height; count = (info p).count + 1 })

-- newBlockNode
abbrev pub new_block_node : ℕ → ℕ → Block → Option BlockNode → BlockNode
new_block_node pointer height b p = new_block_node_ex pointer height b.data_hash p

abbrev pub Cache : Type 0
Cache = GoMap ℕ Block

-- load
abbrev pub load : Cache → BlockNode → Option Block
load cache n = GoMap.get cache (info n).pointer

-- clear
unfoldable pub clear : BlockNode → Cache → Bool × Cache
unfolding info
clear n cache = elim (load cache n) [
  | none ↦ (false, cache)
  | some _ ↦ (true, GoMap.delete cache (info n).pointer)
]

-- The loop of `ancestor`.
unfoldable pub descend : ℕ → BlockNode → Option BlockNode
descend h (root d) = if ltb h d.height then none else some (root d)
descend h (child p d) = let rest = descend h p in if ltb h d.height then rest else some (child p d)

-- ancestor
unfoldable pub ancestor : ℕ → BlockNode → Option BlockNode
unfolding descend info
ancestor h n = if ltb (info n).height h then none else elim (descend h n) [
  | none ↦ none
  | some a ↦ if ltb (info a).height h then none else some a
]

-- The loop of ancestorByCount.
unfoldable pub descend_count : ℕ → BlockNode → Option BlockNode
descend_count c (root d) = if ltb c d.count then none else some (root d)
descend_count c (child p d) =
    let rest = descend_count c p in if ltb c d.count then rest else some (child p d)

-- ancestorByCount
unfoldable pub ancestor_by_count : ℕ → BlockNode → Option BlockNode
unfolding descend_count info
ancestor_by_count c n = if ltb (info n).count c then none else elim (descend_count c n) [
  | none ↦ none
  | some a ↦ if ltb (info a).count c then none else some a
]

-- indexKey: the height and the hash, whose bytes stand one after the other.
pub record IndexKey : Type 0 where
  pub height : ℕ
  pub hash : ℕ

unfoldable pub index_key : BlockNode → IndexKey
unfolding info
index_key n = record { height = (info n).height; hash = (info n).hash }

unfoldable pub same_key : IndexKey → IndexKey → Bool
same_key k j = k.height == j.height && k.hash == j.hash

pub same_key_iff : (k j : IndexKey) → (same_key k j ≡ true) ↔ (k ≡ j)
unfolding same_key
same_key_iff k j = ground arith

instance abbrev pub index_key_key : Key IndexKey
index_key_key = record { same = same_key; same_iff = same_key_iff }

-- blockIndex
abbrev pub BlockIndex : Type 0
BlockIndex = GoMap ℕ BlockNode

-- addBlock
abbrev pub add_block : BlockNode → BlockIndex → BlockIndex
unfolding info
add_block n i = GoMap.put i (info n).hash n

-- hasBlock
abbrev pub has_block : ℕ → BlockIndex → Bool
has_block h i = elim (GoMap.get i h) [ none ↦ false | some _ ↦ true ]

-- lookupNode
abbrev pub lookup_node : ℕ → BlockIndex → Option BlockNode
lookup_node h i = GoMap.get i h
