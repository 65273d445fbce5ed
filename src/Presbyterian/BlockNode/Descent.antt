-- ===== src/Presbyterian/BlockNode/Descent.antt =====
-- presbyterian/blocknode.go: what the searches find from an ancestor and from a new child.
use go_crawling_bazaar.Base.{ℕ, ◌+◌, ◌≡◌, ◌≢◌, ◌<◌, ◌≤◌, refl, true, some, nat_key, arith, sym, ◌∙◌}
use go_crawling_bazaar.Word.{u32_mod}
use go_crawling_bazaar.Presbyterian.BlockNode.{
  Block, BlockNode, child, info, new_block_node, has_ancestor,
}
use go_crawling_bazaar.Presbyterian.BlockNode.Searches.{has_ancestor_lem}
use go_crawling_bazaar.Presbyterian.BlockNode.Ancestry.{
  IsCounted, Ancestor, Ancestor-count, ancestor_by_count_lem, new_block_node-IsCounted,
  ancestor_by_count-exists, itself, behind,
}

pub Ancestor-trans : (a m n : BlockNode) → Ancestor a m → Ancestor m n → Ancestor a n
Ancestor-trans a m n i itself = i
Ancestor-trans a m (child p d) i (behind j) = behind (Ancestor-trans a m p i j)

-- What recognises an ancestor of the block is a node of the chain with its count and hash.
has_ancestor-at :
    (anc m n : BlockNode)
    → IsCounted n
    → Ancestor m n
    → (info m).count ≡ (info anc).count
    → (info m).hash ≡ (info anc).hash
    → has_ancestor anc n ≡ true
unfolding has_ancestor
has_ancestor-at anc m n v i c h =
    let found = (ancestor_by_count_lem n m (info anc).count v).1 (i, c) in ground (arith, found)

-- A different hash behind a node has a lower count.
pub Ancestor-lower :
    (a n : BlockNode)
    → IsCounted n
    → Ancestor a n
    → (info a).hash ≢ (info n).hash
    → (info a).count + 1 ≤ (info n).count
unfolding IsCounted info
Ancestor-lower a n v itself h = absurd (h refl)
Ancestor-lower a (child p d) v (behind i) h =
    let below = Ancestor-count a p v.1 i in ground (arith, below.1)

-- A new child keeps what its parent has behind it.
pub has_ancestor-new :
    (anc p : BlockNode) (h : ℕ) (b : Block)
    → IsCounted p
    → (info p).count + 1 < u32_mod
    → has_ancestor anc p ≡ true
    → has_ancestor anc (new_block_node h b (some p)) ≡ true
unfolding new_block_node
has_ancestor-new anc p h b v w e =
    let (m, i, c, same) = (has_ancestor_lem p anc v).1 e in
    has_ancestor-at anc m (new_block_node h b (some p)) (new_block_node-IsCounted h b p v w)
      (behind i) c same

-- What lies behind a node, and not above one of its ancestors, lies behind this ancestor.
pub has_ancestor-lower :
    (anc p n : BlockNode)
    → IsCounted n
    → Ancestor p n
    → (info anc).count ≤ (info p).count
    → has_ancestor anc n ≡ true
    → has_ancestor anc p ≡ true
has_ancestor-lower anc p n v i low e =
    let (m, j, c, same) = (has_ancestor_lem n anc v).1 e in
    let pv = (Ancestor-count p n v i).0 in
    let (k, found, kc, kp) = ancestor_by_count-exists (info anc).count p pv low in
    let at_m = (ancestor_by_count_lem n m (info anc).count v).1 (j, c) in
    let at_k = (ancestor_by_count_lem n k (info anc).count v).1 (Ancestor-trans k p n kp i, kc) in
    let eq : some m ≡ some k = sym at_m ∙ at_k in
    has_ancestor-at anc k p pv kp kc (ground (arith, eq, same))
