-- ===== src/Presbyterian/BlockNode/Ancestry.antt =====
-- presbyterian/blocknode.go: what the searches of the block tree find.
use go_crawling_bazaar.Base.{
  ℕ, ◌+◌, ◌-◌, ◌≡◌, ◌<◌, ◌≤◌, ◌↔◌, refl, some, nat_key, ◌==◌, ltb, arith, Bool-cases, inl, inr,
  subst, ap, ◌∙◌,
}
use go_crawling_bazaar.Word.{u32_mod}
use go_crawling_bazaar.Presbyterian.BlockNode.{
  Block, NodeInfo, BlockNode, root, child, info, new_block_node, seek_count, ancestor_by_count,
  back_to, last_irreversible,
}

-- The counts run up from 0 at the root.
unfoldable pub IsCounted : BlockNode → Type 0
unfolding info
IsCounted (root d) = d.count ≡ 0
IsCounted (child p d) = (d.count ≡ (info p).count + 1) × IsCounted p

-- A child is higher than its parent.
unfoldable pub IsAscending : BlockNode → Type 0
unfolding info
IsAscending (root d) = Unit
IsAscending (child p d) = ((info p).height < d.height) × IsAscending p

-- The node itself and everything behind it.
pub data Ancestor : BlockNode → BlockNode → Type 0 where
  itself : {n : BlockNode} → Ancestor n n
  behind : {a p : BlockNode} {d : NodeInfo} → Ancestor a p → Ancestor a (child p d)

pub new_block_node-IsCounted :
    (h : ℕ) (b : Block) (p : BlockNode)
    → IsCounted p
    → (info p).count + 1 < u32_mod
    → IsCounted (new_block_node h b (some p))
unfolding IsCounted new_block_node info
new_block_node-IsCounted h b p v w = (ground arith, v)

pub seek_count_found :
    (c : ℕ) (n : BlockNode)
    → IsCounted n
    → c ≤ (info n).count
    → (a : BlockNode) × (seek_count c n ≡ some a) × ((info a).count ≡ c) × Ancestor a n
unfolding IsCounted seek_count info
seek_count_found c (root d) v h = (root d, ground arith, ground arith, itself)
seek_count_found c (child p d) v h = elim (Bool-cases (d.count == c)) [
  | inl e ↦ (child p d, rw e refl, ground arith, itself)
  | inr e ↦ let (a, f, g, i) = seek_count_found c p v.1 (ground arith) in (a, rw e f, g, behind i)
]

pub Ancestor-count :
    (a n : BlockNode) → IsCounted n → Ancestor a n → IsCounted a × ((info a).count ≤ (info n).count)
unfolding IsCounted info
Ancestor-count a n v itself = (v, ground arith)
Ancestor-count a (child p d) v (behind i) =
    let ih = Ancestor-count a p v.1 i in (ih.0, ground (arith, ih.1))

-- Equal counts on one chain are one node.
seek_count-Ancestor :
    (a n : BlockNode) → IsCounted n → Ancestor a n → seek_count (info a).count n ≡ some a
unfolding IsCounted seek_count info
seek_count-Ancestor a (root d) v itself = ground arith
seek_count-Ancestor a (child p d) v itself = ground arith
seek_count-Ancestor a (child p d) v (behind i) =
    let below = Ancestor-count a p v.1 i in ground (arith, below.1, seek_count-Ancestor a p v.1 i)

seek_count_sound :
    (c : ℕ) (n a : BlockNode) → seek_count c n ≡ some a → Ancestor a n × ((info a).count ≡ c)
unfolding seek_count info
seek_count_sound c (root d) a e = elim (Bool-cases (d.count == c)) [
  | inl b ↦
      subst (λ x. Ancestor x (root d) × ((info x).count ≡ c)) (ground arith) (itself, ground arith)
  | inr b ↦ absurd (ground arith)
]
seek_count_sound c (child p d) a e = elim (Bool-cases (d.count == c)) [
  | inl b ↦
      subst (λ x. Ancestor x (child p d) × ((info x).count ≡ c)) (ground arith)
        (itself, ground arith)
  | inr b ↦ let ih = seek_count_sound c p a (ground arith) in (behind ih.0, ih.1)
]

pub ancestor_by_count-exists :
    (c : ℕ) (n : BlockNode)
    → IsCounted n
    → c ≤ (info n).count
    → (a : BlockNode) × (ancestor_by_count c n ≡ some a) × ((info a).count ≡ c) × Ancestor a n
unfolding ancestor_by_count
ancestor_by_count-exists c n v h =
    let (a, f, g, i) = seek_count_found c n v h in (a, ground (arith, f), g, i)

-- On a chain with counts that run up from 0, ancestorByCount finds a node for each count up to that
-- of the head: the node that the chain has with this count. A greater count finds none.
pub ancestor_by_count_lem :
    (n a : BlockNode) (c : ℕ)
    → IsCounted n
    → (ancestor_by_count c n ≡ some a) ↔ (Ancestor a n × ((info a).count ≡ c))
unfolding ancestor_by_count
ancestor_by_count_lem n a c v = (
  λ h. seek_count_sound c n a (ground arith),
  λ h. ground (
    arith,
    seek_count-Ancestor a n v h.0,
    (Ancestor-count a n v h.0).1,
    h.1,
    ap (λ k. seek_count k n) h.1,
  ),
)

back_to-seek_count :
    (c : ℕ) (n : BlockNode) → IsCounted n → c ≤ (info n).count → back_to c n ≡ seek_count c n
unfolding back_to seek_count IsCounted info
back_to-seek_count c (root d) v h = ground arith
back_to-seek_count c (child p d) v h = elim (Bool-cases (ltb c d.count)) [
  | inl b ↦ ground (arith, back_to-seek_count c p v.1 (ground (arith, v.0)))
  | inr b ↦ ground arith
]

-- On such a chain the loop of lastIrreversible meets no nil pointer, and it stops at the ancestor
-- `confirm` blocks behind the head, or at the block with count 0 where there are fewer.
pub last_irreversible-ancestor_by_count :
    (confirm : ℕ) (n : BlockNode)
    → IsCounted n
    → (last_irreversible confirm n ≡ ancestor_by_count ((info n).count - confirm) n)
      × ((a : BlockNode) × (last_irreversible confirm n ≡ some a)
          × Ancestor a n
          × ((info a).count ≡ (info n).count - confirm))
unfolding last_irreversible ancestor_by_count
last_irreversible-ancestor_by_count confirm n v =
    let same = back_to-seek_count ((info n).count - confirm) n v (ground arith) in
    let (a, f, g, i) = seek_count_found ((info n).count - confirm) n v (ground arith) in
    let whole : last_irreversible confirm n ≡ ancestor_by_count ((info n).count - confirm) n =
      ground (arith, same) in
    (whole, (a, whole ∙ ground (arith, f), i, g))
