-- ===== src/Presbyterian/BlockNode/Searches.antt =====
-- presbyterian/blocknode.go: what the searches by height, by hash and for a node find.
use go_crawling_bazaar.Base.{
  ℕ, ◌≡◌, ◌≤◌, ◌↔◌, refl, true, some, nat_key, ◌==◌, ltb, leb, arith, ◌&&◌, Option-cases,
  Bool-cases, inl, inr, subst, ap,
}
use go_crawling_bazaar.Presbyterian.BlockNode.{
  BlockNode, root, child, info, descend, ancestor, ancestor_by_count, has_ancestor,
  has_ancestor_with_min_count,
}
use go_crawling_bazaar.Presbyterian.BlockNode.Ancestry.{
  IsCounted, IsAscending, Ancestor, Ancestor-count, ancestor_by_count_lem, itself, behind,
}

descend-Ancestor : (h : ℕ) (n a : BlockNode) → descend h n ≡ some a → Ancestor a n
unfolding descend
descend-Ancestor h (root d) a e = subst (λ x. Ancestor x (root d)) (ground arith) itself
descend-Ancestor h (child p d) a e = elim (Bool-cases (ltb h d.height)) [
  | inl b ↦ behind (descend-Ancestor h p a (ground arith))
  | inr b ↦ subst (λ x. Ancestor x (child p d)) (ground arith) itself
]

Ancestor-height :
    (a n : BlockNode) → IsAscending n → Ancestor a n → (info a).height ≤ (info n).height
unfolding IsAscending info
Ancestor-height a n v itself = ground arith
Ancestor-height a (child p d) v (behind i) = ground (arith, v.0, Ancestor-height a p v.1 i)

descend_found :
    (n a : BlockNode) → IsAscending n → Ancestor a n → descend (info a).height n ≡ some a
unfolding IsAscending descend info
descend_found (root d) a v itself = ground arith
descend_found (child p d) a v itself = ground arith
descend_found (child p d) a v (behind i) =
    let low : ltb (info a).height d.height ≡ true =
      ground (arith, v.0, Ancestor-height a p v.1 i) in
    rw low (descend_found p a v.1 i)

ancestor_inv :
    (n a : BlockNode) (h : ℕ)
    → ancestor h n ≡ some a
    → (descend h n ≡ some a) × ((info a).height ≡ h)
unfolding ancestor
ancestor_inv n a h e = elim (Option-cases (descend h n)) [
  | inl f ↦ absurd (ground arith)
  | inr (b, f) ↦ elim (Bool-cases ((info b).height == h)) [
    | inl q ↦
        subst (λ x. (descend h n ≡ some x) × ((info x).height ≡ h)) (ground arith) (f, ground arith)
    | inr q ↦ absurd (ground arith)
  ]
]

-- On a chain where every block is higher than its parent, `ancestor` finds exactly the ancestor (or
-- the node itself) with the given height.
pub ancestor_lem :
    (n a : BlockNode) (h : ℕ)
    → IsAscending n
    → (ancestor h n ≡ some a) ↔ (Ancestor a n × ((info a).height ≡ h))
unfolding ancestor
ancestor_lem n a h v = (
  λ e. let (found, high) = ancestor_inv n a h e in (descend-Ancestor h n a found, high),
  λ e.
      ground
        (arith, descend_found n a v e.0, Ancestor-height a n v e.0, e.1, ap (λ k. descend k n) e.1),
)

-- On a chain with counts that run up from 0, every ancestor is recognised, and a node that is
-- recognised has the count and the hash of an ancestor.
pub has_ancestor_lem :
    (n anc : BlockNode)
    → IsCounted n
    → (Ancestor anc n → has_ancestor anc n ≡ true)
      × (has_ancestor anc n ≡ true
          → (m : BlockNode) × Ancestor m n
            × ((info m).count ≡ (info anc).count)
            × ((info m).hash ≡ (info anc).hash))
unfolding has_ancestor
has_ancestor_lem n anc v = (
  λ i.
      rw ((ancestor_by_count_lem n anc (info anc).count v).1 (i, refl), has_ancestor)
        (ground arith),
  λ h. elim (Option-cases (ancestor_by_count (info anc).count n)) [
    | inl e ↦ absurd (ground arith)
    | inr (m, e) ↦
        let (i, q) = (ancestor_by_count_lem n m (info anc).count v).0 e in (m, i, q, ground arith)
  ],
)

search_sound :
    (h c : ℕ) (n m : BlockNode)
    → has_ancestor_with_min_count h c n ≡ some m
    → Ancestor m n × ((info m).hash ≡ h) × (c ≤ (info m).count)
unfolding has_ancestor_with_min_count info
search_sound h c (root d) m e = elim (Bool-cases (leb c d.count && d.hash == h)) [
  | inl b ↦
      subst (λ x. Ancestor x (root d) × ((info x).hash ≡ h) × (c ≤ (info x).count)) (ground arith)
        (itself, ground arith, ground arith)
  | inr b ↦ absurd (ground arith)
]
search_sound h c (child p d) m e = elim (Bool-cases (d.hash == h)) [
  | inl b ↦
      subst (λ x. Ancestor x (child p d) × ((info x).hash ≡ h) × (c ≤ (info x).count))
        (ground arith) (itself, ground arith, ground arith)
  | inr b ↦ let ih = search_sound h c p m (ground arith) in (behind ih.0, ih.1, ih.2)
]

search_found :
    (h c : ℕ) (n : BlockNode)
    → IsCounted n
    → (a : BlockNode) → Ancestor a n
    → (info a).hash ≡ h
    → c ≤ (info a).count
    → (m : BlockNode) × (has_ancestor_with_min_count h c n ≡ some m)
unfolding has_ancestor_with_min_count info IsCounted
search_found h c (root d) v a itself e g = (root d, ground arith)
search_found h c (child p d) v a itself e g = (child p d, ground arith)
search_found h c (child p d) v a (behind i) e g =
    let (m, f) = search_found h c p v.1 a i e g in
    let high : leb c d.count ≡ true = ground (arith, v.0, (Ancestor-count a p v.1 i).1) in
    elim (Bool-cases (d.hash == h)) [
      | inl b ↦ (child p d, ground arith)
      | inr b ↦ (m, ground arith)
    ]

-- On such a chain hasAncestorWithMinCount finds a node exactly if an ancestor (or the node itself)
-- has the hash and at least the count, and the node it finds is one.
pub has_ancestor_with_min_count_lem :
    (h c : ℕ) (n : BlockNode)
    → IsCounted n
    → ((m : BlockNode)
        → has_ancestor_with_min_count h c n ≡ some m
        → Ancestor m n × ((info m).hash ≡ h) × (c ≤ (info m).count))
      × ((a : BlockNode)
          → Ancestor a n
          → (info a).hash ≡ h
          → c ≤ (info a).count
          → (m : BlockNode) × (has_ancestor_with_min_count h c n ≡ some m))
has_ancestor_with_min_count_lem h c n v = (search_sound h c n, search_found h c n v)
