-- ===== src/Presbyterian/Chain/Room.antt =====
-- presbyterian/chain.go: the branch or the parent that a block is put on, and the room above it.
use go_crawling_bazaar.Base.{
  ℕ, suc, ◌+◌, ◌<◌, ◌≤◌, ◌≡◌, ◌≢◌, true, some, none, List, [], ◌∷◌, arith, All, get_elem?, nat_key,
  ◌==◌, Bool-cases, Option-cases, inl, inr, subst, sym, ap, ◌∙◌,
}
use go_crawling_bazaar.Word.{u32_mod}
use go_crawling_bazaar.Presbyterian.BlockNode.{
  Block, BlockNode, info, new_block_node, has_ancestor, has_ancestor_with_min_count,
}
use go_crawling_bazaar.Presbyterian.BlockNode.Searches.{has_ancestor_with_min_count_lem}
use go_crawling_bazaar.Presbyterian.BlockNode.Ancestry.{
  IsCounted, Ancestor-count, new_block_node-IsCounted,
}
use go_crawling_bazaar.Presbyterian.BlockNode.Descent.{
  has_ancestor-new, has_ancestor-lower, Ancestor-lower,
}
use go_crawling_bazaar.Presbyterian.Branch.{Branch}
use go_crawling_bazaar.Presbyterian.Chain.{Chain}
use go_crawling_bazaar.Presbyterian.Chain.Blocks.{find_branch, find_parent}
use go_crawling_bazaar.Presbyterian.Chain.Slots.{Fits, AllFit, IsHeaded, Within, All-at}

pub find_branch-some :
    (ph i : ℕ) (bs : List Branch) (j : ℕ) (v : Branch)
    → find_branch ph i bs ≡ some (j, v)
    → (k : ℕ) × (i + k ≡ j) × (get_elem? bs k ≡ some v)
unfolding find_branch
find_branch-some ph i [] j v e = absurd (ground arith)
find_branch-some ph i (b ∷ bs) j v e = elim (Bool-cases ((info b.head).hash == ph)) [
  | inl h ↦ (0, ground arith, ground arith)
  | inr h ↦
      let (k, at, found) = find_branch-some ph (suc i) bs j v (ground arith) in
      (suc k, ground (arith, at), found)
]

pub find_branch-none :
    (ph i : ℕ) (bs : List Branch)
    → find_branch ph i bs ≡ none
    → All (λ b. (info b.head).hash ≢ ph) bs
unfolding find_branch
find_branch-none ph i [] e = tt
find_branch-none ph i (b ∷ bs) e = elim (Bool-cases ((info b.head).hash == ph)) [
  | inl h ↦ absurd (ground arith)
  | inr h ↦ (ground arith, find_branch-none ph (suc i) bs (ground arith))
]

-- The length of the longest branch leaves room for one more block.
abbrev pub HasRoom : (c : Chain) → IsHeaded c → Type 0
HasRoom c s = (info s.head.head).count + 1 < u32_mod

-- A parent that is found and is no head is shorter than the longest head, and the irreversible block
-- is behind it.
pub find_parent-Fits :
    (irre : BlockNode) (top ph : ℕ) (bs : List Branch) (p : BlockNode)
    → AllFit irre top bs
    → All (λ b. (info b.head).hash ≢ ph) bs
    → find_parent ph (info irre).count bs ≡ some p
    → IsCounted p × ((info p).count + 1 ≤ top) × (has_ancestor irre p ≡ true)
unfolding find_parent
find_parent-Fits irre top ph [] p f h e = absurd (ground arith)
find_parent-Fits irre top ph (b ∷ bs) p f h e =
    elim (Option-cases (has_ancestor_with_min_count ph (info irre).count b.head)) [
      | inl n ↦ find_parent-Fits irre top ph bs p f.1 h.1 (ground arith)
      | inr (m, g) ↦
          let v = f.0.0 in
          let same : m ≡ p = ground arith in
          let (i, is_ph, low) =
            (has_ancestor_with_min_count_lem ph (info irre).count b.head v).0 m g in
          let shorter = Ancestor-lower m b.head v i (λ q. h.0 (sym q ∙ is_ph)) in
          subst (λ w. IsCounted w × ((info w).count + 1 ≤ top) × (has_ancestor irre w ≡ true)) same
            (
              (Ancestor-count m b.head v i).0,
              ground (arith, f.0.1),
              has_ancestor-lower irre m b.head v i low f.0.2,
            )
    ]

-- The node of a new block on a node that fits below `top`.
pub new_block_node-Fits :
    (irre : BlockNode) (top h : ℕ) (bl : Block) (p : BlockNode)
    → IsCounted p
    → (info p).count + 1 ≤ top
    → top < u32_mod
    → has_ancestor irre p ≡ true
    → Fits irre top (new_block_node h bl (some p))
unfolding new_block_node info
new_block_node-Fits irre top h bl p v low room a = (
  new_block_node-IsCounted h bl p v (ground arith),
  ground arith,
  has_ancestor-new irre p h bl v (ground arith) a,
)

-- The head of a branch that has grown by one block.
pub grown-IsCounted :
    (height : ℕ) (bl : Block) (v br : Branch) (c : Chain) (s : IsHeaded c) (i : ℕ)
    → HasRoom c s
    → get_elem? c.branches i ≡ some v
    → br.head ≡ new_block_node height bl (some v.head)
    → IsCounted br.head × ((info br.head).count ≤ (info s.head.head).count + 1)
unfolding new_block_node info
grown-IsCounted height bl v br c s i room at is_node =
    let fits =
      All-at (λ b. Fits c.last_irre (info s.head.head).count b.head) c.branches i v s.fit at in
    (
      subst IsCounted (sym is_node)
          (new_block_node-IsCounted height bl v.head fits.0 (ground (arith, fits.1))),
      ground (arith, ap (λ n. (info n).count) is_node, fits.1),
    )

pub Within-widen :
    (low high low' high' : ℕ) (c : Chain)
    → low' ≤ low
    → high ≤ high'
    → Within low high c
    → Within low' high' c
Within-widen low high low' high' c l h (t, a, b) = (t, ground (arith, a, l), ground (arith, b, h))

-- A headed chain, its longest branch as long as it was or one block longer.
abbrev pub Grows : (c : Chain) → IsHeaded c → Chain → Type 0
Grows c s c' = Within (info s.head.head).count ((info s.head.head).count + 1) c'
