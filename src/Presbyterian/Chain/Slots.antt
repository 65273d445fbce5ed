-- ===== src/Presbyterian/Chain/Slots.antt =====
-- presbyterian/chain.go: the invariant of the branches, and the slots that hold them.
use go_crawling_bazaar.Base.{
  ℕ, zero, suc, ◌+◌, ◌<◌, ◌≤◌, ◌≡◌, ◌≢◌, refl, true, false, some, List, [], ◌∷◌, ◌++◌, arith, All,
  All-append, set, get_elem?, length, nat_key, ◌==◌, Bool-cases, inl, inr, subst, sym, ap, map,
}
use go_crawling_bazaar.Presbyterian.BlockNode.{BlockNode, info, has_ancestor}
use go_crawling_bazaar.Presbyterian.BlockNode.Ancestry.{IsCounted}
use go_crawling_bazaar.Presbyterian.Branch.{Branch}
use go_crawling_bazaar.Presbyterian.Chain.{Chain, slot}
use go_crawling_bazaar.Presbyterian.Chain.Switch.{prune}

-- A head with counts from 0, at most `top`, and the irreversible block behind it.
abbrev pub Fits : BlockNode → ℕ → BlockNode → Type 0
Fits irre top n = IsCounted n × ((info n).count ≤ top) × (has_ancestor irre n ≡ true)

abbrev pub AllFit : BlockNode → ℕ → List Branch → Type 0
AllFit irre top bs = All (λ b. Fits irre top b.head) bs

-- headBranch points to the slot headIndex, which holds a branch, and no branch is longer than it.
-- All have the last irreversible block behind them.
pub record IsHeaded (c : Chain) : Type 0 where
  pub head : Branch
  pub at_index : get_elem? c.branches c.head_index ≡ some head
  pub pointer : c.head_branch ≡ slot c.head_index
  pub fit : AllFit c.last_irre (info head.head).count c.branches

-- A headed chain, its head's count between the bounds.
abbrev pub Within : ℕ → ℕ → Chain → Type 0
Within low high c =
    (t : IsHeaded c) × (low ≤ (info t.head.head).count) × ((info t.head.head).count ≤ high)

module _ {ℓ} {A : Type ℓ} where
  pub get_elem?-set-same :
      (xs : List A) (i : ℕ) (v w : A) → get_elem? xs i ≡ some w → get_elem? (set xs i v) i ≡ some v
  get_elem?-set-same [] i v w h = absurd (ground arith)
  get_elem?-set-same (x ∷ xs) zero v w h = refl
  get_elem?-set-same (x ∷ xs) (suc i) v w h = get_elem?-set-same xs i v w h

  pub get_elem?-set-other :
      (xs : List A) (i j : ℕ) (v : A) → i ≢ j → get_elem? (set xs i v) j ≡ get_elem? xs j
  get_elem?-set-other [] i j v h = refl
  get_elem?-set-other (x ∷ xs) zero zero v h = absurd (h refl)
  get_elem?-set-other (x ∷ xs) zero (suc j) v h = refl
  get_elem?-set-other (x ∷ xs) (suc i) zero v h = refl
  get_elem?-set-other (x ∷ xs) (suc i) (suc j) v h =
      get_elem?-set-other xs i j v (λ e. h (ap suc e))

  pub All-set {κ} :
      (P : A → Type κ) (xs : List A) (i : ℕ) (v : A) → P v → All P xs → All P (set xs i v)
  All-set P [] i v p h = tt
  All-set P (x ∷ xs) zero v p h = (p, h.1)
  All-set P (x ∷ xs) (suc i) v p h = (h.0, All-set P xs i v p h.1)

  pub All-at {κ} :
      (P : A → Type κ) (xs : List A) (i : ℕ) (v : A) → All P xs → get_elem? xs i ≡ some v → P v
  All-at P [] i v h e = absurd (ground arith)
  All-at P (x ∷ xs) zero v h e = subst P (ground arith) h.0
  All-at P (x ∷ xs) (suc i) v h e = All-at P xs i v h.1 e

  pub get_elem?-append :
      (xs ys : List A) (i : ℕ) (v : A) → get_elem? xs i ≡ some v → get_elem? (xs ++ ys) i ≡ some v
  get_elem?-append [] ys i v e = absurd (ground arith)
  get_elem?-append (x ∷ xs) ys zero v e = e
  get_elem?-append (x ∷ xs) ys (suc i) v e = get_elem?-append xs ys i v e

  pub get_elem?-last : (xs : List A) (v : A) → get_elem? (xs ++ v ∷ []) (length xs) ≡ some v
  get_elem?-last [] v = refl
  get_elem?-last (x ∷ xs) v = get_elem?-last xs v

  pub get_elem?-bound : (xs : List A) (i : ℕ) (v : A) → get_elem? xs i ≡ some v → i < length xs
  get_elem?-bound [] i v e = absurd (ground arith)
  get_elem?-bound (x ∷ xs) zero v e = ground arith
  get_elem?-bound (x ∷ xs) (suc i) v e = ground (arith, get_elem?-bound xs i v e)

pub All-widen {ℓ κ} :
    {A : Type ℓ} (P Q : A → Type κ) → ((x : A) → P x → Q x) → (xs : List A) → All P xs → All Q xs
All-widen P Q f [] h = tt
All-widen P Q f (x ∷ xs) h = (f x h.0, All-widen P Q f xs h.1)

pub get_elem?-map {ℓ κ} :
    {A : Type ℓ} {B : Type κ} (f : A → B) (xs : List A) (i : ℕ) (v : A)
    → get_elem? xs i ≡ some v
    → get_elem? (map f xs) i ≡ some (f v)
get_elem?-map f [] i v e = absurd (ground arith)
get_elem?-map f (x ∷ xs) zero v e = ground arith
get_elem?-map f (x ∷ xs) (suc i) v e = get_elem?-map f xs i v e

-- The heads of branches are all that `AllFit` reads.
pub AllFit-map :
    (irre : BlockNode) (top : ℕ) (f : Branch → Branch)
    → ((b : Branch) → (f b).head ≡ b.head)
    → (bs : List Branch) → AllFit irre top bs
    → AllFit irre top (map f bs)
AllFit-map irre top f same [] h = tt
AllFit-map irre top f same (b ∷ bs) h =
    (subst (Fits irre top) (sym (same b)) h.0, AllFit-map irre top f same bs h.1)

-- What is true of the new branch and of each branch that is kept is true of all that prune returns.
pub prune-All {κ} :
    (P : Branch → Type κ) (last_irre : BlockNode) (origin : ℕ) (new : Branch)
    → P new
    → (i : ℕ) (bs : List Branch) → All (λ b. has_ancestor last_irre b.head ≡ true → P b) bs
    → (acc : List Branch × ℕ) → All P acc.0
    → All P (prune last_irre origin new i bs acc).0
unfolding prune
prune-All P last_irre origin new p i [] h acc a = a
prune-All P last_irre origin new p i (b ∷ bs) h (brs, idx) a = elim (Bool-cases (i == origin)) [
  | inl e ↦ rw e (
      prune-All P last_irre origin new p (suc i) bs h.1 (brs ++ new ∷ [], length brs)
        (All-append P brs (new ∷ []) a (p, tt)))
  | inr e ↦ elim (Bool-cases (has_ancestor last_irre b.head)) [
    | inl k ↦
        rw (e, k)
          (prune-All P last_irre origin new p (suc i) bs h.1 (brs ++ b ∷ [], idx)
            (All-append P brs (b ∷ []) a (h.0 k, tt)))
    | inr k ↦ rw (e, k) (prune-All P last_irre origin new p (suc i) bs h.1 (brs, idx) a)
  ]
]

-- Past the origin, the index and what stands there stay.
prune-past :
    (last_irre : BlockNode) (origin : ℕ) (new : Branch) (i : ℕ) (bs : List Branch)
    (acc : List Branch × ℕ) (x : Branch)
    → origin < i
    → get_elem? acc.0 acc.1 ≡ some x
    → let r = prune last_irre origin new i bs acc in get_elem? r.0 r.1 ≡ some x
unfolding prune
prune-past last_irre origin new i [] acc x l e = e
prune-past last_irre origin new i (b ∷ bs) (brs, idx) x l e =
    let other : (i == origin) ≡ false = ground arith in
    elim (Bool-cases (has_ancestor last_irre b.head)) [
      | inl k ↦
          rw (other, k)
            (prune-past last_irre origin new (suc i) bs (brs ++ b ∷ [], idx) x (ground arith)
              (get_elem?-append brs (b ∷ []) idx x e))
      | inr k ↦
          rw (other, k) (prune-past last_irre origin new (suc i) bs (brs, idx) x (ground arith) e)
    ]

-- The index that prune returns is the new branch's, if the origin is an index of the branches.
pub prune-origin :
    (last_irre : BlockNode) (origin : ℕ) (new : Branch) (i : ℕ) (bs : List Branch)
    (acc : List Branch × ℕ)
    → i ≤ origin
    → origin < i + length bs
    → let r = prune last_irre origin new i bs acc in get_elem? r.0 r.1 ≡ some new
unfolding prune
prune-origin last_irre origin new i [] acc l h = absurd (ground arith)
prune-origin last_irre origin new i (b ∷ bs) (brs, idx) l h = elim (Bool-cases (i == origin)) [
  | inl e ↦ rw e (
      prune-past last_irre origin new (suc i) bs (brs ++ new ∷ [], length brs) new (ground arith)
        (get_elem?-last brs new))
  | inr e ↦ elim (Bool-cases (has_ancestor last_irre b.head)) [
    | inl k ↦
        rw (e, k)
          (prune-origin last_irre origin new (suc i) bs (brs ++ b ∷ [], idx) (ground arith)
            (ground arith))
    | inr k ↦
        rw (e, k)
          (prune-origin last_irre origin new (suc i) bs (brs, idx) (ground arith) (ground arith))
  ]
]
