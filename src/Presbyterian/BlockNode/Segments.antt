-- ===== src/Presbyterian/BlockNode/Segments.antt =====
-- presbyterian/blocknode.go: the part of a chain that fetchNodeList returns.
use go_crawling_bazaar.Base.{
  append_nil, ℕ, zero, suc, ◌+◌, ◌-◌, ◌≡◌, ◌<◌, ◌≤◌, refl, false, some, List, [], ◌∷◌, map, ◌++◌,
  nat_key, ltb, arith, All, All-append, ap, sym, ◌∙◌,
}
use go_crawling_bazaar.Word.{add32, u32_mod}
use go_crawling_bazaar.Presbyterian.BlockNode.{
  NodeInfo, BlockNode, root, child, info, parent, fetch_rounds, fetch_node_list,
}
use go_crawling_bazaar.Presbyterian.BlockNode.Ancestry.{IsCounted, Ancestor, itself, behind}

-- The counts of the list, from the first to the last.
unfoldable pub counts_from : ℕ → ℕ → List ℕ
counts_from a zero = []
counts_from a (suc n) = a ∷ counts_from (a + 1) n

counts_from-append : (a n : ℕ) → counts_from a n ++ (a + n) ∷ [] ≡ counts_from a (suc n)
unfolding counts_from
counts_from-append a zero = ap (λ x. x ∷ []) (omega arith)
counts_from-append a (suc n) =
    ap (a ∷◌)
      (ap (λ x. counts_from (a + 1) n ++ x ∷ []) (omega arith) ∙ counts_from-append (a + 1) n)

abbrev pub count_of : BlockNode → ℕ
count_of n = (info n).count

abbrev pub IsSegment : ℕ → ℕ → BlockNode → List BlockNode → Type 0
IsSegment from len n bl = (map count_of bl ≡ counts_from from len) × All (λ a. Ancestor a n) bl

All-behind :
    (p : BlockNode) (d : NodeInfo) (bl : List BlockNode)
    → All (λ a. Ancestor a p) bl
    → All (λ a. Ancestor a (child p d)) bl
All-behind p d [] h = tt
All-behind p d (a ∷ bl) h = (behind h.0, All-behind p d bl h.1)

map-append :
    (bl : List BlockNode) (n : BlockNode)
    → map count_of (bl ++ n ∷ []) ≡ map count_of bl ++ count_of n ∷ []
map-append [] n = refl
map-append (a ∷ bl) n = ap (count_of a ∷◌) (map-append bl n)

append_assoc :
    (bl : List BlockNode) (n : BlockNode) (acc : List BlockNode)
    → (bl ++ n ∷ []) ++ acc ≡ bl ++ n ∷ acc
append_assoc [] n acc = refl
append_assoc (a ∷ bl) n acc = ap (a ∷◌) (append_assoc bl n acc)

fetch_rounds_lem :
    (k : ℕ) (n : BlockNode) (acc : List BlockNode)
    → IsCounted n
    → k ≤ (info n).count
    → (bl : List BlockNode) × (fetch_rounds (suc k) (some n) acc ≡ some (bl ++ acc))
      × IsSegment ((info n).count - k) (suc k) n bl
unfolding fetch_rounds counts_from parent info IsCounted
fetch_rounds_lem zero n acc v h = (n ∷ [], refl, (ap (λ x. x ∷ []) (omega arith), (itself, tt)))
fetch_rounds_lem (suc k) (root d) acc v h = absurd (ground arith)
fetch_rounds_lem (suc k) (child p d) acc v h =
    let (bl, e, (c, i)) = fetch_rounds_lem k p (child p d ∷ acc) v.1 (ground (arith, v.0)) in
    (
      bl ++ child p d ∷ [],
      e ∙ ap some (sym (append_assoc bl (child p d) acc)),
      (
        map-append bl (child p d)
            ∙ ap (λ x. x ++ d.count ∷ []) c
            ∙ ap (λ x. counts_from ((info p).count - k) (suc k) ++ x ∷ []) (ground (arith, v.0))
            ∙ counts_from-append ((info p).count - k) (suc k)
            ∙ ap (λ x. counts_from x (suc (suc k))) (ground (arith, v.0)),
        All-append (λ a. Ancestor a (child p d)) bl (child p d ∷ []) (All-behind p d bl i)
            (itself, tt),
      ),
    )

-- On a chain with counts that run up from 0, and for a count up to that of the head, the loop of
-- fetchNodeList meets no nil pointer: the list holds one node of the chain for each count from
-- `from` to the head's, in this order.
pub fetch_node_list-IsSegment :
    (from : ℕ) (n : BlockNode)
    → IsCounted n
    → from ≤ (info n).count
    → (info n).count + 1 < u32_mod
    → (bl : List BlockNode) × (fetch_node_list from n ≡ some bl)
      × IsSegment from ((info n).count - from + 1) n bl
unfolding fetch_node_list
fetch_node_list-IsSegment from n v h w =
    let (bl, e, (c, i)) = fetch_rounds_lem ((info n).count - from) n [] v (ground arith) in
    let in_range : ltb (info n).count from ≡ false = ground arith in
    let rounds : add32 ((info n).count - from) 1 ≡ suc ((info n).count - from) = ground arith in
    (
      bl,
      rw in_range (ap (λ r. fetch_rounds r (some n) []) rounds ∙ e ∙ ap some (append_nil bl)),
      (
        c
            ∙ ap (λ x. counts_from x (suc ((info n).count - from))) (ground arith)
            ∙ ap (counts_from from) (omega arith),
        i,
      ),
    )
