-- ===== src/UrlChain/AckIndex/Calls.antt =====
-- urlchain/ackindex.go: advance and acks, and histories of calls.
use go_crawling_bazaar.Base.{
  ℕ, zero, suc, ◌+◌, ◌-◌, ◌%◌, ◌<◌, ◌≤◌, ◌≡◌, refl, none, some, List, [], ◌∷◌, ◌++◌, nat_key, ◌==◌,
  arith, ltb, Bool-cases, Option-cases, inl, inr, ◌⊎◌,
}
use go_crawling_bazaar.GoMap
use go_crawling_bazaar.GoMap.{GoMap, IsMap, get-delete, get-empty, delete-IsMap, empty-IsMap}
use go_crawling_bazaar.GoMap.Totals.{total, total-delete, total-empty}
use go_crawling_bazaar.Word.{u32_mod, sub32}
use go_crawling_bazaar.Exec.{Outcome-cases}
use go_crawling_bazaar.UrlChain.AckIndex.{
  query_key, Response, Ack, MultiAckIndex, AckIndex, new_ack_index, load, add_response, register,
  remove, drop_heights, discount, len_int32, advance, collect, acks,
}
use go_crawling_bazaar.UrlChain.AckIndex.Counters.{
  responses_of, acks_of, IsConsistent, load-IsConsistent,
}
use go_crawling_bazaar.UrlChain.AckIndex.Kept.{
  drift_at, overwritten, add_response-IsConsistent, register-IsConsistent, remove-IsConsistent,
}

abbrev sum : (MultiAckIndex → ℕ) → List MultiAckIndex → ℕ
sum f [] = 0
sum f (mi ∷ mis) = f mi + sum f mis

sum-append :
    (f : MultiAckIndex → ℕ) (xs : List MultiAckIndex) (mi : MultiAckIndex)
    → sum f (xs ++ mi ∷ []) ≡ sum f xs + f mi
sum-append f [] mi = ground arith
sum-append f (x ∷ xs) mi = ground (arith, sum-append f xs mi)

-- The loop of `advance`: what is dropped is in the list, and the heights from `x` are gone.
record Dropped (x n : ℕ) (hi : GoMap ℕ MultiAckIndex) (dl : List MultiAckIndex)
    (after : GoMap ℕ MultiAckIndex × List MultiAckIndex) : Type 0 where
  keyed : IsMap after.0
  conserved : (f : MultiAckIndex → ℕ) → total f after.0 + sum f after.1 ≡ total f hi + sum f dl
  smaller : (j : ℕ) → (GoMap.get after.0 j ≡ none) ⊎ (GoMap.get after.0 j ≡ GoMap.get hi j)
  gone : (j : ℕ) → x ≤ j → j < x + n → GoMap.get after.0 j ≡ none

drop_heights-Dropped :
    (n x : ℕ) (hi : GoMap ℕ MultiAckIndex) (dl : List MultiAckIndex)
    → IsMap hi
    → Dropped x n hi dl (drop_heights n x (hi, dl))
unfolding drop_heights
drop_heights-Dropped zero x hi dl w = record {
  keyed = w;
  conserved = λ f. refl;
  smaller = λ j. inr refl;
  gone = λ j a b. absurd (ground arith);
}
drop_heights-Dropped (suc n) x hi dl w =
    let dl' : List MultiAckIndex = elim (GoMap.get hi x) [ none ↦ dl | some mi ↦ dl ++ mi ∷ [] ] in
    let rest = drop_heights-Dropped n (suc x) (GoMap.delete hi x) dl' (delete-IsMap hi x w) in
    record {
      keyed = rest.keyed;
      conserved = λ f. elim (Option-cases (GoMap.get hi x)) [
        | inl e ↦ ground (arith, rest.conserved f, total-delete f hi x w, e)
        | inr (mi, e) ↦
            ground (arith, rest.conserved f, total-delete f hi x w, e, sum-append f dl mi)
      ];
      smaller = λ j. ground (arith, rest.smaller j, get-delete hi x j);
      gone = λ j a b. elim (Bool-cases (x == j)) [
        | inl s ↦ ground (arith, rest.smaller j, get-delete hi x j, s)
        | inr s ↦ rest.gone j (ground arith) (ground arith)
      ];
    }

discount-sum :
    (dl : List MultiAckIndex) (r a t u : ℕ)
    → r ≡ (t + sum responses_of dl) % u32_mod
    → a ≡ (u + sum acks_of dl) % u32_mod
    → ((discount dl (r, a)).0 ≡ t % u32_mod) × ((discount dl (r, a)).1 ≡ u % u32_mod)
unfolding discount
discount-sum [] r a t u hr ha = (omega arith, omega arith)
discount-sum (mi ∷ mis) r a t u hr ha =
    discount-sum mis (sub32 r (responses_of mi)) (sub32 a (acks_of mi)) t u (omega arith)
      (omega arith)

len_int32-sum : (dl : List MultiAckIndex) → len_int32 dl ≡ sum (λ _. 1) dl % u32_mod
unfolding len_int32
len_int32-sum [] = omega arith
len_int32-sum (mi ∷ mis) = omega (arith, len_int32-sum mis)

advance-IsConsistent : (d h : ℕ) (i : AckIndex) → IsConsistent d i → IsConsistent d (advance h i)
unfolding advance
advance-IsConsistent d h i w =
    let r = drop_heights-Dropped (h - i.barrier) i.barrier i.hi [] w.keyed in
    let after = drop_heights (h - i.barrier) i.barrier (i.hi, []) in
    let counts =
      discount-sum after.1 i.response_count i.ack_count (total responses_of after.0)
        (total acks_of after.0 + d) (omega (arith, w.responses, r.conserved responses_of))
        (omega (arith, w.acknowledged, r.conserved acks_of)) in
    record {
      keyed = r.keyed;
      each = λ j mi e. w.each j mi (ground (arith, e, r.smaller j));
      above = λ j l. elim (Bool-cases (ltb j i.barrier)) [
        | inl b ↦ ground (arith, r.smaller j, w.above j (ground arith))
        | inr b ↦ r.gone j (ground arith) (ground arith)
      ];
      indexes = omega (arith, w.indexes, r.conserved (λ _. 1), len_int32-sum after.1);
      responses = counts.0;
      acknowledged = counts.1;
    }

collect-IsConsistent :
    (n d x : ℕ) (i : AckIndex) → IsConsistent d i → IsConsistent d (collect n x i).1
unfolding collect
collect-IsConsistent zero d x i w = w
collect-IsConsistent (suc n) d x i w =
    let rest = collect-IsConsistent n d (suc x) (load x i).1 (load-IsConsistent d x i w).0 in
    elim (Outcome-cases (load x i).0) [
      | inl (mi, r) ↦ rw (r, collect) rest
      | inr (inl (e, r)) ↦ rw (r, collect) rest
      | inr (inr r) ↦ rw (r, collect) rest
    ]

new_ack_index-IsConsistent : IsConsistent 0 new_ack_index
unfolding new_ack_index
new_ack_index-IsConsistent = record {
  keyed = empty-IsMap;
  each = λ h mi e. absurd (ground (arith, e, get-empty {V = MultiAckIndex} h));
  above = λ h l. get-empty h;
  indexes = ground (arith, total-empty ℕ MultiAckIndex (λ _. 1));
  responses = ground (arith, total-empty ℕ MultiAckIndex responses_of);
  acknowledged = ground (arith, total-empty ℕ MultiAckIndex acks_of);
}

-- The calls of the index.
pub data Call : Type 0 where
  responded : ℕ → Response → Call
  registered removed : ℕ → Ack → Call
  advanced listed_acks : ℕ → Call

unfoldable pub perform : Call → AckIndex → AckIndex
unfolding add_response register remove advance acks
perform (responded h resp) i = (add_response h resp i).1
perform (registered h ack) i = (register h ack i).1
perform (removed h ack) i = (remove h ack i).1
perform (advanced h) i = advance h i
perform (listed_acks h) i = (acks h i).1

-- The first call is the head of the list.
unfoldable pub perform_all : List Call → AckIndex → AckIndex
unfolding perform
perform_all [] i = i
perform_all (c ∷ cs) i = perform_all cs (perform c i)

-- How many times register overwrites an ack.
unfoldable pub overwrites : List Call → AckIndex → ℕ → ℕ
unfolding perform drift_at overwritten
overwrites [] i d = d
overwrites (c ∷ cs) i d =
    overwrites cs (perform c i)
      (elim c [ registered h ack ↦ drift_at (overwritten ack) h i d | _ ↦ d ])

perform-IsConsistent :
    (c : Call) (i : AckIndex) (d : ℕ)
    → IsConsistent d i
    → IsConsistent
        (elim c [ registered h ack ↦ drift_at (overwritten ack) h i d | _ ↦ d ])
        (perform c i)
unfolding perform acks
perform-IsConsistent (responded h resp) i d w = add_response-IsConsistent d h resp i w
perform-IsConsistent (registered h ack) i d w = register-IsConsistent d h ack i w
perform-IsConsistent (removed h ack) i d w = remove-IsConsistent d h ack i w
perform-IsConsistent (advanced h) i d w = advance-IsConsistent d h i w
perform-IsConsistent (listed_acks h) i d w =
    collect-IsConsistent (suc h - i.barrier) d i.barrier i w

perform_all-from :
    (cs : List Call) (i : AckIndex) (d : ℕ)
    → IsConsistent d i
    → IsConsistent (overwrites cs i d) (perform_all cs i)
unfolding perform_all overwrites
perform_all-from [] i d w = w
perform_all-from (c ∷ cs) i d w = perform_all-from cs (perform c i) _ (perform-IsConsistent c i d w)

-- After any calls of a new index, no height below the barrier has an index, multiIndexCount is the
-- number of indexes, responseCount the number of responses that wait, and ackCount the number of acks
-- and of the acks that a second register for a query has overwritten, each as an int32.
pub perform_all-IsConsistent :
    (cs : List Call) → IsConsistent (overwrites cs new_ack_index 0) (perform_all cs new_ack_index)
perform_all-IsConsistent cs = perform_all-from cs new_ack_index 0 new_ack_index-IsConsistent
