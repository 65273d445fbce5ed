-- ===== src/UrlChain/AckIndex/Kept.antt =====
-- urlchain/ackindex.go: each operation keeps the counters.
use go_crawling_bazaar.Base.{
  ℕ, ◌+◌, ◌≡◌, refl, none, some, nat_key, ◌==◌, arith, Bool-cases, Option-cases, inl, inr, subst,
  sym,
}
use go_crawling_bazaar.GoMap
use go_crawling_bazaar.GoMap.{GoMap, IsMap, put-IsMap, delete-IsMap}
use go_crawling_bazaar.GoMap.Totals.{weight, len-put, len-delete}
use go_crawling_bazaar.Word.{add32, sub32}
use go_crawling_bazaar.Exec.{Exec, ok, Outcome-cases}
use go_crawling_bazaar.UrlChain.AckIndex.{
  Error, query_key, Response, Ack, MultiAckIndex, AckIndex, load, add_response_to, register_in,
  remove_from, at_height, add_response, register, remove,
}
use go_crawling_bazaar.UrlChain.AckIndex.Counters.{
  responses_of, acks_of, IsConsistent, Follows, Follows-same, Follows-add, Follows-sub,
  change-IsConsistent, load-IsConsistent,
}

-- What a method of a height's index keeps, given that the index stands at the height.
abbrev Keeps : (MultiAckIndex → ℕ → ℕ) → (MultiAckIndex → AckIndex → AckIndex) → ℕ → Type 0
Keeps drift f h =
    (d : ℕ) (mi : MultiAckIndex) (i : AckIndex)
    → IsConsistent d i
    → GoMap.get i.hi h ≡ some mi
    → IsConsistent (drift mi d) (f mi i)

abbrev no_drift : MultiAckIndex → ℕ → ℕ
no_drift mi d = d

-- One more, if the query has an ack already and a response that waits for another.
unfoldable pub overwritten : Ack → MultiAckIndex → ℕ → ℕ
overwritten ack mi d = elim (GoMap.get mi.resp_index ack.key) [
  | none ↦ d
  | some _ ↦ d + weight (λ _. 1) (GoMap.get mi.ack_index ack.key)
]

add_response_to-IsConsistent :
    (h : ℕ) (resp : Response) → Keeps no_drift (λ mi i. (add_response_to h mi resp i).1) h
unfolding add_response_to
add_response_to-IsConsistent h resp d mi i w at =
    let (mr, ma) = w.each h mi at in
    elim (Option-cases (GoMap.get mi.resp_index resp.key)) [
      | inr (oresp, e) ↦ elim (Bool-cases (oresp.hash == resp.hash)) [
        | inl s ↦ rw (e, add_response_to, s) w
        | inr s ↦ rw (e, add_response_to, s) w
      ]
      | inl e ↦
          let mi' : MultiAckIndex = record mi {
            resp_index = GoMap.put mi.resp_index resp.key resp;
          } in
          let size : responses_of mi' ≡ responses_of mi + 1 =
            ground (arith, len-put mi.resp_index resp.key resp mr, e) in
          rw (e, add_response_to)
            (change-IsConsistent d d i h mi mi' (add32 i.response_count 1) i.ack_count w at
              (put-IsMap mi.resp_index resp.key resp mr, ma)
              (subst (Follows i.response_count (add32 i.response_count 1) (responses_of mi))
                (sym size) (Follows-add i.response_count (responses_of mi)))
              (Follows-same i.ack_count (acks_of mi + d)))
    ]

register_in-IsConsistent :
    (h : ℕ) (ack : Ack) → Keeps (overwritten ack) (λ mi i. (register_in h mi ack i).1) h
unfolding register_in overwritten
register_in-IsConsistent h ack d mi i w at =
    let (mr, ma) = w.each h mi at in
    elim (Option-cases (GoMap.get mi.resp_index ack.key)) [
      | inl e ↦ rw (e, register_in, overwritten) w
      | inr (resp, e) ↦
          let mi' : MultiAckIndex = record {
            resp_index = GoMap.delete mi.resp_index ack.key;
            ack_index = GoMap.put mi.ack_index ack.key ack;
          } in
          let extra = weight (λ _. 1) (GoMap.get mi.ack_index ack.key) in
          let fewer : responses_of mi ≡ responses_of mi' + 1 =
            ground (arith, len-delete mi.resp_index ack.key mr, e) in
          let more : acks_of mi' + (d + extra) ≡ acks_of mi + d + 1 =
            ground (arith, len-put mi.ack_index ack.key ack ma) in
          rw (e, register_in, overwritten)
            (change-IsConsistent d (d + extra) i h mi mi' (sub32 i.response_count 1)
              (add32 i.ack_count 1) w at
              (delete-IsMap mi.resp_index ack.key mr, put-IsMap mi.ack_index ack.key ack ma)
              (subst (λ n. Follows i.response_count (sub32 i.response_count 1) n (responses_of mi'))
                (sym fewer) (Follows-sub i.response_count (responses_of mi')))
              (subst (Follows i.ack_count (add32 i.ack_count 1) (acks_of mi + d)) (sym more)
                (Follows-add i.ack_count (acks_of mi + d))))
    ]

remove_from-IsConsistent :
    (h : ℕ) (ack : Ack) → Keeps no_drift (λ mi i. (remove_from h mi ack i).1) h
unfolding remove_from
remove_from-IsConsistent h ack d mi i w at =
    let (mr, ma) = w.each h mi at in
    elim (Option-cases (GoMap.get mi.resp_index ack.key)) [
      | inr (resp, e) ↦
          let mi' : MultiAckIndex = record mi { resp_index = GoMap.delete mi.resp_index ack.key } in
          let fewer : responses_of mi ≡ responses_of mi' + 1 =
            ground (arith, len-delete mi.resp_index ack.key mr, e) in
          rw (e, remove_from)
            (change-IsConsistent d d i h mi mi' (sub32 i.response_count 1) i.ack_count w at
              (delete-IsMap mi.resp_index ack.key mr, ma)
              (subst (λ n. Follows i.response_count (sub32 i.response_count 1) n (responses_of mi'))
                (sym fewer) (Follows-sub i.response_count (responses_of mi')))
              (Follows-same i.ack_count (acks_of mi + d)))
      | inl e ↦ elim (Option-cases (GoMap.get mi.ack_index ack.key)) [
        | inl g ↦ rw (e, remove_from, g) w
        | inr (oack, g) ↦ elim (Bool-cases (oack.hash == ack.hash)) [
          | inr s ↦ rw (e, remove_from, g, s) w
          | inl s ↦
              let mi' : MultiAckIndex = record mi {
                ack_index = GoMap.delete mi.ack_index ack.key;
              } in
              let fewer : acks_of mi + d ≡ acks_of mi' + d + 1 =
                ground (arith, len-delete mi.ack_index ack.key ma, g) in
              rw (e, remove_from, g, s)
                (change-IsConsistent d d i h mi mi' i.response_count (sub32 i.ack_count 1) w at
                  (mr, delete-IsMap mi.ack_index ack.key ma)
                  (Follows-same i.response_count (responses_of mi))
                  (subst (λ n. Follows i.ack_count (sub32 i.ack_count 1) n (acks_of mi' + d))
                    (sym fewer) (Follows-sub i.ack_count (acks_of mi' + d))))
        ]
      ]
    ]

-- The drift after a method that a height's index may not be there for.
unfoldable pub drift_at : (MultiAckIndex → ℕ → ℕ) → ℕ → AckIndex → ℕ → ℕ
unfolding load
drift_at drift h i d = elim (load h i).0 [ ok mi ↦ drift mi d | _ ↦ d ]

at_height-IsConsistent :
    (drift : MultiAckIndex → ℕ → ℕ) (f : MultiAckIndex → Exec Error AckIndex (Unit {0})) (d h : ℕ)
    (i : AckIndex)
    → Keeps drift (λ mi j. (f mi j).1) h
    → IsConsistent d i
    → IsConsistent (drift_at drift h i d) (at_height f h i).1
unfolding at_height drift_at
at_height-IsConsistent drift f d h i keeps w =
    let (kept, at) = load-IsConsistent d h i w in
    elim (Outcome-cases (load h i).0) [
      | inl (mi, r) ↦ rw (r, at_height, drift_at) (keeps d mi (load h i).1 kept (at mi r))
      | inr (inl (e, r)) ↦ rw (r, at_height, drift_at) kept
      | inr (inr r) ↦ rw (r, at_height, drift_at) kept
    ]

drift_at-no_drift : (h : ℕ) (i : AckIndex) (d : ℕ) → drift_at no_drift h i d ≡ d
unfolding drift_at
drift_at-no_drift h i d = elim (Outcome-cases (load h i).0) [
  | inl (mi, r) ↦ rw (r, drift_at) refl
  | inr (inl (e, r)) ↦ rw (r, drift_at) refl
  | inr (inr r) ↦ rw (r, drift_at) refl
]

pub add_response-IsConsistent :
    (d h : ℕ) (resp : Response) (i : AckIndex)
    → IsConsistent d i
    → IsConsistent d (add_response h resp i).1
unfolding add_response
add_response-IsConsistent d h resp i w =
    subst (λ n. IsConsistent n (add_response h resp i).1) (drift_at-no_drift h i d)
      (at_height-IsConsistent no_drift (λ mi. add_response_to h mi resp) d h i
        (add_response_to-IsConsistent h resp) w)

pub register-IsConsistent :
    (d h : ℕ) (ack : Ack) (i : AckIndex)
    → IsConsistent d i
    → IsConsistent (drift_at (overwritten ack) h i d) (register h ack i).1
unfolding register
register-IsConsistent d h ack i w =
    at_height-IsConsistent (overwritten ack) (λ mi. register_in h mi ack) d h i
      (register_in-IsConsistent h ack) w

pub remove-IsConsistent :
    (d h : ℕ) (ack : Ack) (i : AckIndex) → IsConsistent d i → IsConsistent d (remove h ack i).1
unfolding remove
remove-IsConsistent d h ack i w =
    subst (λ n. IsConsistent n (remove h ack i).1) (drift_at-no_drift h i d)
      (at_height-IsConsistent no_drift (λ mi. remove_from h mi ack) d h i
        (remove_from-IsConsistent h ack) w)
