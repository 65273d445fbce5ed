-- ===== src/UrlChain/AckIndex/Counters.antt =====
-- urlchain/ackindex.go: the counters agree with the maps, and nothing is kept below the barrier.
use go_crawling_bazaar.Base.{
  ℕ, ◌+◌, ◌%◌, ◌<◌, ◌≡◌, none, some, nat_key, ◌==◌, arith, ltb, Bool-cases, Option-cases, inl, inr,
  subst,
}
use go_crawling_bazaar.GoMap
use go_crawling_bazaar.GoMap.{
  GoMap, IsMap, get-put, get-delete, get-empty, put-IsMap, delete-IsMap, empty-IsMap,
}
use go_crawling_bazaar.GoMap.Totals.{total, total-put, len-empty}
use go_crawling_bazaar.Word.{u32_mod, add32, sub32}
use go_crawling_bazaar.Exec.{ok}
use go_crawling_bazaar.UrlChain.AckIndex.{
  QueryKey, query_key, Response, Ack, MultiAckIndex, AckIndex, empty_index, load, put_index,
}

abbrev pub responses_of : MultiAckIndex → ℕ
responses_of mi = GoMap.len mi.resp_index

abbrev pub acks_of : MultiAckIndex → ℕ
acks_of mi = GoMap.len mi.ack_index

-- A map of maps, none of them below the barrier, and its sizes in the counters; the counter of the acks
-- is `drift` too high.
pub record IsConsistent (drift : ℕ) (i : AckIndex) : Type 0 where
  pub keyed : IsMap i.hi
  pub each :
      (h : ℕ) (mi : MultiAckIndex)
      → GoMap.get i.hi h ≡ some mi
      → IsMap mi.resp_index × IsMap mi.ack_index
  pub above : (h : ℕ) → h < i.barrier → GoMap.get i.hi h ≡ none
  pub indexes : i.multi_index_count ≡ total (λ _. 1) i.hi % u32_mod
  pub responses : i.response_count ≡ total responses_of i.hi % u32_mod
  pub acknowledged : i.ack_count ≡ (total acks_of i.hi + drift) % u32_mod

-- A counter that follows a total.
abbrev pub Follows : ℕ → ℕ → ℕ → ℕ → Type 0
Follows before after removed added =
    (t t' : ℕ) → before ≡ t % u32_mod → t' + removed ≡ t + added → after ≡ t' % u32_mod

pub Follows-same : (n k : ℕ) → Follows n n k k
Follows-same n k t t' e f = omega arith

pub Follows-add : (n k : ℕ) → Follows n (add32 n 1) k (k + 1)
Follows-add n k t t' e f = omega arith

pub Follows-sub : (n k : ℕ) → Follows n (sub32 n 1) (k + 1) k
Follows-sub n k t t' e f = omega arith

-- Another index for a height that has one, and counters that follow its sizes.
pub change-IsConsistent :
    (d d' : ℕ) (i : AckIndex) (h : ℕ) (mi mi' : MultiAckIndex) (r a : ℕ)
    → IsConsistent d i
    → GoMap.get i.hi h ≡ some mi
    → IsMap mi'.resp_index × IsMap mi'.ack_index
    → Follows i.response_count r (responses_of mi) (responses_of mi')
    → Follows i.ack_count a (acks_of mi + d) (acks_of mi' + d')
    → IsConsistent d' (record (put_index h mi' i) { response_count = r; ack_count = a })
change-IsConsistent d d' i h mi mi' r a w at maps fr fa = record {
  keyed = put-IsMap i.hi h mi' w.keyed;
  each = λ j m e. elim (Bool-cases (h == j)) [
    | inl s ↦
        let same : mi' ≡ m = ground (arith, e, s, get-put i.hi h j mi') in
        subst (λ x. IsMap x.resp_index × IsMap x.ack_index) same maps
    | inr s ↦ w.each j m (ground (arith, e, s, get-put i.hi h j mi'))
  ];
  above = λ j l. ground (arith, w.above j l, w.above h, at, get-put i.hi h j mi');
  indexes = ground (arith, w.indexes, total-put (λ _. 1) i.hi h mi' w.keyed, at);
  responses =
      fr (total responses_of i.hi) (total responses_of (GoMap.put i.hi h mi')) w.responses
        (ground (arith, total-put responses_of i.hi h mi' w.keyed, at));
  acknowledged =
      fa (total acks_of i.hi + d) (total acks_of (GoMap.put i.hi h mi') + d') w.acknowledged
        (ground (arith, total-put acks_of i.hi h mi' w.keyed, at));
}

-- A loaded index stands at its height.
pub load-IsConsistent :
    (d h : ℕ) (i : AckIndex)
    → IsConsistent d i
    → IsConsistent d (load h i).1
      × ((mi : MultiAckIndex) → (load h i).0 ≡ ok mi → GoMap.get (load h i).1.hi h ≡ some mi)
unfolding load
load-IsConsistent d h i w = elim (Bool-cases (ltb h i.barrier)) [
  | inl l ↦ rw (l, load) (w, λ mi e. absurd (ground arith))
  | inr l ↦ elim (Option-cases (GoMap.get i.hi h)) [
    | inr (mi, e) ↦ rw (l, load, e) (w, λ m q. ground arith)
    | inl e ↦
        let i' : AckIndex = record i {
          hi = GoMap.put i.hi h empty_index;
          multi_index_count = add32 i.multi_index_count 1;
        } in
        let no_responses : responses_of empty_index ≡ 0 = len-empty QueryKey Response in
        let no_acks : acks_of empty_index ≡ 0 = len-empty QueryKey Ack in
        let made : IsConsistent d i' = record {
          keyed = put-IsMap i.hi h empty_index w.keyed;
          each = λ j m q. elim (Bool-cases (h == j)) [
            | inl s ↦
                let same : empty_index ≡ m = ground (arith, q, s, get-put i.hi h j empty_index) in
                subst (λ x. IsMap x.resp_index × IsMap x.ack_index) same (empty-IsMap, empty-IsMap)
            | inr s ↦ w.each j m (ground (arith, q, s, get-put i.hi h j empty_index))
          ];
          above = λ j b. ground (arith, w.above j b, l, get-put i.hi h j empty_index);
          indexes = ground (arith, w.indexes, total-put (λ _. 1) i.hi h empty_index w.keyed, e);
          responses = ground (
            arith,
            w.responses,
            total-put responses_of i.hi h empty_index w.keyed,
            e,
            no_responses,
          );
          acknowledged =
              ground
                (arith, w.acknowledged, total-put acks_of i.hi h empty_index w.keyed, e, no_acks);
        } in
        rw (l, load, e) (made, λ m q. ground (arith, get-put i.hi h h empty_index))
  ]
]
