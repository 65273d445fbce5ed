-- ===== src/UrlChain/AckIndex.antt =====
-- urlchain/ackindex.go: the responses that wait for an acknowledgement and the acknowledgements that
-- wait for a block, by the height of the query. A height is an int32 that is not negative; a counter
-- is the bit pattern of an int32.
pub mod Counters
pub mod Kept
pub mod Calls
use go_crawling_bazaar.Base.{
  ℕ, zero, suc, ◌+◌, ◌-◌, ◌%◌, ◌≡◌, ◌↔◌, Bool, true, false, ◌&&◌, Option, none, some, List, [], ◌∷◌,
  ◌++◌, String, string_key, nat_key, Key, ◌==◌, arith, ltb, leb, if◌then◌else◌, ap, map,
}
pub use go_crawling_bazaar.Types.Queries.{QueryKey, query_key, Response, Ack}
use go_crawling_bazaar.GoMap
use go_crawling_bazaar.GoMap.{GoMap}
use go_crawling_bazaar.Word.{add32, sub32, u32_mod}
use go_crawling_bazaar.Exec.{Outcome, ok, err, panic, Exec}

-- The errors of urlchain/errors.go that the index returns, wrapped or not.
pub data Error : Type 0 where
  query_expired query_not_found response_seq_not_match multiple_ack_of_seq_no : Error

-- multiAckIndex: the responses without acks, and the acknowledged queries.
pub record MultiAckIndex : Type 0 where
  pub resp_index : GoMap QueryKey Response
  pub ack_index : GoMap QueryKey Ack

-- ackIndex
pub record AckIndex : Type 0 where
  pub hi : GoMap ℕ MultiAckIndex
  pub barrier : ℕ
  pub multi_index_count : ℕ
  pub response_count : ℕ
  pub ack_count : ℕ

abbrev pub Action : Type 0 → Type 0
Action = Exec Error AckIndex

-- newAckIndex
unfoldable pub new_ack_index : AckIndex
new_ack_index = record {
  hi = GoMap.empty;
  barrier = 0;
  multi_index_count = 0;
  response_count = 0;
  ack_count = 0;
}

abbrev pub empty_index : MultiAckIndex
empty_index = record { resp_index = GoMap.empty; ack_index = GoMap.empty }

-- load: the index of the height, which is made if it is missing.
unfoldable pub load : ℕ → Action MultiAckIndex
load h i = if ltb h i.barrier then (err query_expired, i) else elim (GoMap.get i.hi h) [
  | some mi ↦ (ok mi, i)
  | none ↦ (
    ok empty_index,
    record i { hi = GoMap.put i.hi h empty_index; multi_index_count = add32 i.multi_index_count 1 },
  )
]

-- A change of the index of a height.
abbrev pub put_index : ℕ → MultiAckIndex → AckIndex → AckIndex
put_index h mi i = record i { hi = GoMap.put i.hi h mi }

-- multiAckIndex.addResponse, on the index `mi` of the height.
unfoldable pub add_response_to : ℕ → MultiAckIndex → Response → Action (Unit {0})
add_response_to h mi resp i = elim (GoMap.get mi.resp_index resp.key) [
  | some oresp ↦ if oresp.hash == resp.hash then (ok tt, i) else (err response_seq_not_match, i)
  | none ↦ (
    ok tt,
    record (put_index h (record mi { resp_index = GoMap.put mi.resp_index resp.key resp }) i) {
      response_count = add32 i.response_count 1;
    },
  )
]

-- multiAckIndex.register: the error of another response's hash does not stop it.
unfoldable pub register_in : ℕ → MultiAckIndex → Ack → Action (Unit {0})
register_in h mi ack i =
    let mi' : MultiAckIndex = record {
      resp_index = GoMap.delete mi.resp_index ack.key;
      ack_index = GoMap.put mi.ack_index ack.key ack;
    } in
    let waiting = sub32 i.response_count 1 in
    let counted = add32 i.ack_count 1 in
    elim (GoMap.get mi.resp_index ack.key) [
      | none ↦ (err query_not_found, i)
      | some resp ↦ (
        if resp.hash == ack.response_hash then ok tt else err response_seq_not_match,
        record (put_index h mi' i) { response_count = waiting; ack_count = counted },
      )
    ]

-- multiAckIndex.remove
unfoldable pub remove_from : ℕ → MultiAckIndex → Ack → Action (Unit {0})
remove_from h mi ack i = elim (GoMap.get mi.resp_index ack.key) [
  | some _ ↦ (
    ok tt,
    record (put_index h (record mi { resp_index = GoMap.delete mi.resp_index ack.key }) i) {
      response_count = sub32 i.response_count 1;
    },
  )
  | none ↦ elim (GoMap.get mi.ack_index ack.key) [
    | none ↦ (err query_not_found, i)
    | some oack ↦
        if oack.hash == ack.hash
        then (
          ok tt,
          record (put_index h (record mi { ack_index = GoMap.delete mi.ack_index ack.key }) i) {
            ack_count = sub32 i.ack_count 1;
          },
        )
        else (err multiple_ack_of_seq_no, i)
  ]
]

-- `mi, err = i.load(h)` in front of a method of `mi`.
unfoldable pub at_height : (MultiAckIndex → Action (Unit {0})) → ℕ → Action (Unit {0})
unfolding load
at_height f h i =
    let (r, i') = load h i in elim r [ ok mi ↦ f mi i' | err e ↦ (err e, i') | panic ↦ (panic, i') ]

-- addResponse
unfoldable pub add_response : ℕ → Response → Action (Unit {0})
unfolding at_height add_response_to
add_response h resp = at_height (λ mi. add_response_to h mi resp) h

-- register
unfoldable pub register : ℕ → Ack → Action (Unit {0})
unfolding at_height register_in
register h ack = at_height (λ mi. register_in h mi ack) h

-- remove
unfoldable pub remove : ℕ → Ack → Action (Unit {0})
unfolding at_height remove_from
remove h ack = at_height (λ mi. remove_from h mi ack) h

-- The loop of `advance` over `n` heights from `x`, with dl.
unfoldable pub drop_heights :
    ℕ → ℕ → GoMap ℕ MultiAckIndex × List MultiAckIndex → GoMap ℕ MultiAckIndex × List MultiAckIndex
drop_heights zero x (hi, dl) = (hi, dl)
drop_heights (suc n) x (hi, dl) =
    drop_heights n (suc x)
      (GoMap.delete hi x, elim (GoMap.get hi x) [ none ↦ dl | some mi ↦ dl ++ mi ∷ [] ])

-- The loop over dl: the counters of the responses and of the acks.
unfoldable pub discount : List MultiAckIndex → ℕ × ℕ → ℕ × ℕ
discount [] counts = counts
discount (mi ∷ mis) (responses, acks) =
    discount mis (sub32 responses (GoMap.len mi.resp_index), sub32 acks (GoMap.len mi.ack_index))

unfoldable pub len_int32 : List MultiAckIndex → ℕ
len_int32 [] = 0
len_int32 (mi ∷ mis) = add32 (len_int32 mis) 1

-- advance: the barrier may also go back.
unfoldable pub advance : ℕ → AckIndex → AckIndex
unfolding drop_heights discount
advance h i =
    let (hi, dl) = drop_heights (h - i.barrier) i.barrier (i.hi, []) in
    let (responses, acks) = discount dl (i.response_count, i.ack_count) in
    record {
      hi = hi;
      barrier = h;
      multi_index_count = sub32 i.multi_index_count (len_int32 dl);
      response_count = responses;
      ack_count = acks;
    }

-- multiAckIndex.acks, in one order.
abbrev values : List (QueryKey × Ack) → List Ack
values kvs = map (λ kv. kv.1) kvs

-- The loop of `acks` over `n` heights from `x`.
unfoldable pub collect : ℕ → ℕ → AckIndex → List Ack × AckIndex
unfolding load
collect zero x i = ([], i)
collect (suc n) x i =
    let (r, i') = load x i in
    let (rest, i'') = collect n (suc x) i' in
    elim r [ ok mi ↦ (values (GoMap.range mi.ack_index) ++ rest, i'') | _ ↦ (rest, i'') ]

-- acks
unfoldable pub acks : ℕ → AckIndex → List Ack × AckIndex
unfolding collect
acks h i = collect (suc h - i.barrier) i.barrier i
