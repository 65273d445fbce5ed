-- ===== src/Tests/Replicas.antt =====
-- The theorems on executed and replayed queries, at a database that counts its changes.
use go_crawling_bazaar.Base.{
  ℕ, ◌+◌, ◌<◌, ◌≡◌, refl, true, false, none, some, List, [], ◌∷◌, ◌++◌, string_key, ◌==◌, inl, inr,
  nat_key, arith, if◌then◌else◌, length,
}
use go_crawling_bazaar.Word.{u64_mod}
use go_crawling_bazaar.GoMap
use go_crawling_bazaar.GoMap.{get-empty}
use go_crawling_bazaar.Exec.{ok, err}
use go_crawling_bazaar.Types.Queries.{Query, QueryType, read_query, write_query, Request, Response}
use go_crawling_bazaar.State.Pool.{QueryTracker, enqueue}
use go_crawling_bazaar.State.Storage.{Engine}
use go_crawling_bazaar.State.Execution.{
  State, QueryAsTx, new_state, query_failed, missing_parent, write, write_all, write_single,
  set_savepoint,
}
use go_crawling_bazaar.State.Execution.Replay.{replay_block}
use go_crawling_bazaar.State.Execution.Replicas.{Same}
use go_crawling_bazaar.State.Execution.Replays.{lead, Settles, replay_block-lead}
use go_crawling_bazaar.State.Execution.Batches.{has_to_commit, replay_block-refused, write-undone}

abbrev pub engine : Engine ℕ
engine = record {
  parse = λ _. some false;
  exec = λ q db. if q.pattern == "bad" then none else some (db + 1, 1);
  rows = λ _ db. some db;
  stored = λ db. db;
  savepoint_fails = λ _. false;
  release_fails = λ _. false;
}

abbrev pub insert : Query
insert = record { pattern = "insert"; args = [] }

abbrev bad : Query
bad = record { pattern = "bad"; args = [] }

abbrev pub request : QueryType → List Query → Request
request kind queries = record {
  header_hash = length queries;
  query_type = kind;
  key = record { node_id = "n"; connection_id = 0; seq_no = 0 };
  timestamp = 0;
  signee = 0;
  queries = queries;
}

abbrev pub one : Request
one = request write_query (insert ∷ [])

abbrev failing : Request
failing = request write_query (bad ∷ [])

abbrev two : Request
two = request write_query (insert ∷ insert ∷ [])

abbrev broken : Request
broken = request write_query (insert ∷ bad ∷ [])

abbrev sign : Response → Response
sign r = record r { hash = 9; response_account = 4 }

abbrev pub database : State ℕ
database = new_state true 0

abbrev pub a_read : QueryAsTx
a_read = record {
  request = request read_query (insert ∷ []);
  response = record {
    key = record { node_id = "n"; connection_id = 0; seq_no = 0 };
    hash = 0;
    request_timestamp = 0;
    log_offset = 7;
    row_count = 1;
    affected_rows = 0;
    response_account = 0;
  };
}

abbrev pub ref_of : Request → QueryTracker
ref_of r = record { req = r; resp = none }

abbrev pub answer_at : ℕ → ℕ → Response
answer_at offset affected = record a_read.response {
  log_offset = offset;
  row_count = 0;
  affected_rows = affected;
}

requests-Settles : Settles engine sign (one ∷ failing ∷ two ∷ []) database
unfolding Settles write new_state
requests-Settles = (
  inl ((ref_of one, answer_at 0 1), refl),
  (
    inr ((query_failed, refl), (refl, refl), refl, refl),
    (inl ((ref_of two, answer_at 1 2), refl), tt),
  ),
)

dirty : database.dirty_writes ≡ true
unfolding new_state
dirty = refl

no_marks : database.savepoints ≡ []
unfolding new_state
no_marks = refl

no_index :
    (sp pos : ℕ) → GoMap.get database.pool.index sp ≡ some pos → pos < length database.pool.queries
unfolding new_state
no_index sp pos e = absurd (ground (arith, e, get-empty {V = ℕ} sp))

has_room : length database.pool.queries + 3 < u64_mod
unfolding new_state
has_room = omega arith

replay_block-lead_example :
    let leader = (lead engine sign (one ∷ failing ∷ two ∷ []) database).1 in
    let r =
      replay_block engine
        (failing ∷ [])
        ((lead engine sign (one ∷ failing ∷ two ∷ []) database).0 ++ a_read ∷ [])
        database in
    (r.0 ≡ ok tt) × Same r.1 leader × (r.1.committed ≡ leader.written)
replay_block-lead_example =
    replay_block-lead engine sign (λ r. refl) (one ∷ failing ∷ two ∷ []) (failing ∷ [])
      (a_read ∷ []) database database (refl, (refl, (refl, tt))) requests-Settles dirty no_marks
      (refl, refl) dirty no_index has_room (refl, tt)

abbrev after_broken : State ℕ
after_broken = (write engine broken true database).1

abbrev answer : Response
answer = answer_at 1 1

starts : (write_single engine insert database).0 ≡ ok 1
unfolding write_single new_state
starts = refl

breaks : (write_all engine broken.queries 0 database).0 ≡ err query_failed
unfolding write_all new_state
breaks = refl

few : database.current + 2 < u64_mod
unfolding new_state
few = omega arith

goes_on : (write engine one true after_broken).0 ≡ ok (record { req = one; resp = none }, answer)
unfolding write new_state
goes_on = refl

replay_block-refused_example :
    ((write engine broken true database).0 ≡ err query_failed)
    × (after_broken.written ≡ database.written)
    × (replay_block engine [] (record { request = one; response = sign answer } ∷ []) database
        ≡ (err missing_parent, database))
replay_block-refused_example =
    replay_block-refused engine broken insert (bad ∷ []) database 1 query_failed one
      (record { req = one; resp = none }) answer sign database [] [] refl (omega arith) dirty refl
      starts breaks few goes_on refl refl (refl, refl)

abbrev double_answer : Response
double_answer = answer_at 1 2

answered :
    (write engine two true after_broken).0 ≡ ok (record { req = two; resp = none }, double_answer)
unfolding write new_state
answered = refl

not_yet :
    has_to_commit (write_all engine two.queries 0 (set_savepoint engine true after_broken)).1
    ≡ false
unfolding write write_all new_state
not_yet = refl

write-undone_example :
    let s'' = (write engine two true after_broken).1 in
    (s''.written ≡ database.written)
    × (s''.pool
        ≡ enqueue after_broken.current (record { req = two; resp = none }) after_broken.pool)
write-undone_example =
    write-undone engine broken insert (bad ∷ []) database 1 query_failed two
      (record { req = two; resp = none }) double_answer refl (omega arith) dirty refl starts breaks
      few (omega arith) answered not_yet
