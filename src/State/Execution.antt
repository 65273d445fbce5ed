-- ===== src/State/Execution.antt =====
-- state/state.go: the queries that a node executes, and those of a block that it replays. A commit or
-- a rollback that fails ends the program, so both succeed here.
pub mod Replay
pub mod Replicas
pub mod Pools
pub mod Replays
pub mod Batches
use go_crawling_bazaar.Base.{
  ℕ, ◌+◌, ◌-◌, Bool, true, false, ◌&&◌, ◌||◌, Option, none, some, List, [], ◌∷◌, ◌++◌, nat_key,
  ◌==◌, ltb, length, map, if◌then◌else◌,
}
use go_crawling_bazaar.GoMap
use go_crawling_bazaar.Word.{add64, sub64}
use go_crawling_bazaar.Exec.{Outcome, ok, err, panic, Exec}
use go_crawling_bazaar.Types.Queries.{
  QueryType, read_query, write_query, invalid, Query, Request, Response,
}
use go_crawling_bazaar.State.Pool.{
  QueryTracker, Pool, new_pool, enqueue, enqueue_read, set_failed, failed_list, remove_failed,
  truncate,
}
use go_crawling_bazaar.State.Storage.{Engine}

-- The errors that state.go returns, wrapped or not; a call with `deadlock` never returns.
pub data Error : Type 0 where
  invalid_request missing_parent query_conflict query_failed savepoint_failed deadlock : Error

-- State: `dirty_writes` is the isolation level LevelReadUncommitted, at which the handler is a
-- transaction. `written` is the database as the handler sees it, `committed` as it is stored, and
-- `savepoints` the database at each savepoint of the transaction, the last one first: all of them have
-- the name "?", and a statement means the last.
pub record State (Db : Type 0) : Type 0 where
  pub dirty_writes : Bool
  pub written : Db
  pub committed : Db
  pub savepoints : List Db
  pub pool : Pool
  pub closed : Bool
  pub max_tx : ℕ
  pub last_commit_point : ℕ
  pub current : ℕ
  pub has_schema_change : Bool

-- types.QueryAsTx
pub record QueryAsTx : Type 0 where
  pub request : Request
  pub response : Response

abbrev response_to : Request → ℕ → ℕ → ℕ → Response
response_to req offset rows affected = record {
  key = req.key;
  hash = 0;
  request_timestamp = req.timestamp;
  log_offset = offset;
  row_count = rows;
  affected_rows = affected;
  response_account = 0;
}

module _ {Db : Type 0} where
  -- NewState
  unfoldable pub new_state : Bool → Db → State Db
  unfolding new_pool
  new_state dirty_writes db = record {
    dirty_writes = dirty_writes;
    written = db;
    committed = db;
    savepoints = [];
    pool = new_pool;
    closed = false;
    max_tx = 100;
    last_commit_point = 0;
    current = 0;
    has_schema_change = false;
  }

  -- SetSeq
  abbrev pub set_seq : ℕ → State Db → State Db
  set_seq id s = record s { current = id }

  -- commitHandler; it does nothing to a handler that is no transaction.
  unfoldable pub commit_handler : State Db → State Db
  commit_handler s = record s {
    committed = if s.dirty_writes then s.written else s.committed;
    savepoints = [];
    has_schema_change = false;
    last_commit_point = s.current;
  }

  -- rollbackHandler
  unfoldable pub rollback_handler : State Db → State Db
  rollback_handler s = record s {
    written = if s.dirty_writes then s.committed else s.written;
    savepoints = [];
    has_schema_change = false;
  }

  -- Close; the storage closes without an error.
  unfoldable pub close : Bool → State Db → State Db
  unfolding commit_handler rollback_handler
  close commit s =
      if s.closed
      then s
      else record (if commit then commit_handler s else rollback_handler s) { closed = true }

  -- flushHandler: openHandler begins the next transaction.
  abbrev pub flush_handler : State Db → State Db
  flush_handler = commit_handler

  -- The attempt to commit after a write and after a replayed query.
  unfoldable pub try_commit : State Db → State Db
  unfolding commit_handler
  try_commit s =
      if ltb s.max_tx (sub64 s.current s.last_commit_point) || s.has_schema_change
      then flush_handler s
      else s

  abbrev pub pooled : (Pool → Pool) → State Db → State Db
  pooled f s = record s { pool = f s.pool }

  -- CommitEx: the failed requests, and the executed queries with those that only read.
  unfoldable pub commit_ex : State Db → (List Request × List QueryTracker) × State Db
  unfolding commit_handler failed_list
  commit_ex s = (
    (failed_list s.pool, s.pool.queries ++ map (λ kv. kv.1) (GoMap.range s.pool.reads)),
    record (flush_handler s) { pool = new_pool },
  )

  module _ (sql : Engine Db) where
    -- The loop of readTx over the queries: the number of rows of the last one.
    unfoldable pub read_rounds : Db → List Query → ℕ → Option ℕ
    read_rounds db [] n = some n
    read_rounds db (q ∷ qs) n = elim (sql.parse q) [
      | none ↦ none
      | some _ ↦ elim (sql.rows q db) [ none ↦ none | some n' ↦ read_rounds db qs n' ]
    ]

    -- readTx: a reader sees what is written at the level read uncommitted, and what is committed at
    -- the others. After a schema change that is not committed it holds the lock that it then waits for,
    -- after an error as after success.
    unfoldable pub read_tx : Request → Exec Error (State Db) (QueryTracker × Response)
    unfolding read_rounds
    read_tx req s =
        let db = if s.dirty_writes then s.written else s.committed in
        if s.dirty_writes && s.has_schema_change
        then (err deadlock, s)
        else elim (read_rounds db req.queries 0) [
          | none ↦ (err query_failed, pooled (set_failed req) s)
          | some n ↦
              let ref : QueryTracker = record { req = req; resp = none } in
              (ok (ref, response_to req s.current n 0), pooled (enqueue_read ref) s)
        ]

    -- writeSingle
    unfoldable pub write_single : Query → Exec Error (State Db) ℕ
    write_single q s = elim (sql.parse q) [
      | none ↦ (err query_failed, s)
      | some ddl ↦ elim (sql.exec q s.written) [
        | none ↦ (err query_failed, s)
        | some (db, affected) ↦ (
          ok affected,
          record s {
            written = db;
            committed = if s.dirty_writes then s.committed else sql.stored db;
            has_schema_change = ddl || s.has_schema_change;
            current = add64 s.current 1;
          },
        )
      ]
    ]

    -- The loops over the queries of a request, with the affected rows so far.
    unfoldable pub write_all : List Query → ℕ → Exec Error (State Db) ℕ
    unfolding write_single
    write_all [] n s = (ok n, s)
    write_all (q ∷ qs) n s =
        let (r, s') = write_single q s in
        elim r [
          | ok affected ↦ write_all qs (add64 n affected) s'
          | err e ↦ (err e, s')
          | panic ↦ (panic, s')
        ]

    -- SAVEPOINT "?"
    abbrev pub set_savepoint : Bool → State Db → State Db
    set_savepoint batch s = record s {
      savepoints = if batch then s.written ∷ s.savepoints else s.savepoints;
    }

    -- RELEASE SAVEPOINT "?"
    abbrev pub release : Bool → State Db → State Db
    release batch s = record s {
      savepoints = if batch then (elim s.savepoints [ [] ↦ [] | _ ∷ ds ↦ ds ]) else s.savepoints;
    }

    -- The deferred statement: ROLLBACK TO "?" after a batch, which leaves the savepoint and fails where
    -- there is none, and at the other isolation levels ROLLBACK.
    unfoldable pub undo : Bool → State Db → State Db
    undo batch s = record s {
      written =
          if batch
          then (elim s.savepoints [ [] ↦ s.written | db ∷ _ ↦ db ])
          else if s.dirty_writes
          then s.written
          else sql.stored s.written;
    }

    -- write
    unfoldable pub write : Request → Bool → Exec Error (State Db) (QueryTracker × Response)
    unfolding write_all try_commit undo
    write req is_leader s =
        let batch = ltb 1 (length req.queries) && s.dirty_writes in
        let ref : QueryTracker = record { req = req; resp = none } in
        let (r, s') = write_all req.queries 0 (set_savepoint batch s) in
        if batch && sql.savepoint_fails s.current then (err savepoint_failed, s) else elim r [
          | panic ↦ (panic, undo batch s')
          | err e ↦ (err e, undo batch (pooled (set_failed req) s'))
          | ok affected ↦
              if batch && sql.release_fails s.current
              then (err savepoint_failed, undo batch s')
              else (
                ok (ref, response_to req s.current 0 affected),
                undo batch (
                    pooled (λ p. if is_leader then enqueue s.current ref p else p)
                      (try_commit (release batch s'))),
              )
        ]

    -- QueryWithContext
    unfoldable pub query : Request → Bool → Exec Error (State Db) (QueryTracker × Response)
    unfolding read_tx write
    query req is_leader s = elim req.query_type [
      | read_query ↦ read_tx req s
      | write_query ↦ write req is_leader s
      | invalid ↦ (err invalid_request, s)
    ]
