-- ===== src/State/Execution/Batches.antt =====
-- state/state.go: what a write of several queries leaves that fails after some of them.
use go_crawling_bazaar.Base.{
  ℕ, suc, Bool-cases, refl, none, ◌&&◌, ◌||◌, ltb, ◌+◌, ◌<◌, ◌≤◌, ◌≡◌, true, false, List, [], ◌∷◌,
  arith, ap, nat_key, inl, inr, length, Bool,
}
use go_crawling_bazaar.Word.{u64_mod, add64, sub64}
use go_crawling_bazaar.Exec.{ok, err, panic, Outcome-cases}
use go_crawling_bazaar.Types.Queries.{write_query, Query, Request, Response}
use go_crawling_bazaar.State.Pool.{QueryTracker, enqueue}
use go_crawling_bazaar.State.Storage.{Engine}
use go_crawling_bazaar.State.Execution.{
  State, QueryAsTx, Error, missing_parent, write_single, write_all, write, set_savepoint, undo,
  try_commit,
}
use go_crawling_bazaar.State.Execution.Replay.{replay_tx, replay_rounds, replay_block}
use go_crawling_bazaar.State.Execution.Replicas.{
  Same, write-offset, write_all-Same, write_all-IsKept,
}

-- The condition for a commit after a write.
abbrev pub has_to_commit : {Db : Type 0} → State Db → Bool
has_to_commit s = ltb s.max_tx (sub64 s.current s.last_commit_point) || s.has_schema_change

module _ {Db : Type 0} (sql : Engine Db) where
  -- A query that succeeds moves the sequence number by one.
  write_single-current :
      (q : Query) (s : State Db) (n : ℕ)
      → (write_single sql q s).0 ≡ ok n
      → (write_single sql q s).1.current ≡ add64 s.current 1
  unfolding write_single
  write_single-current q s n e = ground (arith, e)

  write_single-err :
      (q : Query) (s : State Db) (e : Error)
      → (write_single sql q s).0 ≡ err e
      → (write_single sql q s).1.current ≡ s.current
  unfolding write_single
  write_single-err q s e h = ground (arith, h)

  write_single-no_panic : (q : Query) (s : State Db) → (write_single sql q s).0 ≡ panic → ⊥
  unfolding write_single
  write_single-no_panic q s h = ground (arith, h)

  write_all-current :
      (qs : List Query) (n : ℕ) (s : State Db)
      → s.current + length qs < u64_mod
      → (s.current ≤ (write_all sql qs n s).1.current)
        × ((write_all sql qs n s).1.current ≤ s.current + length qs)
  unfolding write_all
  write_all-current [] n s room = (ground arith, ground arith)
  write_all-current (q ∷ qs) n s room = elim (Outcome-cases (write_single sql q s).0) [
    | inl (a, p) ↦
        let step = write_single-current q s a p in
        ground (arith, p, step, write_all-current qs (add64 n a) (write_single sql q s).1)
    | inr (inl (e, p)) ↦ ground (arith, p, write_single-err q s e p)
    | inr (inr p) ↦ absurd (write_single-no_panic q s p)
  ]

  write_all-grown :
      (q : Query) (qs : List Query) (s : State Db) (n : ℕ)
      → (write_single sql q s).0 ≡ ok n
      → s.current + suc (length qs) < u64_mod
      → s.current < (write_all sql (q ∷ qs) 0 s).1.current
  unfolding write_all
  write_all-grown q qs s n first room =
      let step = write_single-current q s n first in
      ground (arith, first, step, write_all-current qs (add64 0 n) (write_single sql q s).1)

  -- What a write of at least two queries leaves that fails in a later one, where a savepoint can be set.
  write-err :
      (req : Request) (q : Query) (qs : List Query) (s : State Db) (n : ℕ) (e : Error)
      → req.queries ≡ q ∷ qs
      → 0 < length qs
      → s.dirty_writes ≡ true
      → sql.savepoint_fails s.current ≡ false
      → (write_single sql q s).0 ≡ ok n
      → (write_all sql req.queries 0 s).0 ≡ err e
      → s.current + length req.queries < u64_mod
      → let s' = (write sql req true s).1 in
        ((write sql req true s).0 ≡ err e)
        × (s'.written ≡ s.written)
        × (s.current < s'.current)
        × (s'.savepoints ≡ s.written ∷ s.savepoints)
        × (s'.dirty_writes ≡ true)
  unfolding write undo
  write-err req q qs s n e same several dirty set first fails room =
      let size : length req.queries ≡ suc (length qs) = ap (λ x. length x) same in
      let grown : s.current < (write_all sql req.queries 0 s).1.current =
        rw same (write_all-grown q qs s n first (ground (arith, size, room))) in
      let batch : (ltb 1 (length req.queries) && s.dirty_writes) ≡ true =
        ground (arith, size, several, dirty) in
      let s0 = set_savepoint sql true s in
      let (alike, there) = write_all-Same sql req.queries 0 s0 s (refl, refl) in
      let (pool_kept, marks, level) = write_all-IsKept sql req.queries 0 s0 in
      rw (batch, write)
        (
          ground (arith, set, fails, alike),
          ground (arith, set, fails, alike, marks),
          ground (arith, set, fails, alike, there, grown),
          ground (arith, set, fails, alike, marks),
          ground (arith, set, fails, alike, level, dirty),
        )

  -- The changes of a batch that succeeds without a commit, where the transaction has a savepoint.
  write-rolled_back :
      (req : Request) (s : State Db) (ref : QueryTracker) (resp : Response) (db : Db)
      (dbs : List Db)
      → 1 < length req.queries
      → s.dirty_writes ≡ true
      → s.savepoints ≡ db ∷ dbs
      → (write sql req true s).0 ≡ ok (ref, resp)
      → has_to_commit (write_all sql req.queries 0 (set_savepoint sql true s)).1 ≡ false
      → ((write sql req true s).1.written ≡ db)
        × ((write sql req true s).1.pool
            ≡ enqueue s.current (record { req = req; resp = none }) s.pool)
  unfolding write undo try_commit
  write-rolled_back req s ref resp db dbs several dirty marked after few =
      let batch : (ltb 1 (length req.queries) && s.dirty_writes) ≡ true =
        ground (arith, several, dirty) in
      let s0 = set_savepoint sql true s in
      let r = write_all sql req.queries 0 s0 in
      let (pool_kept, marks, level) = write_all-IsKept sql req.queries 0 s0 in
      elim (Outcome-cases r.0) [
        | inr o ↦ absurd (ground (arith, batch, after, o))
        | inl (n, p) ↦ elim (Bool-cases (sql.savepoint_fails s.current)) [
          | inl f ↦ absurd (ground (arith, batch, after, f))
          | inr f ↦ elim (Bool-cases (sql.release_fails s.current)) [
            | inl g ↦ absurd (ground (arith, batch, after, f, p, g))
            | inr g ↦
                rw (batch, write, f, p, g)
                  (ground (arith, few, marks, marked), ground (arith, few, pool_kept))
          ]
        ]
      ]

  -- A follower refuses a block that begins with a write whose offset is above its sequence number.
  replay_block-missing :
      (q : QueryAsTx) (qs : List QueryAsTx) (failed : List Request) (t : State Db)
      → q.request.query_type ≡ write_query
      → t.current < q.response.log_offset
      → replay_block sql failed (q ∷ qs) t ≡ (err missing_parent, t)
  unfolding replay_block replay_rounds replay_tx
  replay_block-missing q qs failed t w l = ground (arith, w, l)

  -- At the level read uncommitted, let the first of at least two queries of a write succeed and a
  -- later one fail, with a savepoint set and the sequence number plus the queries below 2 ^ 64. The
  -- write fails and leaves the database as it was, but not the sequence number: a follower with the
  -- old database and sequence number refuses every block that begins with the leader's next write, if
  -- that succeeds and its signed response has the same offset, and stays as it was.
  pub replay_block-refused :
      (req : Request) (q : Query) (qs : List Query) (s : State Db) (n : ℕ) (e : Error)
      (next : Request) (ref : QueryTracker) (resp : Response) (sign : Response → Response)
      (t : State Db) (txs : List QueryAsTx) (failed : List Request)
      → req.queries ≡ q ∷ qs
      → 0 < length qs
      → s.dirty_writes ≡ true
      → sql.savepoint_fails s.current ≡ false
      → (write_single sql q s).0 ≡ ok n
      → (write_all sql req.queries 0 s).0 ≡ err e
      → s.current + length req.queries < u64_mod
      → let s' = (write sql req true s).1 in
        (write sql next true s').0 ≡ ok (ref, resp)
        → next.query_type ≡ write_query
        → (sign resp).log_offset ≡ resp.log_offset
        → Same s t
        → ((write sql req true s).0 ≡ err e)
          × (s'.written ≡ s.written)
          × (replay_block sql failed (record { request = next; response = sign resp } ∷ txs) t
              ≡ (err missing_parent, t))
  replay_block-refused req q qs s n e next ref resp sign t txs failed same several dirty set first
        fails room after w kept alike =
      let s' = (write sql req true s).1 in
      let (error, undone, grown, marks, level) =
        write-err req q qs s n e same several dirty set first fails room in
      let offset = write-offset sql next true s' ref resp after in
      (
        error,
        undone,
        replay_block-missing (record { request = next; response = sign resp }) txs failed t w
            (ground (arith, kept, offset, alike, grown)),
      )

  -- At the level read uncommitted, let the first of at least two queries of a write succeed and a later
  -- one fail, with a savepoint set and the sequence number plus the queries below 2 ^ 64. A second
  -- write of at least two queries that then succeeds, and after which there is nothing to commit,
  -- leaves the database as it was before both: it is answered and put into the pool, but its changes
  -- are rolled back.
  pub write-undone :
      (req : Request) (q : Query) (qs : List Query) (s : State Db) (n : ℕ) (e : Error)
      (next : Request) (ref : QueryTracker) (resp : Response)
      → req.queries ≡ q ∷ qs
      → 0 < length qs
      → s.dirty_writes ≡ true
      → sql.savepoint_fails s.current ≡ false
      → (write_single sql q s).0 ≡ ok n
      → (write_all sql req.queries 0 s).0 ≡ err e
      → s.current + length req.queries < u64_mod
      → let s' = (write sql req true s).1 in
        1 < length next.queries
        → (write sql next true s').0 ≡ ok (ref, resp)
        → has_to_commit (write_all sql next.queries 0 (set_savepoint sql true s')).1 ≡ false
        → let s'' = (write sql next true s').1 in
          (s''.written ≡ s.written)
          × (s''.pool ≡ enqueue s'.current (record { req = next; resp = none }) s'.pool)
  write-undone req q qs s n e next ref resp same several dirty set first fails room more after few =
      let (error, undone, grown, marks, level) =
        write-err req q qs s n e same several dirty set first fails room in
      write-rolled_back next (write sql req true s).1 ref resp s.written s.savepoints more level
        marks after few
