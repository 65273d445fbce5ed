-- ===== src/State/Execution/Replays.antt =====
-- state/state.go: a node that replays a block of another node's queries.
use go_crawling_bazaar.Base.{
  ℕ, ◌+◌, ◌<◌, ◌≤◌, ◌≡◌, refl, true, some, List, [], ◌∷◌, ◌++◌, arith, nat_key, inl, inr, ◌⊎◌, sym,
  ◌∙◌, subst, ap, length, All,
}
use go_crawling_bazaar.GoMap
use go_crawling_bazaar.GoMap.{get-put}
use go_crawling_bazaar.Word.{u64_mod}
use go_crawling_bazaar.Exec.{Outcome, ok, err}
use go_crawling_bazaar.Types.Queries.{read_query, write_query, Request, Response}
use go_crawling_bazaar.State.Pool.{QueryTracker, enqueue}
use go_crawling_bazaar.State.Storage.{Engine}
use go_crawling_bazaar.State.Execution.{State, QueryAsTx, Error, write_all, write, commit_handler}
use go_crawling_bazaar.State.Execution.Replay.{
  replay_tx, replay_rounds, replay_block, remove_all_failed,
}
use go_crawling_bazaar.State.Execution.Pools.{
  Placed, enqueue-Placed, enqueue-length, truncate-ok, remove_all_failed-queries,
}
use go_crawling_bazaar.State.Execution.Replicas.{
  Same, write-Written, write-offset, write_all-Same, write_all-IsKept,
}

abbrev pub IsRead : QueryAsTx → Type 0
IsRead q = q.request.query_type ≡ read_query

abbrev pub IsWrite : Request → Type 0
IsWrite r = r.query_type ≡ write_query

module _ {Db : Type 0} (sql : Engine Db) (sign : Response → Response) where
  -- A leader's writes, one after the other, and the queries for its block: those that succeed, with
  -- the responses that the leader signs.
  unfoldable pub lead : List Request → State Db → List QueryAsTx × State Db
  lead [] s = ([], s)
  lead (r ∷ rs) s =
      let (o, s') = write sql r true s in
      let (txs, s'') = lead rs s' in
      elim o [ ok p ↦ (record { request = r; response = sign p.1 } ∷ txs, s'') | _ ↦ (txs, s'') ]

  -- A write that fails leaves the database and the sequence number, and no savepoint.
  unfoldable pub Settles : List Request → State Db → Type 0
  Settles [] s = Unit
  Settles (r ∷ rs) s =
      let (o, s') = write sql r true s in
      (((p : QueryTracker × Response) × (o ≡ ok p))
        ⊎ (((e : Error) × (o ≡ err e))
            × Same s' s
            × (s'.savepoints ≡ [])
            × (s'.dirty_writes ≡ true)))
      × Settles rs s'

  replay_tx-ok :
      (q : QueryAsTx) (t : State Db) (n : ℕ)
      → IsWrite q.request
      → q.response.log_offset ≡ t.current
      → (write_all sql q.request.queries 0 t).0 ≡ ok n
      → let t' = (write_all sql q.request.queries 0 t).1 in
        replay_tx sql q t ≡ (
          ok tt,
          record t' {
            pool = enqueue t.current (record { req = q.request; resp = some q.response }) t'.pool;
          },
        )
  unfolding replay_tx
  replay_tx-ok q t n w o e = ground (arith, w, o, e)

  replay_rounds-write :
      (q : QueryAsTx) (qs : List QueryAsTx) (last : ℕ) (t t' : State Db)
      → IsWrite q.request
      → replay_tx sql q t ≡ (ok tt, t')
      → replay_rounds sql (q ∷ qs) last t ≡ replay_rounds sql qs t.current t'
  unfolding replay_rounds
  replay_rounds-write q qs last t t' w e = ground (arith, w, e)

  replay_rounds-reads :
      (qs : List QueryAsTx) (last : ℕ) (t : State Db)
      → All IsRead qs
      → replay_rounds sql qs last t ≡ (ok last, t)
  unfolding replay_rounds
  replay_rounds-reads [] last t h = refl
  replay_rounds-reads (q ∷ qs) last t h = ground (arith, h.0, replay_rounds-reads qs last t h.1)

  lead-nil : (s : State Db) → lead [] s ≡ ([], s)
  unfolding lead
  lead-nil s = refl

  lead-ok :
      (r : Request) (rs : List Request) (s : State Db) (ref : QueryTracker) (resp : Response)
      → (write sql r true s).0 ≡ ok (ref, resp)
      → let s' = (write sql r true s).1 in
        lead (r ∷ rs) s
        ≡ (record { request = r; response = sign resp } ∷ (lead rs s').0, (lead rs s').1)
  unfolding lead
  lead-ok r rs s ref resp e = rw (e, lead) refl

  lead-err :
      (r : Request) (rs : List Request) (s : State Db) (e : Error)
      → (write sql r true s).0 ≡ err e
      → lead (r ∷ rs) s ≡ lead rs (write sql r true s).1
  unfolding lead
  lead-err r rs s e f = rw (f, lead) refl

  -- What the replay of a leader's writes comes to.
  record Replayed (s t : State Db) (room : ℕ) (after : Outcome Error ℕ × State Db) : Type 0 where
    last : ℕ
    succeeds : after.0 ≡ ok last
    same : Same after.1 s
    dirty : after.1.dirty_writes ≡ true
    placed : Placed after.1.pool
    fits : length after.1.pool.queries ≤ length t.pool.queries + room

  module _ (kept : (r : Response) → (sign r).log_offset ≡ r.log_offset) where
    replay_rounds-lead :
        (rs : List Request) (reads : List QueryAsTx) (last : ℕ) (s t : State Db)
        → All IsWrite rs
        → Settles rs s
        → s.dirty_writes ≡ true
        → s.savepoints ≡ []
        → Same s t
        → t.dirty_writes ≡ true
        → Placed t.pool
        → All IsRead reads
        → Replayed (lead rs s).1 t (length rs) (replay_rounds sql ((lead rs s).0 ++ reads) last t)
    unfolding Settles
    replay_rounds-lead [] reads last s t w h ds ns same dt p q =
        rw (lead-nil s, replay_rounds-reads reads last t q)
          (record {
            last = last;
            succeeds = refl;
            same = (sym same.0, sym same.1);
            dirty = dt;
            placed = p;
            fits = ground arith;
          })
    replay_rounds-lead (r ∷ rs) reads last s t w h ds ns same dt p q =
        let o = write sql r true s in
        elim h.0 [
          | inr ((e, f), back, ns', ds') ↦
              let ih =
                replay_rounds-lead rs reads last o.1 t w.1 h.1 ds' ns'
                  (back.0 ∙ same.0, back.1 ∙ same.1) dt p q in
              rw (lead-err r rs s e f) (record {
                last = ih.last;
                succeeds = ih.succeeds;
                same = ih.same;
                dirty = ih.dirty;
                placed = ih.placed;
                fits = ground (arith, ih.fits);
              })
          | inl ((ref, resp), f) ↦
              let tx : QueryAsTx = record { request = r; response = sign resp } in
              let v = write-Written sql r true s ref resp ds ns f in
              let offset = write-offset sql r true s ref resp f in
              let after = write_all-Same sql r.queries 0 s t same in
              let t1 = (write_all sql r.queries 0 t).1 in
              let tracker : QueryTracker = record { req = r; resp = some (sign resp) } in
              let t' = record t1 { pool = enqueue t.current tracker t1.pool } in
              let (pool_kept, marks, level) = write_all-IsKept sql r.queries 0 t in
              let size : length t'.pool.queries ≡ length t.pool.queries + 1 =
                ap (λ x. length (enqueue t.current tracker x).queries) pool_kept
                ∙ enqueue-length t.current tracker t.pool in
              let ih =
                replay_rounds-lead rs reads t.current o.1 t' w.1 h.1 v.dirty v.unmarked
                  (v.same.0 ∙ after.1.0, v.same.1 ∙ after.1.1) (level ∙ dt)
                  (subst (λ x. Placed (enqueue t.current tracker x)) (sym pool_kept)
                    (enqueue-Placed t.current tracker t.pool p))
                  q in
              let done =
                replay_tx-ok tx t v.affected w.0 (kept resp ∙ offset ∙ same.1)
                  (sym after.0 ∙ v.executed) in
              rw
                (
                  lead-ok r rs s ref resp f,
                  replay_rounds-write tx ((lead rs o.1).0 ++ reads) last t t' w.0 done,
                )
                (record {
                  last = ih.last;
                  succeeds = ih.succeeds;
                  same = ih.same;
                  dirty = ih.dirty;
                  placed = ih.placed;
                  fits = ground (arith, ih.fits, size);
                })
        ]

    -- At the level read uncommitted, a follower with the database and the sequence number of a leader
    -- that has no savepoint, with an index that points into its queries, and with room for more of
    -- them below 2 ^ 64, replays the block of the leader's writes, with any reads behind them and any
    -- failed requests: it does not fail or panic, and afterwards it has the leader's database, written
    -- and committed, and the leader's sequence number. The leader may sign its responses, as long as
    -- their offsets stay; its writes that fail must leave its database, its sequence number and no
    -- savepoint.
    pub replay_block-lead :
        (rs failed : List Request) (reads : List QueryAsTx) (s t : State Db)
        → All IsWrite rs
        → Settles rs s
        → s.dirty_writes ≡ true
        → s.savepoints ≡ []
        → Same s t
        → t.dirty_writes ≡ true
        → Placed t.pool
        → length t.pool.queries + length rs < u64_mod
        → All IsRead reads
        → let leader = (lead rs s).1 in
          let r = replay_block sql failed ((lead rs s).0 ++ reads) t in
          (r.0 ≡ ok tt) × Same r.1 leader × (r.1.committed ≡ leader.written)
    unfolding replay_block commit_handler
    replay_block-lead rs failed reads s t w h ds ns same dt p room q =
        let v = replay_rounds-lead rs reads 0 s t w h ds ns same dt p q in
        let t' = (replay_rounds sql ((lead rs s).0 ++ reads) 0 t).1 in
        let cleaned = remove_all_failed-queries failed t'.pool in
        let size : length (remove_all_failed failed t'.pool).queries ≡ length t'.pool.queries =
          ap (λ x. length x) cleaned.0 in
        let (p', cut) =
          truncate-ok v.last (remove_all_failed failed t'.pool)
            (λ sp pos e.
              subst (λ (n : ℕ). pos < n) (sym size)
                (v.placed sp pos (ap (λ x. GoMap.get x sp) (sym cleaned.1) ∙ e)))
            (ground (arith, size, v.fits)) in
        (
          ground (arith, v.succeeds, cut),
          (ground (arith, v.succeeds, cut, v.same), ground (arith, v.succeeds, cut, v.same)),
          ground (arith, v.succeeds, cut, v.same, v.dirty),
        )
