-- ===== src/State/Execution/Replicas.antt =====
-- state/state.go: two nodes with the same database execute the same queries alike.
use go_crawling_bazaar.Base.{
  ℕ, ◌≡◌, refl, Bool, true, ◌&&◌, none, sym, ◌∙◌, List, [], ◌∷◌, arith, nat_key, ltb, Bool-cases,
  inl, inr, length, if◌then◌else◌,
}
use go_crawling_bazaar.Word.{add64}
use go_crawling_bazaar.Exec.{ok, Outcome-cases}
use go_crawling_bazaar.Types.Queries.{Query, Request, Response}
use go_crawling_bazaar.State.Pool.{QueryTracker, enqueue}
use go_crawling_bazaar.State.Storage.{Engine}
use go_crawling_bazaar.State.Execution.{
  State, write_single, write_all, try_commit, set_savepoint, release, undo, write,
}

module _ {Db : Type 0} where
  -- The same database and the same sequence number.
  abbrev pub Same : State Db → State Db → Type 0
  Same s t = (s.written ≡ t.written) × (s.current ≡ t.current)

  -- A commit drops the savepoints, and leaves the database.
  pub try_commit-Same :
      (s : State Db)
      → s.savepoints ≡ []
      → Same (try_commit s) s
        × ((try_commit s).pool ≡ s.pool)
        × ((try_commit s).savepoints ≡ [])
        × ((try_commit s).dirty_writes ≡ s.dirty_writes)
  unfolding try_commit
  try_commit-Same s e = ground arith

  module _ (sql : Engine Db) where
    write_single-Same :
        (q : Query) (s t : State Db)
        → Same s t
        → ((write_single sql q s).0 ≡ (write_single sql q t).0)
          × Same (write_single sql q s).1 (write_single sql q t).1
    unfolding write_single
    write_single-Same q s t h = ground arith

    pub write_all-Same :
        (qs : List Query) (n : ℕ) (s t : State Db)
        → Same s t
        → ((write_all sql qs n s).0 ≡ (write_all sql qs n t).0)
          × Same (write_all sql qs n s).1 (write_all sql qs n t).1
    unfolding write_all
    write_all-Same [] n s t h = (refl, h)
    write_all-Same (q ∷ qs) n s t h =
        let (e, same) = write_single-Same q s t h in
        let ih = λ (a : ℕ).
          write_all-Same qs (add64 n a) (write_single sql q s).1 (write_single sql q t).1 same in
        elim (Outcome-cases (write_single sql q s).0) [
          | inl (a, p) ↦ ground (arith, p, e, ih a)
          | inr (inl (x, p)) ↦ ground (arith, p, e, same)
          | inr (inr p) ↦ ground (arith, p, e, same)
        ]

    -- What the queries leave alone.
    abbrev pub IsKept : State Db → State Db → Type 0
    IsKept s t =
        (t.pool ≡ s.pool) × (t.savepoints ≡ s.savepoints) × (t.dirty_writes ≡ s.dirty_writes)

    pub write_all-IsKept :
        (qs : List Query) (n : ℕ) (s : State Db) → IsKept s (write_all sql qs n s).1
    unfolding write_all write_single
    write_all-IsKept [] n s = (refl, refl, refl)
    write_all-IsKept (q ∷ qs) n s =
        let step : IsKept s (write_single sql q s).1 = ground arith in
        let ih = λ (a : ℕ). write_all-IsKept qs (add64 n a) (write_single sql q s).1 in
        elim (Outcome-cases (write_single sql q s).0) [
          | inl (a, p) ↦ ground (arith, p, ih a, step)
          | inr (inl (x, p)) ↦ ground (arith, p, step)
          | inr (inr p) ↦ ground (arith, p, step)
        ]

    -- A write that succeeds answers with the sequence number it has found.
    pub write-offset :
        (req : Request) (leader : Bool) (s : State Db) (ref : QueryTracker) (resp : Response)
        → (write sql req leader s).0 ≡ ok (ref, resp)
        → resp.log_offset ≡ s.current
    unfolding write
    write-offset req leader s ref resp e =
        let batch = ltb 1 (length req.queries) && s.dirty_writes in
        elim (Outcome-cases (write_all sql req.queries 0 (set_savepoint sql batch s)).0) [
          | inl (n, p) ↦ ground (arith, p, e)
          | inr (inl (x, p)) ↦ absurd (ground (arith, p, e))
          | inr (inr p) ↦ absurd (ground (arith, p, e))
        ]

    -- What a write that succeeds leaves: what its queries leave, and the tracker in a leader's pool.
    pub record Written (req : Request) (leader : Bool) (s s' : State Db) : Type 0 where
      pub affected : ℕ
      pub executed : (write_all sql req.queries 0 s).0 ≡ ok affected
      pub same : Same s' (write_all sql req.queries 0 s).1
      pub unmarked : s'.savepoints ≡ []
      pub dirty : s'.dirty_writes ≡ true
      pub pooled : s'.pool ≡ (
          if leader then enqueue s.current (record { req = req; resp = none }) s.pool else s.pool)

    pub write-Written :
        (req : Request) (leader : Bool) (s : State Db) (ref : QueryTracker) (resp : Response)
        → s.dirty_writes ≡ true
        → s.savepoints ≡ []
        → (write sql req leader s).0 ≡ ok (ref, resp)
        → Written req leader s (write sql req leader s).1
    unfolding write undo
    write-Written req leader s ref resp d none_left e =
        let batch = ltb 1 (length req.queries) && s.dirty_writes in
        let s0 = set_savepoint sql batch s in
        let r = write_all sql req.queries 0 s0 in
        let (alike, same) = write_all-Same req.queries 0 s0 s (refl, refl) in
        let (same_pool, marks, level) = write_all-IsKept req.queries 0 s0 in
        let empty : (release sql batch r.1).savepoints ≡ [] = ground (arith, marks, none_left) in
        let kept = try_commit-Same (release sql batch r.1) empty in
        elim (Bool-cases (batch && sql.savepoint_fails s.current)) [
          | inl f ↦ absurd (ground (arith, f, e))
          | inr f ↦ elim (Outcome-cases r.0) [
            | inr o ↦ absurd (ground (arith, f, e, o))
            | inl (n, p) ↦ elim (Bool-cases (batch && sql.release_fails s.current)) [
              | inl g ↦ absurd (ground (arith, f, e, p, g))
              | inr g ↦ record {
                affected = n;
                executed = sym alike ∙ p;
                same = ground (arith, f, g, p, kept, same, level, d);
                unmarked = ground (arith, f, g, p, kept);
                dirty = ground (arith, f, g, p, kept, level, d);
                pooled = ground (arith, f, g, p, kept, same_pool);
              }
            ]
          ]
        ]
