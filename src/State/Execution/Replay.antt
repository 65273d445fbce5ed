-- ===== src/State/Execution/Replay.antt =====
-- state/state.go: the queries of another node, alone or in a block.
use go_crawling_bazaar.Base.{ℕ, some, List, [], ◌∷◌, nat_key, ◌==◌, ltb, if◌then◌else◌}
use go_crawling_bazaar.Exec.{Outcome, ok, err, panic, Exec}
use go_crawling_bazaar.Types.Queries.{read_query, write_query, invalid, Request, Response}
use go_crawling_bazaar.State.Pool.{QueryTracker, Pool, enqueue, remove_failed, truncate}
use go_crawling_bazaar.State.Storage.{Engine}
use go_crawling_bazaar.State.Execution.{
  Error, missing_parent, invalid_request, query_conflict, State, QueryAsTx, write_all, try_commit,
  commit_handler, flush_handler, pooled,
}

-- The loop over the failed requests of a block.
unfoldable pub remove_all_failed : List Request → Pool → Pool
remove_all_failed [] p = p
remove_all_failed (r ∷ rs) p = remove_all_failed rs (remove_failed r p)

module _ {Db : Type 0} (sql : Engine Db) where
  -- replay
  unfoldable pub replay_query : Request → Response → Exec Error (State Db) (Unit {0})
  unfolding write_all try_commit
  replay_query req resp s =
      let (r, s') = write_all sql req.queries 0 s in
      if resp.log_offset == s.current
      then elim r [
        | ok _ ↦ (
          ok tt,
          pooled (enqueue s.current (record { req = req; resp = some resp })) (try_commit s'),
        )
        | err e ↦ (err e, s')
        | panic ↦ (panic, s')
      ]
      else (err query_conflict, s)

  -- ReplayWithContext
  unfoldable pub replay : Request → Response → Exec Error (State Db) (Unit {0})
  unfolding replay_query
  replay req resp s = elim req.query_type [
    | read_query ↦ (ok tt, s)
    | write_query ↦ replay_query req resp s
    | invalid ↦ (err invalid_request, s)
  ]

  -- A query of the block that is no read: the attempt to replay it, unless it has been executed.
  unfoldable pub replay_tx : QueryAsTx → Exec Error (State Db) (Unit {0})
  unfolding write_all
  replay_tx q s =
      let (r, s') = write_all sql q.request.queries 0 s in
      let tracker : QueryTracker = record { req = q.request; resp = some q.response } in
      let again : Outcome Error Unit × State Db = elim r [
        | ok _ ↦ (ok tt, pooled (enqueue s.current tracker) s')
        | err e ↦ (err e, s')
        | panic ↦ (panic, s')
      ] in
      if ltb s.current q.response.log_offset
      then (err missing_parent, s)
      else if ltb q.response.log_offset s.current
      then (ok tt, s)
      else elim q.request.query_type [
        | write_query ↦ again
        | _ ↦ elim q.request.queries [ [] ↦ again | _ ∷ _ ↦ (err invalid_request, s) ]
      ]

  -- The loop of ReplayBlockWithContext over the queries, with lastsp.
  unfoldable pub replay_rounds : List QueryAsTx → ℕ → Exec Error (State Db) ℕ
  unfolding replay_tx
  replay_rounds [] lastsp s = (ok lastsp, s)
  replay_rounds (q ∷ qs) lastsp s =
      let (r, s') : Outcome Error Unit × State Db = elim q.request.query_type [
        | read_query ↦ (ok tt, s)
        | _ ↦ replay_tx q s
      ] in
      let last = elim q.request.query_type as (λ _. ℕ) [ read_query ↦ lastsp | _ ↦ s.current ] in
      elim r [ ok _ ↦ replay_rounds qs last s' | err e ↦ (err e, s') | panic ↦ (panic, s') ]

  -- ReplayBlockWithContext, on the queries and the failed requests of a block.
  unfoldable pub replay_block : List Request → List QueryAsTx → Exec Error (State Db) (Unit {0})
  unfolding replay_rounds commit_handler remove_all_failed
  replay_block failed qs s =
      let (r, s') = replay_rounds qs 0 s in
      elim r [
        | err e ↦ (err e, s')
        | panic ↦ (panic, s')
        | ok lastsp ↦
            let flushed = pooled (remove_all_failed failed) (flush_handler s') in
            elim (truncate lastsp flushed.pool) [
              | ok p ↦ (ok tt, record flushed { pool = p })
              | _ ↦ (panic, flushed)
            ]
      ]
