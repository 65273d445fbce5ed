-- ===== src/Twopc.antt =====
-- twopc/twopc.go: the coordinator of a two-phase commit.
pub mod Phases
use go_crawling_bazaar.Base.{Bool, true, false, ◌||◌, Option, none, some, List, [], ◌∷◌, ◌++◌, map}

-- A worker, as what its three methods return in this run: an error that is not nil, or `none`.
pub record Worker {ℓ} (E R : Type ℓ) : Type ℓ where
  pub prepare_error : Option E
  pub commit_result : R
  pub commit_error : Option E
  pub rollback_error : Option E

-- The hooks that are not nil, as what they return.
pub record Options {ℓ} (E : Type ℓ) : Type ℓ where
  pub before_prepare : Option (Option E)
  pub before_commit : Option (Option E)
  pub before_rollback : Option (Option E)
  pub after_commit : Option (Option E)

-- What a coordinator does, in order. A phase calls its method on every worker, in any order and at
-- the same time, and ends when all of them have returned.
pub data Event : Type 0 where
  prepared committed rolled_back : Event
  called_before_prepare called_before_commit called_before_rollback called_after_commit : Event

-- What Put returns, and what it has done.
pub record Answer {ℓ} (E R : Type ℓ) : Type ℓ where
  pub result : Option R
  pub error : Option E
  pub events : List Event

module _ {ℓ} {E : Type ℓ} where
  -- The loop over the errors: the first one that is not nil.
  unfoldable pub first_error : List (Option E) → Option E
  first_error [] = none
  first_error (some e ∷ es) = some e
  first_error (none ∷ es) = first_error es

  -- A hook before a phase: whether it was called, and its error.
  unfoldable pub call_hook : Option (Option E) → Event → List Event × Option E
  call_hook none ev = ([], none)
  call_hook (some r) ev = (ev ∷ [], r)

module _ {ℓ} {E R : Type ℓ} where
  -- prepare
  unfoldable pub prepare : List (Worker E R) → Option E
  unfolding first_error
  prepare ws = first_error (map (λ w. w.prepare_error) ws)

  -- rollback
  unfoldable pub rollback : List (Worker E R) → Option E
  unfolding first_error
  rollback ws = first_error (map (λ w. w.rollback_error) ws)

  -- The result of the first worker.
  unfoldable pub first_result : List (Worker E R) → Option R
  first_result [] = none
  first_result (w ∷ ws) = some w.commit_result

  -- commit
  unfoldable pub commit : List (Worker E R) → Option R × Option E
  unfolding first_error first_result
  commit ws = (first_result ws, first_error (map (λ w. w.commit_error) ws))

  -- From the label ROLLBACK on: what the hook and the workers return is dropped.
  unfoldable pub roll_back : Options E → List (Worker E R) → E → List Event → Answer E R
  unfolding call_hook
  roll_back opt ws e done = record {
    result = none;
    error = some e;
    events = done ++ (call_hook opt.before_rollback called_before_rollback).0 ++ rolled_back ∷ [];
  }

  -- The end of Put. The error of the hook takes the place of the commit's.
  unfoldable pub finish : Options E → List (Worker E R) → List Event → Answer E R
  unfolding call_hook commit
  finish opt ws done =
      let (result, error) = commit ws in
      let (called, hook_error) = call_hook opt.after_commit called_after_commit in
      record {
        result = result;
        error = elim opt.after_commit [ none ↦ error | some _ ↦ hook_error ];
        events = done ++ committed ∷ called;
      }

  -- Phase two, once all workers are prepared.
  unfoldable pub second_phase : Options E → List (Worker E R) → List Event → Answer E R
  unfolding call_hook finish roll_back
  second_phase opt ws done =
      let (called, hook_error) = call_hook opt.before_commit called_before_commit in
      elim hook_error [
        | some e ↦ roll_back opt ws e (done ++ called)
        | none ↦ finish opt ws (done ++ called)
      ]

  unfoldable pub first_phase : Options E → List (Worker E R) → List Event → Answer E R
  unfolding prepare second_phase roll_back
  first_phase opt ws done = elim (prepare ws) [
    | some e ↦ roll_back opt ws e (done ++ prepared ∷ [])
    | none ↦ second_phase opt ws (done ++ prepared ∷ [])
  ]

  -- Put
  unfoldable pub put : Options E → List (Worker E R) → Answer E R
  unfolding call_hook first_phase
  put opt ws =
      let (called, hook_error) = call_hook opt.before_prepare called_before_prepare in
      elim hook_error [
        | some e ↦ record { result = none; error = some e; events = called }
        | none ↦ first_phase opt ws called
      ]
