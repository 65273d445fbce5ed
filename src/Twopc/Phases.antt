-- ===== src/Twopc/Phases.antt =====
-- twopc/twopc.go: which phases a run of Put goes through.
use go_crawling_bazaar.Base.{
  Bool, true, false, ◌&&◌, not, ◌≡◌, refl, Option, none, some, List, [], ◌∷◌, arith,
}
use go_crawling_bazaar.Twopc.{
  Worker, Options, Event, committed, rolled_back, first_error, prepare, commit, call_hook,
  roll_back, finish, second_phase, first_phase, put,
}

-- The event is among those that happened.
unfoldable pub commits : List Event → Bool
commits [] = false
commits (committed ∷ es) = true
commits (_ ∷ es) = commits es

unfoldable pub rolls_back : List Event → Bool
rolls_back [] = false
rolls_back (rolled_back ∷ es) = true
rolls_back (_ ∷ es) = rolls_back es

module _ {ℓ} {E : Type ℓ} where
  -- The hook is nil or returns no error.
  unfoldable pub passes : Option (Option E) → Bool
  passes none = true
  passes (some none) = true
  passes (some (some e)) = false

  abbrev pub is_nil : Option E → Bool
  is_nil none = true
  is_nil (some e) = false

module _ {ℓ} {E R : Type ℓ} where
  -- The worker reports no error in phase one.
  unfoldable pub all_prepared : List (Worker E R) → Bool
  all_prepared [] = true
  all_prepared (w ∷ ws) = elim w.prepare_error [ none ↦ all_prepared ws | some e ↦ false ]

  prepare-all_prepared :
      (ws : List (Worker E R))
      → (elim (prepare ws) [ none ↦ true | some e ↦ false ]) ≡ all_prepared ws
  unfolding prepare first_error all_prepared
  prepare-all_prepared [] = refl
  prepare-all_prepared (w ∷ ws) = ground (arith, prepare-all_prepared ws)

  -- The worker reports no error in phase two.
  unfoldable pub all_committed : List (Worker E R) → Bool
  all_committed [] = true
  all_committed (w ∷ ws) = elim w.commit_error [ none ↦ all_committed ws | some e ↦ false ]

  commit-all_committed : (ws : List (Worker E R)) → is_nil (commit ws).1 ≡ all_committed ws
  unfolding commit first_error all_committed
  commit-all_committed [] = refl
  commit-all_committed (w ∷ ws) = ground (arith, commit-all_committed ws)

  -- Put calls Commit on the workers exactly if the hook before phase one passes, every worker is
  -- prepared, and the hook before the commit passes. It rolls the workers back exactly if the hook
  -- before phase one passes and one of the other two fails; so it never does both.
  pub put_lem :
      (opt : Options E) (ws : List (Worker E R))
      → (commits (put opt ws).events
          ≡ (passes opt.before_prepare && all_prepared ws && passes opt.before_commit))
        × (rolls_back (put opt ws).events
            ≡ (passes opt.before_prepare && not (all_prepared ws && passes opt.before_commit)))
  unfolding put first_phase second_phase finish roll_back call_hook passes commits rolls_back
  put_lem opt ws =
      (ground (arith, prepare-all_prepared ws), ground (arith, prepare-all_prepared ws))

  -- Put returns no error exactly if the first two hooks pass, every worker is prepared, and the hook after
  -- the commit passes or, where that one is nil, every worker commits. So it returns no error where a
  -- worker fails to commit and the hook passes.
  pub put-no_error :
      (opt : Options E) (ws : List (Worker E R))
      → is_nil (put opt ws).error ≡ (
          passes opt.before_prepare
          && all_prepared ws
          && passes opt.before_commit
          && (elim opt.after_commit [ none ↦ all_committed ws | some e ↦ is_nil e ]))
  unfolding put first_phase second_phase finish roll_back call_hook passes
  put-no_error opt ws = ground (arith, prepare-all_prepared ws, commit-all_committed ws)
