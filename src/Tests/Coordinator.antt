-- ===== src/Tests/Coordinator.antt =====
-- The coordinator's theorems at two workers, the second of which fails to commit.
use go_crawling_bazaar.Base.{ℕ, ◌&&◌, not, ◌≡◌, none, some, List, [], ◌∷◌}
use go_crawling_bazaar.Twopc.{Worker, Options, put}
use go_crawling_bazaar.Twopc.Phases.{
  commits, rolls_back, passes, all_prepared, all_committed, is_nil, put_lem, put-no_error,
}

abbrev good : Worker ℕ ℕ
good = record {
  prepare_error = none;
  commit_result = 1;
  commit_error = none;
  rollback_error = none;
}

abbrev bad : Worker ℕ ℕ
bad = record good { commit_error = some 7 }

abbrev workers : List (Worker ℕ ℕ)
workers = good ∷ bad ∷ []

abbrev options : Options ℕ
options = record {
  before_prepare = none;
  before_commit = some none;
  before_rollback = none;
  after_commit = some none;
}

put_lem_example :
    (commits (put options workers).events
      ≡ (passes options.before_prepare && all_prepared workers && passes options.before_commit))
    × (rolls_back (put options workers).events ≡ (
        passes options.before_prepare
        && not (all_prepared workers && passes options.before_commit)))
put_lem_example = put_lem options workers

put-no_error_example : is_nil (put options workers).error ≡ (
    passes options.before_prepare
    && all_prepared workers
    && passes options.before_commit
    && (elim options.after_commit [ none ↦ all_committed workers | some e ↦ is_nil e ]))
put-no_error_example = put-no_error options workers
