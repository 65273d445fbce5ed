-- ===== src/Presbyterian/Chain.antt =====
-- presbyterian/chain.go and the `store` of presbyterian/storage.go: the chain's state, its database,
-- and the head branch. The operations are in the modules below.
pub mod Clock
pub mod Peers
pub mod Switch
pub mod Blocks
pub mod Start
pub mod Slots
pub mod Heads
pub mod Pooled
pub mod Switched
pub mod Room
pub mod Grown
pub mod Headed
pub mod Started
pub mod Confirmed
pub mod Irreversible
pub mod Runs
pub mod Turns
use go_crawling_bazaar.Base.{
  ℕ, ◌+◌, Bool, true, false, Option, none, some, List, [], ◌∷◌, ◌++◌, nat_key, ◌==◌, set, get_elem?,
  if◌then◌else◌,
}
use go_crawling_bazaar.GoMap
use go_crawling_bazaar.Exec.{Outcome, ok, err, panic, Exec}
use go_crawling_bazaar.Types.Transactions.{Transaction}
use go_crawling_bazaar.Presbyterian.Env.{Env, Error, existed_tx}
use go_crawling_bazaar.Presbyterian.MetaState.{MetaState}
use go_crawling_bazaar.Presbyterian.MetaState.Apply.{StorageProcedure}
use go_crawling_bazaar.Presbyterian.BlockNode.{Block, BlockNode}
use go_crawling_bazaar.Presbyterian.Branch.{Branch, Pool, tx_hash, add_tx}

-- The storage procedures that the chain lists, and those of compileChanges.
pub data Procedure : Type 0 where
  insert_block : ℕ → Block → Procedure
  insert_tx : Transaction → Procedure
  build_block_index : ℕ → Block → Procedure
  update_irreversible : ℕ → Procedure
  delete_txs : List Transaction → Procedure
  ledger_change : StorageProcedure → Procedure

-- What headBranch points to: the branch in a slot of `branches`, or one that is in no slot any more.
pub data BranchRef : Type 0 where
  slot : ℕ → BranchRef
  detached : Branch → BranchRef

-- The fields under the lock, and what has been committed to the database, oldest first.
pub record Chain : Type 0 where
  pub confirms : ℕ
  pub next_height : ℕ
  pub last_irre : BlockNode
  pub immutable : MetaState
  pub head_index : ℕ
  pub head_branch : BranchRef
  pub branches : List Branch
  pub tx_pool : Pool
  pub disk : List Procedure

-- What the database answers in one call of `store`: the error of Begin, the error of a procedure,
-- and whether Commit succeeds.
pub record Database : Type 0 where
  pub begin : Option Error
  pub run : Procedure → Option Error
  pub commits : Bool

abbrev pub Update : Type 0 → Type 0
Update = Exec Error Chain

-- The loop over the procedures, which stops at the first error.
unfoldable pub run_all : (Procedure → Option Error) → List Procedure → Option Error
run_all run [] = none
run_all run (sp ∷ sps) = elim (run sp) [ some e ↦ some e | none ↦ run_all run sps ]

-- store: an error rolls the transaction back before the callback; a failed Commit is fatal.
unfoldable pub store : Database → List Procedure → (Chain → Chain) → Update (Unit {0})
unfolding run_all
store db sps cb c = elim db.begin [
  | some e ↦ (err e, c)
  | none ↦ elim (run_all db.run sps) [
    | some e ↦ (err e, c)
    | none ↦
        if db.commits
        then (ok tt, let c' = cb c in record c' { disk = c'.disk ++ sps })
        else (panic, cb c)
  ]
]

-- The branch that headBranch points to; `none` for a slot that `branches` does not have.
unfoldable pub deref : List Branch → BranchRef → Option Branch
deref bs (slot i) = get_elem? bs i
deref bs (detached b) = some b

abbrev pub head_branch_of : Chain → Option Branch
head_branch_of c = deref c.branches c.head_branch

-- A write to the branch that a slot points to.
abbrev pub write_branch : ℕ → Branch → Chain → Chain
write_branch i b c = record c { branches = set c.branches i b }

-- headBranch after `branches[i]` has got another pointer.
unfoldable pub moved_out : ℕ → List Branch → BranchRef → BranchRef
moved_out i bs (detached b) = detached b
moved_out i bs (slot j) =
    if i == j then elim (get_elem? bs j) [ none ↦ slot j | some b ↦ detached b ] else slot j

-- c.branches[i] = br
unfoldable pub replace_branch : ℕ → Branch → Chain → Chain
unfolding moved_out
replace_branch i br c = record c {
  branches = set c.branches i br;
  head_branch = moved_out i c.branches c.head_branch;
}

module _ (env : Env) where
  unfoldable pub add_to_branches : Transaction → List Branch → List Branch
  add_to_branches tx [] = []
  add_to_branches tx (b ∷ bs) = add_tx env tx b ∷ add_to_branches tx bs

  -- The callback of storeTx.
  unfoldable pub pool_tx : Transaction → Chain → Chain
  unfolding add_to_branches
  pool_tx tx c = record c {
    tx_pool = GoMap.put c.tx_pool (tx_hash env tx) tx;
    branches = add_to_branches tx c.branches;
  }

  -- storeTx
  unfoldable pub store_tx : Database → Transaction → Update (Unit {0})
  unfolding store pool_tx
  store_tx db tx c = elim (GoMap.get c.tx_pool (tx_hash env tx)) [
    | some _ ↦ (err existed_tx, c)
    | none ↦ store db (insert_tx tx ∷ []) (pool_tx tx) c
  ]
