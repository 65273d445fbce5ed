-- ===== src/Presbyterian/Chain/Start.antt =====
-- presbyterian/chain.go: NewChainWithContext, from what loadDatabase returns.
use go_crawling_bazaar.Base.{
  ℕ, suc, Bool, false, Option, none, some, List, [], ◌∷◌, ◌++◌, nat_key, ◌==◌, ltb, if◌then◌else◌,
}
use go_crawling_bazaar.Word.{add32}
use go_crawling_bazaar.Exec.{Outcome, ok, err, panic}
use go_crawling_bazaar.Presbyterian.Env.{
  Env, Error, wrapped, genesis_hash_not_match, no_available_branch,
}
use go_crawling_bazaar.Presbyterian.MetaState.{MetaState}
use go_crawling_bazaar.Presbyterian.BlockNode.{BlockNode, info, ancestor_by_count, has_ancestor}
use go_crawling_bazaar.Presbyterian.Branch.{Branch, Pool, new_branch}
use go_crawling_bazaar.Presbyterian.Chain.{Chain, Procedure, slot}

-- What loadDatabase returns, the reversible blocks loaded.
pub record Loaded : Type 0 where
  pub last_irre : BlockNode
  pub heads : List BlockNode
  pub immutable : MetaState
  pub tx_pool : Pool
  pub disk : List Procedure

-- The check of the genesis block.
unfoldable pub is_genesis : ℕ → BlockNode → Bool
is_genesis genesis_hash last_irre = elim (ancestor_by_count 0 last_irre) [
  | none ↦ false
  | some n ↦ (info n).hash == genesis_hash
]

-- The loop that selects the head branch, from the index `i` on.
unfoldable pub select_head : ℕ → List Branch → Option (ℕ × Branch) → Option (ℕ × Branch)
select_head i [] best = best
select_head i (v ∷ vs) none = select_head (suc i) vs (some (i, v))
select_head i (v ∷ vs) (some (j, b)) =
    select_head (suc i) vs
      (if ltb (info b.head).count (info v.head).count then some (i, v) else some (j, b))

-- The number of confirmations, from the rounded number that the threshold asks for.
unfoldable pub need_confirms : ℕ → ℕ → ℕ
need_confirms wanted servers = if ltb servers wanted then servers else wanted

module _ (env : Env) where
  -- The loop that rebuilds the branches.
  unfoldable pub rebuild :
      BlockNode → MetaState → Pool → List BlockNode → List Branch → Outcome Error (List Branch)
  rebuild last_irre immutable tx_pool [] acc = ok acc
  rebuild last_irre immutable tx_pool (v ∷ vs) acc =
      if has_ancestor last_irre v
      then elim (new_branch env last_irre v immutable tx_pool) [
        | err e ↦ err (wrapped e)
        | panic ↦ panic
        | ok br ↦ rebuild last_irre immutable tx_pool vs (acc ++ br ∷ [])
      ]
      else rebuild last_irre immutable tx_pool vs acc

  -- NewChainWithContext
  unfoldable pub new_chain : ℕ → ℕ → ℕ → Loaded → Outcome Error Chain
  unfolding is_genesis rebuild select_head need_confirms
  new_chain genesis_hash wanted servers db =
      if is_genesis genesis_hash db.last_irre
      then elim (rebuild db.last_irre db.immutable db.tx_pool db.heads []) [
        | err e ↦ err e
        | panic ↦ panic
        | ok branches ↦ elim (select_head 0 branches none) [
          | none ↦ err no_available_branch
          | some (i, b) ↦ ok (record {
            confirms = need_confirms wanted servers;
            next_height = add32 (info b.head).height 1;
            last_irre = db.last_irre;
            immutable = db.immutable;
            head_index = i;
            head_branch = slot i;
            branches = branches;
            tx_pool = db.tx_pool;
            disk = db.disk;
          })
        ]
      ]
      else err genesis_hash_not_match
