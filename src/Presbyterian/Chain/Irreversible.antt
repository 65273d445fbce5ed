-- ===== src/Presbyterian/Chain/Irreversible.antt =====
-- presbyterian/chain.go: the outcomes of replaceAndSwitchToBranch.
use go_crawling_bazaar.Base.{
  ℕ, ◌+◌, ◌<◌, ◌≡◌, refl, some, List, [], ◌++◌, arith, All, false, nat_key, Option-cases, inl, inr,
  subst, sym, ap, ◌∙◌,
}
use go_crawling_bazaar.GoMap
use go_crawling_bazaar.Word.{u32_mod, add32}
use go_crawling_bazaar.Exec.{ok, err, Outcome-cases}
use go_crawling_bazaar.Presbyterian.Env.{Env, Error}
use go_crawling_bazaar.Types.Transactions.{shares_account}
use go_crawling_bazaar.Presbyterian.MetaState.{MetaState, commit, clean}
use go_crawling_bazaar.Presbyterian.BlockNode.{
  Block, BlockNode, info, last_irreversible, fetch_node_list,
}
use go_crawling_bazaar.Presbyterian.BlockNode.Ancestry.{
  IsCounted, last_irreversible-ancestor_by_count,
}
use go_crawling_bazaar.Presbyterian.Branch.{Branch}
use go_crawling_bazaar.Presbyterian.Chain.{Chain, Procedure, Database, store}
use go_crawling_bazaar.Presbyterian.Chain.Switch.{
  confirm_nodes, expire, node_txs, switch, store_switch, switch_procedures, confirm_and_switch,
  replace_and_switch_to_branch,
}
use go_crawling_bazaar.Presbyterian.Chain.Slots.{All-widen}
use go_crawling_bazaar.Presbyterian.Chain.Confirmed.{
  store-outcome, confirm_nodes-no-error, expire-no-error, Shrinks, AreGone, Shrinks-trans,
  AreGone-Shrinks, confirm_nodes-pool, expire-pool,
}

-- A chain in which only the immutable state has changed, and has no pending change.
abbrev pub IsRolledBack : Chain → Chain → Type 0
IsRolledBack c c' = (s : MetaState) × (c' ≡ record c { immutable = clean s })

-- No block that a switch to `new` confirms has a transaction whose account the ledgers share.
abbrev pub SharesNothing : Branch → Chain → Type 0
SharesNothing new c =
    (irre : BlockNode) (irres : List BlockNode)
    → last_irreversible c.confirms new.head ≡ some irre
    → fetch_node_list (add32 (info c.last_irre).count 1) irre ≡ some irres
    → All (λ n. All (λ t. shares_account t ≡ false) (node_txs n)) irres

module _ (env : Env) where
  -- What a switch has confirmed: the irreversible block, the blocks up to it, and the chain after.
  pub record IsConfirmed (new : Branch) (c c' : Chain) : Type 0 where
    pub irre : BlockNode
    pub irres : List BlockNode
    pub found : last_irreversible c.confirms new.head ≡ some irre
    pub fetched : fetch_node_list (add32 (info c.last_irre).count 1) irre ≡ some irres
    pub confirmed : (confirm_nodes env irres (c.immutable, c.tx_pool)).0 ≡ ok tt
    pub moved : c'.last_irre ≡ irre
    pub ledger : c'.immutable ≡ commit (confirm_nodes env irres (c.immutable, c.tx_pool)).1.0
    pub smaller : Shrinks env c.tx_pool c'.tx_pool
    pub gone : All (λ n. AreGone env c'.tx_pool (node_txs n)) irres

  store_switch-outcome :
      (db : Database) (sps : List Procedure) (up : Chain → Chain) (c : Chain)
      → ((store_switch env db sps up c).0 ≡ ok tt
          → (store_switch env db sps up c).1 ≡ record (up c) { disk = (up c).disk ++ sps })
        × ((e : Error)
            → (store_switch env db sps up c).0 ≡ err e
            → IsRolledBack c (store_switch env db sps up c).1)
  unfolding store_switch
  store_switch-outcome db sps up c =
      let (good, bad) = store-outcome db sps up c in
      elim (Outcome-cases (store db sps up c).0) [
        | inl (a, r) ↦ (λ h. rw (r, store_switch) (good r), λ e h. absurd (ground arith))
        | inr (inl (x, r)) ↦ (
          λ h. absurd (ground arith),
          λ e h. (
            c.immutable,
            rw (r, store_switch)
                (ap (λ (w : Chain). record w { immutable = clean w.immutable }) (bad x r)),
          ),
        )
        | inr (inr r) ↦ (λ h. absurd (ground arith), λ e h. absurd (ground arith))
      ]

  confirm_and_switch-error :
      (db : Database) (height : ℕ) (block : Block) (origin : ℕ) (new : Branch) (irre : BlockNode)
      (irres : List BlockNode) (c : Chain) (e : Error)
      → (confirm_and_switch env db height block origin new irre irres c).0 ≡ err e
      → IsRolledBack c (confirm_and_switch env db height block origin new irre irres c).1
  unfolding confirm_and_switch
  confirm_and_switch-error db height block origin new irre irres c e h =
      let run = confirm_nodes env irres (c.immutable, c.tx_pool) in
      elim (Outcome-cases run.0) [
        | inr (inl (x, r)) ↦ absurd (confirm_nodes-no-error env irres (c.immutable, c.tx_pool) x r)
        | inr (inr r) ↦ absurd (ground arith)
        | inl (a, r) ↦
            elim (Outcome-cases (expire env run.1.0 (GoMap.range run.1.1) ([], run.1.1))) [
              | inr (inl (x, q)) ↦
                  absurd (expire-no-error env run.1.0 (GoMap.range run.1.1) ([], run.1.1) x q)
              | inr (inr q) ↦ absurd (ground arith)
              | inl ((expired, pool), q) ↦
                  let mid : Chain = record c { immutable = run.1.0 } in
                  let sps = switch_procedures env run.1.0 height block irres expired irre in
                  let up = switch env irre irres expired pool origin new in
                  let step : confirm_and_switch env db height block origin new irre irres c
                      ≡ store_switch env db sps up mid =
                    rw (r, confirm_and_switch, q) refl in
                  let (s, same) =
                    (store_switch-outcome db sps up mid).1 e (ap (λ w. w.0) (sym step) ∙ h) in
                  (s, ap (λ w. w.1) step ∙ same)
            ]
      ]

  -- If no block that becomes irreversible has a BaseAccount, and replaceAndSwitchToBranch returns an
  -- error, then the head, the branches, the pool of transactions, the irreversible block and the
  -- database are as before, and the immutable state has no pending change.
  pub replace_and_switch_to_branch-error :
      (db : Database) (height : ℕ) (block : Block) (origin : ℕ) (new : Branch) (c : Chain)
      (e : Error)
      → SharesNothing new c
      → (replace_and_switch_to_branch env db height block origin new c).0 ≡ err e
      → IsRolledBack c (replace_and_switch_to_branch env db height block origin new c).1
  unfolding replace_and_switch_to_branch
  replace_and_switch_to_branch-error db height block origin new c e alone h =
      elim (Option-cases (last_irreversible c.confirms new.head)) [
        | inl n ↦ absurd (ground arith)
        | inr (irre, f) ↦
            elim (Option-cases (fetch_node_list (add32 (info c.last_irre).count 1) irre)) [
              | inl n ↦ absurd (ground arith)
              | inr (irres, g) ↦
                  rw (f, replace_and_switch_to_branch, g)
                    (confirm_and_switch-error db height block origin new irre irres c e
                      (ground arith))
            ]
      ]

  confirm_and_switch-ok :
      (db : Database) (height : ℕ) (block : Block) (origin : ℕ) (new : Branch) (irre : BlockNode)
      (irres : List BlockNode) (c : Chain)
      → last_irreversible c.confirms new.head ≡ some irre
      → fetch_node_list (add32 (info c.last_irre).count 1) irre ≡ some irres
      → (confirm_and_switch env db height block origin new irre irres c).0 ≡ ok tt
      → IsConfirmed new c (confirm_and_switch env db height block origin new irre irres c).1
  unfolding confirm_and_switch switch
  confirm_and_switch-ok db height block origin new irre irres c f g h =
      let run = confirm_nodes env irres (c.immutable, c.tx_pool) in
      elim (Outcome-cases run.0) [
        | inr (inl (x, r)) ↦ absurd (ground arith)
        | inr (inr r) ↦ absurd (ground arith)
        | inl (a, r) ↦
            elim (Outcome-cases (expire env run.1.0 (GoMap.range run.1.1) ([], run.1.1))) [
              | inr (inl (x, q)) ↦ absurd (ground arith)
              | inr (inr q) ↦ absurd (ground arith)
              | inl ((expired, pool), q) ↦
                  let mid : Chain = record c { immutable = run.1.0 } in
                  let sps = switch_procedures env run.1.0 height block irres expired irre in
                  let up = switch env irre irres expired pool origin new in
                  let step : confirm_and_switch env db height block origin new irre irres c
                      ≡ store_switch env db sps up mid =
                    rw (r, confirm_and_switch, q) refl in
                  let whole =
                    (store_switch-outcome db sps up mid).0 (ap (λ w. w.0) (sym step) ∙ h) in
                  let (f_nodes, g_nodes) =
                    confirm_nodes-pool env irres (c.immutable, c.tx_pool) r in
                  let f_expired =
                    expire-pool env run.1.0 (GoMap.range run.1.1) [] run.1.1 (expired, pool) q in
                  subst (IsConfirmed new c) (sym (ap (λ w. w.1) step ∙ whole)) (record {
                    irre = irre;
                    irres = irres;
                    found = f;
                    fetched = g;
                    confirmed = r;
                    moved = refl;
                    ledger = refl;
                    smaller = Shrinks-trans env c.tx_pool run.1.1 pool f_nodes f_expired;
                    gone =
                        All-widen (λ n. AreGone env run.1.1 (node_txs n))
                          (λ n. AreGone env pool (node_txs n))
                          (λ n w. AreGone-Shrinks env run.1.1 pool (node_txs n) f_expired w) irres
                          g_nodes;
                  })
            ]
      ]

  -- The outcome of a success.
  confirms :
      (db : Database) (height : ℕ) (block : Block) (origin : ℕ) (new : Branch) (c : Chain)
      → (replace_and_switch_to_branch env db height block origin new c).0 ≡ ok tt
      → IsConfirmed new c (replace_and_switch_to_branch env db height block origin new c).1
  unfolding replace_and_switch_to_branch
  confirms db height block origin new c h =
      elim (Option-cases (last_irreversible c.confirms new.head)) [
        | inl n ↦ absurd (ground arith)
        | inr (irre, f) ↦
            elim (Option-cases (fetch_node_list (add32 (info c.last_irre).count 1) irre)) [
              | inl n ↦ absurd (ground arith)
              | inr (irres, g) ↦
                  rw (f, replace_and_switch_to_branch, g)
                    (confirm_and_switch-ok db height block origin new irre irres c f g
                      (ground arith))
            ]
      ]

  -- If no block that becomes irreversible has a BaseAccount, and replaceAndSwitchToBranch succeeds, then
  -- the irreversible block is lastIrreversible of the new head,
  -- the immutable state is what the transactions of the nodes that fetchNodeList gives from one above
  -- the old irreversible block made of it, committed, none of these transactions is left in the pool,
  -- and nothing new is in the pool.
  pub replace_and_switch_to_branch-IsConfirmed :
      (db : Database) (height : ℕ) (block : Block) (origin : ℕ) (new : Branch) (c : Chain)
      → SharesNothing new c
      → (replace_and_switch_to_branch env db height block origin new c).0 ≡ ok tt
      → IsConfirmed new c (replace_and_switch_to_branch env db height block origin new c).1
  replace_and_switch_to_branch-IsConfirmed db height block origin new c alone h =
      confirms db height block origin new c h

  -- Let the counts behind the new head run up from 0, the irreversible block have a positive count with
  -- its successor in 32 bits, and the new head a count less than the sum of the confirmations and that
  -- count. Then a switch that succeeds confirms nothing and moves the irreversible block backwards.
  pub replace_and_switch_to_branch-backwards :
      (db : Database) (height : ℕ) (block : Block) (origin : ℕ) (new : Branch) (c : Chain)
      → IsCounted new.head
      → (info c.last_irre).count + 1 < u32_mod
      → 0 < (info c.last_irre).count
      → (info new.head).count < c.confirms + (info c.last_irre).count
      → (replace_and_switch_to_branch env db height block origin new c).0 ≡ ok tt
      → let c' = (replace_and_switch_to_branch env db height block origin new c).1 in
        ((info c'.last_irre).count < (info c.last_irre).count) × (c'.immutable ≡ commit c.immutable)
  unfolding fetch_node_list confirm_nodes
  replace_and_switch_to_branch-backwards db height block origin new c v w pos few h =
      let r = confirms db height block origin new c h in
      let (same, (irre, found, behind_new, count_is)) =
        last_irreversible-ancestor_by_count c.confirms new.head v in
      let is_irre : r.irre ≡ irre = ground (arith, r.found, found) in
      let low : (info r.irre).count < (info c.last_irre).count =
        ground (arith, ap (λ n. (info n).count) is_irre, count_is) in
      let nothing : r.irres ≡ [] = ground (arith, r.fetched, low) in
      (
        subst (λ n. (info n).count < (info c.last_irre).count) (sym r.moved) low,
        r.ledger ∙ ap (λ ns. commit (confirm_nodes env ns (c.immutable, c.tx_pool)).1.0) nothing,
      )
