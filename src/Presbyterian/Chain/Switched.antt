-- ===== src/Presbyterian/Chain/Switched.antt =====
-- presbyterian/chain.go: a switch to a longer branch keeps the invariant of the branches.
use go_crawling_bazaar.Base.{
  ℕ, ◌<◌, ◌≤◌, ◌≡◌, refl, true, List, [], ◌∷◌, arith, length, nat_key, Option-cases, inl, inr,
  subst, sym, ap, ◌∙◌, ltb,
}
use go_crawling_bazaar.GoMap
use go_crawling_bazaar.Word.{add32}
use go_crawling_bazaar.Exec.{Outcome-cases}
use go_crawling_bazaar.Types.Transactions.{Transaction}
use go_crawling_bazaar.Presbyterian.Env.{Env}
use go_crawling_bazaar.Presbyterian.MetaState.{MetaState}
use go_crawling_bazaar.Presbyterian.BlockNode.{
  Block, BlockNode, info, has_ancestor, fetch_node_list,
}
use go_crawling_bazaar.Presbyterian.BlockNode.Searches.{has_ancestor_lem}
use go_crawling_bazaar.Presbyterian.BlockNode.Ancestry.{
  IsCounted, last_irreversible-ancestor_by_count,
}
use go_crawling_bazaar.Presbyterian.Branch.{Branch, Pool}
use go_crawling_bazaar.Presbyterian.Branch.Heads.{head-clear_packed_txs, head-clear_unpacked_txs}
use go_crawling_bazaar.Presbyterian.Chain.{Chain, Procedure, Database, store}
use go_crawling_bazaar.Presbyterian.Chain.Switch.{
  prune, clear_branch, clear_packed_nodes, node_txs, switch, store_switch, confirm_and_switch,
  confirm_nodes, expire, switch_procedures, replace_and_switch_to_branch,
}
use go_crawling_bazaar.Presbyterian.Chain.Blocks.{committed}
use go_crawling_bazaar.Presbyterian.Chain.Slots.{
  Fits, AllFit, IsHeaded, Within, All-widen, get_elem?-map, AllFit-map, prune-All, prune-origin,
}
use go_crawling_bazaar.Presbyterian.Chain.Heads.{store-keeps, written-Within}

-- The immutable state and the pool are not part of the invariant.
pub immutable-Within :
    (low high : ℕ) (c : Chain) (s : MetaState)
    → Within low high c
    → Within low high (record c { immutable = s })
immutable-Within low high c s (h, l, g) =
    (record { head = h.head; at_index = h.at_index; pointer = h.pointer; fit = h.fit }, l, g)

module _ (env : Env) where
  head-clear_packed_nodes :
      (ns : List BlockNode) (b : Branch) → (clear_packed_nodes env ns b).head ≡ b.head
  unfolding clear_packed_nodes
  head-clear_packed_nodes [] b = refl
  head-clear_packed_nodes (n ∷ ns) b =
      head-clear_packed_nodes ns _ ∙ head-clear_packed_txs env (node_txs n) b

  head-clear_branch :
      (ns : List BlockNode) (expired : List Transaction) (b : Branch)
      → (clear_branch env ns expired b).head ≡ b.head
  unfolding clear_branch
  head-clear_branch ns expired b =
      head-clear_unpacked_txs env expired (clear_packed_nodes env ns b)
      ∙ head-clear_packed_nodes ns b

  -- The branches after a switch to a longer branch.
  switch-Within :
      (last_irre : BlockNode) (irres : List BlockNode) (expired : List Transaction) (pool : Pool)
      (origin : ℕ) (new : Branch) (c : Chain) (s : IsHeaded c)
      → origin < length c.branches
      → (info s.head.head).count ≤ (info new.head).count
      → Fits last_irre (info new.head).count new.head
      → Within
          (info s.head.head).count
          (info new.head).count
          (switch env last_irre irres expired pool origin new c)
  unfolding switch
  switch-Within last_irre irres expired pool origin new c s inside longer f =
      let top = (info new.head).count in
      let clear = clear_branch env irres expired in
      let kept =
        All-widen (λ b. Fits c.last_irre (info s.head.head).count b.head)
          (λ b. has_ancestor last_irre b.head ≡ true → Fits last_irre top b.head)
          (λ b g e. (g.0, ground (arith, g.1), e)) c.branches s.fit in
      let brs = prune last_irre origin (committed new) 0 c.branches ([], 0) in
      let count_is = ap (λ n. (info n).count) (head-clear_branch irres expired (committed new)) in
      (
        record {
          head = clear (committed new);
          at_index = get_elem?-map clear brs.0 brs.1 (committed new) (
              prune-origin last_irre origin (committed new) 0 c.branches ([], 0) (ground arith)
                (ground arith));
          pointer = rw (let b : ltb origin (length c.branches) ≡ true = ground arith in b) refl;
          fit = AllFit-map last_irre _ clear (head-clear_branch irres expired) brs.0 (
              subst (λ n. AllFit last_irre (info n).count brs.0)
                (sym (head-clear_branch irres expired (committed new)))
                (prune-All (λ b. Fits last_irre top b.head) last_irre origin (committed new) f 0
                  c.branches kept ([], 0) tt));
        },
        ground (arith, count_is),
        ground (arith, count_is),
      )

  store_switch-Within :
      (low high : ℕ) (db : Database) (sps : List Procedure) (up : Chain → Chain) (c : Chain)
      → Within low high c
      → Within low high (up c)
      → Within low high (store_switch env db sps up c).1
  unfolding store_switch
  store_switch-Within low high db sps up c s t =
      let kept = store-keeps (Within low high) db sps up c (written-Within low high) s t in
      elim (Outcome-cases (store db sps up c).0) [
        | inl (a, r) ↦ rw (r, store_switch) kept
        | inr (inl (x, r)) ↦ rw (r, store_switch) (immutable-Within low high _ _ kept)
        | inr (inr r) ↦ rw (r, store_switch) kept
      ]

  confirm_and_switch-Within :
      (db : Database) (height : ℕ) (block : Block) (origin : ℕ) (new : Branch)
      (last_irre : BlockNode) (irres : List BlockNode) (c : Chain) (s : IsHeaded c)
      → origin < length c.branches
      → (info s.head.head).count ≤ (info new.head).count
      → Fits last_irre (info new.head).count new.head
      → Within
          (info s.head.head).count
          (info new.head).count
          (confirm_and_switch env db height block origin new last_irre irres c).1
  unfolding confirm_and_switch
  confirm_and_switch-Within db height block origin new last_irre irres c s inside longer f =
      let run = confirm_nodes env irres (c.immutable, c.tx_pool) in
      let low = (info s.head.head).count in
      let high = (info new.head).count in
      let same : IsHeaded (record c { immutable = run.1.0 }) = record {
        head = s.head;
        at_index = s.at_index;
        pointer = s.pointer;
        fit = s.fit;
      } in
      let still : Within low high (record c { immutable = run.1.0 }) =
        (same, ground arith, ground (arith, longer)) in
      elim (Outcome-cases run.0) [
        | inr (inl (x, r)) ↦ rw (r, confirm_and_switch) still
        | inr (inr r) ↦ rw (r, confirm_and_switch) still
        | inl (a, r) ↦
            elim (Outcome-cases (expire env run.1.0 (GoMap.range run.1.1) ([], run.1.1))) [
              | inr (inl (x, q)) ↦ rw (r, confirm_and_switch, q) still
              | inr (inr q) ↦ rw (r, confirm_and_switch, q) still
              | inl ((expired, pool), q) ↦
                  rw (r, confirm_and_switch, q)
                    (store_switch-Within low high db
                      (switch_procedures env run.1.0 height block irres expired last_irre)
                      (switch env last_irre irres expired pool origin new)
                      (record c { immutable = run.1.0 }) still
                      (switch-Within last_irre irres expired pool origin new
                        (record c { immutable = run.1.0 }) same inside longer f))
            ]
      ]

  -- replaceAndSwitchToBranch, from a slot of the chain to a branch at least as long as the head, keeps
  -- the invariant of the branches, whatever the database answers.
  pub replace_and_switch_to_branch-Within :
      (db : Database) (height : ℕ) (block : Block) (origin : ℕ) (new : Branch) (c : Chain)
      (s : IsHeaded c)
      → origin < length c.branches
      → (info s.head.head).count ≤ (info new.head).count
      → IsCounted new.head
      → Within
          (info s.head.head).count
          (info new.head).count
          (replace_and_switch_to_branch env db height block origin new c).1
  unfolding replace_and_switch_to_branch
  replace_and_switch_to_branch-Within db height block origin new c s inside longer v =
      let (same, (last_irre, found, behind_new, low)) =
        last_irreversible-ancestor_by_count c.confirms new.head v in
      let f : Fits last_irre (info new.head).count new.head =
        (v, ground arith, (has_ancestor_lem new.head last_irre v).0 behind_new) in
      elim (Option-cases (fetch_node_list (add32 (info c.last_irre).count 1) last_irre)) [
        | inl e ↦
            rw (found, replace_and_switch_to_branch, e) (s, ground arith, ground (arith, longer))
        | inr (irres, e) ↦
            rw (found, replace_and_switch_to_branch, e)
              (confirm_and_switch-Within db height block origin new last_irre irres c s inside
                longer f)
      ]
