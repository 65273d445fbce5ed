-- ===== src/Presbyterian/Chain/Pooled.antt =====
-- presbyterian/chain.go: a stored transaction keeps the invariant of the branches.
use go_crawling_bazaar.Base.{
  ◌≡◌, refl, some, List, [], ◌∷◌, arith, get_elem?, nat_key, Option-cases, inl, inr, subst, sym, ap,
  map,
}
use go_crawling_bazaar.GoMap
use go_crawling_bazaar.Types.Transactions.{Transaction}
use go_crawling_bazaar.Presbyterian.Env.{Env}
use go_crawling_bazaar.Presbyterian.BlockNode.{info}
use go_crawling_bazaar.Presbyterian.Branch.{Branch, add_tx, tx_hash}
use go_crawling_bazaar.Presbyterian.Branch.Heads.{head-add_tx}
use go_crawling_bazaar.Presbyterian.Chain.{
  Chain, Database, insert_tx, pool_tx, store_tx, add_to_branches,
}
use go_crawling_bazaar.Presbyterian.Chain.Slots.{
  AllFit, IsHeaded, Within, get_elem?-map, AllFit-map,
}
use go_crawling_bazaar.Presbyterian.Chain.Heads.{store-keeps, written-Within}

module _ (env : Env) where
  add_to_branches-map :
      (tx : Transaction) (bs : List Branch) → add_to_branches env tx bs ≡ map (add_tx env tx) bs
  unfolding add_to_branches
  add_to_branches-map tx [] = refl
  add_to_branches-map tx (b ∷ bs) = ap (add_tx env tx b ∷◌) (add_to_branches-map tx bs)

  pool_tx-Within :
      (tx : Transaction) (c : Chain) (s : IsHeaded c)
      → Within (info s.head.head).count (info s.head.head).count (pool_tx env tx c)
  unfolding pool_tx
  pool_tx-Within tx c s =
      let same = sym (add_to_branches-map tx c.branches) in
      let count_is = ap (λ n. (info n).count) (head-add_tx env tx s.head) in
      (
        record {
          head = add_tx env tx s.head;
          at_index =
              subst (λ bs. get_elem? bs c.head_index ≡ some (add_tx env tx s.head)) same
                (get_elem?-map (add_tx env tx) c.branches c.head_index s.head s.at_index);
          pointer = s.pointer;
          fit = subst (AllFit c.last_irre (info (add_tx env tx s.head).head).count) same (
              AllFit-map c.last_irre (info (add_tx env tx s.head).head).count (add_tx env tx)
                (head-add_tx env tx) c.branches
                (subst (λ n. AllFit c.last_irre (info n).count c.branches)
                  (sym (head-add_tx env tx s.head)) s.fit));
        },
        ground (arith, count_is),
        ground (arith, count_is),
      )

  -- storeTx keeps the invariant of the branches, whatever the database answers.
  pub store_tx-Within :
      (db : Database) (tx : Transaction) (c : Chain) (s : IsHeaded c)
      → Within (info s.head.head).count (info s.head.head).count (store_tx env db tx c).1
  unfolding store_tx
  store_tx-Within db tx c s =
      let top = (info s.head.head).count in
      let now : Within top top c = (s, ground arith, ground arith) in
      elim (Option-cases (GoMap.get c.tx_pool (tx_hash env tx))) [
        | inr (t, e) ↦ rw (e, store_tx) now
        | inl e ↦
            rw (e, store_tx)
              (store-keeps (Within top top) db (insert_tx tx ∷ []) (pool_tx env tx) c
                (written-Within top top) now (pool_tx-Within tx c s))
      ]
