-- ===== src/Presbyterian/Chain/Confirmed.antt =====
-- presbyterian/chain.go: what replaceAndSwitchToBranch confirms, and what a failed one leaves.
use go_crawling_bazaar.Base.{
  ℕ, ◌≡◌, ◌≢◌, refl, true, false, none, List, [], ◌∷◌, ◌++◌, arith, All, nat_key, Bool-cases,
  Option-cases, inl, inr, subst, sym, ◌⊎◌,
}
use go_crawling_bazaar.GoMap
use go_crawling_bazaar.GoMap.{get-delete}
use go_crawling_bazaar.Exec.{ok, err, Outcome-cases}
use go_crawling_bazaar.Types.Transactions.{Transaction}
use go_crawling_bazaar.Presbyterian.Env.{Env, Error}
use go_crawling_bazaar.Presbyterian.MetaState.{MetaState}
use go_crawling_bazaar.Presbyterian.MetaState.Tokens.{next_nonce}
use go_crawling_bazaar.Presbyterian.MetaState.Apply.{apply}
use go_crawling_bazaar.Presbyterian.BlockNode.{BlockNode, info, load}
use go_crawling_bazaar.Presbyterian.Branch.{Pool, tx_hash, account_address}
use go_crawling_bazaar.Presbyterian.Chain.{Chain, Procedure, Database, store, run_all}
use go_crawling_bazaar.Presbyterian.Chain.Switch.{
  Confirming, confirm_txs, confirm_node, confirm_nodes, expire, is_expired, node_txs,
}

-- A store that succeeds has run the callback, and has committed the procedures after what the callback
-- leaves; one that fails has done nothing.
pub store-outcome :
    (db : Database) (sps : List Procedure) (cb : Chain → Chain) (c : Chain)
    → ((store db sps cb c).0 ≡ ok tt
        → (store db sps cb c).1 ≡ record (cb c) { disk = (cb c).disk ++ sps })
      × ((e : Error) → (store db sps cb c).0 ≡ err e → (store db sps cb c).1 ≡ c)
unfolding store
store-outcome db sps cb c = elim (Option-cases db.begin) [
  | inr (e, b) ↦ (λ h. absurd (ground arith), λ x h. rw (b, store) refl)
  | inl b ↦ elim (Option-cases (run_all db.run sps)) [
    | inr (e, r) ↦ (λ h. absurd (ground arith), λ x h. rw (b, store, r) refl)
    | inl r ↦ elim (Bool-cases db.commits) [
      | inl k ↦ (λ h. rw (b, store, r, k) refl, λ x h. absurd (ground arith))
      | inr k ↦ (λ h. absurd (ground arith), λ x h. absurd (ground arith))
    ]
  ]
]

module _ (env : Env) where
  confirm_txs-no-error :
      (txs : List Transaction) (h : ℕ) (st : Confirming) (e : Error)
      → (confirm_txs env txs h st).0 ≢ err e
  unfolding confirm_txs
  confirm_txs-no-error [] h (s, pool) e q = ground arith
  confirm_txs-no-error (tx ∷ txs) h (s, pool) e q = elim (Outcome-cases (apply env tx h s).0) [
    | inl (a, r) ↦
        confirm_txs-no-error txs h ((apply env tx h s).1, GoMap.delete pool (tx_hash env tx)) e
          (ground arith)
    | inr (inl (x, r)) ↦ ground arith
    | inr (inr r) ↦ ground arith
  ]

  pub confirm_nodes-no-error :
      (ns : List BlockNode) (st : Confirming) (e : Error) → (confirm_nodes env ns st).0 ≢ err e
  unfolding confirm_nodes confirm_node
  confirm_nodes-no-error [] st e q = ground arith
  confirm_nodes-no-error (n ∷ ns) st e q = elim (Option-cases (load n)) [
    | inl l ↦ ground arith
    | inr (b, l) ↦
        let first = confirm_txs env b.transactions (info n).height st in
        elim (Outcome-cases first.0) [
          | inl (a, r) ↦ confirm_nodes-no-error ns first.1 e (ground arith)
          | inr (inl (x, r)) ↦ confirm_txs-no-error b.transactions (info n).height st x r
          | inr (inr r) ↦ ground arith
        ]
  ]

  is_expired-no-error : (s : MetaState) (v : Transaction) (e : Error) → is_expired env s v ≢ err e
  unfolding is_expired
  is_expired-no-error s v e q = elim (Outcome-cases (next_nonce (account_address env v) s).0) [
    | inl (base, r) ↦ ground arith
    | inr (inl (x, r)) ↦ ground arith
    | inr (inr r) ↦ ground arith
  ]

  pub expire-no-error :
      (s : MetaState) (kvs : List (ℕ × Transaction)) (acc : List Transaction × Pool) (e : Error)
      → expire env s kvs acc ≢ err e
  unfolding expire is_expired
  expire-no-error s [] (ts, pool) e q = ground arith
  expire-no-error s (kv ∷ kvs) (ts, pool) e q = elim (Outcome-cases (is_expired env s kv.1)) [
    | inl (true, r) ↦
        expire-no-error s kvs (ts ++ kv.1 ∷ [], GoMap.delete pool kv.0) e (ground arith)
    | inl (false, r) ↦ expire-no-error s kvs (ts, pool) e (ground arith)
    | inr (inl (x, r)) ↦ is_expired-no-error s kv.1 x r
    | inr (inr r) ↦ ground arith
  ]

  -- The pool is only made smaller.
  abbrev pub Shrinks : Pool → Pool → Type 0
  Shrinks before after =
      (k : ℕ) → (GoMap.get after k ≡ none) ⊎ (GoMap.get after k ≡ GoMap.get before k)

  abbrev pub AreGone : Pool → List Transaction → Type 0
  AreGone pool txs = All (λ t. GoMap.get pool (tx_hash env t) ≡ none) txs

  pub Shrinks-trans : (p q r : Pool) → Shrinks p q → Shrinks q r → Shrinks p r
  Shrinks-trans p q r f g k = ground (arith, f k, g k)

  Shrinks-delete : (p : Pool) (k : ℕ) → Shrinks p (GoMap.delete p k)
  Shrinks-delete p k j = ground (arith, get-delete p k j)

  pub AreGone-Shrinks :
      (p q : Pool) (txs : List Transaction) → Shrinks p q → AreGone p txs → AreGone q txs
  AreGone-Shrinks p q [] f g = tt
  AreGone-Shrinks p q (t ∷ ts) f g =
      (ground (arith, f (tx_hash env t), g.0), AreGone-Shrinks p q ts f g.1)

  confirm_txs-pool :
      (txs : List Transaction) (h : ℕ) (st : Confirming)
      → (confirm_txs env txs h st).0 ≡ ok tt
      → Shrinks st.1 (confirm_txs env txs h st).1.1 × AreGone (confirm_txs env txs h st).1.1 txs
  unfolding confirm_txs
  confirm_txs-pool [] h st e = (λ k. inr refl, tt)
  confirm_txs-pool (tx ∷ txs) h (s, pool) e = elim (Outcome-cases (apply env tx h s).0) [
    | inr (inl (x, r)) ↦ absurd (ground arith)
    | inr (inr r) ↦ absurd (ground arith)
    | inl (a, r) ↦
        let next : Confirming = ((apply env tx h s).1, GoMap.delete pool (tx_hash env tx)) in
        let (f, g) = confirm_txs-pool txs h next (ground arith) in
        let step : confirm_txs env (tx ∷ txs) h (s, pool) ≡ confirm_txs env txs h next =
          rw (r, confirm_txs) refl in
        subst (λ w. Shrinks pool w.1.1 × AreGone w.1.1 (tx ∷ txs)) (sym step)
          (
            Shrinks-trans pool next.1 (confirm_txs env txs h next).1.1
                (Shrinks-delete pool (tx_hash env tx)) f,
            (
              ground (arith, f (tx_hash env tx), get-delete pool (tx_hash env tx) (tx_hash env tx)),
              g,
            ),
          )
  ]

  pub confirm_nodes-pool :
      (ns : List BlockNode) (st : Confirming)
      → (confirm_nodes env ns st).0 ≡ ok tt
      → Shrinks st.1 (confirm_nodes env ns st).1.1
        × All (λ n. AreGone (confirm_nodes env ns st).1.1 (node_txs n)) ns
  unfolding confirm_nodes confirm_node node_txs
  confirm_nodes-pool [] st e = (λ k. inr refl, tt)
  confirm_nodes-pool (n ∷ ns) st e = elim (Option-cases (load n)) [
    | inl l ↦ absurd (ground arith)
    | inr (b, l) ↦
        let first = confirm_txs env b.transactions (info n).height st in
        elim (Outcome-cases first.0) [
          | inr (inl (x, r)) ↦ absurd (ground arith)
          | inr (inr r) ↦ absurd (ground arith)
          | inl (a, r) ↦
              let (f, g) = confirm_txs-pool b.transactions (info n).height st r in
              let (f', g') = confirm_nodes-pool ns first.1 (ground arith) in
              let step : confirm_nodes env (n ∷ ns) st ≡ confirm_nodes env ns first.1 =
                rw (l, confirm_node, r) refl in
              let txs : node_txs n ≡ b.transactions = rw (l, node_txs) refl in
              subst (λ w. Shrinks st.1 w.1.1 × All (λ m. AreGone w.1.1 (node_txs m)) (n ∷ ns))
                (sym step)
                (
                  Shrinks-trans st.1 first.1.1 (confirm_nodes env ns first.1).1.1 f f',
                  (
                    subst (AreGone (confirm_nodes env ns first.1).1.1) (sym txs) (
                        AreGone-Shrinks first.1.1 (confirm_nodes env ns first.1).1.1 b.transactions
                          f' g),
                    g',
                  ),
                )
        ]
  ]

  pub expire-pool :
      (s : MetaState) (kvs : List (ℕ × Transaction)) (expired : List Transaction) (pool : Pool)
      (result : List Transaction × Pool)
      → expire env s kvs (expired, pool) ≡ ok result
      → Shrinks pool result.1
  unfolding expire
  expire-pool s [] expired pool result e = λ k. inr (ground arith)
  expire-pool s (kv ∷ kvs) expired pool result e = elim (Outcome-cases (is_expired env s kv.1)) [
    | inl (true, r) ↦
        Shrinks-trans pool (GoMap.delete pool kv.0) result.1 (Shrinks-delete pool kv.0)
          (expire-pool s kvs (expired ++ kv.1 ∷ []) (GoMap.delete pool kv.0) result (ground arith))
    | inl (false, r) ↦ expire-pool s kvs expired pool result (ground arith)
    | inr (inl (x, r)) ↦ absurd (ground arith)
    | inr (inr r) ↦ absurd (ground arith)
  ]
