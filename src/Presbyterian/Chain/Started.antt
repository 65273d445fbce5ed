-- ===== src/Presbyterian/Chain/Started.antt =====
-- presbyterian/chain.go: the chain that NewChain makes is headed.
use go_crawling_bazaar.Base.{
  ℕ, suc, ◌≤◌, ◌≡◌, refl, true, some, none, List, [], ◌∷◌, ◌++◌, arith, All, All-append, get_elem?,
  length, nat_key, Bool-cases, Option-cases, append_nil, append_one, length-append, inl, inr, subst,
  sym, ap, ◌∙◌, ltb,
}
use go_crawling_bazaar.Word.{add32}
use go_crawling_bazaar.Exec.{ok, Outcome-cases}
use go_crawling_bazaar.Presbyterian.Env.{Env}
use go_crawling_bazaar.Presbyterian.MetaState.{MetaState}
use go_crawling_bazaar.Presbyterian.BlockNode.{BlockNode, info, has_ancestor}
use go_crawling_bazaar.Presbyterian.BlockNode.Ancestry.{IsCounted}
use go_crawling_bazaar.Presbyterian.Branch.{Branch, Pool, new_branch}
use go_crawling_bazaar.Presbyterian.Branch.Heads.{head-new_branch}
use go_crawling_bazaar.Presbyterian.Chain.{Chain, slot}
use go_crawling_bazaar.Presbyterian.Chain.Start.{
  Loaded, select_head, rebuild, new_chain, is_genesis, need_confirms,
}
use go_crawling_bazaar.Presbyterian.Chain.Slots.{
  AllFit, IsHeaded, All-widen, get_elem?-last, get_elem?-append,
}

-- The heads of the rebuilt branches.
abbrev Rooted : BlockNode → Branch → Type 0
Rooted irre b = IsCounted b.head × (has_ancestor irre b.head ≡ true)

-- No branch is longer than `best`.
abbrev Longest : Branch → List Branch → Type 0
Longest best bs = All (λ b. (info b.head).count ≤ (info best.head).count) bs

-- What select_head returns for the branches `rest` after the branches `done`.
select_head-best :
    (done rest : List Branch) (j : ℕ) (b : Branch) (k : ℕ) (best : Branch)
    → get_elem? done j ≡ some b
    → Longest b done
    → select_head (length done) rest (some (j, b)) ≡ some (k, best)
    → (get_elem? (done ++ rest) k ≡ some best) × Longest best (done ++ rest)
unfolding select_head
select_head-best done [] j b k best at l e =
    subst (λ bs. (get_elem? bs k ≡ some best) × Longest best bs) (sym (append_nil done))
      (
        ground (arith, at),
        (let same : b ≡ best = ground arith in subst (λ w. Longest w done) same l),
      )
select_head-best done (v ∷ vs) j b k best at l e =
    let next : length (done ++ v ∷ []) ≡ suc (length done) =
      ground (arith, length-append done (v ∷ [])) in
    elim (Bool-cases (ltb (info b.head).count (info v.head).count)) [
      | inl longer ↦
          let wide =
            All-widen (λ w. (info w.head).count ≤ (info b.head).count)
              (λ w. (info w.head).count ≤ (info v.head).count) (λ w h. ground arith) done l in
          subst (λ bs. (get_elem? bs k ≡ some best) × Longest best bs) (append_one done v vs)
            (select_head-best (done ++ v ∷ []) vs (length done) v k best (get_elem?-last done v)
              (All-append (λ w. (info w.head).count ≤ (info v.head).count) done (v ∷ []) wide
                (ground arith, tt))
              (ap (λ n. select_head n vs (some (length done, v))) next ∙ ground arith))
      | inr shorter ↦
          subst (λ bs. (get_elem? bs k ≡ some best) × Longest best bs) (append_one done v vs)
            (select_head-best (done ++ v ∷ []) vs j b k best (get_elem?-append done (v ∷ []) j b at)
              (All-append (λ w. (info w.head).count ≤ (info b.head).count) done (v ∷ []) l
                (ground arith, tt))
              (ap (λ n. select_head n vs (some (j, b))) next ∙ ground arith))
    ]

-- The branch that the loop of NewChain selects is in its slot, and no branch is longer.
pub select_head_lem :
    (bs : List Branch) (k : ℕ) (best : Branch)
    → select_head 0 bs none ≡ some (k, best)
    → (get_elem? bs k ≡ some best) × Longest best bs
unfolding select_head
select_head_lem [] k best e = absurd (ground arith)
select_head_lem (v ∷ vs) k best e =
    select_head-best (v ∷ []) vs 0 v k best refl (ground arith, tt) e

both-Fit :
    (irre : BlockNode) (best : Branch) (bs : List Branch)
    → All (Rooted irre) bs
    → Longest best bs
    → AllFit irre (info best.head).count bs
both-Fit irre best [] r l = tt
both-Fit irre best (b ∷ bs) r l = ((r.0.0, l.0, r.0.1), both-Fit irre best bs r.1 l.1)

module _ (env : Env) where
  rebuild-Rooted :
      (irre : BlockNode) (s : MetaState) (pool : Pool) (heads : List BlockNode)
      (acc bs : List Branch)
      → All IsCounted heads
      → All (Rooted irre) acc
      → rebuild env irre s pool heads acc ≡ ok bs
      → All (Rooted irre) bs
  unfolding rebuild
  rebuild-Rooted irre s pool [] acc bs v a e = subst (All (Rooted irre)) (ground arith) a
  rebuild-Rooted irre s pool (n ∷ ns) acc bs v a e = elim (Bool-cases (has_ancestor irre n)) [
    | inr h ↦ rebuild-Rooted irre s pool ns acc bs v.1 a (ground arith)
    | inl h ↦ elim (Outcome-cases (new_branch env irre n s pool)) [
      | inr (inl (x, r)) ↦ absurd (ground arith)
      | inr (inr r) ↦ absurd (ground arith)
      | inl (br, r) ↦
          let is_head = head-new_branch env irre n s pool br r in
          let rooted : Rooted irre br =
            subst (λ m. IsCounted m × (has_ancestor irre m ≡ true)) (sym is_head) (v.0, h) in
          rebuild-Rooted irre s pool ns (acc ++ br ∷ []) bs v.1
            (All-append (Rooted irre) acc (br ∷ []) a (rooted, tt)) (ground arith)
    ]
  ]

  -- If the heads that the database lists have counts from 0, a chain that NewChain returns is headed.
  pub new_chain-IsHeaded :
      (genesis_hash wanted servers : ℕ) (db : Loaded) (c : Chain)
      → All IsCounted db.heads
      → new_chain env genesis_hash wanted servers db ≡ ok c
      → IsHeaded c
  unfolding new_chain
  new_chain-IsHeaded genesis_hash wanted servers db c v e =
      elim (Bool-cases (is_genesis genesis_hash db.last_irre)) [
        | inr g ↦ absurd (ground arith)
        | inl g ↦
            elim (Outcome-cases (rebuild env db.last_irre db.immutable db.tx_pool db.heads [])) [
              | inr (inl (x, r)) ↦ absurd (ground arith)
              | inr (inr r) ↦ absurd (ground arith)
              | inl (bs, r) ↦ elim (Option-cases (select_head 0 bs none)) [
                | inl h ↦ absurd (ground arith)
                | inr ((i, b), h) ↦
                    let (at, l) = select_head_lem bs i b h in
                    let rooted =
                      rebuild-Rooted db.last_irre db.immutable db.tx_pool db.heads [] bs v tt r in
                    let fit = both-Fit db.last_irre b bs rooted l in
                    let whole : Path Chain
                        (record {
                          confirms = need_confirms wanted servers;
                          next_height = add32 (info b.head).height 1;
                          last_irre = db.last_irre;
                          immutable = db.immutable;
                          head_index = i;
                          head_branch = slot i;
                          branches = bs;
                          tx_pool = db.tx_pool;
                          disk = db.disk;
                        })
                        c =
                      ground arith in
                    subst IsHeaded whole
                      (record { head = b; at_index = at; pointer = refl; fit = fit })
              ]
            ]
      ]
