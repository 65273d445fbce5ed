-- ===== src/Presbyterian/Chain/Heads.antt =====
-- presbyterian/chain.go: every operation keeps headBranch the slot headIndex, no branch longer than it,
-- and the last irreversible block behind every branch.
use go_crawling_bazaar.Base.{
  ℕ, ◌≡◌, ◌≢◌, refl, some, List, [], ◌∷◌, ◌++◌, arith, All-append, set, get_elem?, nat_key, ◌==◌,
  Bool-cases, Option-cases, inl, inr, subst, sym, ap, ◌∙◌,
}
use go_crawling_bazaar.Presbyterian.BlockNode.{info}
use go_crawling_bazaar.Presbyterian.Branch.{Branch}
use go_crawling_bazaar.Presbyterian.Chain.{
  Chain, Procedure, Database, store, run_all, write_branch, replace_branch,
}
use go_crawling_bazaar.Presbyterian.Chain.Slots.{
  Fits, AllFit, IsHeaded, Within, get_elem?-set-same, get_elem?-set-other, All-set, All-at,
  get_elem?-append,
}

-- A condition on chains that a call of `store` keeps if its callback does.
pub store-keeps {ℓ} :
    (P : Chain → Type ℓ) (db : Database) (sps : List Procedure) (cb : Chain → Chain) (c : Chain)
    → ((d : Chain) (w : List Procedure) → P d → P (record d { disk = w }))
    → P c
    → P (cb c)
    → P (store db sps cb c).1
unfolding store
store-keeps P db sps cb c written before after = elim (Option-cases db.begin) [
  | inr (e, b) ↦ rw (b, store) before
  | inl b ↦ elim (Option-cases (run_all db.run sps)) [
    | inr (e, r) ↦ rw (b, store, r) before
    | inl r ↦ elim (Bool-cases db.commits) [
      | inl k ↦ rw (b, store, r, k) (written (cb c) _ after)
      | inr k ↦ rw (b, store, r, k) after
    ]
  ]
]

pub written-Within :
    (low high : ℕ) (d : Chain) (w : List Procedure)
    → Within low high d
    → Within low high (record d { disk = w })
written-Within low high d w (s, l, h) =
    (record { head = s.head; at_index = s.at_index; pointer = s.pointer; fit = s.fit }, l, h)

-- A write to a branch that leaves its head.
pub write_branch-IsHeaded :
    (i : ℕ) (v v' : Branch) (c : Chain)
    → get_elem? c.branches i ≡ some v
    → v'.head ≡ v.head
    → (s : IsHeaded c)
    → (t : IsHeaded (write_branch i v' c)) × ((info t.head.head).count ≡ (info s.head.head).count)
write_branch-IsHeaded i v v' c at same s =
    let top = (info s.head.head).count in
    let there : Fits c.last_irre top v'.head =
      subst (Fits c.last_irre top) (sym same) (All-at _ c.branches i v s.fit at) in
    let fit = All-set (λ b. Fits c.last_irre top b.head) c.branches i v' there s.fit in
    elim (Bool-cases (i == c.head_index)) [
      | inl e ↦
          let here : i ≡ c.head_index = ground arith in
          let v_is : v ≡ s.head = ground (arith, at, s.at_index, ap (get_elem? c.branches) here) in
          let same_count : (info v'.head).count ≡ (info s.head.head).count =
            ap (λ n. (info n).count) same ∙ ap (λ b. (info b.head).count) v_is in
          (
            record {
              head = v';
              at_index =
                  subst (λ j. get_elem? (set c.branches i v') j ≡ some v') here
                    (get_elem?-set-same c.branches i v' v at);
              pointer = s.pointer;
              fit = subst (λ k. AllFit c.last_irre k (set c.branches i v')) (sym same_count) fit;
            },
            same_count,
          )
      | inr e ↦ (
        record {
          head = s.head;
          at_index = get_elem?-set-other c.branches i c.head_index v' (ground arith) ∙ s.at_index;
          pointer = s.pointer;
          fit = fit;
        },
        refl,
      )
    ]

-- Another branch than the head's gets a branch that is no longer than the head.
pub replace_branch-Within :
    (i : ℕ) (br : Branch) (c : Chain) (s : IsHeaded c)
    → i ≢ c.head_index
    → Fits c.last_irre (info s.head.head).count br.head
    → Within (info s.head.head).count (info s.head.head).count (replace_branch i br c)
unfolding replace_branch
replace_branch-Within i br c s other f = (
  record {
    head = s.head;
    at_index = get_elem?-set-other c.branches i c.head_index br other ∙ s.at_index;
    pointer = rw s.pointer (ground arith);
    fit = All-set (λ b. Fits c.last_irre (info s.head.head).count b.head) c.branches i br f s.fit;
  },
  ground arith,
  ground arith,
)

-- One more branch, no longer than the head.
pub append_branch-Within :
    (br : Branch) (c : Chain) (s : IsHeaded c)
    → Fits c.last_irre (info s.head.head).count br.head
    → Within
        (info s.head.head).count
        (info s.head.head).count
        (record c { branches = c.branches ++ br ∷ [] })
append_branch-Within br c s f = (
  record {
    head = s.head;
    at_index = get_elem?-append c.branches (br ∷ []) c.head_index s.head s.at_index;
    pointer = s.pointer;
    fit =
        All-append (λ b. Fits c.last_irre (info s.head.head).count b.head) c.branches (br ∷ [])
          s.fit (f, tt);
  },
  ground arith,
  ground arith,
)
