-- ===== src/UrlChain/Chain/Steps.antt =====
-- urlchain/chain.go: each step keeps a chain linked.
use go_crawling_bazaar.Base.{
  ℕ, ◌≡◌, refl, not, ◌&&◌, Option, List, [], ◌∷◌, ◌++◌, nat_key, string_key, ◌==◌, length, ◌%◌, ◌-◌,
  ltb, ◌+◌, Bool-cases, Option-cases, inl, inr, ◌⊎◌,
}
use go_crawling_bazaar.Exec.{Outcome-cases}
use go_crawling_bazaar.Types.Queries.{Response, Ack}
use go_crawling_bazaar.State.Pool.{QueryTracker}
use go_crawling_bazaar.State.Storage.{Engine}
use go_crawling_bazaar.State.Execution.{commit_ex}
use go_crawling_bazaar.UrlChain.AckIndex.{AckIndex}
use go_crawling_bazaar.UrlChain.AckIndex as AckIndex
use go_crawling_bazaar.Presbyterian.Chain.Peers.{Peers, find}
use go_crawling_bazaar.UrlChain.Block.{Block, Crypto, verify}
use go_crawling_bazaar.UrlChain.BlockIndex.{BlockNode}
use go_crawling_bazaar.UrlChain.Runtime.{
  get_height_from_time, is_my_turn, query_time_is_expired, update_peers,
}
use go_crawling_bazaar.UrlChain.Chain.{
  Chain, check_and_push_new_block, push_block, verify_and_push_acked_query, replayed,
}
use go_crawling_bazaar.UrlChain.Chain.Fetches.{prune_block_cache}
use go_crawling_bazaar.UrlChain.Chain.Turns.{
  produce_block, end_turn, run_current_turn, process_block, answer_all, Event, arrived, pushed,
  turned, grown, queried, answered, acked, changed_peers, billing_moved, perform, query_chain,
  return_stash,
}
use go_crawling_bazaar.UrlChain.Chain.Linked.{IsLinked, Keeps, Keeps-IsLinked, add_response-Keeps}
use go_crawling_bazaar.UrlChain.Chain.Kept.{
  same_chain-Keeps, stash-Keeps, peers-Keeps, billed-Keeps, register-Keeps,
}
use go_crawling_bazaar.UrlChain.Chain.Grown.{push_block-IsLinked}
use go_crawling_bazaar.UrlChain.Chain.Pruned.{prune_block_cache-IsLinked}

List-cases {ℓ} : {A : Type ℓ} (xs : List A) → (xs ≡ []) ⊎ ((x : A) × (ys : List A) × (xs ≡ x ∷ ys))
List-cases [] = inl refl
List-cases (x ∷ xs) = inr (x, xs, refl)

module _ {Db : Type 0} where
  -- Some node is the head of the linked chain.
  abbrev pub HasHead : Chain Db → Type 0
  HasHead c = (n : BlockNode) × IsLinked c n

  pub Keeps-HasHead : (c c' : Chain Db) → Keeps c c' → HasHead c → HasHead c'
  Keeps-HasHead c c' k (n, v) = (n, Keeps-IsLinked c c' n k v)

  push_block-HasHead :
      (crypto : Crypto) (b : Block) (c : Chain Db) → HasHead c → HasHead (push_block crypto b c).1
  push_block-HasHead crypto b c (n, v) = push_block-IsLinked crypto b c n v

  pub end_turn-HasHead : (c : Chain Db) → HasHead c → HasHead (end_turn c)
  unfolding end_turn get_height_from_time
  end_turn-HasHead c (n, v) =
      Keeps-HasHead (prune_block_cache c) (end_turn c)
        (record {
          head = refl;
          clock = λ t. refl;
          blocks = refl;
          cache = refl;
          pointers = refl;
          count = refl;
        })
        (n, prune_block_cache-IsLinked c n v)

  produce_block-HasHead :
      (answer : QueryTracker → Option Response) (now : ℕ) (c : Chain Db)
      → HasHead c
      → HasHead (produce_block answer now c).1
  unfolding produce_block
  produce_block-HasHead answer now c h =
      let out = commit_ex c.st in
      let ai = (AckIndex.acks (get_height_from_time c.rt now) c.ai).1 in
      let both : HasHead (record c { st = out.1; ai = ai }) =
        Keeps-HasHead c _ (same_chain-Keeps c out.1 ai) h in
      let only : HasHead (record c { st = out.1 }) =
        Keeps-HasHead c _ (same_chain-Keeps c out.1 c.ai) h in
      elim (List-cases out.0.0) [
        | inr (x, xs, e) ↦ elim (Option-cases (answer_all answer out.0.1)) [
          | inl q ↦ rw (e, q, produce_block) both
          | inr (txs, q) ↦ rw (e, q, produce_block) both
        ]
        | inl e ↦ elim (List-cases out.0.1) [
          | inl f ↦ rw (e, f, produce_block) only
          | inr (y, ys, f) ↦ elim (Option-cases (answer_all answer out.0.1)) [
            | inl q ↦ rw (e, f, q, produce_block) both
            | inr (txs, q) ↦ rw (e, f, q, produce_block) both
          ]
        ]
      ]

  run_current_turn-HasHead :
      (answer : QueryTracker → Option Response) (now elapsed : ℕ) (c : Chain Db)
      → HasHead c
      → HasHead (run_current_turn answer now elapsed c).1
  unfolding run_current_turn
  run_current_turn-HasHead answer now elapsed c h =
      elim (Bool-cases (is_my_turn c.rt && not (ltb c.rt.period (elapsed + c.rt.tick)))) [
        | inl e ↦ rw e (end_turn-HasHead _ (produce_block-HasHead answer now c h))
        | inr e ↦ rw e (end_turn-HasHead c h)
      ]

  module _ (crypto : Crypto) (sql : Engine Db) where
    pub check_and_push_new_block-HasHead :
        (b : Block) (c : Chain Db) → HasHead c → HasHead (check_and_push_new_block crypto sql b c).1
    unfolding check_and_push_new_block
    check_and_push_new_block-HasHead b c h =
        let r = replayed crypto sql b c in
        let total = length c.rt.peers.servers in
        let same =
          c.rt.head.height == get_height_from_time c.rt b.timestamp
          && c.rt.head.hash == b.data_hash in
        let push = push_block-HasHead crypto b in
        let h' : HasHead r.1 = Keeps-HasHead c r.1 (same_chain-Keeps c r.1.st c.ai) h in
        elim (Bool-cases same) [
          | inl e ↦ rw e h
          | inr e ↦ elim (Bool-cases (not (b.parent_hash == c.rt.head.hash))) [
            | inl f ↦ rw (e, f) h
            | inr f ↦ elim (Outcome-cases (verify crypto b)) [
              | inr (inl (x, p)) ↦ rw (e, f, p) h
              | inr (inr p) ↦ rw (e, f, p) h
              | inl (u, p) ↦ elim (Bool-cases (b.producer == c.rt.server)) [
                | inl g ↦ rw (e, f, p, g) (push c h)
                | inr g ↦ elim (Option-cases (find c.rt.peers b.producer)) [
                  | inl q ↦ rw (e, f, p, g, q) h
                  | inr (index, q) ↦
                      elim (Bool-cases (not (index == (c.rt.next_turn - 1) % total))) [
                        | inl k ↦ rw (e, f, p, g, q, k) h
                        | inr k ↦ elim (Outcome-cases r.0) [
                          | inl (u', o) ↦ rw (e, f, p, g, q, k, o) (push r.1 h')
                          | inr (inl (x, o)) ↦ rw (e, f, p, g, q, k, o) h'
                          | inr (inr o) ↦ rw (e, f, p, g, q, k, o) h'
                        ]
                      ]
                ]
              ]
            ]
          ]
        ]

    process_block-HasHead :
        (b : Block) (c : Chain Db) → HasHead c → HasHead (process_block crypto sql b c)
    unfolding process_block
    process_block-HasHead b c h =
        let height = get_height_from_time c.rt b.timestamp in
        let stashed : HasHead (record c { stash = c.stash ++ b ∷ [] }) =
          Keeps-HasHead c _ (stash-Keeps c _) h in
        elim (Bool-cases (ltb (c.rt.next_turn - 1) height)) [
          | inl e ↦ rw e stashed
          | inr e ↦ elim (Bool-cases (ltb height (c.rt.next_turn - 1))) [
            | inl f ↦ rw (e, f) h
            | inr f ↦ rw (e, f) (check_and_push_new_block-HasHead b c h)
          ]
        ]

    verify_and_push_acked_query-HasHead :
        (a : Ack) (c : Chain Db) → HasHead c → HasHead (verify_and_push_acked_query crypto a c).1
    unfolding verify_and_push_acked_query
    verify_and_push_acked_query-HasHead a c h =
        elim (Bool-cases (query_time_is_expired c.rt a.response_timestamp)) [
          | inl e ↦ rw e h
          | inr e ↦ elim (Bool-cases (not (crypto.ack_valid a))) [
            | inl f ↦ rw (e, f) h
            | inr f ↦ rw (e, f) (Keeps-HasHead c _ (register-Keeps a c) h)
          ]
        ]

    update_peers-HasHead :
        (peers : Peers) (c : Chain Db)
        → HasHead c
        → HasHead (record c { rt = update_peers peers c.rt })
    unfolding update_peers
    update_peers-HasHead peers c h = elim (Option-cases (find peers c.rt.server)) [
      | inl e ↦ rw (e, update_peers) (Keeps-HasHead c _ (peers-Keeps c _ _ _) h)
      | inr (i, e) ↦ rw (e, update_peers) (Keeps-HasHead c _ (peers-Keeps c _ _ _) h)
    ]

    pub perform-HasHead :
        (e : Event crypto sql) (c : Chain Db) → HasHead c → HasHead (perform crypto sql e c)
    unfolding perform query_chain return_stash
    perform-HasHead (arrived b) c h = process_block-HasHead b c h
    perform-HasHead (pushed b) c h = check_and_push_new_block-HasHead b c h
    perform-HasHead (turned answer now elapsed) c h =
        run_current_turn-HasHead answer now elapsed c h
    perform-HasHead grown c h = Keeps-HasHead c _ (stash-Keeps c []) h
    perform-HasHead (queried req is_leader) c h = Keeps-HasHead c _ (same_chain-Keeps c _ c.ai) h
    perform-HasHead (answered resp) c h = Keeps-HasHead c _ (add_response-Keeps resp c) h
    perform-HasHead (acked a) c h = verify_and_push_acked_query-HasHead a c h
    perform-HasHead (changed_peers peers) c h = update_peers-HasHead peers c h
    perform-HasHead (billing_moved n) c h = Keeps-HasHead c _ (billed-Keeps c n) h
