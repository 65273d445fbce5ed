-- ===== src/Presbyterian/Chain/Runs.antt =====
-- presbyterian/chain.go: the goroutines of the chain as a run of events.
use go_crawling_bazaar.Base.{
  ℕ, ◌+◌, ◌<◌, ◌≡◌, Bool, true, false, arith, All, Option, Bool-cases, Option-cases, nat_key, inl,
  inr,
}
use go_crawling_bazaar.GoMap
use go_crawling_bazaar.Word.{u32_mod}
use go_crawling_bazaar.Exec.{ok, Outcome-cases}
use go_crawling_bazaar.Types.Transactions.{Transaction}
use go_crawling_bazaar.Presbyterian.Env.{Env, Error}
use go_crawling_bazaar.Presbyterian.BlockNode.{Block, info}
use go_crawling_bazaar.Presbyterian.BlockNode.Ancestry.{IsCounted}
use go_crawling_bazaar.Presbyterian.Branch.{tx_hash, verify}
use go_crawling_bazaar.Presbyterian.Chain.{Chain, Database, store_tx}
use go_crawling_bazaar.Presbyterian.Chain.Clock.{Settings, may_produce}
use go_crawling_bazaar.Presbyterian.Chain.Blocks.{
  apply_block, push_block, produce_and_store_block, advance_next_height, process_add_tx_req,
  increase_next_height,
}
use go_crawling_bazaar.Presbyterian.Chain.Start.{Loaded, new_chain}
use go_crawling_bazaar.Presbyterian.Chain.Slots.{IsHeaded, Within, All-at}
use go_crawling_bazaar.Presbyterian.Chain.Pooled.{store_tx-Within}
use go_crawling_bazaar.Presbyterian.Chain.Room.{HasRoom, Grows, Within-widen}
use go_crawling_bazaar.Presbyterian.Chain.Headed.{apply_block-Grows, produce_and_store_block-Grows}
use go_crawling_bazaar.Presbyterian.Chain.Started.{new_chain-IsHeaded}

-- A message that processTxs or processBlocks receives, or a tick of mainCycle, each with the answers
-- that its calls get.
pub data Event : Type 0 where
  tx_request : Database → ℕ → Transaction → Event
  block_received : (Block → Option Error) → Database → Block → Event
  height_due : (Block → Option ℕ) → Database → Bool → ℕ → ℕ → Event

module _ (env : Env) (cfg : Settings) where
  -- The chain after an event.
  unfoldable pub handle : Event → Chain → Chain
  unfolding process_add_tx_req push_block advance_next_height
  handle (tx_request db ttl tx) c = (process_add_tx_req env db ttl tx c).1
  handle (block_received verifies db b) c = (push_block env verifies cfg db b c).1
  handle (height_due seal db key now elapsed) c =
      (advance_next_height env seal cfg db key now elapsed c).1

  -- The chains that a number of events leads to.
  pub data Run : Chain → ℕ → Chain → Type 0 where
    start : {c : Chain} → Run c 0 c
    next : {c d : Chain} {n : ℕ} → Run c n d → (e : Event) → Run c (n + 1) (handle e d)

  advanced-Within :
      (low high : ℕ) (c : Chain) → Within low high c → Within low high (increase_next_height env c)
  advanced-Within low high c (s, l, h) =
      (record { head = s.head; at_index = s.at_index; pointer = s.pointer; fit = s.fit }, l, h)

  process_add_tx_req-Grows :
      (db : Database) (ttl : ℕ) (tx : Transaction) (c : Chain) (s : IsHeaded c)
      → Grows c s (process_add_tx_req env db ttl tx c).1
  unfolding process_add_tx_req
  process_add_tx_req-Grows db ttl tx c s =
      let top = (info s.head.head).count in
      let same : Grows c s c = (s, ground arith, ground arith) in
      let kept =
        Within-widen top top top (top + 1) _ (ground arith) (ground arith)
          (store_tx-Within env db tx c s) in
      elim (Option-cases (GoMap.get c.tx_pool (tx_hash env tx))) [
        | inr (t, e) ↦ rw (e, process_add_tx_req) same
        | inl e ↦ elim (Outcome-cases (verify env tx)) [
          | inr (inl (x, r)) ↦ rw (e, process_add_tx_req, r) same
          | inr (inr r) ↦ rw (e, process_add_tx_req, r) same
          | inl (a, r) ↦ elim (Outcome-cases (store_tx env db tx c).0) [
            | inl (b, q) ↦ rw (e, process_add_tx_req, r, q) kept
            | inr (inl (x, q)) ↦ rw (e, process_add_tx_req, r, q) kept
            | inr (inr q) ↦ rw (e, process_add_tx_req, r, q) kept
          ]
        ]
      ]

  push_block-Grows :
      (verifies : Block → Option Error) (db : Database) (b : Block) (c : Chain) (s : IsHeaded c)
      → HasRoom c s
      → Grows c s (push_block env verifies cfg db b c).1
  unfolding push_block
  push_block-Grows verifies db b c s room =
      let same : Grows c s c = (s, ground arith, ground arith) in
      let kept = apply_block-Grows env cfg db b c s room in
      elim (Option-cases (verifies b)) [
        | inr (x, e) ↦ rw (e, push_block) same
        | inl e ↦ elim (Outcome-cases (apply_block env cfg db b c).0) [
          | inl (a, q) ↦ rw (e, push_block, q) kept
          | inr (inl (x, q)) ↦ rw (e, push_block, q) kept
          | inr (inr q) ↦ rw (e, push_block, q) kept
        ]
      ]

  advance_next_height-Grows :
      (seal : Block → Option ℕ) (db : Database) (key : Bool) (now elapsed : ℕ) (c : Chain)
      (s : IsHeaded c)
      → HasRoom c s
      → Grows c s (advance_next_height env seal cfg db key now elapsed c).1
  unfolding advance_next_height
  advance_next_height-Grows seal db key now elapsed c s room =
      let top = (info s.head.head).count in
      let same : Grows c s c = (s, ground arith, ground arith) in
      let raised = advanced-Within top (top + 1) c same in
      let kept = produce_and_store_block-Grows env seal cfg db now c s room in
      elim (Outcome-cases (may_produce cfg c.next_height elapsed)) [
        | inr (inl (x, r)) ↦ rw (r, advance_next_height) same
        | inr (inr r) ↦ rw (r, advance_next_height) same
        | inl (false, r) ↦ rw (r, advance_next_height) raised
        | inl (true, r) ↦ elim (Bool-cases key) [
          | inr k ↦ rw (r, advance_next_height, k) raised
          | inl k ↦ elim (Outcome-cases (produce_and_store_block env seal cfg db now c).0) [
            | inl (a, q) ↦ rw (r, advance_next_height, k, q) (advanced-Within top (top + 1) _ kept)
            | inr (inl (x, q)) ↦
                rw (r, advance_next_height, k, q) (advanced-Within top (top + 1) _ kept)
            | inr (inr q) ↦ rw (r, advance_next_height, k, q) kept
          ]
        ]
      ]

  handle-Grows : (e : Event) (c : Chain) (s : IsHeaded c) → HasRoom c s → Grows c s (handle e c)
  unfolding handle
  handle-Grows (tx_request db ttl tx) c s room = process_add_tx_req-Grows db ttl tx c s
  handle-Grows (block_received verifies db b) c s room = push_block-Grows verifies db b c s room
  handle-Grows (height_due seal db key now elapsed) c s room =
      advance_next_height-Grows seal db key now elapsed c s room

  -- A run of `n` events from a headed chain, with fewer than 2 ^ 32 blocks in the longest branch even if
  -- each event adds one, ends in a headed chain, whose longest branch is at least as long as it was and
  -- at most `n` blocks longer.
  pub Run-Within :
      (c d : Chain) (n : ℕ) (s : IsHeaded c)
      → Run c n d
      → (info s.head.head).count + n < u32_mod
      → Within (info s.head.head).count ((info s.head.head).count + n) d
  Run-Within c d n s start b = (s, ground arith, ground arith)
  Run-Within c d n s (next {d = mid} {n = m} r e) b =
      let (t, l, h) = Run-Within c mid m s r (ground arith) in
      Within-widen _ _ _ _ d (ground (arith, l)) (ground (arith, h))
        (handle-Grows e mid t (ground (arith, h)))

  -- The chain that NewChain makes of a database whose heads have counts from 0 is headed, and stays so
  -- through every run of n events, if every branch's count plus n is below 2 ^ 32: headBranch is the slot
  -- headIndex, no branch is longer than it, and the last irreversible block is behind every branch. The
  -- longest branch is after the run no shorter, and at most n blocks longer.
  pub new_chain-Run :
      (genesis_hash wanted servers : ℕ) (db : Loaded) (c d : Chain) (n : ℕ)
      → All IsCounted db.heads
      → new_chain env genesis_hash wanted servers db ≡ ok c
      → Run c n d
      → All (λ b. (info b.head).count + n < u32_mod) c.branches
      → (s : IsHeaded c) × Within (info s.head.head).count ((info s.head.head).count + n) d
  new_chain-Run genesis_hash wanted servers db c d n v e r b =
      let s = new_chain-IsHeaded env genesis_hash wanted servers db c v e in
      (
        s,
        Run-Within c d n s r (
            All-at (λ w. (info w.head).count + n < u32_mod) c.branches c.head_index s.head b
              s.at_index),
      )
