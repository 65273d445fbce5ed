-- ===== src/UrlChain/Chain/Turns.antt =====
-- urlchain/chain.go: the turns of a chain's main cycle, and the blocks that arrive. What is sent to
-- the channel of blocks is a result, and what is received from it an argument.
use go_crawling_bazaar.Base.{
  ℕ, ◌+◌, ◌-◌, Bool, ◌&&◌, not, Option, none, some, List, [], ◌∷◌, ◌++◌, ltb, if◌then◌else◌,
}
use go_crawling_bazaar.Exec.{Outcome, ok, err, panic}
use go_crawling_bazaar.Types.Queries.{Request, Response, Ack}
use go_crawling_bazaar.State.Pool.{QueryTracker}
use go_crawling_bazaar.State.Storage.{Engine}
use go_crawling_bazaar.State.Execution.{QueryAsTx, commit_ex, query}
use go_crawling_bazaar.Presbyterian.Chain.Peers.{Peers}
use go_crawling_bazaar.Word.{not_negative32}
use go_crawling_bazaar.UrlChain.AckIndex as AckIndex
use go_crawling_bazaar.UrlChain.Block.{Error, context_done, state_error, Block, Crypto}
use go_crawling_bazaar.UrlChain.Runtime.{
  get_height_from_time, get_min_valid_height, inc_next_turn, is_my_turn, update_peers,
  set_last_billing_height,
}
use go_crawling_bazaar.UrlChain.Chain.{
  Chain, Action, add_response, check_and_push_new_block, verify_and_push_acked_query,
}
use go_crawling_bazaar.UrlChain.Chain.Fetches.{prune_block_cache}

-- The loop of produceBlock: the responses of the trackers once it has waited for them, or `none`
-- where the context ends before.
unfoldable pub answer_all :
    (QueryTracker → Option Response) → List QueryTracker → Option (List QueryAsTx)
answer_all answer [] = some []
answer_all answer (v ∷ vs) =
    let rest = answer_all answer vs in
    elim (answer v) [
      | none ↦ none
      | some resp ↦ elim rest [
        | none ↦ none
        | some txs ↦ some (record { request = v.req; response = resp } ∷ txs)
      ]
    ]

module _ {Db : Type 0} where
  -- The block that produceBlock makes: nothing sets its merkle root, its hash and its signee.
  unfoldable pub new_block : Chain Db → ℕ → List Request → List QueryAsTx → List Ack → Block
  new_block c now failed txs acks = record {
    producer = c.rt.server;
    genesis_hash = c.rt.genesis_hash;
    parent_hash = c.rt.head.hash;
    merkle_root = 0;
    timestamp = now;
    data_hash = 0;
    signee = 0;
    failed_reqs = failed;
    query_txs = txs;
    acks = acks;
  }

  -- produceBlock: the block that it sends, or none where no query is pooled.
  unfoldable pub produce_block : (QueryTracker → Option Response) → ℕ → Action Db (Option Block)
  unfolding new_block
  produce_block answer now c =
      let ((failed, trackers), st) = commit_ex c.st in
      let (acks, ai) = AckIndex.acks (get_height_from_time c.rt now) c.ai in
      let produced = record c { st = st; ai = ai } in
      let send : Outcome Error (Option Block) × Chain Db = elim (answer_all answer trackers) [
        | none ↦ (err context_done, produced)
        | some txs ↦ (ok (some (new_block c now failed txs acks)), produced)
      ] in
      elim failed [
        | _ ∷ _ ↦ send
        | [] ↦ elim trackers [ _ ∷ _ ↦ send | [] ↦ (ok none, record c { st = st }) ]
      ]

  -- The deferred part of runCurrentTurn. A negative bound of the heights is 0 here: no height is below
  -- either, and none at a negative height has an index. The turn before it is what it sends to the channel of
  -- heights.
  unfoldable pub end_turn : Chain Db → Chain Db
  unfolding get_min_valid_height
  end_turn c =
      let c' = prune_block_cache c in
      let rt = inc_next_turn c'.rt in
      record c' { rt = rt; ai = AckIndex.advance (not_negative32 (get_min_valid_height rt)) c'.ai }

  -- runCurrentTurn, with what has elapsed of the turn: the block that it sends.
  unfoldable pub run_current_turn :
      (QueryTracker → Option Response) → ℕ → ℕ → Chain Db → Option Block × Chain Db
  run_current_turn answer now elapsed c =
      let (r, c') = produce_block answer now c in
      if is_my_turn c.rt && not (ltb c.rt.period (elapsed + c.rt.tick))
      then (elim r [ ok b ↦ b | err _ ↦ none | panic ↦ none ], end_turn c')
      else (none, end_turn c)

  -- The block that processBlocks does with a height: all stashed blocks go back to the channel.
  unfoldable pub return_stash : Chain Db → List Block × Chain Db
  return_stash c = (c.stash, record c { stash = [] })

  module _ (crypto : Crypto) (sql : Engine Db) where
    -- What processBlocks does with a block: the errors are logged only, and a panic ends the program with
    -- this state.
    unfoldable pub process_block : Block → Chain Db → Chain Db
    process_block b c =
        let height = get_height_from_time c.rt b.timestamp in
        if ltb (c.rt.next_turn - 1) height
        then record c { stash = c.stash ++ b ∷ [] }
        else if ltb height (c.rt.next_turn - 1)
        then c
        else (check_and_push_new_block crypto sql b c).1

    -- Query
    unfoldable pub query_chain : Request → Bool → Action Db (QueryTracker × Response)
    query_chain req is_leader c =
        let (r, st) = query sql req is_leader c.st in
        (elim r [ ok a ↦ ok a | err e ↦ err (state_error e) | panic ↦ panic ], record c { st = st })

    -- The steps of a chain: a block from the channel or from a peer's call, a turn, a height, a
    -- query, an ack, and new peers.
    pub data Event : Type 0 where
      arrived pushed : Block → Event
      turned : (QueryTracker → Option Response) → ℕ → ℕ → Event
      grown : Event
      queried : Request → Bool → Event
      answered : Response → Event
      acked : Ack → Event
      changed_peers : Peers → Event
      billing_moved : ℕ → Event

    unfoldable pub perform : Event → Chain Db → Chain Db
    unfolding return_stash
    perform (arrived b) c = process_block b c
    perform (pushed b) c = (check_and_push_new_block crypto sql b c).1
    perform (turned answer now elapsed) c = (run_current_turn answer now elapsed c).1
    perform grown c = (return_stash c).1
    perform (queried req is_leader) c = (query_chain req is_leader c).1
    perform (answered resp) c = (add_response resp c).1
    perform (acked ack) c = (verify_and_push_acked_query crypto ack c).1
    perform (changed_peers peers) c = record c { rt = update_peers peers c.rt }
    perform (billing_moved h) c = record c { rt = set_last_billing_height h c.rt }

    unfoldable pub perform_all : List Event → Chain Db → Chain Db
    unfolding perform
    perform_all [] c = c
    perform_all (e ∷ es) c = perform_all es (perform e c)
