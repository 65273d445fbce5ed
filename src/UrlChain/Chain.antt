-- ===== src/UrlChain/Chain.antt =====
-- urlchain/chain.go: the chain of the queries of a domain. What the database of blocks stores is a map
-- by index keys; the entries that are only written to the database of queries, the network and the
-- metrics are left out.
pub mod Start
pub mod Fetches
pub mod Turns
pub mod Linked
pub mod Grown
pub mod Pruned
pub mod Kept
pub mod Steps
pub mod Runs
pub mod Refused
pub mod Bills
pub mod Charged
pub mod Balanced
use go_crawling_bazaar.Base.{
  ℕ, suc, ◌+◌, ◌-◌, ◌%◌, Bool, true, false, ◌&&◌, ◌||◌, Option, none, some, List, [], ◌∷◌, ◌++◌,
  String, string_key, nat_key, ◌==◌, ltb, leb, not, length, if◌then◌else◌,
}
use go_crawling_bazaar.GoMap
use go_crawling_bazaar.GoMap.{GoMap}
use go_crawling_bazaar.Word.{u32_mod, add32, sub32}
use go_crawling_bazaar.Exec.{Outcome, ok, err, panic, Exec}
use go_crawling_bazaar.Types.Queries.{Request, Response, Ack}
use go_crawling_bazaar.State.Pool.{QueryTracker}
use go_crawling_bazaar.State.Storage.{Engine}
use go_crawling_bazaar.State.Execution.{State, QueryAsTx, set_seq, commit_ex}
use go_crawling_bazaar.State.Execution.Replay.{replay_block}
use go_crawling_bazaar.Presbyterian.Chain.Peers.{find}
use go_crawling_bazaar.UrlChain.AckIndex as AckIndex
use go_crawling_bazaar.UrlChain.AckIndex.{AckIndex, new_ack_index}
use go_crawling_bazaar.UrlChain.Block.{
  Error, parent_not_found, invalid_block, unknown_producer, invalid_producer, query_expired,
  storage_failed, block_not_found, no_genesis, context_done, index_error, state_error,
  signature_failed, Block, Crypto, verify, verify_as_genesis, calc_next_id, text_size,
}
use go_crawling_bazaar.UrlChain.BlockIndex.{
  BlockNode, info, parent, new_block_node, new_block_node_ex, load, clear, ancestor,
  ancestor_by_count, IndexKey, index_key, index_key_key, BlockIndex, add_block, lookup_node, Cache,
}
use go_crawling_bazaar.UrlChain.Runtime.{
  Head, Runtime, Config, new_runtime, set_genesis, set_head, get_height_from_time,
  get_min_valid_height, query_time_is_expired, inc_next_turn, is_my_turn,
}

-- Chain, with the databases and what its nodes cache. `pointers` is the number of nodes made so far.
pub record Chain (Db : Type 0) : Type 0 where
  pub bi : BlockIndex
  pub ai : AckIndex
  pub st : State Db
  pub rt : Runtime
  pub blocks_db : GoMap IndexKey Block
  pub cache : Cache
  pub pointers : ℕ
  pub cached_block_count : ℕ
  pub stash : List Block

abbrev pub Action : Type 0 → Type 0 → Type 0
Action Db = Exec Error (Chain Db)

module _ {Db : Type 0} where
  -- A method of the ack index, whose error is passed on.
  abbrev pub indexed : Exec AckIndex.Error AckIndex (Unit {0}) → Action Db (Unit {0})
  indexed f c =
      let (r, ai) = f c.ai in
      (elim r [ ok _ ↦ ok tt | err e ↦ err (index_error e) | panic ↦ panic ], record c { ai = ai })

  -- AddResponse
  unfoldable pub add_response : Response → Action Db (Unit {0})
  unfolding get_height_from_time
  add_response resp c =
      indexed (AckIndex.add_response (get_height_from_time c.rt resp.request_timestamp) resp) c

  -- register
  unfoldable pub register : Ack → Action Db (Unit {0})
  unfolding get_height_from_time
  register ack c =
      indexed (AckIndex.register (get_height_from_time c.rt ack.request_timestamp) ack) c

  -- remove
  unfoldable pub remove : Ack → Action Db (Unit {0})
  unfolding get_height_from_time
  remove ack c = indexed (AckIndex.remove (get_height_from_time c.rt ack.request_timestamp) ack) c

  -- The loop of pushBlock over the queries, whose errors are logged only.
  unfoldable pub add_responses : List QueryAsTx → Chain Db → Chain Db
  unfolding add_response
  add_responses [] c = c
  add_responses (v ∷ vs) c = add_responses vs (add_response v.response c).1

  -- The loop of pushBlock over the acks.
  unfoldable pub remove_acks : List Ack → Chain Db → Chain Db
  unfolding remove
  remove_acks [] c = c
  remove_acks (v ∷ vs) c = remove_acks vs (remove v c).1

  -- What pushBlock has done before its loops: the block is stored, the node is the head.
  unfoldable pub set_block : Block → Chain Db → Chain Db
  unfolding get_height_from_time info index_key
  set_block b c =
      let node =
        new_block_node c.pointers (get_height_from_time c.rt b.timestamp) b c.rt.head.node in
      record c {
        rt =
            set_head
              (record { node = some node; hash = (info node).hash; height = (info node).height })
              c.rt;
        bi = add_block node c.bi;
        blocks_db = GoMap.put c.blocks_db (index_key node) b;
        cache = GoMap.put c.cache c.pointers b;
        pointers = c.pointers + 1;
        cached_block_count = add32 c.cached_block_count 1;
      }

  module _ (crypto : Crypto) where
    -- pushBlock; the log entry at its end takes the first 8 bytes of the producer.
    unfoldable pub push_block : Block → Action Db (Unit {0})
    unfolding set_block add_responses remove_acks text_size
    push_block b c =
        if crypto.storable b
        then (
          if ltb (text_size b.producer) 8 then panic else ok tt,
          remove_acks b.acks (add_responses b.query_txs (set_block b c)),
        )
        else (err storage_failed, c)

    -- genesis
    unfoldable pub genesis : Option Block → Action Db (Unit {0})
    genesis none c = (err no_genesis, c)
    genesis (some b) c = elim (verify_as_genesis crypto b) [
      | ok _ ↦ push_block b c
      | err e ↦ (err e, c)
      | panic ↦ (panic, c)
    ]

    -- VerifyAndPushAckedQuery, with pushAckedQuery.
    unfoldable pub verify_and_push_acked_query : Ack → Action Db (Unit {0})
    unfolding register query_time_is_expired
    verify_and_push_acked_query ack c =
        if query_time_is_expired c.rt ack.response_timestamp
        then (err query_expired, c)
        else if not (crypto.ack_valid ack)
        then (err signature_failed, c)
        else register ack c

    module _ (sql : Engine Db) where
      -- The state's ReplayBlockWithContext on a block.
      abbrev pub replayed : Block → Action Db (Unit {0})
      replayed b c =
          let (r, st) = replay_block sql b.failed_reqs b.query_txs c.st in
          (
            elim r [ ok _ ↦ ok tt | err e ↦ err (state_error e) | panic ↦ panic ],
            record c { st = st },
          )

      -- CheckAndPushNewBlock
      unfoldable pub check_and_push_new_block : Block → Action Db (Unit {0})
      check_and_push_new_block b c =
          let height = get_height_from_time c.rt b.timestamp in
          let total = length c.rt.peers.servers in
          let (r, c') = replayed b c in
          if c.rt.head.height == height && c.rt.head.hash == b.data_hash
          then (ok tt, c)
          else if not (b.parent_hash == c.rt.head.hash)
          then (err invalid_block, c)
          else elim (verify crypto b) [
            | err e ↦ (err e, c)
            | panic ↦ (panic, c)
            | ok _ ↦
                if b.producer == c.rt.server
                then push_block b c
                else elim (find c.rt.peers b.producer) [
                  | none ↦ (err unknown_producer, c)
                  | some index ↦
                      if not (index == (c.rt.next_turn - 1) % total)
                      then (err invalid_producer, c)
                      else elim r [
                        | ok _ ↦ push_block b c'
                        | err e ↦ (err e, c')
                        | panic ↦ (panic, c')
                      ]
                ]
          ]
