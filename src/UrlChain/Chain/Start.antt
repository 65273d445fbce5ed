-- ===== src/UrlChain/Chain/Start.antt =====
-- urlchain/chain.go: NewChain, which reloads the stored blocks or stores the genesis block.
use go_crawling_bazaar.Base.{
  ℕ, ◌+◌, false, ◌&&◌, Option, none, some, List, [], ◌∷◌, string_key, nat_key, ◌==◌, ltb,
  if◌then◌else◌,
}
use go_crawling_bazaar.GoMap
use go_crawling_bazaar.GoMap.{GoMap}
use go_crawling_bazaar.Exec.{Outcome, ok, err, panic}
use go_crawling_bazaar.State.Execution.{State, set_seq}
use go_crawling_bazaar.UrlChain.AckIndex.{new_ack_index}
use go_crawling_bazaar.UrlChain.Block.{
  Error, parent_not_found, Block, Crypto, verify, verify_as_genesis, calc_next_id,
}
use go_crawling_bazaar.UrlChain.BlockIndex.{
  BlockNode, info, new_block_node_ex, IndexKey, index_key_key, add_block, lookup_node,
}
use go_crawling_bazaar.UrlChain.Runtime.{
  Config, new_runtime, set_genesis, set_head, get_height_from_time,
}
use go_crawling_bazaar.UrlChain.Chain.{Chain, Action, genesis}

module _ {Db : Type 0} (crypto : Crypto) where
  -- The loop of NewChain over the stored blocks, in the order of their keys: the last node and the
  -- highest id of a query.
  unfoldable pub reload : List Block → Option BlockNode → ℕ → Action Db (Option BlockNode × ℕ)
  unfolding set_genesis
  reload [] last id c = (ok (last, id), c)
  reload (b ∷ bs) last id c =
      let (nid, found) = calc_next_id b.query_txs (0, false) in
      let id' = if found && ltb id nid then nid else id in
      let add = λ (p : Option BlockNode) (d : Chain Db).
        let node =
          new_block_node_ex d.pointers (get_height_from_time d.rt b.timestamp) b.data_hash p in
        reload bs (some node) id'
          (record d { bi = add_block node d.bi; pointers = d.pointers + 1 }) in
      elim last [
        | none ↦ elim (verify_as_genesis crypto b) [
          | err e ↦ (err e, c)
          | panic ↦ (panic, c)
          | ok _ ↦ add none (record c { rt = set_genesis b c.rt })
        ]
        | some n ↦
            if b.parent_hash == (info n).hash
            then elim (verify crypto b) [
              | err e ↦ (err e, c)
              | panic ↦ (panic, c)
              | ok _ ↦ add (some n) c
            ]
            else elim (lookup_node b.parent_hash c.bi) [
              | none ↦ (err parent_not_found, c)
              | some p ↦ add (some p) c
            ]
      ]

  -- NewChain, on the state that NewState makes, and the database of blocks with its entries in the
  -- order of their keys.
  unfoldable pub new_chain :
      Config → State Db → List Block → GoMap IndexKey Block → Outcome Error Unit × Chain Db
  unfolding reload new_runtime
  new_chain cfg st stored db =
      let c : Chain Db = record {
        bi = GoMap.empty;
        ai = new_ack_index;
        st = st;
        rt = new_runtime cfg;
        blocks_db = db;
        cache = GoMap.empty;
        pointers = 0;
        cached_block_count = 0;
        stash = [];
      } in
      let (r, c') = reload stored none 0 c in
      elim r [
        | err e ↦ (err e, c')
        | panic ↦ (panic, c')
        | ok (none, _) ↦ genesis crypto cfg.genesis c'
        | ok (some n, id) ↦ (
          ok tt,
          record c' {
            rt =
                set_head (record { node = some n; hash = (info n).hash; height = (info n).height })
                  c'.rt;
            st = set_seq id c'.st;
          },
        )
      ]
