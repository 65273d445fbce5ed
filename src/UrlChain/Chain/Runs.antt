-- ===== src/UrlChain/Chain/Runs.antt =====
-- urlchain/chain.go: every run of a chain's steps from its genesis, and what its blocks are fetched by.
use go_crawling_bazaar.Base.{
  ℕ, ◌<◌, ◌≤◌, ◌≡◌, refl, true, none, some, List, [], ◌∷◌, nat_key, ltb, arith, Bool-cases, inl,
  inr, subst,
}
use go_crawling_bazaar.GoMap
use go_crawling_bazaar.GoMap.{empty, get-empty, empty-IsMap}
use go_crawling_bazaar.GoMap.Totals.{len-empty}
use go_crawling_bazaar.Exec.{ok}
use go_crawling_bazaar.State.Storage.{Engine}
use go_crawling_bazaar.State.Execution.{State}
use go_crawling_bazaar.UrlChain.AckIndex.{new_ack_index}
use go_crawling_bazaar.UrlChain.Block.{Block, Crypto, verify_as_genesis, text_size}
use go_crawling_bazaar.UrlChain.BlockIndex.{
  BlockNode, root, child, info, index_key, index_key_key, descend_count, ancestor_by_count,
}
use go_crawling_bazaar.UrlChain.Runtime.{Config, new_runtime, set_genesis}
use go_crawling_bazaar.UrlChain.Chain.{Chain, genesis, push_block}
use go_crawling_bazaar.UrlChain.Chain.Start.{new_chain}
use go_crawling_bazaar.UrlChain.Chain.Fetches.{fetch_block_by_count, fetch_block_by_index_key}
use go_crawling_bazaar.UrlChain.Chain.Turns.{Event, perform, perform_all}
use go_crawling_bazaar.UrlChain.Chain.Linked.{
  IsCounted, Ancestor, itself, behind, IsCached, IsLinked,
}
use go_crawling_bazaar.UrlChain.Chain.Grown.{first_push-IsLinked, next_node}
use go_crawling_bazaar.UrlChain.Chain.Steps.{HasHead, perform-HasHead}

perform_all-HasHead :
    {Db : Type 0} (crypto : Crypto) (sql : Engine Db) (es : List (Event crypto sql)) (c : Chain Db)
    → HasHead c
    → HasHead (perform_all crypto sql es c)
unfolding perform_all
perform_all-HasHead crypto sql [] c h = h
perform_all-HasHead crypto sql (e ∷ es) c h =
    perform_all-HasHead crypto sql es (perform crypto sql e c) (perform-HasHead crypto sql e c h)

module _ {Db : Type 0} (crypto : Crypto) (cfg : Config) (st : State Db) (b : Block)
    (g : cfg.genesis ≡ some b) (v : verify_as_genesis crypto b ≡ ok tt)
    (s : crypto.storable b ≡ true) (l : 8 ≤ text_size b.producer) where
  -- The chain before its genesis.
  abbrev bare : Chain Db
  bare = record {
    bi = empty;
    ai = new_ack_index;
    st = st;
    rt = new_runtime cfg;
    blocks_db = empty;
    cache = empty;
    pointers = 0;
    cached_block_count = 0;
    stash = [];
  }

  new_chain-push_block : new_chain crypto cfg st [] empty ≡ push_block crypto b bare
  unfolding new_chain genesis
  new_chain-push_block = rw (g, genesis, v) refl

  no_head : bare.rt.head.node ≡ none
  unfolding new_runtime set_genesis
  no_head = rw g refl

  bare-IsCached : IsCached bare
  bare-IsCached = record {
    keyed = empty-IsMap;
    made = λ p x e. absurd (ground (arith, e, get-empty {V = Block} p));
    counted = ground (arith, len-empty ℕ Block);
  }

  push_block-ok : (push_block crypto b bare).0 ≡ ok tt
  unfolding push_block
  push_block-ok = ground (arith, s, l)

  new_chain-HasHead : let r = new_chain crypto cfg st [] empty in (r.0 ≡ ok tt) × HasHead r.1
  new_chain-HasHead = rw new_chain-push_block (
    push_block-ok,
    (next_node b none bare, first_push-IsLinked crypto b bare s no_head bare-IsCached),
  )

pub perform_all-IsLinked :
    {Db : Type 0} (crypto : Crypto) (sql : Engine Db) (cfg : Config) (st : State Db) (b : Block)
    (es : List (Event crypto sql))
    → cfg.genesis ≡ some b
    → verify_as_genesis crypto b ≡ ok tt
    → crypto.storable b ≡ true
    → 8 ≤ text_size b.producer
    → let r = new_chain crypto cfg st [] empty in
      (r.0 ≡ ok tt) × ((n : BlockNode) × IsLinked (perform_all crypto sql es r.1) n)
perform_all-IsLinked crypto sql cfg st b es g v s l =
    let (fine, head) = new_chain-HasHead crypto cfg st b g v s l in
    (fine, perform_all-HasHead crypto sql es (new_chain crypto cfg st [] empty).1 head)

descend_count-found :
    (k : ℕ) (n : BlockNode)
    → IsCounted n
    → k ≤ (info n).count
    → (a : BlockNode) × Ancestor a n × ((info a).count ≡ k) × (descend_count k n ≡ some a)
unfolding descend_count info
descend_count-found k (root d) v l = (root d, itself, ground (arith, v), ground (arith, v))
descend_count-found k (child p d) v l = elim (Bool-cases (ltb k d.count)) [
  | inl e ↦
      let (a, i, c, f) = descend_count-found k p v.1 (ground (arith, v.0)) in
      (a, behind i, c, rw e f)
  | inr e ↦ (child p d, itself, ground arith, rw e refl)
]

ancestor_by_count-found :
    (k : ℕ) (n a : BlockNode)
    → k ≤ (info n).count
    → (info a).count ≡ k
    → descend_count k n ≡ some a
    → ancestor_by_count k n ≡ some a
unfolding ancestor_by_count
ancestor_by_count-found k n a l e f = ground (arith, f)

ancestor_by_count-above :
    (k : ℕ) (n : BlockNode) → (info n).count < k → ancestor_by_count k n ≡ none
unfolding ancestor_by_count
ancestor_by_count-above k n l = ground arith

module _ {Db : Type 0} (c : Chain Db) (n : BlockNode) (h : c.rt.head.node ≡ some n) where
  fetch_found :
      (k : ℕ) (a : BlockNode) (b : Block)
      → ancestor_by_count k n ≡ some a
      → GoMap.get c.blocks_db (index_key a) ≡ some b
      → fetch_block_by_count (some k) c ≡ ok (some b, (info a).count, (info a).height)
  unfolding fetch_block_by_count fetch_block_by_index_key
  fetch_found k a b e f = ground (arith, h, e, f)

  fetch_nothing :
      (k : ℕ) → ancestor_by_count k n ≡ none → fetch_block_by_count (some k) c ≡ ok (none, 0, 0)
  unfolding fetch_block_by_count
  fetch_nothing k e = ground (arith, h, e)

  fetch_head :
      (b : Block)
      → GoMap.get c.blocks_db (index_key n) ≡ some b
      → fetch_block_by_count none c ≡ ok (some b, (info n).count, (info n).height)
  unfolding fetch_block_by_count fetch_block_by_index_key
  fetch_head b f = ground (arith, h, f)

-- On a linked chain with the head `n`, FetchBlockByCount does not fail or panic. For a count up to the
-- head's it returns a block with the hash of a node with this count, the head or one behind it, and the
-- node's count and height; for a count below 0 the same for the head; for any other count nothing.
pub fetch_block_by_count_lem :
    {Db : Type 0} (c : Chain Db) (n : BlockNode)
    → IsLinked c n
    → ((k : ℕ)
        → k ≤ (info n).count
        → (a : BlockNode) × (b : Block) × Ancestor a n
          × ((info a).count ≡ k)
          × (b.data_hash ≡ (info a).hash)
          × (fetch_block_by_count (some k) c ≡ ok (some b, k, (info a).height)))
      × ((k : ℕ) → (info n).count < k → fetch_block_by_count (some k) c ≡ ok (none, 0, 0))
      × ((b : Block) × (b.data_hash ≡ (info n).hash)
          × (fetch_block_by_count none c ≡ ok (some b, (info n).count, (info n).height)))
fetch_block_by_count_lem c n v = (
  λ k l.
      let (a, i, e, f) = descend_count-found k n v.numbered l in
      let (b, at, hash, height) = v.stored a i in
      (
        a,
        b,
        i,
        e,
        hash,
        subst (λ (x : ℕ). fetch_block_by_count (some k) c ≡ ok (some b, x, (info a).height)) e
            (fetch_found c n v.at_head k a b (ancestor_by_count-found k n a l e f) at),
      ),
  λ k l. fetch_nothing c n v.at_head k (ancestor_by_count-above k n l),
  let (b, at, hash, height) = v.stored n itself in (b, hash, fetch_head c n v.at_head b at),
)
