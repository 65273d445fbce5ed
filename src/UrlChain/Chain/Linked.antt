-- ===== src/UrlChain/Chain/Linked.antt =====
-- urlchain/chain.go: the blocks behind the head of a chain are stored.
use go_crawling_bazaar.Base.{
  ℕ, ◌+◌, ◌%◌, ◌<◌, ◌≡◌, refl, none, some, List, [], ◌∷◌, nat_key, arith, inl, inr, sym, ◌∙◌, subst,
  ap, Option-cases,
}
use go_crawling_bazaar.GoMap
use go_crawling_bazaar.GoMap.{GoMap, IsMap, get-put, get-delete, put-IsMap, delete-IsMap}
use go_crawling_bazaar.GoMap.Totals.{len-put}
use go_crawling_bazaar.Word.{u32_mod, add32}
use go_crawling_bazaar.Types.Queries.{Response, Ack}
use go_crawling_bazaar.State.Execution.{QueryAsTx}
use go_crawling_bazaar.UrlChain.Block.{Block}
use go_crawling_bazaar.UrlChain.BlockIndex.{
  NodeInfo, BlockNode, root, child, info, index_key, index_key_key, same_key_iff, Cache,
}
use go_crawling_bazaar.UrlChain.Runtime.{Head, get_height_from_time, set_head}
use go_crawling_bazaar.UrlChain.Chain.{Chain, add_response, add_responses, remove, remove_acks}

-- The counts run up from 0 at the root.
abbrev pub IsCounted : BlockNode → Type 0
IsCounted (root d) = d.count ≡ 0
IsCounted (child p d) = (d.count ≡ (info p).count + 1) × IsCounted p

-- The node itself and everything behind it.
pub data Ancestor : BlockNode → BlockNode → Type 0 where
  itself : {n : BlockNode} → Ancestor n n
  behind : {a p : BlockNode} {d : NodeInfo} → Ancestor a p → Ancestor a (child p d)

-- The stored block of a node, which has its hash and lies at its height.
abbrev pub Stored : {Db : Type 0} → Chain Db → BlockNode → Type 0
Stored c a =
    (b : Block) × (GoMap.get c.blocks_db (index_key a) ≡ some b)
    × (b.data_hash ≡ (info a).hash)
    × (get_height_from_time c.rt b.timestamp ≡ (info a).height)

-- What is cached is what has been made, and its number is counted.
pub record IsCached {Db : Type 0} (c : Chain Db) : Type 0 where
  pub keyed : IsMap c.cache
  pub made : (p : ℕ) (b : Block) → GoMap.get c.cache p ≡ some b → p < c.pointers
  pub counted : c.cached_block_count ≡ GoMap.len c.cache % u32_mod

-- A chain whose head is `n`.
pub record IsLinked {Db : Type 0} (c : Chain Db) (n : BlockNode) : Type 0 where
  pub at_head : c.rt.head.node ≡ some n
  pub hashed : c.rt.head.hash ≡ (info n).hash
  pub high : c.rt.head.height ≡ (info n).height
  pub numbered : IsCounted n
  pub stored : (a : BlockNode) → Ancestor a n → Stored c a
  pub older : (a : BlockNode) → Ancestor a n → (info a).pointer < c.pointers
  pub loaded :
      (a : BlockNode) (b : Block)
      → Ancestor a n
      → GoMap.get c.cache (info a).pointer ≡ some b
      → b.data_hash ≡ (info a).hash
  pub cached : IsCached c

module _ {Db : Type 0} where
  -- What the steps leave that push and prune nothing.
  pub record Keeps (c c' : Chain Db) : Type 0 where
    pub head : c'.rt.head ≡ c.rt.head
    pub clock : (t : ℕ) → get_height_from_time c'.rt t ≡ get_height_from_time c.rt t
    pub blocks : c'.blocks_db ≡ c.blocks_db
    pub cache : c'.cache ≡ c.cache
    pub pointers : c'.pointers ≡ c.pointers
    pub count : c'.cached_block_count ≡ c.cached_block_count

  pub Keeps-trans : (a b c : Chain Db) → Keeps a b → Keeps b c → Keeps a c
  Keeps-trans a b c v w = record {
    head = w.head ∙ v.head;
    clock = λ t. w.clock t ∙ v.clock t;
    blocks = w.blocks ∙ v.blocks;
    cache = w.cache ∙ v.cache;
    pointers = w.pointers ∙ v.pointers;
    count = w.count ∙ v.count;
  }

  pub Keeps-IsLinked : (c c' : Chain Db) (n : BlockNode) → Keeps c c' → IsLinked c n → IsLinked c' n
  Keeps-IsLinked c c' n k v = record {
    at_head = ap (λ (h : Head). h.node) k.head ∙ v.at_head;
    hashed = ap (λ (h : Head). h.hash) k.head ∙ v.hashed;
    high = ap (λ (h : Head). h.height) k.head ∙ v.high;
    numbered = v.numbered;
    stored = λ a i.
        let (b, at, hash, height) = v.stored a i in
        (b, ap (λ m. GoMap.get m (index_key a)) k.blocks ∙ at, hash, k.clock b.timestamp ∙ height);
    older = λ a i. subst (λ (x : ℕ). (info a).pointer < x) (sym k.pointers) (v.older a i);
    loaded = λ a b i e.
        v.loaded a b i (ap (λ (m : Cache). GoMap.get m (info a).pointer) (sym k.cache) ∙ e);
    cached = record {
      keyed = subst (λ (m : Cache). IsMap m) (sym k.cache) v.cached.keyed;
      made = λ p b e.
          subst (λ (x : ℕ). p < x) (sym k.pointers)
            (v.cached.made p b (ap (λ (m : Cache). GoMap.get m p) (sym k.cache) ∙ e));
      counted =
          k.count ∙ v.cached.counted ∙ ap (λ (m : Cache). GoMap.len m % u32_mod) (sym k.cache);
    };
  }

  Keeps-itself : (c : Chain Db) → Keeps c c
  Keeps-itself c = record {
    head = refl;
    clock = λ t. refl;
    blocks = refl;
    cache = refl;
    pointers = refl;
    count = refl;
  }

  pub add_response-Keeps : (r : Response) (c : Chain Db) → Keeps c (add_response r c).1
  unfolding add_response
  add_response-Keeps r c = record {
    head = refl;
    clock = λ t. refl;
    blocks = refl;
    cache = refl;
    pointers = refl;
    count = refl;
  }

  add_responses-Keeps : (vs : List QueryAsTx) (c : Chain Db) → Keeps c (add_responses vs c)
  unfolding add_responses
  add_responses-Keeps [] c = Keeps-itself c
  add_responses-Keeps (v ∷ vs) c =
      Keeps-trans c (add_response v.response c).1 (add_responses vs (add_response v.response c).1)
        (add_response-Keeps v.response c) (add_responses-Keeps vs (add_response v.response c).1)

  remove-Keeps : (a : Ack) (c : Chain Db) → Keeps c (remove a c).1
  unfolding remove
  remove-Keeps a c = record {
    head = refl;
    clock = λ t. refl;
    blocks = refl;
    cache = refl;
    pointers = refl;
    count = refl;
  }

  remove_acks-Keeps : (vs : List Ack) (c : Chain Db) → Keeps c (remove_acks vs c)
  unfolding remove_acks
  remove_acks-Keeps [] c = Keeps-itself c
  remove_acks-Keeps (a ∷ vs) c =
      Keeps-trans c (remove a c).1 (remove_acks vs (remove a c).1) (remove-Keeps a c)
        (remove_acks-Keeps vs (remove a c).1)

  -- The loops of pushBlock over the queries and the acks.
  pub loops-Keeps :
      (b : Block) (c : Chain Db) → Keeps c (remove_acks b.acks (add_responses b.query_txs c))
  loops-Keeps b c =
      Keeps-trans c (add_responses b.query_txs c) (remove_acks b.acks (add_responses b.query_txs c))
        (add_responses-Keeps b.query_txs c) (remove_acks-Keeps b.acks (add_responses b.query_txs c))

  -- set_block with the new node.
  abbrev pub with_head : BlockNode → Block → Chain Db → Chain Db
  with_head m b c = record c {
    rt = set_head (record { node = some m; hash = (info m).hash; height = (info m).height }) c.rt;
    bi = GoMap.put c.bi (info m).hash m;
    blocks_db = GoMap.put c.blocks_db (index_key m) b;
    cache = GoMap.put c.cache c.pointers b;
    pointers = c.pointers + 1;
    cached_block_count = add32 c.cached_block_count 1;
  }

  module _ (c : Chain Db) (m : BlockNode) (b : Block) (w : IsCached c) where
    no_block : GoMap.get c.cache c.pointers ≡ none
    no_block = elim (Option-cases (GoMap.get c.cache c.pointers)) [
      | inl e ↦ e
      | inr (x, e) ↦ absurd (omega (arith, w.made c.pointers x e))
    ]

    pub with_head-IsCached : IsCached (with_head m b c)
    with_head-IsCached = record {
      keyed = put-IsMap c.cache c.pointers b w.keyed;
      made = λ p x e. ground (arith, e, get-put c.cache c.pointers p b, w.made p x);
      counted = ground (arith, w.counted, len-put c.cache c.pointers b w.keyed, no_block);
    }

    module _ (hash : (info m).hash ≡ b.data_hash)
        (height : (info m).height ≡ get_height_from_time c.rt b.timestamp)
        (new : (info m).pointer ≡ c.pointers) where
      -- The new node has its block, and an old one keeps a block with its hash and height.
      pub new-Stored : Stored (with_head m b c) m
      unfolding get_height_from_time
      new-Stored = (
        b,
        ground (
          arith,
          get-put c.blocks_db (index_key m) (index_key m) b,
          same_key_iff (index_key m) (index_key m),
        ),
        sym hash,
        sym height,
      )
