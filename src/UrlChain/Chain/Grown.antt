-- ===== src/UrlChain/Chain/Grown.antt =====
-- urlchain/chain.go: pushBlock keeps a chain linked.
use go_crawling_bazaar.Base.{
  ℕ, ◌+◌, ◌<◌, ◌≡◌, refl, Option, none, some, nat_key, arith, Bool-cases, inl, inr, ◌⊎◌, sym, ◌∙◌,
  subst, ap, true,
}
use go_crawling_bazaar.GoMap
use go_crawling_bazaar.GoMap.{GoMap, get-put}
use go_crawling_bazaar.UrlChain.Block.{Block, Crypto}
use go_crawling_bazaar.UrlChain.BlockIndex.{
  NodeInfo, BlockNode, root, child, info, new_block_node, new_block_node_ex, IndexKey, index_key,
  index_key_key, same_key, same_key_iff,
}
use go_crawling_bazaar.UrlChain.Runtime.{get_height_from_time}
use go_crawling_bazaar.UrlChain.Chain.{Chain, set_block, push_block}
use go_crawling_bazaar.UrlChain.Chain.Linked.{
  IsCounted, Ancestor, itself, behind, Stored, IsCached, IsLinked, with_head, with_head-IsCached,
  new-Stored, Keeps-IsLinked, loops-Keeps,
}

Ancestor-child :
    (a p : BlockNode) (d : NodeInfo) → Ancestor a (child p d) → (a ≡ child p d) ⊎ Ancestor a p
Ancestor-child a p d itself = inl refl
Ancestor-child a p d (behind i) = inr i

Ancestor-root : (a : BlockNode) (d : NodeInfo) → Ancestor a (root d) → a ≡ root d
Ancestor-root a d itself = refl

module _ {Db : Type 0} (c : Chain Db) (m : BlockNode) (b : Block) (w : IsCached c)
    (hash : (info m).hash ≡ b.data_hash)
    (height : (info m).height ≡ get_height_from_time c.rt b.timestamp)
    (new : (info m).pointer ≡ c.pointers) where
  -- An old node keeps a block with its hash and height.
  old-Stored : (a : BlockNode) → Stored c a → Stored (with_head m b c) a
  unfolding get_height_from_time index_key
  old-Stored a (x, at, h, t) =
      let put_at = get-put c.blocks_db (index_key m) (index_key a) b in
      elim (Bool-cases (same_key (index_key m) (index_key a))) [
        | inl s ↦
            let same = (same_key_iff (index_key m) (index_key a)).0 s in
            (
              b,
              ground (arith, put_at, s),
              sym hash ∙ ap (λ (k : IndexKey). k.hash) same,
              sym height ∙ ap (λ (k : IndexKey). k.height) same,
            )
        | inr o ↦ (x, ground (arith, put_at, o, at), h, t)
      ]

  older_cached :
      (p : ℕ) (x : Block)
      → p < c.pointers
      → GoMap.get (with_head m b c).cache p ≡ some x
      → GoMap.get c.cache p ≡ some x
  older_cached p x l e = ground (arith, e, get-put c.cache c.pointers p b)

  new_cached :
      (x : Block)
      → GoMap.get (with_head m b c).cache (info m).pointer ≡ some x
      → x.data_hash ≡ (info m).hash
  new_cached x e = ground (arith, e, new, hash, get-put c.cache c.pointers (info m).pointer b)

  module _ (numbered : IsCounted m)
      (before : (a : BlockNode)
        → Ancestor a m
        → (a ≡ m)
          ⊎ (Stored c a
              × ((info a).pointer < c.pointers)
              × ((x : Block)
                  → GoMap.get c.cache (info a).pointer ≡ some x
                  → x.data_hash ≡ (info a).hash))) where
    with_head-IsLinked : IsLinked (with_head m b c) m
    with_head-IsLinked = record {
      at_head = refl;
      hashed = refl;
      high = refl;
      numbered = numbered;
      stored = λ a i. elim (before a i) [
        | inl e ↦
            subst (λ x. Stored (with_head m b c) x) (sym e) (new-Stored c m b w hash height new)
        | inr (s, l, k) ↦ old-Stored a s
      ];
      older = λ a i. elim (before a i) [
        | inl e ↦ subst (λ x. (info x).pointer < c.pointers + 1) (sym e) (omega (arith, new))
        | inr (s, l, k) ↦ omega (arith, l)
      ];
      loaded = λ a x i e. elim (before a i) [
        | inl s ↦
            new_cached x (
              ap (λ (y : BlockNode). GoMap.get (with_head m b c).cache (info y).pointer) (sym s)
              ∙ e)
            ∙ ap (λ (y : BlockNode). (info y).hash) (sym s)
        | inr (s, l, k) ↦ k x (older_cached (info a).pointer x l e)
      ];
      cached = with_head-IsCached c m b w;
    }

module _ {Db : Type 0} where
  -- The head's node after set_block.
  abbrev pub next_node : Block → Option BlockNode → Chain Db → BlockNode
  next_node b n c = new_block_node c.pointers (get_height_from_time c.rt b.timestamp) b n

  set_block-with_head :
      (b : Block) (n : Option BlockNode) (c : Chain Db)
      → c.rt.head.node ≡ n
      → set_block b c ≡ with_head (next_node b n c) b c
  unfolding set_block
  set_block-with_head b n c e = ap (λ x. with_head (next_node b x c) b c) e

  set_block-IsLinked :
      (b : Block) (c : Chain Db) (n : BlockNode)
      → IsLinked c n
      → IsLinked (set_block b c) (next_node b (some n) c)
  unfolding new_block_node_ex info
  set_block-IsLinked b c n v =
      let m = next_node b (some n) c in
      let before : (a : BlockNode)
          → Ancestor a m
          → (a ≡ m)
            ⊎ (Stored c a
                × ((info a).pointer < c.pointers)
                × ((x : Block)
                    → GoMap.get c.cache (info a).pointer ≡ some x
                    → x.data_hash ≡ (info a).hash)) =
        λ a i. elim (Ancestor-child a n (info m) i) [
          | inl e ↦ inl e
          | inr j ↦ inr (v.stored a j, v.older a j, λ x. v.loaded a x j)
        ] in
      rw (set_block-with_head b (some n) c v.at_head)
        (with_head-IsLinked c m b v.cached refl refl refl (refl, v.numbered) before)

  first_block-IsLinked :
      (b : Block) (c : Chain Db)
      → c.rt.head.node ≡ none
      → IsCached c
      → IsLinked (set_block b c) (next_node b none c)
  unfolding new_block_node_ex info
  first_block-IsLinked b c e w = rw (set_block-with_head b none c e) (
      with_head-IsLinked c (next_node b none c) b w refl refl refl refl
        (λ a i. inl (Ancestor-root a (info (next_node b none c)) i)))

  module _ (crypto : Crypto) where
    -- Whatever pushBlock does, some node is the head of a linked chain.
    pub push_block-IsLinked :
        (b : Block) (c : Chain Db) (n : BlockNode)
        → IsLinked c n
        → (m : BlockNode) × IsLinked (push_block crypto b c).1 m
    unfolding push_block
    push_block-IsLinked b c n v = elim (Bool-cases (crypto.storable b)) [
      | inl e ↦
          let m = next_node b (some n) c in
          (
            m,
            rw e (
                Keeps-IsLinked (set_block b c) _ m (loops-Keeps b (set_block b c))
                  (set_block-IsLinked b c n v)),
          )
      | inr e ↦ (n, rw e v)
    ]

    pub first_push-IsLinked :
        (b : Block) (c : Chain Db)
        → crypto.storable b ≡ true
        → c.rt.head.node ≡ none
        → IsCached c
        → IsLinked (push_block crypto b c).1 (next_node b none c)
    unfolding push_block
    first_push-IsLinked b c e empty w = rw e (
        Keeps-IsLinked (set_block b c) _ (next_node b none c) (loops-Keeps b (set_block b c))
          (first_block-IsLinked b c empty w))
