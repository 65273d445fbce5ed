-- ===== src/UrlChain/Chain/Pruned.antt =====
-- urlchain/chain.go: pruneBlockCache keeps a chain linked.
use go_crawling_bazaar.Base.{
  ℕ, ◌-◌, ◌%◌, ◌≡◌, Option, none, some, nat_key, arith, inl, inr, ◌⊎◌, Option-cases, if◌then◌else◌,
  true, false, ltb,
}
use go_crawling_bazaar.GoMap
use go_crawling_bazaar.GoMap.{GoMap, IsMap, get-delete, delete-IsMap, get-empty, empty-IsMap}
use go_crawling_bazaar.GoMap.Totals.{len-delete}
use go_crawling_bazaar.Word.{u32_mod, sub32}
use go_crawling_bazaar.UrlChain.Block.{Block}
use go_crawling_bazaar.UrlChain.BlockIndex.{BlockNode, root, child, info, clear, Cache}
use go_crawling_bazaar.UrlChain.Chain.{Chain}
use go_crawling_bazaar.UrlChain.Chain.Fetches.{prune_rounds, prune_from, prune_block_cache}
use go_crawling_bazaar.UrlChain.Chain.Linked.{IsLinked}

-- What is left of a cache, and its counter.
record Left (cache cache' : Cache) (count : ℕ) : Type 0 where
  keyed : IsMap cache'
  counted : count ≡ GoMap.len cache' % u32_mod
  kept : (p : ℕ) (b : Block) → GoMap.get cache' p ≡ some b → GoMap.get cache p ≡ some b

all_Left :
    (cache : Cache) (count : ℕ)
    → IsMap cache
    → count ≡ GoMap.len cache % u32_mod
    → Left cache cache count
all_Left cache count w c = record { keyed = w; counted = c; kept = λ p b e. e }

clear-Left :
    (n : BlockNode) (cache : Cache) (count : ℕ)
    → IsMap cache
    → count ≡ GoMap.len cache % u32_mod
    → (((clear n cache).0 ≡ true) × Left cache (clear n cache).1 (sub32 count 1))
      ⊎ ((clear n cache).0 ≡ false)
unfolding clear
clear-Left n cache count w c = elim (Option-cases (GoMap.get cache (info n).pointer)) [
  | inl e ↦ inr (ground (arith, e))
  | inr (b, e) ↦
      let p = (info n).pointer in
      inl (
        ground (arith, e),
        rw (e, clear)
            (record {
              keyed = delete-IsMap cache p w;
              counted = ground (arith, c, e, len-delete cache p w);
              kept = λ k x f. ground (arith, f, get-delete cache p k);
            }),
      )
]

prune_rounds-Left :
    (n : BlockNode) (cache : Cache) (count : ℕ)
    → IsMap cache
    → count ≡ GoMap.len cache % u32_mod
    → let r = prune_rounds n (cache, count) in Left cache r.0 r.1
unfolding prune_rounds
prune_rounds-Left (root d) cache count w c = elim (clear-Left (root d) cache count w c) [
  | inl (e, l) ↦ rw e l
  | inr e ↦ rw e (all_Left cache count w c)
]
prune_rounds-Left (child p d) cache count w c = elim (clear-Left (child p d) cache count w c) [
  | inl (e, l) ↦
      let rest =
        prune_rounds-Left p (clear (child p d) cache).1 (sub32 count 1) l.keyed l.counted in
      rw e (record {
        keyed = rest.keyed;
        counted = rest.counted;
        kept = λ k b f. l.kept k b (rest.kept k b f);
      })
  | inr e ↦ rw e (all_Left cache count w c)
]

module _ {Db : Type 0} where
  -- A chain with fewer cached blocks.
  fewer-IsLinked :
      (c : Chain Db) (n : BlockNode) (cache : Cache) (count : ℕ)
      → Left c.cache cache count
      → IsLinked c n
      → IsLinked (record c { cache = cache; cached_block_count = count }) n
  fewer-IsLinked c n cache count l v = record {
    at_head = v.at_head;
    hashed = v.hashed;
    high = v.high;
    numbered = v.numbered;
    stored = v.stored;
    older = v.older;
    loaded = λ a b i e. v.loaded a b i (l.kept (info a).pointer b e);
    cached = record {
      keyed = l.keyed;
      made = λ p b e. v.cached.made p b (l.kept p b e);
      counted = l.counted;
    };
  }

  pub prune_block_cache-IsLinked :
      (c : Chain Db) (n : BlockNode) → IsLinked c n → IsLinked (prune_block_cache c) n
  unfolding prune_block_cache
  prune_block_cache-IsLinked c n v =
      let lowest = c.rt.next_turn - c.rt.block_cache_ttl in
      let last = if ltb c.rt.last_billing_height lowest then c.rt.last_billing_height else lowest in
      let from : Option BlockNode =
        if ltb c.rt.next_turn c.rt.block_cache_ttl
        then none
        else elim c.rt.head.node [ none ↦ none | some m ↦ prune_from last m ] in
      prune_at-IsLinked from
    where
      prune_at-IsLinked :
          (from : Option BlockNode)
          → IsLinked
              (elim from as (λ _. Chain Db) [
                | none ↦ c
                | some m ↦
                    let (cache, count) = prune_rounds m (c.cache, c.cached_block_count) in
                    record c { cache = cache; cached_block_count = count }
              ])
              n
      prune_at-IsLinked none = v
      prune_at-IsLinked (some m) =
          fewer-IsLinked c n _ _
            (prune_rounds-Left m c.cache c.cached_block_count v.cached.keyed v.cached.counted) v
