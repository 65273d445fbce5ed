-- ===== src/UrlChain/Chain/Refused.antt =====
-- urlchain/chain.go: what becomes of a block that produceBlock sends.
use go_crawling_bazaar.Base.{
  ℕ, ◌≡◌, ◌≢◌, false, not, Option, some, nat_key, ◌==◌, arith, Bool-cases, inl, inr, ◌⊎◌,
}
use go_crawling_bazaar.Exec.{ok, err}
use go_crawling_bazaar.Types.Queries.{Response}
use go_crawling_bazaar.State.Pool.{QueryTracker}
use go_crawling_bazaar.State.Storage.{Engine}
use go_crawling_bazaar.UrlChain.Block.{
  invalid_block, merkle_root_verification, Block, Crypto, compute_merkle_root, verify,
}
use go_crawling_bazaar.UrlChain.Chain.{Chain, check_and_push_new_block}
use go_crawling_bazaar.UrlChain.Chain.Turns.{produce_block, new_block}

verify-unsealed :
    (crypto : Crypto) (b : Block)
    → b.merkle_root ≡ 0
    → compute_merkle_root crypto b ≢ 0
    → verify crypto b ≡ err merkle_root_verification
unfolding verify
verify-unsealed crypto b e h = ground (arith, e, h)

module _ {Db : Type 0} where
  -- A block that is sent has no merkle root and no hash.
  produce_block-unsealed :
      (answer : QueryTracker → Option Response) (now : ℕ) (c : Chain Db) (b : Block)
      → (produce_block answer now c).0 ≡ ok (some b)
      → (b.merkle_root ≡ 0) × (b.data_hash ≡ 0)
  unfolding produce_block new_block
  produce_block-unsealed answer now c b e = ground (arith, e)

  -- No chain takes a block that produceBlock sends: where the merkle root of the block's contents is not
  -- the hash of zeros, and neither is the hash of the chain's head, CheckAndPushNewBlock returns
  -- ErrInvalidBlock or ErrMerkleRootVerification and leaves the chain as it was.
  pub produce_block-refused :
      (crypto : Crypto) (sql : Engine Db) (answer : QueryTracker → Option Response) (now : ℕ)
      (c d : Chain Db) (b : Block)
      → (produce_block answer now c).0 ≡ ok (some b)
      → compute_merkle_root crypto b ≢ 0
      → d.rt.head.hash ≢ 0
      → let r = check_and_push_new_block crypto sql b d in
        ((r.0 ≡ err invalid_block) ⊎ (r.0 ≡ err merkle_root_verification)) × (r.1 ≡ d)
  unfolding check_and_push_new_block
  produce_block-refused crypto sql answer now c d b e h k =
      let (root, hash) = produce_block-unsealed answer now c b e in
      let fails = verify-unsealed crypto b root h in
      let other : (d.rt.head.hash == b.data_hash) ≡ false = ground (arith, hash, k) in
      elim (Bool-cases (not (b.parent_hash == d.rt.head.hash))) [
        | inl f ↦ (inl (ground (arith, other, f)), ground (arith, other, f))
        | inr f ↦ (inr (ground (arith, other, f, fails)), ground (arith, other, f, fails))
      ]
