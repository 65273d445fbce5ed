-- ===== src/UrlChain/Block.antt =====
-- types/block.go: the blocks of a domain's chain. Hashes, keys and addresses are numbers, the hash of
-- zeros is 0, and a block stands for what has been packed: `data_hash` is the hash beside the
-- signature.
use Prim.Native.Char.{Char, code}
use go_crawling_bazaar.Base.{
  ◌+◌, none, some, ℕ, Bool, true, List, [], ◌∷◌, ◌++◌, map, String, string_key, nat_key, ◌==◌, ltb,
  length, not, if◌then◌else◌,
}
use go_crawling_bazaar.Word.{add64}
use go_crawling_bazaar.Hash.{decode}
use go_crawling_bazaar.Exec.{Outcome, ok, err, panic}
use go_crawling_bazaar.Types.Queries.{write_query, Request, Ack}
use go_crawling_bazaar.State.Execution.{QueryAsTx}
use go_crawling_bazaar.Merkle.{new_merkle, get_root}
use go_crawling_bazaar.UrlChain.AckIndex as AckIndex
use go_crawling_bazaar.State.Execution as Execution

-- The errors of chain.go and of types/block.go, wrapped or not.
pub data Error : Type 0 where
  parent_not_found invalid_block unknown_producer invalid_producer query_expired : Error
  merkle_root_verification invalid_genesis signature_failed : Error
  storage_failed block_not_found no_genesis context_done address_failed : Error
  index_error : AckIndex.Error → Error
  state_error : Execution.Error → Error

pub record Block : Type 0 where
  pub producer : String
  pub genesis_hash : ℕ
  pub parent_hash : ℕ
  pub merkle_root : ℕ
  pub timestamp : ℕ
  pub data_hash : ℕ
  pub signee : ℕ
  pub failed_reqs : List Request
  pub query_txs : List QueryAsTx
  pub acks : List Ack

-- Package crypto, and whether a block can be encoded and put into the database.
pub record Crypto : Type 0 where
  pub merge : ℕ → ℕ → ℕ
  pub signature_valid : Block → Bool
  pub hash_valid : Block → Bool
  pub ack_valid : Ack → Bool
  pub storable : Block → Bool

-- IsEmpty of a node's id: no text, or a hash of zeros; a text that is no hash is a nil pointer.
unfoldable pub is_empty_id : String → Outcome Error Bool
unfolding decode
is_empty_id id =
    if id == "" then ok true else elim (decode id) [ none ↦ panic | some h ↦ ok (h == 0) ]

-- The number of bytes of a character in UTF-8.
abbrev char_size : Char → ℕ
char_size c =
    if ltb (code c) 128
    then 1
    else if ltb (code c) 2048
    then 2
    else if ltb (code c) 65536
    then 3
    else 4

-- len of a text
unfoldable pub text_size : String → ℕ
text_size String.[] = 0
text_size (String.◌∷◌ c s) = char_size c + text_size s

-- CalcNextID: the id, and whether there is a write.
unfoldable pub calc_next_id : List QueryAsTx → ℕ × Bool → ℕ × Bool
calc_next_id [] r = r
calc_next_id (v ∷ vs) (id, found) = calc_next_id vs (elim v.request.query_type [
  | write_query ↦
      let nid = add64 v.response.log_offset (length v.request.queries) in
      (if ltb id nid then nid else id, true)
  | _ ↦ (id, found)
])

module _ (crypto : Crypto) where
  -- computeMerkleRoot
  unfoldable pub compute_merkle_root : Block → ℕ
  unfolding new_merkle get_root
  compute_merkle_root b = get_root crypto.merge (
      new_merkle crypto.merge (
        map (λ r. r.header_hash) b.failed_reqs
        ++ (map (λ q. q.response.hash) b.query_txs ++ map (λ a. a.hash) b.acks)))

  -- Verify
  unfoldable pub verify : Block → Outcome Error (Unit {0})
  verify b =
      if not (compute_merkle_root b == b.merkle_root)
      then err merkle_root_verification
      else if crypto.signature_valid b
      then ok tt
      else err signature_failed

  -- VerifyAsGenesis
  unfoldable pub verify_as_genesis : Block → Outcome Error (Unit {0})
  unfolding is_empty_id
  verify_as_genesis b = elim (is_empty_id b.producer) [
    | panic ↦ panic
    | err e ↦ err e
    | ok empty ↦
        if not empty
        then err invalid_genesis
        else if not (b.genesis_hash == 0)
        then err invalid_genesis
        else if not (b.parent_hash == 0)
        then err invalid_genesis
        else if not (b.merkle_root == 0)
        then err invalid_genesis
        else if crypto.hash_valid b
        then ok tt
        else err signature_failed
  ]
