-- ===== src/Tests/Domain.antt =====
-- The theorems on the chain of a domain, at a chain with a genesis block and one more.
use go_crawling_bazaar.Base.{
  ℕ, ◌+◌, ◌<◌, ◌≤◌, ◌≡◌, ◌≢◌, refl, true, none, some, Option, List, [], ◌∷◌, ◌⊎◌, arith,
}
use go_crawling_bazaar.GoMap.{empty, range, get, lookup, put, without}
use go_crawling_bazaar.Exec.{ok, err}
use go_crawling_bazaar.Types.Queries.{Response}
use go_crawling_bazaar.State.Pool.{QueryTracker, enqueue}
use go_crawling_bazaar.State.Execution.{write, new_state, commit_ex}
use go_crawling_bazaar.UrlChain.AckIndex.{acks, new_ack_index}
use go_crawling_bazaar.Hash.{count, decode, parse_hex, hex_value, to_string, hex_digits, hex_digit}
use go_crawling_bazaar.UrlChain.Block.{
  Block, Crypto, verify_as_genesis, text_size, compute_merkle_root, invalid_block,
  merkle_root_verification,
}
use go_crawling_bazaar.UrlChain.BlockIndex.{BlockNode, info, new_block_node_ex}
use go_crawling_bazaar.UrlChain.Runtime.{Config, get_height_from_time}
use go_crawling_bazaar.UrlChain.Chain.{Chain, genesis, push_block, check_and_push_new_block}
use go_crawling_bazaar.UrlChain.Chain.Start.{new_chain}
use go_crawling_bazaar.UrlChain.Chain.Fetches.{fetch_block_by_count}
use go_crawling_bazaar.UrlChain.Chain.Turns.{
  Event, pushed, turned, queried, perform_all, produce_block, new_block, answer_all,
}
use go_crawling_bazaar.UrlChain.Chain.Linked.{Ancestor, IsLinked}
use go_crawling_bazaar.UrlChain.Chain.Runs.{perform_all-IsLinked, fetch_block_by_count_lem}
use go_crawling_bazaar.UrlChain.Chain.Refused.{produce_block-refused}
use go_crawling_bazaar.Tests.Replicas.{engine, one, database, answer_at}

abbrev crypto : Crypto
crypto = record {
  merge = λ a b. a + b + 1;
  signature_valid = λ _. true;
  hash_valid = λ _. true;
  ack_valid = λ _. true;
  storable = λ _. true;
}

abbrev genesis_block : Block
genesis_block = record {
  producer = to_string 0;
  genesis_hash = 0;
  parent_hash = 0;
  merkle_root = 0;
  timestamp = 10;
  data_hash = 5;
  signee = 0;
  failed_reqs = [];
  query_txs = [];
  acks = [];
}

abbrev pub block : Block
block = record genesis_block { producer = "n"; parent_hash = 5; timestamp = 20; data_hash = 6 }

abbrev pub config : Config
config = record {
  genesis = some genesis_block;
  period = 10;
  tick = 1;
  peers = record { leader = "n"; servers = "n" ∷ [] };
  server = "n";
  query_ttl = 3;
  block_cache_ttl = 0;
  last_billing_height = 0;
}

abbrev pub signed : Response
signed = record (answer_at 0 1) { hash = 3 }

abbrev answer : QueryTracker → Option Response
answer _ = some signed

abbrev events : List (Event crypto engine)
events = turned answer 15 0 ∷ queried one true ∷ pushed block ∷ turned answer 25 0 ∷ []

valid_genesis : verify_as_genesis crypto genesis_block ≡ ok tt
unfolding verify_as_genesis decode count parse_hex hex_value to_string hex_digits hex_digit
valid_genesis = refl

long_producer : 8 ≤ text_size genesis_block.producer
unfolding text_size to_string hex_digits hex_digit
long_producer = omega arith

-- The chain after the events, and its head.
abbrev chain : Chain ℕ
chain = perform_all crypto engine events (new_chain crypto config database [] empty).1

chain-IsLinked : (n : BlockNode) × IsLinked chain n
chain-IsLinked =
    (perform_all-IsLinked crypto engine config database genesis_block events refl valid_genesis refl
      long_producer).1

fetch_block_by_count_lem_example :
    let n = chain-IsLinked.0 in
    ((k : ℕ)
      → k ≤ (info n).count
      → (a : BlockNode) × (b : Block) × Ancestor a n
        × ((info a).count ≡ k)
        × (b.data_hash ≡ (info a).hash)
        × (fetch_block_by_count (some k) chain ≡ ok (some b, k, (info a).height)))
    × ((k : ℕ) → (info n).count < k → fetch_block_by_count (some k) chain ≡ ok (none, 0, 0))
    × ((b : Block) × (b.data_hash ≡ (info n).hash)
        × (fetch_block_by_count none chain ≡ ok (some b, (info n).count, (info n).height)))
fetch_block_by_count_lem_example = fetch_block_by_count_lem chain chain-IsLinked.0 chain-IsLinked.1

-- A chain that has executed a query, and the block that it sends.
abbrev busy : Chain ℕ
busy = record (new_chain crypto config database [] empty).1 {
  st = (write engine one true database).1;
}

abbrev sent : Block
sent = new_block busy 25 [] (record { request = one; response = signed } ∷ []) []

is_sent : (produce_block answer 25 busy).0 ≡ ok (some sent)
unfolding produce_block new_chain write new_state commit_ex range enqueue empty answer_all acks
    get_height_from_time genesis verify_as_genesis decode count parse_hex hex_value to_string
    hex_digits hex_digit push_block new_ack_index get lookup put without
is_sent = refl

rooted : compute_merkle_root crypto sent ≢ 0
unfolding compute_merkle_root new_block
rooted = λ e. ground (arith, e)

headed : busy.rt.head.hash ≢ 0
unfolding new_chain genesis verify_as_genesis decode count parse_hex hex_value to_string hex_digits
    hex_digit push_block new_block_node_ex info
headed = λ e. ground (arith, e)

produce_block-refused_example :
    let r = check_and_push_new_block crypto engine sent busy in
    ((r.0 ≡ err invalid_block) ⊎ (r.0 ≡ err merkle_root_verification)) × (r.1 ≡ busy)
produce_block-refused_example =
    produce_block-refused crypto engine answer 25 busy busy sent is_sent rooted headed
