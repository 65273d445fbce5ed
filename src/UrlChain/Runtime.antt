-- ===== src/UrlChain/Runtime.antt =====
-- urlchain/runtime.go: the clock, the turns, the peers and the head of a domain's chain. A time is a
-- number of nanoseconds and is not before the genesis by a period or more, so a height is not
-- negative; heights and counts fit an int32.
use go_crawling_bazaar.Base.{
  ℕ, ◌+◌, ◌-◌, ◌*◌, ◌/◌, ◌%◌, Bool, false, Option, none, some, [], String, nat_key, ◌==◌, ltb,
  length, if◌then◌else◌,
}
use go_crawling_bazaar.Word.{sub32, less32}
use go_crawling_bazaar.Presbyterian.Chain.Clock.{Wait, due, later, until}
use go_crawling_bazaar.Presbyterian.Chain.Peers.{Peers, find}
use go_crawling_bazaar.UrlChain.Block.{Block}
use go_crawling_bazaar.UrlChain.BlockIndex.{BlockNode}

-- state
pub record Head : Type 0 where
  pub node : Option BlockNode
  pub hash : ℕ
  pub height : ℕ

-- runtime; `index` is none where it is -1.
pub record Runtime : Type 0 where
  pub chain_init_time : ℕ
  pub genesis_hash : ℕ
  pub period : ℕ
  pub tick : ℕ
  pub query_ttl : ℕ
  pub block_cache_ttl : ℕ
  pub peers : Peers
  pub server : String
  pub index : Option ℕ
  pub total : ℕ
  pub next_turn : ℕ
  pub head : Head
  pub last_billing_height : ℕ

-- The fields of a Config that newRunTime reads; a TTL of blocks below 0 is 0.
pub record Config : Type 0 where
  pub genesis : Option Block
  pub period : ℕ
  pub tick : ℕ
  pub peers : Peers
  pub server : String
  pub query_ttl : ℕ
  pub block_cache_ttl : ℕ
  pub last_billing_height : ℕ

-- setGenesis
unfoldable pub set_genesis : Block → Runtime → Runtime
set_genesis b r = record r {
  chain_init_time = b.timestamp;
  genesis_hash = b.data_hash;
  head = record { node = none; hash = b.genesis_hash; height = 0 };
}

-- newRunTime
unfoldable pub new_runtime : Config → Runtime
unfolding set_genesis find
new_runtime c =
    let r : Runtime = record {
      chain_init_time = 0;
      genesis_hash = 0;
      period = c.period;
      tick = c.tick;
      query_ttl = c.query_ttl;
      block_cache_ttl = c.block_cache_ttl;
      peers = c.peers;
      server = c.server;
      index = find c.peers c.server;
      total = length c.peers.servers;
      next_turn = 1;
      head = record { node = none; hash = 0; height = 0 };
      last_billing_height = c.last_billing_height;
    } in
    elim c.genesis [ none ↦ r | some b ↦ set_genesis b r ]

-- getMinValidHeight, an int32 that may be negative.
unfoldable pub get_min_valid_height : Runtime → ℕ
get_min_valid_height r = sub32 r.next_turn r.query_ttl

-- getHeightFromTime
unfoldable pub get_height_from_time : Runtime → ℕ → ℕ
get_height_from_time r t = (t - r.chain_init_time) / r.period

-- queryTimeIsExpired
unfoldable pub query_time_is_expired : Runtime → ℕ → Bool
unfolding get_height_from_time get_min_valid_height
query_time_is_expired r t = less32 (get_height_from_time r t) (get_min_valid_height r)

-- IncNextTurn
abbrev pub inc_next_turn : Runtime → Runtime
inc_next_turn r = record r { next_turn = r.next_turn + 1 }

-- SetNextTurn
abbrev pub set_next_turn : ℕ → Runtime → Runtime
set_next_turn turn r = record r { next_turn = turn }

-- nextTick, at the reading `now` of the clock.
unfoldable pub next_tick : Runtime → ℕ → Wait
unfolding until
next_tick r now = elim (until (r.chain_init_time + r.next_turn * r.period) now) [
  | due elapsed ↦ due elapsed
  | later d ↦ later (if ltb r.tick d then r.tick else d)
]

-- updatePeers
unfoldable pub update_peers : Peers → Runtime → Runtime
update_peers peers r = elim (find peers r.server) [
  | some index ↦ record r { index = some index; total = length peers.servers; peers = peers }
  | none ↦ record r { index = none; total = 0; peers = record r.peers { servers = [] } }
]

-- isMyTurn
unfoldable pub is_my_turn : Runtime → Bool
is_my_turn r =
    if r.total == 0
    then false
    else elim r.index [ none ↦ false | some index ↦ r.next_turn % r.total == index ]

-- setLastBillingHeight
abbrev pub set_last_billing_height : ℕ → Runtime → Runtime
set_last_billing_height h r = record r { last_billing_height = h }

-- setHead
abbrev pub set_head : Head → Runtime → Runtime
set_head h r = record r { head = h }
