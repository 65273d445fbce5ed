-- ===== src/Types/Queries.antt =====
-- types/request_type.go, types/response_type.go and types/ack_type.go: the queries of a domain's
-- database, their responses and the acknowledgements. A value of a named argument is its text; an
-- int64 is its bit pattern.
use go_crawling_bazaar.Base.{
  ℕ, Bool, true, ◌&&◌, ◌≡◌, ◌↔◌, List, String, string_key, nat_key, Key, ◌==◌, arith,
}

-- QueryType; `invalid` is any other int32.
pub data QueryType : Type 0 where
  read_query write_query invalid : QueryType

pub record Query : Type 0 where
  pub pattern : String
  pub args : List (String × String)

pub record QueryKey : Type 0 where
  pub node_id : String
  pub connection_id : ℕ
  pub seq_no : ℕ

unfoldable pub same_query : QueryKey → QueryKey → Bool
same_query k j =
    k.node_id == j.node_id && (k.connection_id == j.connection_id && k.seq_no == j.seq_no)

pub same_query_iff : (k j : QueryKey) → (same_query k j ≡ true) ↔ (k ≡ j)
unfolding same_query
same_query_iff k j = ground (arith, string_key.same_iff k.node_id j.node_id)

instance abbrev pub query_key : Key QueryKey
query_key = record { same = same_query; same_iff = same_query_iff }

-- Request, with the fields that are read of its header.
pub record Request : Type 0 where
  pub header_hash : ℕ
  pub query_type : QueryType
  pub key : QueryKey
  pub timestamp : ℕ
  pub signee : ℕ
  pub queries : List Query

-- SignedResponseHeader: `key` and `request_timestamp` are the request's, `hash` the response's.
pub record Response : Type 0 where
  pub key : QueryKey
  pub hash : ℕ
  pub request_timestamp : ℕ
  pub log_offset : ℕ
  pub row_count : ℕ
  pub affected_rows : ℕ
  pub response_account : ℕ

-- SignedAckHeader, with what it holds of the response's header.
pub record Ack : Type 0 where
  pub key : QueryKey
  pub response_hash : ℕ
  pub hash : ℕ
  pub request_timestamp : ℕ
  pub response_timestamp : ℕ
