-- ===== src/Presbyterian/Env.antt =====
-- What the main chain takes from outside: the errors that it names (presbyterian/errors.go), the
-- settings of conf.GConf, and, as parameters, the hash functions, the encoders and the
-- floating-point operations.
use go_crawling_bazaar.Base.{ℕ, Bool, List, Option, none, some, String}
use go_crawling_bazaar.Exec.{Outcome, ok, err}
use go_crawling_bazaar.Types.Transactions.{Transaction}

pub data Error : Type 0 where
  existed_tx parent_not_match parent_not_found no_available_branch local_node_not_found : Error
  genesis_hash_not_match nil_genesis : Error
  too_many_transactions_in_block : Error
  balance_overflow insufficient_balance insufficient_transfer : Error
  account_not_found account_exists : Error
  database_not_found database_exists database_user_exists : Error
  unknown_transaction_type invalid_sender invalid_range : Error
  no_such_miner no_enough_miner miner_user_not_match : Error
  account_permission_deny no_super_user_left : Error
  insufficient_advance_payment invalid_gas_price invalid_miner_count wrong_token_type : Error
  -- Errors that the source makes on the spot.
  domain_not_exist nil_public_key gas_price_mismatch load_average_mismatch memory_mismatch : Error
  disk_space_mismatch token_type_mismatch invalid_hash_text encoding_failed invalid_signature :
      Error
  -- errors.Wrap of an error that is not nil.
  wrapped : Error → Error

-- err == ErrDatabaseNotFound
pub is_database_not_found : Error → Bool
is_database_not_found database_not_found = Bool.true
is_database_not_found _ = Bool.false

-- IEEE 754 doubles as bit patterns.
pub record FloatOps : Type 0 where
  pub greater : ℕ → ℕ → Bool
  pub of_uint64 : ℕ → ℕ
  pub to_uint64 : ℕ → ℕ
  pub mul : ℕ → ℕ → ℕ
  pub div : ℕ → ℕ → ℕ

-- The fields of conf.GConf that the ledger reads.
pub record Config : Type 0 where
  pub qps : ℕ
  pub billing_block_count : ℕ
  pub min_provider_deposit : ℕ

pub record Env : Type 0 where
  pub float : FloatOps
  pub config : Config
  -- PubKeyHash on a key that is not nil; `none` where the key cannot be encoded.
  pub hash_of_key : ℕ → Option ℕ
  -- THashH of a text.
  pub thash : String → ℕ
  -- PackAsGenesis and EncodeMsgPack of the genesis block with this timestamp.
  pub genesis_bytes : ℕ → Option (List ℕ)
  -- Hash and Verify of a signed transaction.
  pub signed_hash : Transaction → ℕ
  pub signature_valid : Transaction → Bool

module _ (env : Env) where
  -- crypto.PubKeyHash
  unfoldable pub pub_key_hash : Option ℕ → Outcome Error ℕ
  pub_key_hash none = err nil_public_key
  pub_key_hash (some k) = elim (env.hash_of_key k) [ none ↦ err encoding_failed | some a ↦ ok a ]

  -- GetAccountAddress of a transaction that only has a key: the zero address after an error.
  unfoldable pub signee_address : Option ℕ → ℕ
  unfolding pub_key_hash
  signee_address k = elim (pub_key_hash k) [ ok a ↦ a | _ ↦ 0 ]
