-- ===== src/Types.antt =====
-- The data of package types: token.go, account.go, init_service_type.go. Addresses are hashes
-- (Hash.antt), a `float64` is its bit pattern, and a pointer that may be nil is an `Option`.
pub mod Transactions
pub mod Permission
pub mod Queries
use go_crawling_bazaar.Base.{ℕ, String, Bool, List, [], Option, if◌then◌else◌, nat_beq}
use go_crawling_bazaar.Word.{in_range32}
use Permission.{UserPermission}

-- TokenType is an int32.
abbrev pub particle : ℕ
particle = 0

abbrev pub wave : ℕ
wave = 1

abbrev pub support_token_number : ℕ
support_token_number = 5

-- Listed
abbrev pub listed : ℕ → Bool
listed t = in_range32 t support_token_number

-- [SupportTokenNumber]uint64, read at an index below 5; every access tests the index first.
abbrev pub TokenBalance : Type 0
TokenBalance = ℕ → ℕ

-- b[t] = v
abbrev pub set_balance : TokenBalance → ℕ → ℕ → TokenBalance
set_balance b t v = λ u. if nat_beq t u then v else b u

pub record Account : Type 0 where
  pub address : ℕ
  pub token_balance : TokenBalance
  pub rating : ℕ
  pub next_nonce : ℕ

-- &types.Account{Address: a}
abbrev pub empty_account : ℕ → Account
empty_account a = record { address = a; token_balance = λ t. 0; rating = 0; next_nonce = 0 }

pub data Status : Type 0 where
  unknown_status normal reminder arrears arbitration : Status

-- EnableQuery
unfoldable pub enable_query : Status → Bool
enable_query Status.normal = Bool.true
enable_query Status.reminder = Bool.true
enable_query _ = Bool.false

pub record SqlChainUser : Type 0 where
  pub address : ℕ
  pub permission : Option UserPermission
  pub advance_payment : ℕ
  pub arrears : ℕ
  pub deposit : ℕ
  pub status : Status

pub record UserArrears : Type 0 where
  pub user : ℕ
  pub arrears : ℕ

pub record MinerInfo : Type 0 where
  pub address : ℕ
  pub node_id : List ℕ
  pub name : String
  pub pending_income : ℕ
  pub received_income : ℕ
  pub user_arrears : List UserArrears
  pub deposit : ℕ
  pub status : Status
  pub encryption_key : String

pub record ResourceMeta : Type 0 where
  pub target_miners : List ℕ
  pub node : ℕ
  pub domain : String
  pub space : ℕ
  pub memory : ℕ
  pub load_avg_per_cpu : ℕ
  pub encryption_key : String
  pub use_eventual_consistency : Bool
  pub consistency_level : ℕ
  pub isolation_level : ℕ

pub record SqlChainProfile : Type 0 where
  pub id : String
  pub address : ℕ
  pub period : ℕ
  pub gas_price : ℕ
  pub last_updated_height : ℕ
  pub token_type : ℕ
  pub owner : ℕ
  pub miners : List MinerInfo
  pub users : List SqlChainUser
  pub encoded_genesis : List ℕ
  pub meta : ResourceMeta

pub record ProviderProfile : Type 0 where
  pub provider : ℕ
  pub space : ℕ
  pub memory : ℕ
  pub load_avg_per_cpu : ℕ
  pub target_user : List ℕ
  pub deposit : ℕ
  pub gas_price : ℕ
  pub token_type : ℕ
  pub node_id : List ℕ
