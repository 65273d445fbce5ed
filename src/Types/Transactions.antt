-- ===== src/Types/Transactions.antt =====
-- The transactions of the main chain: transfer.go, baseaccount.go, provideservice.go,
-- create_domain.go, updatepermission.go, issuekeys.go and updatebilling.go. `signee` is the public
-- key beside the signature, nil where there is none.
use go_crawling_bazaar.Base.{Bool, true, false, ℕ, String, List, Option}
use go_crawling_bazaar.Types.{Account, ResourceMeta}
use go_crawling_bazaar.Types.Permission.{UserPermission}

pub record Transfer : Type 0 where
  pub sender : ℕ
  pub receiver : ℕ
  pub nonce : ℕ
  pub amount : ℕ
  pub token_type : ℕ
  pub signee : Option ℕ

pub record ProvideService : Type 0 where
  pub space : ℕ
  pub memory : ℕ
  pub load_avg_per_cpu : ℕ
  pub target_user : List ℕ
  pub gas_price : ℕ
  pub token_type : ℕ
  pub node_id : List ℕ
  pub nonce : ℕ
  pub signee : Option ℕ

pub record CreateDomain : Type 0 where
  pub owner : ℕ
  pub resource_meta : ResourceMeta
  pub gas_price : ℕ
  pub advance_payment : ℕ
  pub token_type : ℕ
  pub nonce : ℕ
  pub timestamp : ℕ
  pub signee : Option ℕ

pub record UpdatePermission : Type 0 where
  pub target_sql_chain : ℕ
  pub target_user : ℕ
  pub permission : Option UserPermission
  pub nonce : ℕ
  pub signee : Option ℕ

pub record MinerKey : Type 0 where
  pub miner : ℕ
  pub encryption_key : String

pub record IssueKeys : Type 0 where
  pub target_sql_chain : ℕ
  pub miner_keys : List MinerKey
  pub nonce : ℕ
  pub signee : Option ℕ

pub record MinerIncome : Type 0 where
  pub miner : ℕ
  pub income : ℕ

pub record UserCost : Type 0 where
  pub user : ℕ
  pub cost : ℕ
  pub miners : List MinerIncome

-- Range{From, To}
pub record UpdateBilling : Type 0 where
  pub receiver : ℕ
  pub nonce : ℕ
  pub users : List UserCost
  pub range_from : ℕ
  pub range_to : ℕ
  pub version : ℕ
  pub signee : Option ℕ

-- `wrapper` is a TransactionWrapper; `other` stands for the types that the main chain does not apply.
pub data Transaction : Type 0 where
  transfer : Transfer → Transaction
  base_account : Account → Transaction
  provide_service : ProvideService → Transaction
  create_domain : CreateDomain → Transaction
  update_permission : UpdatePermission → Transaction
  issue_keys : IssueKeys → Transaction
  update_billing : UpdateBilling → Transaction
  wrapper : Transaction → Transaction
  other : Transaction

-- The transaction, or the one in the wrapper, is a BaseAccount. The ledger that applies it may store a
-- pointer to the account inside the transaction's own object and change the account there; here an
-- account is a value.
unfoldable pub shares_account : Transaction → Bool
shares_account (base_account a) = true
shares_account (wrapper t) = shares_account t
shares_account (transfer t) = false
shares_account (provide_service t) = false
shares_account (create_domain t) = false
shares_account (update_permission t) = false
shares_account (issue_keys t) = false
shares_account (update_billing t) = false
shares_account other = false
