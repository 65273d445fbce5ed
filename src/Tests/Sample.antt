-- ===== src/Tests/Sample.antt =====
-- A small ledger and a short chain.
use go_crawling_bazaar.Base.{ℕ, ◌*◌, ◌/◌, true, some, none, [], ◌∷◌, ltb, nat_key, string_key}
use go_crawling_bazaar.GoMap
use go_crawling_bazaar.Hash.{to_string}
use go_crawling_bazaar.Types.{
  Account, SqlChainUser, SqlChainProfile, MinerInfo, normal, empty_account, set_balance,
}
use go_crawling_bazaar.Types.Permission.{user_permission_from_role, admin_role}
use go_crawling_bazaar.Types.Transactions.{
  Transfer, UpdateBilling, UpdatePermission, IssueKeys, Transaction, base_account,
}
use go_crawling_bazaar.Presbyterian.Env.{Env}
use go_crawling_bazaar.Presbyterian.MetaState.{MetaState, put_account, put_domain}
use go_crawling_bazaar.Presbyterian.MetaState.Users.{new_profile, new_user}
use go_crawling_bazaar.Presbyterian.MetaState.Valid.Histories.{new_meta_state}
use go_crawling_bazaar.Presbyterian.BlockNode.{Block, BlockNode, root, child, with_count}
use go_crawling_bazaar.Presbyterian.Branch.{Branch}

-- Each key is its own address, and the floating-point operations are those of whole numbers.
abbrev pub env : Env
env = record {
  float = record {
    greater = λ a b. ltb b a;
    of_uint64 = λ a. a;
    to_uint64 = λ a. a;
    mul = λ a b. a * b;
    div = λ a b. a / b;
  };
  config = record { qps = 1; billing_block_count = 1; min_provider_deposit = 1 };
  hash_of_key = λ k. some k;
  thash = λ t. 7;
  genesis_bytes = λ t. some [];
  signed_hash = λ t. 5;
  signature_valid = λ t. true;
}

abbrev pub rich : ℕ → ℕ → Account
rich a n = record (empty_account a) { token_balance = set_balance (λ t. 0) 0 n }

abbrev pub admin : SqlChainUser
admin = record (new_user 1 (some (user_permission_from_role admin_role))) {
  advance_payment = 50;
  status = normal;
}

abbrev pub miner : MinerInfo
miner = record {
  address = 3;
  node_id = [];
  name = "";
  pending_income = 4;
  received_income = 0;
  user_arrears = [];
  deposit = 0;
  status = normal;
  encryption_key = "";
}

abbrev pub profile : SqlChainProfile
profile = record (new_profile 1 (to_string 9)) {
  gas_price = 2;
  users = admin ∷ [];
  miners = miner ∷ [];
}

-- Two accounts and a domain.
abbrev pub ledger : MetaState
ledger =
    put_domain (to_string 9) (some profile)
      (put_account 2 (some (rich 2 5)) (put_account 1 (some (rich 1 100)) new_meta_state))

abbrev pub payment : Transfer
payment = record {
  sender = 1;
  receiver = 2;
  nonce = 0;
  amount = 30;
  token_type = 0;
  signee = some 1;
}

abbrev pub billing : UpdateBilling
billing = record {
  receiver = 9;
  nonce = 0;
  users = record { user = 1; cost = 10; miners = record { miner = 3; income = 10 } ∷ [] } ∷ [];
  range_from = 0;
  range_to = 8;
  version = 1;
  signee = some 3;
}

abbrev pub permission_change : UpdatePermission
permission_change = record {
  target_sql_chain = 9;
  target_user = 4;
  permission = none;
  nonce = 0;
  signee = some 1;
}

abbrev pub keys : IssueKeys
keys = record {
  target_sql_chain = 9;
  miner_keys = record { miner = 3; encryption_key = "k" } ∷ [];
  nonce = 0;
  signee = some 1;
}

abbrev pub sign_up : Transaction
sign_up = base_account (rich 6 1)

abbrev pub first_block : Block
first_block = record {
  data_hash = 20;
  parent_hash = 0;
  producer = 1;
  timestamp = 0;
  transactions = [];
}

abbrev pub second_block : Block
second_block = record {
  data_hash = 21;
  parent_hash = 20;
  producer = 1;
  timestamp = 1;
  transactions = sign_up ∷ [];
}

abbrev pub first_node : BlockNode
first_node = root (with_count 1 first_block 0)

abbrev pub second_node : BlockNode
second_node = child first_node (with_count 2 second_block 1)

abbrev pub branch : Branch
branch = record {
  head = first_node;
  preview = ledger;
  packed = GoMap.empty;
  unpacked = GoMap.put GoMap.empty 0 sign_up;
}
