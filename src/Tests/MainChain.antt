-- ===== src/Tests/MainChain.antt =====
-- The main chain's theorems at a sample chain.
use go_crawling_bazaar.Base.{
  ℕ, ◌≡◌, ◌↔◌, ◌≤◌, ◌<◌, ◌+◌, ◌%◌, ◌^◌, refl, arith, subst, sym, true, false, some, none, List,
  nat_key, string_key, [], ◌∷◌, ltb→lt, leb→le, All, String, get_elem?,
}
use go_crawling_bazaar.GoMap.{get, put, delete, empty, range, lookup, without}
use go_crawling_bazaar.Exec.{ok, err}
use go_crawling_bazaar.Word.{u32_mod}
use go_crawling_bazaar.Types.Transactions.{Transaction, update_permission, shares_account}
use go_crawling_bazaar.Types.Permission.{has_super_permission}
use go_crawling_bazaar.Hash.{to_string, hex_digits, hex_digit}
use go_crawling_bazaar.Presbyterian.MetaState.Permissions.{permit, scan_users, set_permission}
use go_crawling_bazaar.Presbyterian.MetaState.Permissions as Permissions
use go_crawling_bazaar.Presbyterian.Env.{existed_tx, pub_key_hash}
use go_crawling_bazaar.Presbyterian.MetaState.{
  require_domain, load_sql_chain_object, load_or_store_account_object, find_or_stored, clean,
  commit, make_copy,
}
use go_crawling_bazaar.Presbyterian.MetaState.Tokens.{store_base_account, next_nonce}
use go_crawling_bazaar.Presbyterian.MetaState.Apply.{
  apply, apply_transaction, compile_changes, account_change, domain_change, provider_change,
}
use go_crawling_bazaar.Presbyterian.BlockNode.{
  Block, BlockNode, child, with_count, info, fetch_node_list, fetch_rounds, parent,
  ancestor_by_count, seek_count, last_irreversible, back_to, has_ancestor,
}
use go_crawling_bazaar.Presbyterian.BlockNode.Ancestry.{IsCounted}
use go_crawling_bazaar.Presbyterian.Branch.{
  Branch, new_branch, apply_nodes, apply_node, pack_all, pack, check_in_pool, refuse_packed,
  tx_hash, verify, account_address,
}
use go_crawling_bazaar.Presbyterian.Chain.{Chain, Database, slot, store, run_all}
use go_crawling_bazaar.Presbyterian.Chain.Peers.{PresbyterianInfo, infos_from, follower}
use go_crawling_bazaar.Presbyterian.Chain.Clock.{
  Settings, pb_mode, due, next_tick, time_left, until, may_produce, is_my_turn, height_of_time,
  sync_rounds,
}
use go_crawling_bazaar.Presbyterian.Chain.Switch.{
  replace_and_switch_to_branch, confirm_and_switch, confirm_nodes, confirm_node, confirm_txs,
  expire, is_expired, switch_procedures, delete_irres, delete_expired, node_txs, store_switch,
}
use go_crawling_bazaar.Presbyterian.Chain.Start.{
  Loaded, new_chain, is_genesis, rebuild, select_head, need_confirms,
}
use go_crawling_bazaar.Presbyterian.Chain.Slots.{IsHeaded, Within}
use go_crawling_bazaar.Presbyterian.Chain.Irreversible.{
  IsRolledBack, IsConfirmed, SharesNothing, replace_and_switch_to_branch-error,
  replace_and_switch_to_branch-IsConfirmed, replace_and_switch_to_branch-backwards,
}
use go_crawling_bazaar.Presbyterian.Chain.Turns.{
  is_my_turn-infos_from, height_of_time-next_tick, sync_rounds_lem,
}
use go_crawling_bazaar.Presbyterian.Chain.Runs.{
  Event, tx_request, block_received, Run, handle, new_chain-Run,
}
use go_crawling_bazaar.Tests.Sample.{
  env, permission_change, ledger, branch, first_node, second_node, second_block, sign_up,
}

abbrev database : Database
database = record { begin = none; run = λ _. none; commits = true }

abbrev closed_database : Database
closed_database = record { begin = some existed_tx; run = λ _. none; commits = true }

abbrev before : Chain
before = record {
  confirms = 0;
  next_height = 2;
  last_irre = first_node;
  immutable = ledger;
  head_index = 0;
  head_branch = slot 0;
  branches = branch ∷ [];
  tx_pool = put empty 0 sign_up;
  disk = [];
}

-- The head has been loaded with more confirmations than the last irreversible block has had.
abbrev reloaded : Chain
reloaded = record before { confirms = 5; last_irre = second_node }

-- A block that changes a permission.
abbrev change : Transaction
change = update_permission permission_change

abbrev change_block : Block
change_block = record second_block { transactions = change ∷ [] }

abbrev change_node : BlockNode
change_node = child first_node (with_count 2 change_block 1)

abbrev grown : Branch
grown = record {
  head = change_node;
  preview = (apply env change 2 (clean ledger)).1;
  packed = put empty 0 change;
  unpacked = delete (put empty 0 sign_up) 0;
}

confirms_change : SharesNothing grown before
unfolding last_irreversible back_to fetch_node_list fetch_rounds info parent node_txs shares_account
confirms_change irre irres e f =
    let is_irre : change_node ≡ irre = ground (arith, e) in
    let fetched : fetch_node_list 1 change_node ≡ some irres =
      subst (λ n. fetch_node_list 1 n ≡ some irres) (sym is_irre) f in
    let one : change_node ∷ [] ≡ irres = ground (arith, fetched) in
    subst (All (λ n. All (λ t. shares_account t ≡ false) (node_txs n))) one ((refl, tt), tt)

switched : (replace_and_switch_to_branch env database 2 change_block 0 grown before).0 ≡ ok tt
unfolding replace_and_switch_to_branch confirm_and_switch confirm_nodes confirm_node confirm_txs
    expire is_expired switch_procedures delete_irres delete_expired node_txs store_switch store
    run_all compile_changes account_change domain_change provider_change last_irreversible back_to
    fetch_node_list fetch_rounds parent info apply_transaction Permissions.update_permission permit
    scan_users set_permission require_domain to_string hex_digits hex_digit load_sql_chain_object
    pub_key_hash has_super_permission next_nonce account_address tx_hash get put delete empty range
    lookup without
switched = refl

replace_and_switch_to_branch-IsConfirmed_example :
    IsConfirmed env grown before
      (replace_and_switch_to_branch env database 2 change_block 0 grown before).1
replace_and_switch_to_branch-IsConfirmed_example =
    replace_and_switch_to_branch-IsConfirmed env database 2 change_block 0 grown before
      confirms_change switched

refused :
    (replace_and_switch_to_branch env closed_database 2 change_block 0 grown before).0
    ≡ err existed_tx
unfolding replace_and_switch_to_branch confirm_and_switch confirm_nodes confirm_node confirm_txs
    expire is_expired store_switch store run_all last_irreversible back_to fetch_node_list
    fetch_rounds parent info apply_transaction Permissions.update_permission permit scan_users
    set_permission require_domain to_string hex_digits hex_digit load_sql_chain_object pub_key_hash
    has_super_permission next_nonce account_address tx_hash get put delete empty range lookup
    without
refused = refl

replace_and_switch_to_branch-error_example :
    IsRolledBack before
      (replace_and_switch_to_branch env closed_database 2 change_block 0 grown before).1
replace_and_switch_to_branch-error_example =
    replace_and_switch_to_branch-error env closed_database 2 change_block 0 grown before existed_tx
      confirms_change refused

counted : IsCounted change_node
unfolding IsCounted info
counted = (refl, refl)

went_back : (replace_and_switch_to_branch env database 2 change_block 0 grown reloaded).0 ≡ ok tt
unfolding replace_and_switch_to_branch confirm_and_switch confirm_nodes confirm_node confirm_txs
    expire is_expired switch_procedures delete_irres delete_expired node_txs store_switch store
    run_all compile_changes account_change domain_change provider_change last_irreversible back_to
    fetch_node_list fetch_rounds parent info next_nonce account_address tx_hash get put delete empty
    range lookup without
went_back = refl

replace_and_switch_to_branch-backwards_example :
    let c' = (replace_and_switch_to_branch env database 2 change_block 0 grown reloaded).1 in
    ((info c'.last_irre).count < (info reloaded.last_irre).count)
    × (c'.immutable ≡ commit reloaded.immutable)
unfolding info
replace_and_switch_to_branch-backwards_example =
    replace_and_switch_to_branch-backwards env database 2 change_block 0 grown reloaded counted
      (ltb→lt 2 u32_mod refl) (ltb→lt 0 1 refl) (ltb→lt 1 6 refl) went_back

abbrev loaded : Loaded
loaded = record {
  last_irre = first_node;
  heads = first_node ∷ second_node ∷ [];
  immutable = ledger;
  tx_pool = empty;
  disk = [];
}

abbrev short_branch : Branch
short_branch = record {
  head = first_node;
  preview = commit (make_copy ledger);
  packed = empty;
  unpacked = empty;
}

abbrev long_branch : Branch
long_branch = record {
  head = second_node;
  preview = commit (apply env sign_up 2 (make_copy ledger)).1;
  packed = put empty 0 sign_up;
  unpacked = empty;
}

abbrev opened : Chain
opened = record {
  confirms = 1;
  next_height = 3;
  last_irre = first_node;
  immutable = ledger;
  head_index = 1;
  head_branch = slot 1;
  branches = short_branch ∷ long_branch ∷ [];
  tx_pool = empty;
  disk = [];
}

opens : new_chain env 20 2 1 loaded ≡ ok opened
unfolding new_chain is_genesis rebuild select_head need_confirms ancestor_by_count seek_count
    has_ancestor new_branch apply_nodes apply_node pack_all pack check_in_pool refuse_packed verify
    fetch_node_list fetch_rounds parent info apply_transaction Permissions.update_permission permit
    scan_users set_permission require_domain to_string hex_digits hex_digit store_base_account
    load_or_store_account_object find_or_stored tx_hash get put delete empty lookup without
opens = refl

counted_heads : All IsCounted loaded.heads
unfolding IsCounted info
counted_heads = (refl, (counted, tt))

abbrev me : PresbyterianInfo
me = record { rank = 1; total = 3; role = follower; node_id = "b" }

abbrev settings : Settings
settings = record {
  mode = pb_mode;
  address = 1;
  genesis_time = 1000;
  period = 10;
  tick = 2;
  local_pb_info = me;
}

abbrev request : Event
request = tx_request database 1 sign_up

abbrev third_block : Block
third_block = record {
  data_hash = 22;
  parent_hash = 21;
  producer = 1;
  timestamp = 1030;
  transactions = [];
}

abbrev arrival : Event
arrival = block_received (λ _. none) database third_block

roomy : All (λ b. (info b.head).count + 2 < u32_mod) opened.branches
unfolding info
roomy = (ltb→lt 2 u32_mod refl, (ltb→lt 3 u32_mod refl, tt))

new_chain-Run_example :
    (s : IsHeaded opened) × Within
      (info s.head.head).count
      ((info s.head.head).count + 2)
      (handle env settings arrival (handle env settings request opened))
new_chain-Run_example =
    new_chain-Run env settings 20 2 1 loaded opened
      (handle env settings arrival (handle env settings request opened)) 2 counted_heads opens
      (Run.next (Run.next Run.start request) arrival) roomy

abbrev names : List String
names = "a" ∷ "b" ∷ "c" ∷ []

second_of : get_elem? (infos_from "a" 3 0 names) 1 ≡ some me
unfolding infos_from
second_of = refl

is_my_turn-infos_from_example : (is_my_turn me 7 ≡ ok true) ↔ (7 % 3 ≡ 1)
is_my_turn-infos_from_example =
    is_my_turn-infos_from "a" names 1 7 me (ltb→lt 3 u32_mod refl) second_of

ticked : next_tick settings 4 1043 ≡ due 3
unfolding next_tick time_left until
ticked = refl

allowed : may_produce settings 4 3 ≡ ok true
unfolding may_produce is_my_turn
allowed = refl

height_of_time-next_tick_example : height_of_time settings 1043 ≡ ok 4
height_of_time-next_tick_example =
    height_of_time-next_tick settings 4 1043 3 ticked allowed (ltb→lt 0 2 refl)
      (ltb→lt 4 u32_mod refl) (ltb→lt 40 (2 ^ 63) refl)

sync_rounds_lem_example : (last : ℕ) × (sync_rounds 4 5 3 ≡ some last) × (5 < last) × (3 ≤ last)
sync_rounds_lem_example = sync_rounds_lem 3 5 3 (ltb→lt 6 u32_mod refl) (leb→le 6 6 refl)
