-- ===== src/Tests/Ledger.antt =====
-- The ledger's theorems at the sample ledger.
use go_crawling_bazaar.Base.{
  ℕ, ◌≡◌, ◌^◌, ◌<◌, refl, true, some, arith, nat_key, string_key, Option, [], ◌∷◌, ltb→lt, leb→le,
  List, get_elem?, ◌+◌, ◌≤◌, ◌↔◌,
}
use go_crawling_bazaar.GoMap.{
  IsMap, range, get, put, empty, get-put, get-empty, lookup, without, range-Enumerates, empty-IsMap,
  put-IsMap,
}
use go_crawling_bazaar.Hash.{to_string, hex_digits, hex_digit, decode, decode-to_string}
use go_crawling_bazaar.Word.{u64_mod, sub64, mul64}
use go_crawling_bazaar.Exec.{ok, err}
use go_crawling_bazaar.Presbyterian.Env.{wrapped, invalid_range}
use go_crawling_bazaar.Presbyterian.MetaState.{load_account_object, load_sql_chain_object}
use go_crawling_bazaar.Presbyterian.MetaState.Transfers.{
  balance, Transferred, transfer_account_token-Transferred,
}
use go_crawling_bazaar.Presbyterian.MetaState.Tokens.{transfer_account_token}
use go_crawling_bazaar.Presbyterian.MetaState.View.{IsLive}
use go_crawling_bazaar.Presbyterian.Env.{signee_address, pub_key_hash}
use go_crawling_bazaar.Presbyterian.MetaIndex.{safe_add, safe_add-eq-ok}
use go_crawling_bazaar.Presbyterian.MetaState.{commit, commit_in, require_domain}
use go_crawling_bazaar.Presbyterian.MetaState.Commit.{SameView, commit-SameView}
use go_crawling_bazaar.Presbyterian.MetaState.Apply.{apply_transaction}
use go_crawling_bazaar.Presbyterian.MetaState.Billing.{
  billed, update_billing, check_billing, bad_range, is_miner, cost_of,
}
use go_crawling_bazaar.Presbyterian.MetaState.Charges.{Charged, billed-Charged, update_billing-once}
use go_crawling_bazaar.Presbyterian.MetaState.Deposits.{
  deposit_user, process_arrears, settle_miners, settle_rounds, fill_deposit, revive, charge,
}
use go_crawling_bazaar.Presbyterian.MetaState.Arrears.{deposit_user-conserves}
use go_crawling_bazaar.Presbyterian.MetaState.Users.{has_user}
use go_crawling_bazaar.Presbyterian.MetaState.Permissions.{
  update_permission, permit, scan_users, set_permission, update_keys,
}
use go_crawling_bazaar.Presbyterian.MetaState.SuperUsers.{
  supers, update_permission-supers, update_keys-unchanged,
}
use go_crawling_bazaar.Presbyterian.MetaState.Valid.{
  IsWords, IsValid, put_account-IsValid, put_domain-IsValid,
}
use go_crawling_bazaar.Presbyterian.MetaState.Valid.Transactions.{apply_transaction-IsValid}
use go_crawling_bazaar.Presbyterian.MetaState.Valid.Histories.{
  Event, applied, committed, cleaned, run, new_meta_state, new_meta_state-IsValid,
  run-commit-SameView,
}
use go_crawling_bazaar.Types.{
  Account, enable_query, SqlChainUser, SqlChainProfile, arrears, set_balance,
}
use go_crawling_bazaar.Types.Permission.{has_super_permission}
use go_crawling_bazaar.Types.Transactions.{transfer, base_account}
use go_crawling_bazaar.Tests.Sample.{
  env, ledger, payment, profile, rich, billing, admin, miner, permission_change, keys,
}

live : IsLive ledger
live k h = ground (
  arith,
  get-put (put (empty) 1 (some (rich 1 100))) 2 k (some (rich 2 5)),
  get-put empty 1 k (some (rich 1 100)),
  get-empty {V = Option Account} k,
)

found : load_sql_chain_object ledger (to_string 9) ≡ some profile
unfolding load_sql_chain_object to_string hex_digits hex_digit get put empty lookup without
found = refl

received : balance ledger 2 0 < u64_mod
unfolding load_account_object get put empty lookup without
received = ltb→lt (balance ledger 2 0) u64_mod refl

transfer_account_token-Transferred_example :
    Transferred payment ledger
      (transfer_account_token env payment ledger).0
      (transfer_account_token env payment ledger).1
      2
      0
transfer_account_token-Transferred_example =
    transfer_account_token-Transferred env payment ledger 2 0 live received (ltb→lt 30 u64_mod refl)

accounts-IsMap : IsMap ledger.dirty.accounts
accounts-IsMap = put-IsMap _ 2 (some (rich 2 5)) (put-IsMap _ 1 (some (rich 1 100)) empty-IsMap)

domains-IsMap : IsMap ledger.dirty.domains
domains-IsMap = put-IsMap _ (to_string 9) (some profile) empty-IsMap

commit-SameView_example :
    SameView
      (commit_in
        (range ledger.dirty.accounts)
        (range ledger.dirty.domains)
        (range ledger.dirty.provider)
        ledger)
      ledger
commit-SameView_example =
    commit-SameView (range ledger.dirty.accounts) (range ledger.dirty.domains)
      (range ledger.dirty.provider) ledger (range-Enumerates ledger.dirty.accounts accounts-IsMap)
      (range-Enumerates ledger.dirty.domains domains-IsMap)
      (range-Enumerates ledger.dirty.provider empty-IsMap)

rich-IsWords : (a n : ℕ) → n < u64_mod → IsWords (rich a n)
rich-IsWords a n h t = ground arith

small : 100 < u64_mod
small = ltb→lt 100 u64_mod refl

ledger-IsValid : IsValid ledger
ledger-IsValid = put_domain-IsValid (to_string 9) (some profile) _ (
    put_account-IsValid 2 (rich 2 5) _ (rich-IsWords 2 5 (ltb→lt 5 u64_mod refl))
      (put_account-IsValid 1 (rich 1 100) _ (rich-IsWords 1 100 small) new_meta_state-IsValid))

apply_transaction-IsValid_example : IsValid (apply_transaction env (transfer payment) 2 ledger).1
apply_transaction-IsValid_example =
    apply_transaction-IsValid env (transfer payment) 2 ledger tt ledger-IsValid

abbrev history : List Event
history =
    applied (base_account (rich 1 100)) 1
    ∷ committed
    ∷ applied (transfer payment) 2
    ∷ cleaned
    ∷ applied (transfer payment) 3
    ∷ []

run-commit-SameView_example :
    SameView (commit (run env new_meta_state history)) (run env new_meta_state history)
run-commit-SameView_example =
    run-commit-SameView env history (rich-IsWords 1 100 small, (tt, (tt, tt)))

billed_ok : (update_billing env billing ledger).0 ≡ ok tt
unfolding update_billing require_domain check_billing bad_range is_miner signee_address pub_key_hash
    load_sql_chain_object to_string hex_digits hex_digit get put empty lookup without
billed_ok = refl

key : pub_key_hash env (some 1) ≡ ok 1
unfolding pub_key_hash
key = refl

admin_listed : has_user 1 profile.users ≡ true
unfolding has_user
admin_listed = refl

permitted : (update_permission env permission_change ledger).0 ≡ ok tt
unfolding update_permission require_domain permit scan_users set_permission has_super_permission
    pub_key_hash load_sql_chain_object to_string hex_digits hex_digit get put empty lookup without
permitted = refl

update_billing-once_example :
    update_billing env billing (update_billing env billing ledger).1
    ≡ (err (wrapped invalid_range), (update_billing env billing ledger).1)
update_billing-once_example =
    update_billing-once env billing ledger profile found (ground arith) refl billed_ok

billed-Charged_example :
    (u' : SqlChainUser) × (get_elem? (billed env billing profile).users 0 ≡ some u')
    × Charged (mul64 (cost_of billing.users 1 0) 2) admin u'
billed-Charged_example = billed-Charged env billing profile 0 admin refl (ltb→lt 50 u64_mod refl)

abbrev debtor : SqlChainUser
debtor = record admin { arrears = 6; status = arrears }

abbrev paid_up : SqlChainUser
paid_up = record admin { deposit = 10; advance_payment = 70 }

abbrev charged_account : Account
charged_account =
    charge 0 30 (record (rich 1 100) {
      token_balance = set_balance (rich 1 100).token_balance 0 (sub64 100 0);
    })

deposited :
    deposit_user 0 10 30 debtor (miner ∷ []) (rich 1 100)
    ≡ ok (paid_up, miner ∷ [], charged_account)
unfolding deposit_user enable_query process_arrears settle_miners settle_rounds fill_deposit revive
deposited = refl

deposit_user-conserves_example :
    (10 + 70 ≡ 0 + 50 + 30)
    × (charged_account.token_balance 0 + 30 ≡ 100)
    × (paid_up.arrears ≡ 0)
    × (6 ≤ 30)
deposit_user-conserves_example =
    deposit_user-conserves 0 10 30 debtor paid_up (miner ∷ []) (miner ∷ []) (rich 1 100)
      charged_account (ltb→lt 30 u64_mod refl) (ltb→lt 80 u64_mod refl) small (leb→le 30 100 refl)
      deposited

update_permission-supers_example :
    (so' : SqlChainProfile) × (load_sql_chain_object
        (update_permission env permission_change ledger).1
        (to_string 9)
      ≡ some so')
    × (0 < supers so'.users)
update_permission-supers_example =
    update_permission-supers env permission_change ledger profile 1 key found admin_listed permitted

update_keys-unchanged_example : (update_keys env keys ledger).1 ≡ ledger
update_keys-unchanged_example = update_keys-unchanged env keys ledger

decode-to_string_example : decode (to_string 9) ≡ some 9
decode-to_string_example = decode-to_string 9 (ltb→lt 9 (2 ^ 256) refl)

safe_add-eq-ok_example : (safe_add 3 4 ≡ ok 7) ↔ ((7 ≡ 3 + 4) × (7 < u64_mod))
safe_add-eq-ok_example = safe_add-eq-ok 3 4 7 (ltb→lt 3 u64_mod refl) (ltb→lt 4 u64_mod refl)
