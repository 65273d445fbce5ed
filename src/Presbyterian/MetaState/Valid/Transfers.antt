-- ===== src/Presbyterian/MetaState/Valid/Transfers.antt =====
-- A transfer keeps the ledger valid.
use go_crawling_bazaar.Base.{
  ℕ, ◌<◌, ◌≡◌, ◌||◌, Option, none, some, nat_key, string_key, ◌==◌, arith, if◌then◌else◌, inl, inr,
  Option-cases,
}
use go_crawling_bazaar.GoMap
use go_crawling_bazaar.Word.{u64_mod}
use go_crawling_bazaar.Exec.{ok, pure}
use go_crawling_bazaar.Exec.Triple.{
  Triple, Triple-pure, Triple-if, Triple-modify, Triple-bind, Triple-bind-lift,
}
use go_crawling_bazaar.Types.{Account, empty_account}
use go_crawling_bazaar.Types.Transactions.{Transfer}
use go_crawling_bazaar.Presbyterian.Env.{Env}
use go_crawling_bazaar.Presbyterian.MetaState.{MetaState, load_or_store_account_object}
use go_crawling_bazaar.Presbyterian.MetaState.Tokens.{
  find_account, pay, balance_of, proceed_transfer, move_between, move_tokens, check_sender,
  transfer_account_token,
}
use go_crawling_bazaar.Presbyterian.MetaState.Valid.{IsWords, IsValid, put_account-IsValid}
use go_crawling_bazaar.Presbyterian.MetaState.Valid.Actions.{
  IsWordsOr, IsAlways, set_balance-IsWords, safe_add-word, safe_sub-word, load_or_store-Triple,
}

find_account-Triple : (k : ℕ) → Triple IsValid (find_account k) IsWordsOr
unfolding find_account
find_account-Triple k = record {
  at = λ s v. elim (Option-cases (GoMap.get s.dirty.accounts k)) [
    | inr (none, d) ↦ rw (d, find_account) (v, tt)
    | inr (some o, d) ↦ rw (d, find_account) (v, v.dirty_words k o d)
    | inl d ↦
        rw (d, find_account)
          (elim (Option-cases (GoMap.get s.readonly.accounts k)) [
            | inl r ↦ rw r (v, tt)
            | inr (o, r) ↦ rw r (v, v.words k o r)
          ])
  ];
}

balance_of-word : (o : Option Account) (t b : ℕ) → IsWordsOr o → balance_of o t ≡ ok b → b < u64_mod
unfolding balance_of
balance_of-word none t b w e = cc
balance_of-word (some o) t b w e = ground (arith, w t)

proceed_transfer-IsValid :
    (t : Transfer) (sb rb : ℕ) (so ro : Option Account) (s : MetaState)
    → sb < u64_mod
    → rb < u64_mod
    → IsWordsOr so
    → IsWordsOr ro
    → IsValid s
    → IsValid (proceed_transfer t sb rb so ro s)
unfolding proceed_transfer
proceed_transfer-IsValid t sb rb (some so) (some ro) s bs br ws wr v =
    put_account-IsValid t.receiver _ _ (set_balance-IsWords ro t.token_type rb wr br)
      (put_account-IsValid t.sender _ s (set_balance-IsWords so t.token_type sb ws bs) v)
proceed_transfer-IsValid t sb rb (some so) none s bs br ws wr v = v
proceed_transfer-IsValid t sb rb none ro s bs br ws wr v = v

pay-Triple :
    (t : Transfer) (so ro : Option Account)
    → IsWordsOr so
    → IsWordsOr ro
    → Triple IsValid (pay t so ro) IsAlways
unfolding pay
pay-Triple t so ro ws wr = Triple-bind-lift _ _ λ sb es. Triple-bind-lift _ _ λ rb er.
    Triple-bind-lift _ _ λ sb' es'. Triple-bind-lift _ _ λ rb' er'. Triple-modify _ λ s v.
      proceed_transfer-IsValid t sb' rb' so ro s
        (safe_sub-word t.amount sb sb' (balance_of-word so t.token_type sb ws es) es')
        (safe_add-word t.amount rb rb' (balance_of-word ro t.token_type rb wr er) er') ws wr v

empty_account-IsWords : (k : ℕ) → IsWords (empty_account k)
empty_account-IsWords k t = omega arith

move_tokens-Triple : (t : Transfer) → Triple IsValid (move_tokens t) IsAlways
unfolding move_tokens move_between
move_tokens-Triple t =
    Triple-bind (load_or_store_account_object t.receiver (empty_account t.receiver)) _
      (load_or_store-Triple t.receiver _ (empty_account-IsWords t.receiver))
      λ _ _.
        Triple-bind _ _ (find_account-Triple t.sender) λ so ws.
          Triple-bind _ _ (find_account-Triple t.receiver) λ ro wr. pay-Triple t so ro ws wr

pub transfer_account_token-Triple :
    (env : Env) (t : Transfer) → Triple IsValid (transfer_account_token env t) IsAlways
unfolding transfer_account_token
transfer_account_token-Triple env t =
    Triple-bind-lift (check_sender env t.signee t.sender)
      (λ _. if t.sender == t.receiver || t.amount == 0 then pure tt else move_tokens t)
      λ _ _.
        Triple-if (t.sender == t.receiver || t.amount == 0) _ (move_tokens t)
          (λ _. Triple-pure tt tt) (λ _. move_tokens-Triple t)
