-- ===== src/Presbyterian/MetaState/Valid/Histories.antt =====
-- The ledger over a history of transactions and commits.
use go_crawling_bazaar.Base.{ℕ, ◌≡◌, Option, some, List, [], ◌∷◌, nat_key, string_key, arith}
use go_crawling_bazaar.GoMap
use go_crawling_bazaar.GoMap.{IsMap, Enumerates, get-empty, empty-IsMap, range-Enumerates}
use go_crawling_bazaar.GoMap.Overlay.{overlay-IsMap, get-overlay, overlay}
use go_crawling_bazaar.Types.{Account}
use go_crawling_bazaar.Types.Transactions.{Transaction}
use go_crawling_bazaar.Presbyterian.Env.{Env}
use go_crawling_bazaar.Presbyterian.MetaIndex.{new_meta_index, new_readonly_index}
use go_crawling_bazaar.Presbyterian.MetaState.{MetaState, commit, clean}
use go_crawling_bazaar.Presbyterian.MetaState.Commit.{SameView, commit-SameView}
use go_crawling_bazaar.Presbyterian.MetaState.Apply.{apply_transaction}
use go_crawling_bazaar.Presbyterian.MetaState.Valid.{IsWords, IsValid}
use go_crawling_bazaar.Presbyterian.MetaState.Valid.Transactions.{
  IsWordsTx, apply_transaction-IsValid,
}

-- newMetaState
abbrev pub new_meta_state : MetaState
new_meta_state = record { dirty = new_meta_index; readonly = new_readonly_index }

pub new_meta_state-IsValid : IsValid new_meta_state
new_meta_state-IsValid = record {
  dirty_accounts = empty-IsMap;
  dirty_domains = empty-IsMap;
  dirty_provider = empty-IsMap;
  accounts = empty-IsMap;
  domains = empty-IsMap;
  provider = empty-IsMap;
  live = λ k h. ground (arith, get-empty {V = Option Account} k);
  dirty_words = λ k o h t. absurd (ground (arith, get-empty {V = Option Account} k));
  words = λ k o h t. absurd (ground (arith, get-empty {V = Account} k));
}

commit-IsWords :
    (s : MetaState) (v : IsValid s) (k : ℕ) (o : Account)
    → GoMap.get (overlay (GoMap.range s.dirty.accounts) s.readonly.accounts) k ≡ some o
    → IsWords o
commit-IsWords s v k o h t = ground (
  arith,
  get-overlay (GoMap.range s.dirty.accounts) s.dirty.accounts s.readonly.accounts k
      (range-Enumerates s.dirty.accounts v.dirty_accounts),
  λ (e : GoMap.get s.dirty.accounts k ≡ some (some o)). v.dirty_words k o e t,
  λ (e : GoMap.get s.readonly.accounts k ≡ some o). v.words k o e t,
)

pub commit-IsValid : (s : MetaState) → IsValid s → IsValid (commit s)
unfolding commit
commit-IsValid s v = record {
  dirty_accounts = empty-IsMap;
  dirty_domains = empty-IsMap;
  dirty_provider = empty-IsMap;
  accounts = overlay-IsMap _ _ v.accounts;
  domains = overlay-IsMap _ _ v.domains;
  provider = overlay-IsMap _ _ v.provider;
  live = new_meta_state-IsValid.live;
  dirty_words = new_meta_state-IsValid.dirty_words;
  words = commit-IsWords s v;
}

-- What happens to a ledger between blocks.
pub data Event : Type 0 where
  applied : Transaction → ℕ → Event
  committed : Event
  cleaned : Event

pub run : Env → MetaState → List Event → MetaState
run env s [] = s
run env s (applied t height ∷ es) = run env (apply_transaction env t height s).1 es
run env s (committed ∷ es) = run env (commit s) es
run env s (cleaned ∷ es) = run env (clean s) es

abbrev pub IsWordsEvents : List Event → Type 0
IsWordsEvents [] = Unit
IsWordsEvents (applied t height ∷ es) = IsWordsTx t × IsWordsEvents es
IsWordsEvents (committed ∷ es) = IsWordsEvents es
IsWordsEvents (cleaned ∷ es) = IsWordsEvents es

clean-IsValid : (s : MetaState) → IsValid s → IsValid (clean s)
clean-IsValid s v = record {
  dirty_accounts = empty-IsMap;
  dirty_domains = empty-IsMap;
  dirty_provider = empty-IsMap;
  accounts = v.accounts;
  domains = v.domains;
  provider = v.provider;
  live = new_meta_state-IsValid.live;
  dirty_words = new_meta_state-IsValid.dirty_words;
  words = v.words;
}

run-IsValid :
    (env : Env) (s : MetaState) (es : List Event)
    → IsWordsEvents es
    → IsValid s
    → IsValid (run env s es)
unfolding run
run-IsValid env s [] w v = v
run-IsValid env s (applied t height ∷ es) w v =
    run-IsValid env (apply_transaction env t height s).1 es w.1
      (apply_transaction-IsValid env t height s w.0 v)
run-IsValid env s (committed ∷ es) w v = run-IsValid env (commit s) es w (commit-IsValid s v)
run-IsValid env s (cleaned ∷ es) w v = run-IsValid env (clean s) es w (clean-IsValid s v)

-- After any history of transactions, commits and cleanings of a new ledger, whichever transactions
-- failed, the next commit shows every account, domain and provider as the pending changes did. The
-- balances of the base accounts in the history have to be 64-bit words.
pub run-commit-SameView :
    (env : Env) (es : List Event)
    → IsWordsEvents es
    → SameView (commit (run env new_meta_state es)) (run env new_meta_state es)
unfolding commit
run-commit-SameView env es w =
    let v = run-IsValid env new_meta_state es w new_meta_state-IsValid in
    commit-SameView _ _ _ _ (range-Enumerates _ v.dirty_accounts)
      (range-Enumerates _ v.dirty_domains) (range-Enumerates _ v.dirty_provider)
