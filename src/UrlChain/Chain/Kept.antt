-- ===== src/UrlChain/Chain/Kept.antt =====
-- urlchain/chain.go: what the steps leave alone that push and prune nothing.
use go_crawling_bazaar.Base.{ℕ, refl, Option, List, nat_key, string_key}
use go_crawling_bazaar.Types.Queries.{Ack}
use go_crawling_bazaar.State.Execution.{State}
use go_crawling_bazaar.UrlChain.AckIndex.{AckIndex}
use go_crawling_bazaar.Presbyterian.Chain.Peers.{Peers}
use go_crawling_bazaar.UrlChain.Block.{Block}
use go_crawling_bazaar.UrlChain.Runtime.{get_height_from_time}
use go_crawling_bazaar.UrlChain.Chain.{Chain, register}
use go_crawling_bazaar.UrlChain.Chain.Linked.{Keeps}

module _ {Db : Type 0} where
  -- A change of the state and of the ack index.
  pub same_chain-Keeps :
      (c : Chain Db) (st : State Db) (ai : AckIndex) → Keeps c (record c { st = st; ai = ai })
  same_chain-Keeps c st ai = record {
    head = refl;
    clock = λ t. refl;
    blocks = refl;
    cache = refl;
    pointers = refl;
    count = refl;
  }

  pub stash-Keeps : (c : Chain Db) (bs : List Block) → Keeps c (record c { stash = bs })
  stash-Keeps c bs = record {
    head = refl;
    clock = λ t. refl;
    blocks = refl;
    cache = refl;
    pointers = refl;
    count = refl;
  }

  pub peers-Keeps :
      (c : Chain Db) (index : Option ℕ) (total : ℕ) (peers : Peers)
      → Keeps c (record c { rt = record c.rt { index = index; total = total; peers = peers } })
  unfolding get_height_from_time
  peers-Keeps c index total peers = record {
    head = refl;
    clock = λ t. refl;
    blocks = refl;
    cache = refl;
    pointers = refl;
    count = refl;
  }

  pub billed-Keeps :
      (c : Chain Db) (h : ℕ) → Keeps c (record c { rt = record c.rt { last_billing_height = h } })
  unfolding get_height_from_time
  billed-Keeps c h = record {
    head = refl;
    clock = λ t. refl;
    blocks = refl;
    cache = refl;
    pointers = refl;
    count = refl;
  }

  pub register-Keeps : (a : Ack) (c : Chain Db) → Keeps c (register a c).1
  unfolding register
  register-Keeps a c = record {
    head = refl;
    clock = λ t. refl;
    blocks = refl;
    cache = refl;
    pointers = refl;
    count = refl;
  }
