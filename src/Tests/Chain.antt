-- ===== src/Tests/Chain.antt =====
-- The chain's theorems at the sample chain.
use go_crawling_bazaar.Base.{
  ℕ, ◌≡◌, ◌≤◌, ◌+◌, ◌-◌, refl, some, List, Option, nat_key, string_key, [], ◌∷◌, ltb→lt, leb→le,
  length, inl,
}
use go_crawling_bazaar.GoMap.{get, put, delete, empty, range, lookup, without, get-empty}
use go_crawling_bazaar.Exec.{ok}
use go_crawling_bazaar.Word.{u32_mod}
use go_crawling_bazaar.Types.Transactions.{Transaction}
use go_crawling_bazaar.Presbyterian.MetaState.{load_or_store_account_object, find_or_stored, clean}
use go_crawling_bazaar.Presbyterian.MetaState.Tokens.{store_base_account}
use go_crawling_bazaar.Presbyterian.MetaState.Apply.{apply, apply_transaction}
use go_crawling_bazaar.Presbyterian.BlockNode.{
  Block, BlockNode, child, info, with_count, new_block_node, fetch_node_list, ancestor_by_count,
  last_irreversible, load,
}
use go_crawling_bazaar.Presbyterian.BlockNode.Ancestry.{
  IsCounted, IsAscending, Ancestor, last_irreversible-ancestor_by_count,
}
use go_crawling_bazaar.Presbyterian.BlockNode.Segments.{IsSegment, fetch_node_list-IsSegment}
use go_crawling_bazaar.Presbyterian.Branch.{
  Branch, apply_block, pack_all, pack, check_in_pool, refuse_packed, tx_hash, verify,
  max_transactions_per_block,
}
use go_crawling_bazaar.Presbyterian.Branch.Produce.{
  produce_block, produce_rounds, sort_txs, insert_tx, tx_less, unsigned_block,
}
use go_crawling_bazaar.Presbyterian.Branch.Pools.{
  IsDisjoint, Packs, apply_block-Packs, apply_block-IsDisjoint,
}
use go_crawling_bazaar.Presbyterian.Branch.Produced.{produce_block_lem}
use go_crawling_bazaar.Base.{All, nat_key, arith}
use go_crawling_bazaar.GoMap.{get-put}
use go_crawling_bazaar.Presbyterian.Branch.Agreement.{IsPooled, produce_rounds-pack_all}
use go_crawling_bazaar.Tests.Sample.{
  env, ledger, branch, first_node, second_node, second_block, sign_up,
}

counted : IsCounted second_node
unfolding IsCounted info
counted = (refl, refl)

ascending : IsAscending second_node
unfolding IsAscending info
ascending = (ltb→lt 1 2 refl, tt)

last_irreversible-ancestor_by_count_example :
    (last_irreversible 1 second_node ≡ ancestor_by_count ((info second_node).count - 1) second_node)
    × ((a : BlockNode) × (last_irreversible 1 second_node ≡ some a)
        × Ancestor a second_node
        × ((info a).count ≡ (info second_node).count - 1))
last_irreversible-ancestor_by_count_example =
    last_irreversible-ancestor_by_count 1 second_node counted

fetch_node_list-IsSegment_example :
    (bl : List BlockNode) × (fetch_node_list 0 second_node ≡ some bl)
    × IsSegment 0 (1 - 0 + 1) second_node bl
unfolding info
fetch_node_list-IsSegment_example =
    fetch_node_list-IsSegment 0 second_node counted (leb→le 0 1 refl) (ltb→lt 2 u32_mod refl)

apart : IsDisjoint branch
apart k = inl (get-empty {V = Transaction} k)

abbrev after : Branch
after = record {
  head = second_node;
  preview = (apply env sign_up 2 (clean ledger)).1;
  packed = put empty 0 sign_up;
  unpacked = delete (put empty 0 sign_up) 0;
}

applied : (apply_block env second_node branch).0 ≡ ok after
unfolding apply_block info pack_all pack check_in_pool refuse_packed tx_hash verify
    apply_transaction store_base_account load_or_store_account_object find_or_stored get put delete
    empty lookup without
applied = refl

loaded : load second_node ≡ some second_block
unfolding info
loaded = refl

apply_block-Packs_example :
    ((info branch.head).hash ≡ second_block.parent_hash)
    × ((info second_node).tx_count ≤ max_transactions_per_block)
    × (after.head ≡ second_node)
    × Packs env second_block.transactions branch.packed after.packed
apply_block-Packs_example =
    apply_block-Packs env second_node second_block branch after loaded applied

apply_block-IsDisjoint_example : IsDisjoint after
apply_block-IsDisjoint_example =
    apply_block-IsDisjoint env second_node second_block branch after loaded applied apart

abbrev seal : Block → Option ℕ
seal b = some 33

abbrev made_block : Block
made_block = record (unsigned_block 20 7 1 (sign_up ∷ [])) { data_hash = 33 }

abbrev made : Branch
made = record after { head = child first_node (with_count 3 made_block 1) }

produced : (produce_block env seal 3 7 1 branch).0 ≡ ok (made, made_block)
unfolding produce_block produce_rounds sort_txs insert_tx tx_less new_block_node info tx_hash
    apply_transaction store_base_account load_or_store_account_object find_or_stored get put delete
    empty range lookup without
produced = refl

produce_block_lem_example :
    (made_block.parent_hash ≡ (info branch.head).hash)
    × (length made_block.transactions ≤ max_transactions_per_block)
    × (made.head ≡ new_block_node 3 made_block (some branch.head))
    × (IsDisjoint branch → IsDisjoint made)
produce_block_lem_example = produce_block_lem env seal 3 7 1 branch made made_block produced

waiting : All (IsPooled env branch) (sign_up ∷ [])
unfolding tx_hash
waiting = (λ e. ground (arith, e, get-put {K = ℕ} (empty {V = Transaction}) 0 0 sign_up), tt)

packs : (pack_all env (sign_up ∷ []) 2 branch).0 ≡ ok tt
unfolding pack_all pack check_in_pool refuse_packed tx_hash verify apply_transaction
    store_base_account load_or_store_account_object find_or_stored get put delete empty lookup
    without
packs = refl

produce_rounds-pack_all_example :
    produce_rounds env (sign_up ∷ []) 2 1 [] branch
    ≡ (ok (sign_up ∷ []), (pack_all env (sign_up ∷ []) 2 branch).1)
produce_rounds-pack_all_example =
    produce_rounds-pack_all env (sign_up ∷ []) 2 1 [] branch waiting packs (leb→le 1 1 refl)
