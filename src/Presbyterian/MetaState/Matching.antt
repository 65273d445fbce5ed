-- ===== src/Presbyterian/MetaState/Matching.antt =====
-- presbyterian/metastate.go: the choice of miners for a new domain.
use go_crawling_bazaar.Base.{
  ℕ, ◌-◌, ◌*◌, Bool, true, false, ◌&&◌, ◌||◌, Option, none, some, List, [], ◌∷◌, ◌++◌, nat_key,
  ◌==◌, not, leb, ltb, length, take, if◌then◌else◌,
}
use go_crawling_bazaar.GoMap
use go_crawling_bazaar.GoMap.{GoMap}
use go_crawling_bazaar.GoMap.Overlay.{overlay}
use go_crawling_bazaar.Hash.{bytes_less}
use go_crawling_bazaar.Word.{mul64}
use go_crawling_bazaar.Exec.{Outcome, ok, err, panic, pure, raise}
use go_crawling_bazaar.Types.{MinerInfo, ProviderProfile, unknown_status}
use go_crawling_bazaar.Types.Transactions.{CreateDomain}
use go_crawling_bazaar.Presbyterian.Env.{
  Env, Error, pub_key_hash, wrapped, no_such_miner, no_enough_miner, miner_user_not_match,
  gas_price_mismatch, load_average_mismatch, memory_mismatch, disk_space_mismatch,
  token_type_mismatch, invalid_sender, invalid_gas_price, invalid_miner_count,
  insufficient_advance_payment,
}
use go_crawling_bazaar.Presbyterian.MetaState.{
  MetaState, Action, delete_provider_object, load_provider_object,
}

-- sqlchainPeriod
abbrev pub sqlchain_period : ℕ
sqlchain_period = 60 * 24 * 30

-- A wrapped error, nil for nil.
abbrev wrap_error : Option Error → Option Error
wrap_error none = none
wrap_error (some e) = some (wrapped e)

-- `return err` of an action without a value.
abbrev pub return_error : Option Error → Action (Unit {0})
return_error none = pure tt
return_error (some e) = raise e

-- What the choice of miners comes to: the miners, or a return with this error, which may be nil.
pub data Choice : Type 0 where
  chosen : List MinerInfo → Choice
  stopped : Option Error → Choice

-- isProviderUserMatch
unfoldable pub listed_user : List ℕ → ℕ → Bool
listed_user [] user = false
listed_user (u ∷ us) user = u == user || listed_user us user

unfoldable pub is_provider_user_match : List ℕ → ℕ → Bool
unfolding listed_user
is_provider_user_match [] user = true
is_provider_user_match (u ∷ us) user = listed_user (u ∷ us) user

-- append(miners, &MinerInfo{...})
abbrev pub miner_of : ProviderProfile → MinerInfo
miner_of po = record {
  address = po.provider;
  node_id = po.node_id;
  name = "";
  pending_income = 0;
  received_income = 0;
  user_arrears = [];
  deposit = po.deposit;
  status = unknown_status;
  encryption_key = "";
}

module _ (env : Env) where
  -- isProviderReqMatch: the first mismatch.
  unfoldable pub is_provider_req_match : ProviderProfile → CreateDomain → Option Error
  is_provider_req_match po req =
      let meta = req.resource_meta in
      if ltb req.gas_price po.gas_price
      then some gas_price_mismatch
      else if env.float.greater meta.load_avg_per_cpu 0
          && env.float.greater po.load_avg_per_cpu meta.load_avg_per_cpu
      then some load_average_mismatch
      else if ltb po.memory meta.memory
      then some memory_mismatch
      else if ltb po.space meta.space
      then some disk_space_mismatch
      else if not (po.token_type == req.token_type)
      then some token_type_mismatch
      else none

  -- filterAndAppendMiner
  unfoldable pub filter_and_append_miner :
      List MinerInfo → ProviderProfile → CreateDomain → ℕ → List MinerInfo × Option Error
  unfolding is_provider_user_match
  filter_and_append_miner miners po req user =
      if not (is_provider_user_match po.target_user user)
      then (miners, some miner_user_not_match)
      else elim (is_provider_req_match po req) [
        | some e ↦ (miners, some e)
        | none ↦ (miners ++ miner_of po ∷ [], none)
      ]

  -- The loop over tx.ResourceMeta.TargetMiners, with the error that the last round left.
  unfoldable pub target_rounds :
      MetaState
      → CreateDomain
      → ℕ
      → ℕ
      → List ℕ
      → List MinerInfo × Option Error
      → List MinerInfo × Option Error
  target_rounds s tx user wanted [] acc = acc
  target_rounds s tx user wanted (m ∷ ms) (miners, e) = elim (load_provider_object s m) [
    | none ↦ target_rounds s tx user wanted ms (miners, some no_such_miner)
    | some po ↦
        let next = filter_and_append_miner miners po tx user in
        let rest = target_rounds s tx user wanted ms next in
        if length next.0 == wanted then next else rest
  ]

  -- The loop of filterNMiners over the merged map; errors are dropped.
  unfoldable pub filter_rounds :
      CreateDomain → ℕ → List (ℕ × ProviderProfile) → List MinerInfo → List MinerInfo
  filter_rounds tx user [] miners = miners
  filter_rounds tx user ((k, po) ∷ ps) miners =
      filter_rounds tx user ps (filter_and_append_miner miners po tx user).0

-- delete(allProviderMap, m) for each target miner.
unfoldable pub delete_all : List ℕ → GoMap ℕ ProviderProfile → GoMap ℕ ProviderProfile
delete_all [] ps = ps
delete_all (m ∷ ms) ps = delete_all ms (GoMap.delete ps m)

-- sort.Slice(newMiners, newMiners.Less)
unfoldable pub insert_miner : MinerInfo → List MinerInfo → List MinerInfo
insert_miner m [] = m ∷ []
insert_miner m (x ∷ xs) =
    if bytes_less x.node_id m.node_id then x ∷ insert_miner m xs else m ∷ x ∷ xs

unfoldable pub sort_miners : List MinerInfo → List MinerInfo
unfolding insert_miner
sort_miners [] = []
sort_miners (m ∷ ms) = insert_miner m (sort_miners ms)

-- delete(…) for each chosen miner: the provider is taken.
unfoldable pub take_providers : List MinerInfo → MetaState → MetaState
take_providers [] s = s
take_providers (m ∷ ms) s = take_providers ms (delete_provider_object m.address s)

module _ (env : Env) where
  -- filterNMiners
  unfoldable pub filter_n_miners : MetaState → CreateDomain → ℕ → ℕ → Outcome Error (List MinerInfo)
  unfolding delete_all sort_miners filter_rounds
  filter_n_miners s tx user wanted =
      let all_providers = overlay (GoMap.range s.dirty.provider) s.readonly.provider in
      let others = delete_all tx.resource_meta.target_miners all_providers in
      let found = filter_rounds env tx user (GoMap.range others) [] in
      if ltb (length found) wanted
      then err no_enough_miner
      else ok (take wanted (sort_miners found))

  -- minDeposit
  unfoldable pub min_deposit : ℕ → ℕ → ℕ
  min_deposit gas_price miner_number =
      mul64 (mul64 (mul64 gas_price env.config.qps) env.config.billing_block_count) miner_number

  -- The checks at the head of matchProvidersWithUser: the sender, the number of miners, the deposit.
  unfoldable pub check_create_domain : CreateDomain → Outcome Error (ℕ × ℕ × ℕ)
  unfolding min_deposit
  check_create_domain tx = elim (pub_key_hash env tx.signee) [
    | err e ↦ err (wrapped e)
    | panic ↦ panic
    | ok sender ↦
        let count = tx.resource_meta.node in
        let deposit = min_deposit tx.gas_price count in
        if not (sender == tx.owner)
        then err (wrapped invalid_sender)
        else if tx.gas_price == 0
        then err invalid_gas_price
        else if count == 0
        then err invalid_miner_count
        else if ltb tx.advance_payment deposit
        then err insufficient_advance_payment
        else ok (sender, count, deposit)
  ]

  unfoldable pub choose_miners : MetaState → CreateDomain → ℕ → ℕ → Choice
  unfolding target_rounds filter_n_miners
  choose_miners s tx sender count =
      let targets = tx.resource_meta.target_miners in
      let (miners, e) = target_rounds env s tx sender count targets ([], none) in
      if ltb (length miners) count
      then if leb count (length targets)
        then stopped (wrap_error e)
        else elim (filter_n_miners s tx sender (count - length miners)) [
          | ok more ↦ chosen (miners ++ more)
          | err e' ↦ stopped (some e')
          | panic ↦ stopped none
        ]
      else chosen miners
