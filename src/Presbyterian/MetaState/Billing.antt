-- ===== src/Presbyterian/MetaState/Billing.antt =====
-- presbyterian/metastate.go: updateBilling, which charges the users of a chain for their queries.
use go_crawling_bazaar.Base.{
  true, false, ℕ, Bool, false, ◌&&◌, ◌||◌, some, List, [], ◌∷◌, ◌++◌, nat_key, ◌==◌, not, leb,
  if◌then◌else◌,
}
use go_crawling_bazaar.Hash.{to_string}
use go_crawling_bazaar.Word.{add64, sub64, mul64, positive32}
use go_crawling_bazaar.Exec.{Outcome, ok, err, lift, ask, pure, modify, ◌>>=◌}
use go_crawling_bazaar.Types.{SqlChainProfile, SqlChainUser, MinerInfo, UserArrears, arrears}
use go_crawling_bazaar.Types.Transactions.{UpdateBilling, UserCost, MinerIncome}
use go_crawling_bazaar.Presbyterian.Env.{
  Error, Env, signee_address, invalid_sender, invalid_range, wrapped, database_not_found,
}
use go_crawling_bazaar.Presbyterian.MetaState.{Action, put_domain, require_domain}

-- miner.ReceivedIncome += miner.PendingIncome; miner.PendingIncome = 0
unfoldable pub collect : List MinerInfo → List MinerInfo
collect [] = []
collect (m ∷ ms) =
    record m { received_income = add64 m.received_income m.pending_income; pending_income = 0 }
    ∷ collect ms

unfoldable pub is_miner : ℕ → List MinerInfo → Bool
is_miner addr [] = false
is_miner addr (m ∷ ms) = m.address == addr || is_miner addr ms

-- costMap[addr]: the last cost that is listed for the user.
unfoldable pub cost_of : List UserCost → ℕ → ℕ → ℕ
cost_of [] addr cost = cost
cost_of (c ∷ cs) addr cost = cost_of cs addr (if c.user == addr then c.cost else cost)

unfoldable pub add_incomes : List MinerIncome → ℕ → ℕ → ℕ
add_incomes [] miner income = income
add_incomes (i ∷ is) miner income =
    add_incomes is miner (if i.miner == miner then add64 income i.income else income)

-- userMap[addr][miner]: the sum of the miner's incomes over all entries of the user.
unfoldable pub income_of : List UserCost → ℕ → ℕ → ℕ → ℕ
unfolding add_incomes
income_of [] addr miner income = income
income_of (c ∷ cs) addr miner income =
    income_of cs addr miner (if c.user == addr then add_incomes c.miners miner income else income)

-- Each entry of the user grows by `diff`, and the user's own arrears with each of them.
unfoldable pub extend_arrears : ℕ → ℕ → List UserArrears → List UserArrears
extend_arrears user diff [] = []
extend_arrears user diff (ua ∷ uas) =
    (if ua.user == user then record ua { arrears = add64 ua.arrears diff } else ua)
    ∷ extend_arrears user diff uas

unfoldable pub add_hits : ℕ → ℕ → List UserArrears → ℕ → ℕ
add_hits user diff [] total = total
add_hits user diff (ua ∷ uas) total =
    add_hits user diff uas (if ua.user == user then add64 total diff else total)

unfoldable pub in_arrears : ℕ → List UserArrears → Bool
in_arrears user [] = false
in_arrears user (ua ∷ uas) = ua.user == user || in_arrears user uas

-- What one miner lacks is written into its arrears of the user and into the user's.
unfoldable pub owe : ℕ → ℕ → MinerInfo → ℕ → MinerInfo × ℕ
unfolding extend_arrears add_hits in_arrears
owe user diff m total =
    if in_arrears user m.user_arrears
    then (
      record m { user_arrears = extend_arrears user diff m.user_arrears },
      add_hits user diff m.user_arrears total,
    )
    else (
      record m { user_arrears = m.user_arrears ++ record { user = user; arrears = diff } ∷ [] },
      add64 total diff,
    )

module _ (env : Env) (costs : List UserCost) (gas_price : ℕ) where
  -- A user who can pay: each miner earns its income.
  unfoldable pub pay_miners : ℕ → List MinerInfo → List MinerInfo
  pay_miners user [] = []
  pay_miners user (m ∷ ms) =
      record m {
        pending_income =
            add64 m.pending_income (mul64 (income_of costs user m.address 0) gas_price);
      }
      ∷ pay_miners user ms

  -- uint64(float64(income) * rate)
  abbrev pub scaled : ℕ → ℕ → ℕ
  scaled rate income = env.float.to_uint64 (env.float.mul (env.float.of_uint64 income) rate)

  -- One miner of a user who cannot pay: it earns its share of what is left.
  unfoldable pub share_miner : ℕ → ℕ → MinerInfo → ℕ → MinerInfo × ℕ
  unfolding owe
  share_miner rate user m total =
      let income = mul64 (income_of costs user m.address 0) gas_price in
      let earned = scaled rate income in
      owe user (sub64 income earned) (record m { pending_income = add64 m.pending_income earned })
        total

  unfoldable pub share_miners : ℕ → ℕ → List MinerInfo → ℕ → List MinerInfo × ℕ
  unfolding share_miner
  share_miners rate user [] total = ([], total)
  share_miners rate user (m ∷ ms) total =
      let (m', total') = share_miner rate user m total in
      let (ms', total'') = share_miners rate user ms total' in (m' ∷ ms', total'')

  -- The round for one user.
  unfoldable pub bill_user : SqlChainUser → List MinerInfo → SqlChainUser × List MinerInfo
  unfolding pay_miners share_miners
  bill_user u miners =
      let cost = mul64 (cost_of costs u.address 0) gas_price in
      let rate = env.float.div (env.float.of_uint64 u.advance_payment) (env.float.of_uint64 cost) in
      let (miners', total) = share_miners rate u.address miners u.arrears in
      if leb cost u.advance_payment
      then (
        record u { advance_payment = sub64 u.advance_payment cost },
        pay_miners u.address miners,
      )
      else (record u { advance_payment = 0; status = arrears; arrears = total }, miners')

  unfoldable pub bill_users :
      List SqlChainUser → List MinerInfo → List SqlChainUser × List MinerInfo
  unfolding bill_user
  bill_users [] miners = ([], miners)
  bill_users (u ∷ us) miners =
      let (u', miners') = bill_user u miners in
      let (us', miners'') = bill_users us miners' in (u' ∷ us', miners'')

-- The check of the range; a version of 0 skips it.
unfoldable pub bad_range : UpdateBilling → SqlChainProfile → Bool
bad_range tx p =
    positive32 tx.version
    && (leb tx.range_to tx.range_from || not (p.last_updated_height == tx.range_from))

module _ (env : Env) where
  -- The profile after the billing.
  unfoldable pub billed : UpdateBilling → SqlChainProfile → SqlChainProfile
  unfolding collect bill_users
  billed tx p =
      let (users, miners) = bill_users env tx.users p.gas_price p.users (collect p.miners) in
      record p { users = users; miners = miners; last_updated_height = tx.range_to }

  -- What updateBilling checks, with the profile: whether there is anything to charge.
  unfoldable pub check_billing : UpdateBilling → SqlChainProfile → Outcome Error Bool
  unfolding bad_range is_miner
  check_billing tx p =
      if bad_range tx p
      then err (wrapped invalid_range)
      else if p.gas_price == 0
      then ok false
      else if is_miner (signee_address env tx.signee) p.miners
      then ok true
      else err invalid_sender

  -- updateBilling
  unfoldable pub update_billing : UpdateBilling → Action (Unit {0})
  unfolding check_billing billed
  update_billing tx = do
    let id = to_string tx.receiver
    p ← ask (require_domain (wrapped database_not_found) id)
    charged ← lift (check_billing tx p)
    if charged then modify (put_domain id (some (billed tx p))) else pure tt
