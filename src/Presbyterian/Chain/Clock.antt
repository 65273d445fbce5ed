-- ===== src/Presbyterian/Chain/Clock.antt =====
-- presbyterian/chain.go: heights, ticks and turns. A time is a number of nanoseconds, and so is a
-- period; the times lie so near to each other that their differences are 64-bit durations.
use go_crawling_bazaar.Base.{
  ℕ, zero, suc, ◌+◌, ◌-◌, ◌/◌, ◌%◌, ◌^◌, Bool, true, false, not, Option, none, some, List, [], ◌∷◌,
  nat_key, ◌==◌, leb, ltb, if◌then◌else◌,
}
use go_crawling_bazaar.Word.{u32_mod, u64_mod, add32, mul64}
use go_crawling_bazaar.Exec.{Outcome, ok, err, panic}
use go_crawling_bazaar.Presbyterian.Env.{Error}
use go_crawling_bazaar.Presbyterian.Chain.Peers.{PresbyterianInfo}

pub data RunMode : Type 0 where
  pb_mode api_node_mode : RunMode

-- The fields of the chain that are read only at run time.
pub record Settings : Type 0 where
  pub mode : RunMode
  pub address : ℕ
  pub genesis_time : ℕ
  pub period : ℕ
  pub tick : ℕ
  pub local_pb_info : PresbyterianInfo

-- uint32 of the quotient, which is not positive before the genesis.
unfoldable pub height_at : ℕ → ℕ → ℕ → ℕ
height_at genesis period t =
    if leb genesis t
    then ((t - genesis) / period) % u32_mod
    else (u32_mod - ((genesis - t) / period) % u32_mod) % u32_mod

-- heightOfTime; a period of zero is a division by zero.
unfoldable pub height_of_time : Settings → ℕ → Outcome Error ℕ
unfolding height_at
height_of_time cfg t =
    if cfg.period == 0 then panic else ok (height_at cfg.genesis_time cfg.period t)

-- The duration that nextTick returns: at most zero, with what has elapsed of it, or positive.
pub data Wait : Type 0 where
  due : ℕ → Wait
  later : ℕ → Wait

-- The difference from `now` to `at`.
unfoldable pub until : ℕ → ℕ → Wait
until at now = if leb at now then due (now - at) else later (at - now)

-- genesisTime.Add(Duration(h) * period).Sub(t); the product wraps to a signed word.
unfoldable pub time_left : Settings → ℕ → ℕ → Wait
unfolding until
time_left cfg h now =
    let p = mul64 h cfg.period in
    if ltb p (2 ^ 63)
    then until (cfg.genesis_time + p) now
    else until cfg.genesis_time (now + (u64_mod - p))

-- nextTick, at the reading `now` of the clock.
unfoldable pub next_tick : Settings → ℕ → ℕ → Wait
unfolding time_left
next_tick cfg h now = elim (time_left cfg h now) [
  | due elapsed ↦ due elapsed
  | later d ↦ later (if ltb cfg.tick d then cfg.tick else d)
]

-- isMyTurn; a list without servers is a division by zero.
unfoldable pub is_my_turn : PresbyterianInfo → ℕ → Outcome Error Bool
is_my_turn me h = if me.total == 0 then panic else ok (h % me.total == me.rank)

-- The conditions of advanceNextHeight for producing a block.
unfoldable pub may_produce : Settings → ℕ → ℕ → Outcome Error Bool
unfolding is_my_turn
may_produce cfg h elapsed = elim cfg.mode [
  | api_node_mode ↦ ok false
  | pb_mode ↦ elim (is_my_turn cfg.local_pb_info h) [
    | ok true ↦ ok (not (ltb cfg.period (elapsed + cfg.tick)))
    | ok false ↦ ok false
    | err e ↦ err e
    | panic ↦ panic
  ]
]

-- syncCurrentHead: `unreachable` is what blockingFetchBlock returns.
unfoldable pub sync_current_head : Settings → ℕ → ℕ → ℕ → ℕ → Bool
sync_current_head cfg next_height head_height unreachable required =
    if leb (add32 next_height (u32_mod - 1)) head_height then true else elim cfg.mode [
      | pb_mode ↦ leb (add32 unreachable required) cfg.local_pb_info.total
      | api_node_mode ↦ ltb unreachable cfg.local_pb_info.total
    ]

-- The inner loop of syncHeads, on fuel: the next height after it.
unfoldable pub sync_rounds : ℕ → ℕ → ℕ → Option ℕ
sync_rounds zero now_height next = none
sync_rounds (suc fuel) now_height next =
    let rest = sync_rounds fuel now_height (add32 next 1) in
    if leb next now_height then rest else some next

-- What becomes of syncHeads: it ends with a next height, it wants another reading of the clock, or it
-- divides by zero.
pub data Synced : Type 0 where
  synced : ℕ → Synced
  unfinished : ℕ → Synced
  crashed : Synced

-- syncHeads, over the readings of the clock, two in each round of its loop; the fuel of the inner
-- loop is one for each height.
unfoldable pub sync_heads : Settings → List (ℕ × ℕ) → ℕ → Synced
unfolding height_of_time sync_rounds
sync_heads cfg [] next = unfinished next
sync_heads cfg (r ∷ rs) next =
    if ltb r.0 cfg.genesis_time then synced next else elim (height_of_time cfg r.1) [
      | ok now_height ↦
          if ltb now_height next
          then synced next
          else elim (sync_rounds (suc u32_mod) now_height next) [
            | none ↦ unfinished next
            | some next' ↦ sync_heads cfg rs next'
          ]
      | _ ↦ crashed
    ]
