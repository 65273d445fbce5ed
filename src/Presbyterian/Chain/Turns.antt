-- ===== src/Presbyterian/Chain/Turns.antt =====
-- presbyterian/chain.go and bpinfo.go: whose turn it is, and the height of the block that is produced.
use go_crawling_bazaar.Base.{
  ℕ, zero, suc, ◌+◌, ◌*◌, ◌/◌, ◌%◌, ◌^◌, ◌<◌, ◌≤◌, ◌≡◌, ◌↔◌, true, false, some, List, [], ◌∷◌,
  arith, nat_key, string_key, ◌==◌, Bool-cases, inl, inr, ap, String, get_elem?, length, leb,
}
use native.Mathlib.Nat.{mod-eq_of_lt, div-eq_of_lt-le}
use go_crawling_bazaar.Word.{u32_mod, add32, mul64}
use go_crawling_bazaar.Exec.{ok}
use go_crawling_bazaar.Presbyterian.Chain.Peers.{PresbyterianInfo, infos_from}
use go_crawling_bazaar.Presbyterian.Chain.Clock.{
  Settings, due, until, time_left, next_tick, height_at, height_of_time, is_my_turn, may_produce,
  sync_rounds,
}

infos_from-at :
    (lead : String) (total i : ℕ) (vs : List String) (k : ℕ) (info : PresbyterianInfo)
    → get_elem? (infos_from lead total i vs) k ≡ some info
    → (info.rank ≡ (i + k) % u32_mod)
      × (info.total ≡ total % u32_mod)
      × (get_elem? vs k ≡ some info.node_id)
      × (k < length vs)
unfolding infos_from
infos_from-at lead total i [] k info e = absurd (ground arith)
infos_from-at lead total i (v ∷ vs) zero info e =
    (ground arith, ground arith, ground arith, ground arith)
infos_from-at lead total i (v ∷ vs) (suc k) info e =
    let (r, t, n, l) = infos_from-at lead total (suc i) vs k info e in
    (ground (arith, r), t, n, ground (arith, l))

-- With fewer than 2 ^ 32 servers, the server with the index `k` has its turn exactly at the heights
-- with the remainder `k`, so that every height is the turn of one index.
pub is_my_turn-infos_from :
    (lead : String) (servers : List String) (k h : ℕ) (info : PresbyterianInfo)
    → length servers < u32_mod
    → get_elem? (infos_from lead (length servers) 0 servers) k ≡ some info
    → (is_my_turn info h ≡ ok true) ↔ (h % length servers ≡ k)
unfolding is_my_turn
is_my_turn-infos_from lead servers k h info few e =
    let (r, t, n, l) = infos_from-at lead (length servers) 0 servers k info e in
    let rank_is : info.rank ≡ k = ground (arith, r, l) in
    let total_is : info.total ≡ length servers = ground (arith, t) in
    let some_servers : (info.total == 0) ≡ false = ground (arith, l) in
    let same : h % info.total ≡ h % length servers = ap (λ m. h % m) total_is in
    ground (arith, some_servers, rank_is, same)

-- If nextTick says that the height `h` is due, and it is not too late in the period for the block to be
-- produced, then the height of the block's time is `h`. The tick is positive, and the time of the
-- height is within the range of a duration.
pub height_of_time-next_tick :
    (cfg : Settings) (h now elapsed : ℕ)
    → next_tick cfg h now ≡ due elapsed
    → may_produce cfg h elapsed ≡ ok true
    → 0 < cfg.tick
    → h < u32_mod
    → h * cfg.period < 2 ^ 63
    → height_of_time cfg now ≡ ok h
unfolding next_tick time_left until may_produce height_of_time height_at
height_of_time-next_tick cfg h now elapsed e m t b w =
    let exact : mul64 h cfg.period ≡ h * cfg.period = mod-eq_of_lt (ground arith) in
    let early : elapsed + cfg.tick ≤ cfg.period = ground arith in
    let at : now ≡ cfg.genesis_time + h * cfg.period + elapsed = ground (arith, exact, e) in
    let quotient : (h * cfg.period + elapsed) / cfg.period ≡ h =
      div-eq_of_lt-le cfg.period (omega arith) (omega (arith, early, t)) in
    ground (arith, at, quotient, early, t)

-- The inner loop of syncHeads ends, at the height after `now_height` or where it began, if that height
-- is not the last of the 32-bit words.
pub sync_rounds_lem :
    (d now_height next : ℕ)
    → now_height + 1 < u32_mod
    → now_height + 1 ≤ next + d
    → (last : ℕ) × (sync_rounds (suc d) now_height next ≡ some last)
      × (now_height < last)
      × (next ≤ last)
unfolding sync_rounds
sync_rounds_lem zero now_height next b f = (next, ground arith, ground arith, ground arith)
sync_rounds_lem (suc d) now_height next b f = elim (Bool-cases (leb next now_height)) [
  | inr past ↦ (next, ground arith, ground arith, ground arith)
  | inl more ↦
      let up : add32 next 1 ≡ next + 1 = ground arith in
      let (last, e, l, n) = sync_rounds_lem d now_height (add32 next 1) b (ground (arith, up)) in
      (last, ground arith, l, ground (arith, up, n))
]
