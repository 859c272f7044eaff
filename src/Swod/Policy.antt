-- ===== src/Swod/Policy.antt =====
-- The decisions that only compute a number or a yes: when SWOD stands back, how long it holds and
-- parks, and how it scores a window.
pub mod Laws
use redisc.Base.{
  ℕ, ◌+◌, ◌-◌, ◌*◌, ◌/◌, ◌%◌, ◌^◌, min, max, Bool, true, false, not, ◌&&◌, ◌||◌, Option, some, none,
  ltb, leb, is_set, if◌then◌else◌, u16, u32, u64, add32, sub32, mul32, add64, sub64, positive16,
  time_after,
}
use redisc.Swod.State.{
  Sbi, Tunables, Dcc, Ctrl, GcMode, DpolicyType, dpolicy_bg, dpolicy_force, dpolicy_fstrim,
  dpolicy_umount, bp_one, wce_park_min_ms, wce_park_max_ms,
}
use redisc.Swod.Geometry.{is_urgent}

-- `swod_enabled`, with the control block that the caller goes on to use.
abbrev pub enabled_ctrl : Dcc → Option Ctrl
enabled_ctrl d = if is_set d.swod_enable then d.swod else none

abbrev is_shaping : Sbi → Option DpolicyType → Bool
is_shaping sbi none = true
is_shaping sbi (some dpolicy_bg) = true
is_shaping sbi (some _) = is_urgent sbi.gc_mode

-- An `int`, as a 32-bit pattern.
unfoldable pub utilization : Sbi → ℕ
utilization sbi = u32 (u64 (sbi.valid_user_blocks * 100) / sbi.user_block_count)

-- `f2fs_available_free_memory(sbi, DISCARD_CACHE)`.
unfoldable pub discard_cache_fits : Sbi → Tunables → Bool
discard_cache_fits sbi t =
    if sbi.has_nm_info
    then ltb (sbi.discard_cmd_pages t.discard_cmd_cnt) (u64 (sbi.avail_ram * sbi.ram_thresh) / 100)
    else true

-- `swod_regime_blocked`, where the control block is there.
unfoldable pub regime_blocked : Sbi → Tunables → Option DpolicyType → Bool
unfolding utilization discard_cache_fits
regime_blocked sbi t policy =
    if not (is_set t.swod_enable)
    then true
    else if not (is_shaping sbi policy)
    then true
    else if ltb 80 (utilization sbi) && ltb (utilization sbi) (2 ^ 31)
    then true
    else not (discard_cache_fits sbi t)

-- The additions to the base hold time: for length, coverage and few live blocks.
hold_bonus : Tunables → ℕ → ℕ → ℕ → ℕ
hold_bonus t run_len qcov_bp lres_bp =
    let h0 = t.swod_hold_min_ms in
    let h1 = (if ltb 1 run_len then add32 h0 (mul32 (sub32 run_len 1) 10) else h0) in
    let h2 =
      (if ltb t.swod_qcov_thr_bp qcov_bp
        then add32 h1 ((qcov_bp - t.swod_qcov_thr_bp) / 100)
        else h1) in
    if ltb lres_bp t.swod_lres_thr_bp then add32 h2 ((t.swod_lres_thr_bp - lres_bp) / 100) else h2

-- `swod_calc_hold_ms`.
unfoldable pub calc_hold_ms : Tunables → ℕ → ℕ → ℕ → ℕ
unfolding hold_bonus
calc_hold_ms t run_len qcov_bp lres_bp =
    let h0 = hold_bonus t run_len qcov_bp lres_bp in
    let h1 =
      (if is_set t.swod_hold_scale_bp
        then u32 (u64 (h0 * t.swod_hold_scale_bp) / bp_one)
        else h0) in
    let h2 = (if ltb h1 t.swod_hold_min_ms then t.swod_hold_min_ms else h1) in
    if ltb t.swod_hold_max_ms h2 then t.swod_hold_max_ms else h2

-- `swod_calc_park_ms`.
unfoldable pub calc_park_ms : Tunables → ℕ → ℕ → ℕ → ℕ
calc_park_ms t run_len qcov_bp lres_bp =
    let p0 = mul32 (calc_hold_ms t run_len qcov_bp lres_bp) 4 in
    let p1 = (if ltb p0 t.swod_hold_max_ms then t.swod_hold_max_ms else p0) in
    let p2 = (if ltb p1 wce_park_min_ms then wce_park_min_ms else p1) in
    if ltb wce_park_max_ms p2 then wce_park_max_ms else p2

abbrev pub park_budget : Tunables → ℕ
park_budget t = max 4 (t.swod_max_held_groups / 2)

-- `swod_calc_park_score`: 64-bit arithmetic from `age_ms` on, returned in 32 bits.
unfoldable pub calc_park_score : Sbi → ℕ → ℕ → ℕ → ℕ → ℕ → ℕ → ℕ
calc_park_score sbi len qbp lbp cold_cnt oldest now =
    let a0 =
      (if is_set oldest && not (time_after oldest now)
        then sbi.jiffies_to_msecs (sub64 now oldest)
        else 0) in
    let age_ms = (if ltb 1000 a0 then 1000 else a0) in
    u32 (
      add32 (add32 (add32 (mul32 cold_cnt 100_000) (mul32 len 10_000)) (mul32 qbp 2))
        (bp_one - min lbp bp_one)
      + age_ms)

-- `swod_calc_short_hold_ms`.
unfoldable pub calc_short_hold_ms : Sbi → Tunables → ℕ
calc_short_hold_ms sbi t =
    let hold = t.swod_short_hold_min_ms in
    let range = sub32 t.swod_short_hold_max_ms hold in
    if is_set range then add32 hold (sbi.random_u32 % range) else hold

-- `swod_score_formation`. The growths are 16-bit patterns; the score is never negative.
unfoldable pub score_formation : Tunables → ℕ → ℕ → ℕ → ℕ
score_formation t avg_piece q_growth cmd_growth =
    let small = is_set avg_piece && leb avg_piece t.swod_frag_max_avg_piece_blks in
    (if small then 1000 else 0)
    + (if positive16 q_growth then q_growth / 10 else 0)
    + (if positive16 cmd_growth then cmd_growth * 100 else 0)
