-- ===== src/Swod/Hold.antt =====
-- A window is installed, parked, or released: `swod_install_candidate`,
-- `swod_try_park_group_locked`, `swod_release_group_locked`, `swod_window_ready_locked`.
pub mod Victim
use redisc.Base.{
  ℕ, zero, suc, ◌+◌, ◌-◌, min, Bool, true, false, not, ◌&&◌, ◌||◌, Option, some, none, ltb, leb,
  ◌==◌, is_set, if◌then◌else◌, u16, add32, add64, inc64, positive32, update, fill,
}
use redisc.Swod.State.{
  normal, held, parked, Action, bypass, short_hold, completion_hold, ReleaseReason, success,
  timeout, pressure, capture, mature, released_bypass, GroupHint, Stats, Ctrl, Tunables, Sbi,
  is_held, is_parked, group_is_active, wce_park_lres_cap_bp,
}
use redisc.Swod.Geometry.{group_first_seg}
use redisc.Swod.Policy.{
  calc_hold_ms, calc_park_ms, park_budget, calc_park_score, calc_short_hold_ms,
}
use redisc.Swod.Group.{drop_group, collect_window, WindowScore}

abbrev pub is_completion : Action → Bool
is_completion completion_hold = true
is_completion short_hold = false
is_completion bypass = false

abbrev hold_ms : Sbi → Tunables → Action → ℕ → ℕ → ℕ → ℕ
hold_ms sbi t short_hold len qbp lbp = calc_short_hold_ms sbi t
hold_ms sbi t completion_hold len qbp lbp = calc_hold_ms t len qbp lbp
hold_ms sbi t bypass len qbp lbp = calc_hold_ms t len qbp lbp

abbrev action_stats : Action → Stats → Stats
action_stats short_hold st = record st { short_hold_cnt = inc64 st.short_hold_cnt }
action_stats completion_hold st = record st { completion_hold_cnt = inc64 st.completion_hold_cnt }
action_stats bypass st = st

abbrev install_stats : Bool → Action → Stats → Stats
install_stats eligible action st =
    let s0 =
      (if eligible then record st { wce_eligible_cnt = inc64 st.wce_eligible_cnt } else st) in
    let s1 = action_stats action s0 in record s1 { hold_cnt = inc64 s1.hold_cnt }

-- A window that the evaluation has chosen: `qbp`, `lbp`, `nr_cmds` and `avg_piece` have 16 bits.
pub record Candidate : Type 0 where
  pub off : ℕ
  pub len : ℕ
  pub qbp : ℕ
  pub lbp : ℕ
  pub nr_cmds : ℕ
  pub avg_piece : ℕ
  pub action : Action

abbrev pub candidate_eligible : Tunables → Candidate → Bool
candidate_eligible t c =
    is_completion c.action && leb t.swod_wce_qcov_thr_bp c.qbp && leb c.lbp t.swod_wce_lres_thr_bp

abbrev pub held_hint : Sbi → Tunables → Candidate → ℕ → GroupHint
held_hint sbi t c now = record {
  state = held;
  action = c.action;
  wce_eligible = candidate_eligible t c;
  hold_off = u16 c.off;
  hold_len = u16 c.len;
  hold_qbp = c.qbp;
  hold_lbp = c.lbp;
  park_score = 0;
  hold_until = add64 now (sbi.msecs_to_jiffies (hold_ms sbi t c.action c.len c.qbp c.lbp));
  park_until = 0;
  last_eval = now;
  start_qbp = c.qbp;
  start_lbp = c.lbp;
  start_nr_cmds = c.nr_cmds;
  start_avg_piece = c.avg_piece;
  last_qbp = c.qbp;
  last_lbp = c.lbp;
  last_nr_cmds = c.nr_cmds;
  last_avg_piece = c.avg_piece;
  last_q_growth = 0;
  last_cmd_growth = 0;
}

-- `swod_install_candidate`, which always returns true.
unfoldable pub install_candidate : Sbi → Tunables → ℕ → Candidate → ℕ → Ctrl → Ctrl
install_candidate sbi t gid c now sw =
    let from = add32 (group_first_seg sw gid) c.off in
    let eligible = candidate_eligible t c in
    record sw {
      grp_hint = update sw.grp_hint gid (held_hint sbi t c now);
      nr_wce_groups = if eligible then add32 sw.nr_wce_groups 1 else sw.nr_wce_groups;
      nr_held_groups = add32 sw.nr_held_groups 1;
      hold_segmap = fill true c.len from sw.hold_segmap;
      park_segmap = fill false c.len from sw.park_segmap;
      wce_segmap = fill eligible c.len from sw.wce_segmap;
      stats = install_stats eligible c.action sw.stats;
    }

-- The group to evict when the budget of parked windows is used up: the first with the least score.
abbrev pub better_park_victim : Ctrl → ℕ → Option ℕ → Bool
better_park_victim sw i none = is_parked (sw.grp_hint i).state
better_park_victim sw i (some v) =
    is_parked (sw.grp_hint i).state && ltb (sw.grp_hint i).park_score (sw.grp_hint v).park_score

unfoldable pub park_victim : Ctrl → ℕ → ℕ → Option ℕ → Option ℕ
park_victim sw zero i best = best
park_victim sw (suc n) i best =
    park_victim sw n (i + 1) (if better_park_victim sw i best then some i else best)

-- The reasons for which a window may be parked.
abbrev pub may_park : ReleaseReason → Bool
may_park timeout = true
may_park pressure = true
may_park success = false
may_park capture = false
may_park mature = false
may_park released_bypass = false

-- Covered enough, with some live blocks left, but not many.
abbrev pub worth_parking : Tunables → WindowScore → Bool
worth_parking t w =
    leb t.swod_qcov_thr_bp w.qbp
    && is_set w.lbp
    && leb w.lbp (min wce_park_lres_cap_bp (add32 t.swod_lres_thr_bp 1000))

abbrev pub parked_hint : Sbi → Tunables → WindowScore → ℕ → GroupHint → GroupHint
parked_hint sbi t w now g = record g {
  state = parked;
  hold_qbp = u16 w.qbp;
  hold_lbp = u16 w.lbp;
  park_score = calc_park_score sbi g.hold_len w.qbp w.lbp w.cold_cnt w.oldest now;
  hold_until = 0;
  park_until = add64 now (sbi.msecs_to_jiffies (calc_park_ms t g.hold_len w.qbp w.lbp));
  last_eval = now;
  wce_eligible = false;
}

-- The second half of `swod_try_park_group_locked`: a held window becomes a parked one.
unfoldable pub park_group : Sbi → Tunables → ℕ → WindowScore → ℕ → Ctrl → Ctrl
park_group sbi t gid w now sw =
    let g = sw.grp_hint gid in
    let from = add32 (group_first_seg sw gid) g.hold_off in
    record sw {
      nr_held_groups =
          if is_set sw.nr_held_groups then sw.nr_held_groups - 1 else sw.nr_held_groups;
      nr_wce_groups =
          if g.wce_eligible && positive32 sw.nr_wce_groups
          then sw.nr_wce_groups - 1
          else sw.nr_wce_groups;
      hold_segmap = fill false g.hold_len from sw.hold_segmap;
      wce_segmap = fill false g.hold_len from sw.wce_segmap;
      park_segmap = fill true g.hold_len from sw.park_segmap;
      grp_hint = update sw.grp_hint gid (parked_hint sbi t w now g);
      nr_parked_groups = add32 sw.nr_parked_groups 1;
    }

-- Room for one more parked window, by evicting a cheaper one where the budget is used up.
abbrev pub evict_for : Sbi → ℕ → Ctrl → Option ℕ → Option Ctrl
evict_for sbi score sw none = none
evict_for sbi score sw (some v) =
    if leb score (sw.grp_hint v).park_score then none else some (drop_group sbi v pressure sw)

unfoldable pub make_park_room : Sbi → Tunables → ℕ → Ctrl → Option Ctrl
make_park_room sbi t score sw =
    if leb (park_budget t) sw.nr_parked_groups
    then evict_for sbi score sw (park_victim sw sw.nr_groups 0 none)
    else some sw

abbrev pub park_into : Sbi → Tunables → ℕ → WindowScore → ℕ → Option Ctrl → Option Ctrl
park_into sbi t gid w now none = none
park_into sbi t gid w now (some sw) = some (park_group sbi t gid w now sw)

abbrev pub park_scored : Sbi → Tunables → ℕ → ℕ → Ctrl → Option WindowScore → Option Ctrl
park_scored sbi t gid now sw none = none
park_scored sbi t gid now sw (some w) =
    let len = (sw.grp_hint gid).hold_len in
    let score = calc_park_score sbi len w.qbp w.lbp w.cold_cnt w.oldest now in
    if worth_parking t w then park_into sbi t gid w now (make_park_room sbi t score sw) else none

-- `swod_try_park_group_locked`: `none` where it returns false, having changed nothing.
unfoldable pub try_park_group : Sbi → Tunables → ℕ → ReleaseReason → ℕ → Ctrl → Option Ctrl
try_park_group sbi t gid why now sw =
    if not (is_held (sw.grp_hint gid).state)
    then none
    else if not (may_park why)
    then none
    else park_scored sbi t gid now sw (collect_window sbi gid sw)

abbrev pub parked_or_dropped : Sbi → ℕ → ReleaseReason → Ctrl → Option Ctrl → Ctrl
parked_or_dropped sbi gid why sw none = drop_group sbi gid why sw
parked_or_dropped sbi gid why sw (some sw') = sw'

-- `swod_release_group_locked`.
unfoldable pub release_group : Sbi → Tunables → ℕ → ReleaseReason → Ctrl → Ctrl
release_group sbi t gid why sw =
    parked_or_dropped sbi gid why sw (try_park_group sbi t gid why sbi.jiffies sw)

-- The loop of `swod_window_ready_locked`, for the rounds that are left.
unfoldable pub segs_ready : Sbi → Ctrl → ℕ → ℕ → Bool
segs_ready sbi sw zero segno = true
segs_ready sbi sw (suc n) segno =
    let rest = segs_ready sbi sw n (add32 segno 1) in
    if leb sw.nr_main_segs segno
    then false
    else if not ((sw.seg_hint segno).pend_blks == sbi.blocks_per_seg)
    then false
    else if is_set (sbi.valid_blocks segno)
    then false
    else rest

-- `swod_window_ready_locked`.
unfoldable pub window_ready : Sbi → ℕ → Ctrl → Bool
window_ready sbi gid sw =
    let g = sw.grp_hint gid in
    if not (group_is_active g) || not (is_set g.hold_len)
    then false
    else segs_ready sbi sw g.hold_len (add32 (group_first_seg sw gid) g.hold_off)
