-- ===== src/Swod/Group.antt =====
-- The life of one group's window: held, parked for the garbage collector, and released.

use redisc.Base.{
  ℕ, zero, suc, ◌+◌, ◌-◌, ◌*◌, ◌/◌, false, not, ◌&&◌, ◌||◌, Option, some, none, leb, is_set,
  if◌then◌else◌, u32, add32, add64, inc64, positive32, time_before, update, fill,
}
use redisc.Swod.State.{
  normal, bypass, ReleaseReason, success, timeout, pressure, capture, mature, released_bypass,
  GroupHint, Stats, Ctrl, Sbi, is_held, is_parked, is_cold, group_is_active, bp_one,
}
use redisc.Swod.Geometry.{group_first_seg, group_nsegs}

-- The hint that `swod_clear_group_locked` leaves: every field is written.
abbrev pub idle_hint : ℕ → GroupHint
idle_hint jiffies = record {
  state = normal;
  action = bypass;
  wce_eligible = false;
  hold_off = 0;
  hold_len = 0;
  hold_qbp = 0;
  hold_lbp = 0;
  park_score = 0;
  hold_until = 0;
  park_until = 0;
  last_eval = jiffies;
  start_qbp = 0;
  start_lbp = 0;
  start_nr_cmds = 0;
  start_avg_piece = 0;
  last_qbp = 0;
  last_lbp = 0;
  last_nr_cmds = 0;
  last_avg_piece = 0;
  last_q_growth = 0;
  last_cmd_growth = 0;
}

-- The three counters of windows, as `swod_clear_group_locked` lowers them.
record Counts : Type 0 where
  nr_held : ℕ
  nr_parked : ℕ
  nr_wce : ℕ

abbrev counts_without : GroupHint → Ctrl → Counts
counts_without g sw = record {
  nr_held =
      if is_held g.state && is_set sw.nr_held_groups
      then sw.nr_held_groups - 1
      else sw.nr_held_groups;
  nr_parked =
      if is_held g.state && is_set sw.nr_held_groups
      then sw.nr_parked_groups
      else if is_parked g.state && is_set sw.nr_parked_groups
      then sw.nr_parked_groups - 1
      else sw.nr_parked_groups;
  nr_wce =
      if g.wce_eligible && positive32 sw.nr_wce_groups
      then sw.nr_wce_groups - 1
      else sw.nr_wce_groups;
}

-- The command counts are added up only for a window that was eligible for completion.
abbrev formation_stats : GroupHint → Ctrl → Stats
formation_stats g sw =
    let st = sw.stats in
    let counted = g.wce_eligible && positive32 sw.nr_wce_groups in
    if counted && is_set g.start_nr_cmds
    then record st {
      start_nr_cmds_sum = add64 st.start_nr_cmds_sum g.start_nr_cmds;
      release_nr_cmds_sum = add64 st.release_nr_cmds_sum g.last_nr_cmds;
    }
    else st

-- `swod_clear_group_locked`.
unfoldable pub clear_group : Sbi → ℕ → Ctrl → Ctrl
clear_group sbi gid sw =
    let g = sw.grp_hint gid in
    let first = group_first_seg sw gid in
    let nsegs = group_nsegs sw gid in
    let c = counts_without g sw in
    record sw {
      nr_held_groups = c.nr_held;
      nr_parked_groups = c.nr_parked;
      nr_wce_groups = c.nr_wce;
      grp_hint = update sw.grp_hint gid (idle_hint sbi.jiffies);
      hold_segmap = fill false nsegs first sw.hold_segmap;
      park_segmap = fill false nsegs first sw.park_segmap;
      wce_segmap = fill false nsegs first sw.wce_segmap;
      stats = formation_stats g sw;
    }

-- `swod_account_release`.
unfoldable pub account_release : ReleaseReason → Stats → Stats
account_release success st = record st { success_release_cnt = inc64 st.success_release_cnt }
account_release timeout st = record st { timeout_release_cnt = inc64 st.timeout_release_cnt }
account_release pressure st = record st { pressure_release_cnt = inc64 st.pressure_release_cnt }
account_release capture st = record st { capture_release_cnt = inc64 st.capture_release_cnt }
account_release mature st = record st { mature_release_cnt = inc64 st.mature_release_cnt }
account_release released_bypass st = record st { bypass_release_cnt = inc64 st.bypass_release_cnt }

-- `swod_drop_group_locked`.
unfoldable pub drop_group : Sbi → ℕ → ReleaseReason → Ctrl → Ctrl
unfolding account_release
drop_group sbi gid why sw = clear_group sbi gid (record sw { stats = account_release why sw.stats })

-- What `swod_collect_window_locked` adds up over a window.
pub record Sample : Type 0 where
  pub q : ℕ
  pub l : ℕ
  pub cold : ℕ
  pub oldest : ℕ

-- The older of the oldest time so far and a segment's, where 0 is no time.
abbrev pub older : ℕ → ℕ → ℕ
older old new = if is_set new && (not (is_set old) || time_before new old) then new else old

abbrev add_seg : Sbi → Ctrl → ℕ → Sample → Sample
add_seg sbi sw segno acc = record {
  q = add32 acc.q (sw.seg_hint segno).pend_blks;
  l = add32 acc.l (sbi.valid_blocks segno);
  cold = if is_cold (sbi.seg_type segno) then acc.cold + 1 else acc.cold;
  oldest = older acc.oldest (sw.seg_hint segno).oldest_jiffies;
}

-- The loop, for the rounds that are left; `none` is the early `return false`.
unfoldable pub collect_segs : Sbi → Ctrl → ℕ → ℕ → Sample → Option Sample
collect_segs sbi sw zero segno acc = some acc
collect_segs sbi sw (suc n) segno acc =
    let rest = collect_segs sbi sw n (add32 segno 1) (add_seg sbi sw segno acc) in
    if leb sw.nr_main_segs segno then none else rest

pub record WindowScore : Type 0 where
  pub qbp : ℕ
  pub lbp : ℕ
  pub cold_cnt : ℕ
  pub oldest : ℕ

abbrev score_sample : ℕ → Option Sample → Option WindowScore
score_sample cap none = none
score_sample cap (some s) =
    if is_set cap
    then some (record {
      qbp = u32 (s.q * bp_one / cap);
      lbp = u32 (s.l * bp_one / cap);
      cold_cnt = s.cold;
      oldest = s.oldest;
    })
    else none

-- `swod_collect_window_locked`.
unfoldable pub collect_window : Sbi → ℕ → Ctrl → Option WindowScore
unfolding collect_segs
collect_window sbi gid sw =
    let g = sw.grp_hint gid in
    let segno = add32 (group_first_seg sw gid) g.hold_off in
    if not (group_is_active g) || not (is_set g.hold_len)
    then none
    else score_sample (g.hold_len * sbi.blocks_per_seg)
        (collect_segs sbi sw g.hold_len segno (record { q = 0; l = 0; cold = 0; oldest = 0 }))
