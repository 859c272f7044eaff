-- ===== src/Swod/Issue.antt =====
-- `f2fs_swod_should_skip_locked`: whether the discard thread passes over a command for now.
pub mod Keeps
pub mod Delays
pub mod Sound
use redisc.Base.{
  ℕ, zero, suc, ◌+◌, ◌-◌, ◌*◌, ◌/◌, min, max, Bool, true, false, not, ◌&&◌, ◌||◌, Option, some,
  none, ltb, leb, ◌==◌, is_set, if◌then◌else◌, u32, add32, sub32, inc64, time_after_eq,
}
use redisc.Swod.State.{
  Action, bypass, short_hold, completion_hold, success, timeout, GroupHint, Stats, Ctrl, Dcc,
  Tunables, Sbi, group_is_active, group_deadline, bp_one,
}
use redisc.Swod.Geometry.{gid_of, group_first_seg}
use redisc.Swod.Policy.{enabled_ctrl}
use redisc.Swod.Hold.{release_group, window_ready}
use redisc.Swod.Lookup.{segno_of}

pub data CmdState : Type 0 where
  d_prep d_partial d_submit d_done : CmdState

-- The fields of `struct discard_cmd` that SWOD reads or writes.
pub record Cmd : Type 0 where
  pub lstart : ℕ
  pub len : ℕ
  pub state : CmdState
  pub enq_jiffies : ℕ
  pub swod_skip : ℕ

abbrev pub is_prep : CmdState → Bool
is_prep d_prep = true
is_prep _ = false

abbrev pub is_short : Action → Bool
is_short short_hold = true
is_short completion_hold = false
is_short bypass = false

abbrev pub is_bypass : Action → Bool
is_bypass bypass = true
is_bypass short_hold = false
is_bypass completion_hold = false

abbrev pub is_waiting : ℕ → GroupHint → Bool
is_waiting now g = group_is_active g && not (time_after_eq now (group_deadline g))

-- The fast path: does some group of the command, of the `n` from `gid` on, still wait?
unfoldable pub any_waiting : ℕ → Ctrl → ℕ → ℕ → Bool
any_waiting now sw zero gid = false
any_waiting now sw (suc n) gid =
    let rest = any_waiting now sw n (gid + 1) in
    if is_waiting now (sw.grp_hint gid) then true else rest

abbrev pub held_first : Ctrl → ℕ → ℕ
held_first sw gid = add32 (group_first_seg sw gid) (sw.grp_hint gid).hold_off

abbrev pub held_last : Ctrl → ℕ → ℕ
held_last sw gid = sub32 (add32 (held_first sw gid) (sw.grp_hint gid).hold_len) 1

-- The share of the command's segments that lie in the window, in basis points.
abbrev pub overlap_ratio_bp : Ctrl → ℕ → ℕ → ℕ → ℕ
overlap_ratio_bp sw gid seg0 seg1 =
    let overlap_segs =
      add32 (sub32 (min seg1 (held_last sw gid)) (max seg0 (held_first sw gid))) 1 in
    let cmd_segs = add32 (sub32 seg1 seg0) 1 in u32 (overlap_segs * bp_one / cmd_segs)

-- What a visit to one group does: stop with a skip, or go on.
pub data Visit : Type 0 where
  stop : Ctrl → Visit
  go : Bool → Ctrl → Visit

-- A skip ends the loop.
abbrev pub and_then : Visit → (Bool → Ctrl → Visit) → Visit
and_then (stop sw) rest = stop sw
and_then (go saw sw) rest = rest saw sw

abbrev pub count_skip : Ctrl → Ctrl
count_skip sw = record sw { stats = record (sw.stats) { skip_cnt = inc64 sw.stats.skip_cnt } }

abbrev pub count_timeout : Ctrl → Ctrl
count_timeout sw = record sw {
  stats = record (sw.stats) { skip_miss_timeout_cnt = inc64 sw.stats.skip_miss_timeout_cnt };
}

abbrev pub count_check : Ctrl → Ctrl
count_check sw = record sw {
  stats = record (sw.stats) { skip_check_cnt = inc64 sw.stats.skip_check_cnt };
}

abbrev count_success : Ctrl → Ctrl
count_success sw = record sw {
  stats = record (sw.stats) { skip_miss_success_cnt = inc64 sw.stats.skip_miss_success_cnt };
}

abbrev count_overlap : Ctrl → Ctrl
count_overlap sw = record sw {
  stats = record (sw.stats) { skip_miss_overlap_cnt = inc64 sw.stats.skip_miss_overlap_cnt };
}

abbrev count_overlap_bypass : Ctrl → Ctrl
count_overlap_bypass sw = record sw {
  stats = record (sw.stats) { overlap_bypass_cnt = inc64 sw.stats.overlap_bypass_cnt };
}

abbrev count_policy_bypass : Ctrl → Ctrl
count_policy_bypass sw = record sw {
  stats = record (sw.stats) { policy_bypass_cnt = inc64 sw.stats.policy_bypass_cnt };
}

abbrev pub misses : Ctrl → ℕ → ℕ → ℕ → Bool
misses sw gid seg0 seg1 = ltb seg1 (held_first sw gid) || ltb (held_last sw gid) seg0

abbrev pub overlaps_little : Tunables → Ctrl → ℕ → ℕ → ℕ → Bool
overlaps_little t sw gid seg0 seg1 =
    is_short (sw.grp_hint gid).action
    && ltb (overlap_ratio_bp sw gid seg0 seg1) t.swod_overlap_skip_ratio_bp

-- The body of the loop over the command's groups.
unfoldable pub visit_group : Sbi → Tunables → ℕ → ℕ → ℕ → ℕ → Bool → Ctrl → Visit
visit_group sbi t now seg0 seg1 gid saw sw =
    if not (group_is_active (sw.grp_hint gid))
    then go saw sw
    else if time_after_eq now (group_deadline (sw.grp_hint gid))
    then go true (release_group sbi t gid timeout (count_timeout sw))
    else if window_ready sbi gid sw
    then go true (release_group sbi t gid success (count_success sw))
    else if misses sw gid seg0 seg1
    then go true (count_overlap sw)
    else if overlaps_little t sw gid seg0 seg1
    then go true (count_overlap_bypass sw)
    else if is_bypass (sw.grp_hint gid).action
    then go true (count_policy_bypass sw)
    else stop (count_skip sw)

-- The loop, with the rounds that are left.
unfoldable pub visit_groups : Sbi → Tunables → ℕ → ℕ → ℕ → ℕ → ℕ → Bool → Ctrl → Visit
visit_groups sbi t now seg0 seg1 zero gid saw sw = go saw sw
visit_groups sbi t now seg0 seg1 (suc n) gid saw sw =
    and_then (visit_group sbi t now seg0 seg1 gid saw sw)
      (λ saw' sw'. visit_groups sbi t now seg0 seg1 n (gid + 1) saw' sw')

pub record Verdict : Type 0 where
  pub skip : Bool
  pub cmd : Cmd
  pub ctrl : Ctrl

abbrev pub verdict_of : Cmd → Visit → Verdict
verdict_of dc (stop sw) = record { skip = true; cmd = dc; ctrl = sw }
verdict_of dc (go saw sw) = record {
  skip = false;
  cmd = dc;
  ctrl = if saw then sw else record sw {
    stats = record (sw.stats) { skip_miss_noheld_cnt = inc64 sw.stats.skip_miss_noheld_cnt };
  };
}

abbrev pub seg0_of : Sbi → Cmd → ℕ
seg0_of sbi dc = segno_of sbi dc.lstart

abbrev pub seg1_of : Sbi → Cmd → ℕ
seg1_of sbi dc = segno_of sbi (sub32 (add32 dc.lstart dc.len) 1)

-- How many groups the command's loop visits.
abbrev pub group_rounds : Sbi → Cmd → Ctrl → ℕ
group_rounds sbi dc sw = gid_of sw (seg1_of sbi dc) + 1 - gid_of sw (seg0_of sbi dc)

-- The full check.
unfoldable pub check_windows : Sbi → Tunables → ℕ → Cmd → Ctrl → Verdict
unfolding visit_groups
check_windows sbi t now dc sw = verdict_of dc (
    visit_groups sbi t now (seg0_of sbi dc) (seg1_of sbi dc) (group_rounds sbi dc sw)
      (gid_of sw (seg0_of sbi dc)) false sw)

-- The path of a command that was marked when it was created: the mark is used up.
unfoldable pub check_marked : Sbi → Tunables → ℕ → Cmd → Ctrl → Verdict
unfolding any_waiting check_windows
check_marked sbi t now dc sw =
    let dc' = record dc { swod_skip = 0 } in
    if any_waiting now sw (group_rounds sbi dc sw) (gid_of sw (seg0_of sbi dc))
    then record { skip = true; cmd = dc'; ctrl = count_skip sw }
    else check_windows sbi t now dc' (count_timeout sw)

-- `f2fs_swod_should_skip_locked` where SWOD is enabled.
unfoldable pub should_skip_ctrl : Sbi → Tunables → ℕ → Cmd → Ctrl → Verdict
should_skip_ctrl sbi t now dc sw =
    let sw' = count_check sw in
    if not (is_set sw.nr_held_groups) && not (is_set dc.swod_skip)
    then record { skip = false; cmd = dc; ctrl = sw }
    else if not (is_prep dc.state)
    then record { skip = false; cmd = dc; ctrl = sw' }
    else if is_set dc.swod_skip
    then check_marked sbi t now dc sw'
    else check_windows sbi t now dc sw'

pub record Outcome : Type 0 where
  pub skipped : Bool
  pub cmd_after : Cmd
  pub dcc_after : Dcc

abbrev should_skip_in : Sbi → ℕ → Cmd → Dcc → Option Ctrl → Outcome
should_skip_in sbi now dc d none = record { skipped = false; cmd_after = dc; dcc_after = d }
should_skip_in sbi now dc d (some sw) =
    let v = should_skip_ctrl sbi d.tun now dc sw in
    record { skipped = v.skip; cmd_after = v.cmd; dcc_after = record d { swod = some v.ctrl } }

-- `f2fs_swod_should_skip_locked`; its argument `dpolicy` is not used.
unfoldable pub should_skip : Sbi → ℕ → Cmd → Dcc → Outcome
unfolding should_skip_ctrl
should_skip sbi now dc d = should_skip_in sbi now dc d (enabled_ctrl d)
