-- ===== src/Swod/Eval.antt =====
-- `swod_eval_group_locked`: when a group's window ends, and when a new one is installed.
pub mod Victim
pub mod Keeps
use redisc.Base.{
  ℕ, zero, suc, ◌+◌, ◌-◌, Bool, true, false, not, ◌&&◌, ◌||◌, Option, some, none, ltb, leb, ◌==◌,
  is_set, if◌then◌else◌, u16, sub32, add64, inc64, positive32, time_after_eq,
}
use redisc.Swod.State.{
  short_hold, completion_hold, ReleaseReason, success, timeout, pressure, GroupHint, Stats, Ctrl,
  Tunables, Sbi, is_held, group_is_active, group_deadline,
}
use redisc.Swod.Geometry.{group_first_seg, group_nsegs, max_hold_len}
use redisc.Swod.Policy.{regime_blocked}
use redisc.Swod.Group.{drop_group}
use redisc.Swod.Hold.{Candidate, install_candidate, release_group, window_ready}
use redisc.Swod.Search.{Stale, Best, Found, search_windows}

-- The window that goes on to be installed, in full width, and its action.
pub record Choice : Type 0 where
  pub best : Best
  pub is_short : Bool

abbrev pub choose : Found → Option Choice
choose f =
    if f.short.found
    then some (record { best = f.short; is_short = true })
    else if f.complete.found
    then some (record { best = f.complete; is_short = false })
    else none

abbrev pub choice_stats : Choice → Stats → Stats
choice_stats c st =
    if c.is_short
    then record st {
      capture_followup_cnt = inc64 st.capture_followup_cnt;
      capture_blocks = add64 st.capture_blocks c.best.pend_blks;
    }
    else st

-- The window that gives way: least coverage, then most live blocks, then fewest segments.
abbrev pub worse_held : GroupHint → GroupHint → Bool
worse_held a v =
    ltb a.hold_qbp v.hold_qbp
    || (a.hold_qbp == v.hold_qbp && ltb v.hold_lbp a.hold_lbp)
    || (a.hold_qbp == v.hold_qbp && a.hold_lbp == v.hold_lbp && ltb a.hold_len v.hold_len)

abbrev pub better_held_victim : Ctrl → ℕ → Option ℕ → Bool
better_held_victim sw i none = is_held (sw.grp_hint i).state
better_held_victim sw i (some v) =
    is_held (sw.grp_hint i).state && worse_held (sw.grp_hint i) (sw.grp_hint v)

unfoldable pub held_victim : Ctrl → ℕ → ℕ → Option ℕ → Option ℕ
held_victim sw zero i best = best
held_victim sw (suc n) i best =
    held_victim sw n (i + 1) (if better_held_victim sw i best then some i else best)

-- Whether the new window is worth more than the victim's.
abbrev pub beats : Best → GroupHint → Bool
beats b v =
    not (ltb b.qbp v.hold_qbp)
    && not (b.qbp == v.hold_qbp && ltb v.hold_lbp b.lbp)
    && not (b.qbp == v.hold_qbp && b.lbp == v.hold_lbp && leb b.len v.hold_len)

abbrev pub evict_held : Sbi → Tunables → Best → Ctrl → Option ℕ → Option Ctrl
evict_held sbi t b sw none = none
evict_held sbi t b sw (some v) =
    if beats b (sw.grp_hint v) then some (release_group sbi t v pressure sw) else none

-- Room for one more held window; `none` where the code returns without installing.
unfoldable pub make_hold_room : Sbi → Tunables → Best → Ctrl → Option Ctrl
unfolding held_victim
make_hold_room sbi t b sw =
    if leb t.swod_max_held_groups sw.nr_held_groups
    then evict_held sbi t b sw (held_victim sw sw.nr_groups 0 none)
    else some sw

abbrev pub gain_stats : GroupHint → Best → Stats → Stats
gain_stats g b st =
    let gain = sub32 b.qbp g.last_qbp in
    if is_held g.state && is_set g.hold_len && positive32 gain
    then record st { coverage_gain_blocks = add64 st.coverage_gain_blocks gain }
    else st

abbrev pub candidate_of : Choice → Candidate
candidate_of c = record {
  off = c.best.off;
  len = c.best.len;
  qbp = u16 c.best.qbp;
  lbp = u16 c.best.lbp;
  nr_cmds = c.best.ncmds;
  avg_piece = c.best.avg_piece;
  action = if c.is_short then short_hold else completion_hold;
}

abbrev pub install_if : Sbi → Tunables → ℕ → Choice → ℕ → Ctrl → Option Ctrl → Ctrl
install_if sbi t gid c now old none = old
install_if sbi t gid c now old (some sw) =
    install_candidate sbi t gid (candidate_of c) now
      (record sw { stats = gain_stats (sw.grp_hint gid) c.best sw.stats })

abbrev pub install_choice : Sbi → Tunables → ℕ → ℕ → Ctrl → Option Choice → Ctrl
install_choice sbi t gid now sw none = record sw {
  stats = record (sw.stats) { eval_no_candidate_cnt = inc64 sw.stats.eval_no_candidate_cnt };
}
install_choice sbi t gid now sw (some c) =
    let sw' = record sw { stats = choice_stats c sw.stats } in
    install_if sbi t gid c now sw' (make_hold_room sbi t c.best sw')

-- The part for a free group.
unfoldable pub eval_free : Sbi → Tunables → Stale → ℕ → ℕ → Ctrl → Ctrl
unfolding search_windows
eval_free sbi t stale gid now sw =
    let n = group_nsegs sw gid in
    install_choice sbi t gid now sw (
      choose
        (search_windows sbi t stale sw gid (group_first_seg sw gid) n (max_hold_len sbi sw gid)))

-- The part for a group that has a window: it ends when it is ready or its time is over.
unfoldable pub eval_active : Sbi → Tunables → ℕ → ℕ → Ctrl → Ctrl
eval_active sbi t gid now sw =
    if window_ready sbi gid sw
    then release_group sbi t gid success sw
    else if time_after_eq now (group_deadline (sw.grp_hint gid))
    then release_group sbi t gid timeout sw
    else sw

abbrev pub eval_rest : Sbi → Tunables → Stale → ℕ → ℕ → Ctrl → Ctrl
eval_rest sbi t stale gid now sw =
    if group_is_active (sw.grp_hint gid)
    then eval_active sbi t gid now sw
    else eval_free sbi t stale gid now sw

abbrev pub drop_active : Sbi → ℕ → Ctrl → Ctrl
drop_active sbi gid sw =
    if group_is_active (sw.grp_hint gid) then drop_group sbi gid pressure sw else sw

-- A window longer than the mode allows is dropped first.
abbrev pub drop_long : Sbi → ℕ → Ctrl → Ctrl
drop_long sbi gid sw =
    if ltb (max_hold_len sbi sw gid) (sw.grp_hint gid).hold_len then drop_active sbi gid sw else sw

-- `swod_eval_group_locked`.
unfoldable pub eval_group : Sbi → Tunables → Stale → ℕ → ℕ → Ctrl → Ctrl
eval_group sbi t stale gid now sw =
    if not (is_set (group_nsegs sw gid))
    then sw
    else if regime_blocked sbi t none
    then drop_active sbi gid (record sw {
      stats = record (sw.stats) { eval_blocked_cnt = inc64 sw.stats.eval_blocked_cnt };
    })
    else eval_rest sbi t stale gid now (drop_long sbi gid sw)
