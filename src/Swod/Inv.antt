-- ===== src/Swod/Inv.antt =====
-- The invariant of the control block: counters, hints and bitmaps tell the same story.
pub mod Replace
pub mod Clear
pub mod Window
pub mod Install
pub mod Park
pub mod Release
pub mod Stays
use redisc.Base.{ℕ, ◌+◌, ◌-◌, ◌*◌, ◌/◌, ◌≤◌, ◌<◌, ◌≡◌, Bool, true, ◌&&◌, count, in_range}
use redisc.Swod.State.{Ctrl, GroupHint, is_held, is_parked, group_is_active}
use redisc.Swod.Geometry.{gid_of, group_nsegs}
use redisc.Swod.Geometry.Laws.{IsLaidOut}

abbrev pub hint_held : GroupHint → Bool
hint_held g = is_held g.state

abbrev pub hint_parked : GroupHint → Bool
hint_parked g = is_parked g.state

abbrev pub hint_eligible : GroupHint → Bool
hint_eligible g = g.wce_eligible

-- Whether a segment is in the window of its group, where that window passes `p`.
abbrev pub mark : (GroupHint → Bool) → Ctrl → ℕ → Bool
mark p sw s =
    let gid = gid_of sw s in
    let g = sw.grp_hint gid in p g && in_range (gid * sw.win_segs + g.hold_off) g.hold_len s

-- An active window is not empty and lies in its group of `n` segments; only a held one is eligible
-- for completion.
pub record IsConsistent (n : ℕ) (g : GroupHint) : Type 0 where
  pub window : group_is_active g ≡ true → (0 < g.hold_len) × (g.hold_off + g.hold_len ≤ n)
  pub eligible : g.wce_eligible ≡ true → is_held g.state ≡ true

pub record Inv (sw : Ctrl) : Type 0 where
  pub layout : IsLaidOut sw
  pub held_count : sw.nr_held_groups ≡ count hint_held sw.nr_groups sw.grp_hint
  pub parked_count : sw.nr_parked_groups ≡ count hint_parked sw.nr_groups sw.grp_hint
  pub wce_count : sw.nr_wce_groups ≡ count hint_eligible sw.nr_groups sw.grp_hint
  pub hints : (gid : ℕ) → gid < sw.nr_groups → IsConsistent (group_nsegs sw gid) (sw.grp_hint gid)
  pub hold_bits : (s : ℕ) → s < sw.nr_main_segs → sw.hold_segmap s ≡ mark hint_held sw s
  pub park_bits : (s : ℕ) → s < sw.nr_main_segs → sw.park_segmap s ≡ mark hint_parked sw s
  pub wce_bits : (s : ℕ) → s < sw.nr_main_segs → sw.wce_segmap s ≡ mark hint_eligible sw s
