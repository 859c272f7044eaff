-- ===== src/Swod/Inv/Window.antt =====
-- The bits of one window, inside its group.
use redisc.Base.{
  ℕ, ◌+◌, ◌*◌, ◌^◌, ◌≤◌, ◌<◌, ◌≡◌, Bool, true, arith, ◌==◌, if◌then◌else◌, add32, u16, fill,
  fill_lem, in_range, count-le,
}
use redisc.Swod.State.{Ctrl}
use redisc.Swod.Geometry.{gid_of, group_first_seg, group_nsegs}
use redisc.Swod.Geometry.Laws.{group_bounds, group_partition, first-eq, groups-le}
use redisc.Swod.Inv.{Inv, hint_held, hint_parked, hint_eligible}

module _ {sw : Ctrl} (v : Inv sw) (gid : ℕ) (h : gid < sw.nr_groups) where
  module _ (off len : ℕ) (fits : off + len ≤ group_nsegs sw gid) where
    pub fill_window :
        (b : Bool) (map : ℕ → Bool) (s : ℕ)
        → fill b len (add32 (group_first_seg sw gid) off) map s
          ≡ (if in_range (gid * sw.win_segs + off) len s then b else map s)
    fill_window b map s = ground (
      arith,
      fill_lem b len (add32 (group_first_seg sw gid) off) map s,
      group_bounds v.layout gid h,
      first-eq v.layout gid h,
      v.layout.main_small,
    )

    -- A segment of the window is a segment of the group.
    pub window_in_group :
        (s : ℕ)
        → s < sw.nr_main_segs
        → in_range (gid * sw.win_segs + off) len s ≡ true
        → (gid_of sw s == gid) ≡ true
    window_in_group s l e = ground (
      arith,
      group_bounds v.layout gid h,
      first-eq v.layout gid h,
      (group_partition v.layout s gid l h).1,
    )

    pub window_small : (u16 off ≡ off) × (u16 len ≡ len)
    window_small = omega (arith, group_bounds v.layout gid h)

  -- A held window is above the parked ones: the counters stay far from wrapping.
  pub counters_small :
      (sw.nr_held_groups < 2 ^ 31) × (sw.nr_parked_groups < 2 ^ 31) × (sw.nr_wce_groups < 2 ^ 31)
  counters_small = omega (
    arith,
    v.held_count,
    v.parked_count,
    v.wce_count,
    count-le hint_held sw.nr_groups sw.grp_hint,
    count-le hint_parked sw.nr_groups sw.grp_hint,
    count-le hint_eligible sw.nr_groups sw.grp_hint,
    groups-le v.layout,
    v.layout.main_small,
  )
