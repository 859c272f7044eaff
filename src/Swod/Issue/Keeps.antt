-- ===== src/Swod/Issue/Keeps.antt =====
-- `f2fs_swod_should_skip_locked` and the invariant.
use redisc.Base.{
  ℕ, zero, suc, ◌+◌, ◌≤◌, ◌<◌, inl, inr, Bool, true, false, not, ◌&&◌, Bool-cases, arith, is_set,
  time_after_eq,
}
use redisc.Swod.State.{Ctrl, Sbi, Tunables, success, timeout, group_is_active, group_deadline}
use redisc.Swod.Geometry.{gid_of}
use redisc.Swod.Hold.{window_ready}
use redisc.Swod.Inv.Stays.{Stays, Stays-refl, Stays-trans, Keeps-Stays, stats-Stays}
use redisc.Swod.Inv.{Inv}
use redisc.Swod.Inv.Release.{release_group-Keeps}
use redisc.Swod.Issue.{
  Cmd, Visit, stop, go, visit_group, visit_groups, verdict_of, and_then, misses, overlaps_little,
  is_bypass, any_waiting, check_windows, check_marked, should_skip_ctrl, group_rounds, seg0_of,
  seg1_of, is_prep,
}

abbrev VisitStays : Ctrl → Visit → Type 0
VisitStays sw (stop sw') = Stays sw sw'
VisitStays sw (go saw sw') = Stays sw sw'

VisitStays-trans : {a b : Ctrl} → Stays a b → (r : Visit) → VisitStays b r → VisitStays a r
VisitStays-trans s (stop sw') k = Stays-trans s k
VisitStays-trans s (go saw sw') k = Stays-trans s k

and_then-Stays :
    {sw : Ctrl} (r : Visit) (rest : Bool → Ctrl → Visit)
    → VisitStays sw r
    → ((saw : Bool) (sw' : Ctrl) → Stays sw sw' → VisitStays sw' (rest saw sw'))
    → VisitStays sw (and_then r rest)
and_then-Stays (stop sw') rest s k = s
and_then-Stays (go saw sw') rest s k = VisitStays-trans s (rest saw sw') (k saw sw' s)

module _ (sbi : Sbi) (t : Tunables) (now seg0 seg1 : ℕ) where
  visit_group-Stays :
      (gid : ℕ) (saw : Bool) {sw : Ctrl}
      → Inv sw
      → gid < sw.nr_groups
      → VisitStays sw (visit_group sbi t now seg0 seg1 gid saw sw)
  unfolding visit_group
  visit_group-Stays gid saw {sw} v h = elim (Bool-cases (not (group_is_active (sw.grp_hint gid)))) [
    | inl idle ↦ rw idle (Stays-refl v)
    | inr active ↦ elim (Bool-cases (time_after_eq now (group_deadline (sw.grp_hint gid)))) [
      | inl over ↦
          rw (active, over)
            (let s = stats-Stays v _ in
              Stays-trans s (Keeps-Stays (release_group-Keeps sbi t gid timeout s.inv h)))
      | inr early ↦ elim (Bool-cases (window_ready sbi gid sw)) [
        | inl ready ↦
            rw (active, early, ready)
              (let s = stats-Stays v _ in
                Stays-trans s (Keeps-Stays (release_group-Keeps sbi t gid success s.inv h)))
        | inr open_ ↦ elim (Bool-cases (misses sw gid seg0 seg1)) [
          | inl miss ↦ rw (active, early, open_, miss) (stats-Stays v _)
          | inr hit ↦ elim (Bool-cases (overlaps_little t sw gid seg0 seg1)) [
            | inl little ↦ rw (active, early, open_, hit, little) (stats-Stays v _)
            | inr much ↦ elim (Bool-cases (is_bypass (sw.grp_hint gid).action)) [
              | inl by ↦ rw (active, early, open_, hit, much, by) (stats-Stays v _)
              | inr holds ↦ rw (active, early, open_, hit, much, holds) (stats-Stays v _)
            ]
          ]
        ]
      ]
    ]
  ]

  visit_groups-Stays :
      (n gid : ℕ) (saw : Bool) {sw : Ctrl}
      → Inv sw
      → gid + n ≤ sw.nr_groups
      → VisitStays sw (visit_groups sbi t now seg0 seg1 n gid saw sw)
  unfolding visit_groups
  visit_groups-Stays zero gid saw v h = Stays-refl v
  visit_groups-Stays (suc n) gid saw {sw} v h =
      and_then-Stays _ _ (visit_group-Stays gid saw v (omega arith))
        (λ saw' sw' s. visit_groups-Stays n (gid + 1) saw' s.inv (rw (s.same_groups) (omega arith)))

verdict-Stays :
    {sw : Ctrl} (dc : Cmd) (r : Visit) → VisitStays sw r → Stays sw (verdict_of dc r).ctrl
verdict-Stays dc (stop sw') s = s
verdict-Stays dc (go true sw') s = s
verdict-Stays dc (go false sw') s = Stays-trans s (stats-Stays s.inv _)

-- The command lies in the main area, and does not wrap round.
abbrev pub InMain : Sbi → Cmd → Ctrl → Type 0
InMain sbi dc sw =
    (gid_of sw (seg0_of sbi dc) ≤ gid_of sw (seg1_of sbi dc))
    × (gid_of sw (seg1_of sbi dc) < sw.nr_groups)

module _ (sbi : Sbi) (t : Tunables) (now : ℕ) where
  check_windows-Stays :
      (dc : Cmd) {sw : Ctrl}
      → Inv sw
      → InMain sbi dc sw
      → Stays sw (check_windows sbi t now dc sw).ctrl
  unfolding check_windows
  check_windows-Stays dc {sw} v m = verdict-Stays dc _ (
      visit_groups-Stays sbi t now (seg0_of sbi dc) (seg1_of sbi dc) (group_rounds sbi dc sw)
        (gid_of sw (seg0_of sbi dc)) false v (omega arith))

  check_marked-Stays :
      (dc : Cmd) {sw : Ctrl}
      → Inv sw
      → InMain sbi dc sw
      → Stays sw (check_marked sbi t now dc sw).ctrl
  unfolding check_marked
  check_marked-Stays dc {sw} v m =
      elim (Bool-cases (any_waiting now sw (group_rounds sbi dc sw) (gid_of sw (seg0_of sbi dc)))) [
        | inl waits ↦ rw waits (stats-Stays v _)
        | inr over ↦ rw over (
            let s = stats-Stays v _ in
            Stays-trans s (check_windows-Stays (record dc { swod_skip = 0 }) s.inv m))
      ]

  -- Under the invariant, f2fs_swod_should_skip_locked on a command whose groups are in order and in
  -- the main area keeps the invariant and the layout, on every path.
  pub should_skip-Stays :
      (dc : Cmd) {sw : Ctrl}
      → Inv sw
      → InMain sbi dc sw
      → Stays sw (should_skip_ctrl sbi t now dc sw).ctrl
  unfolding should_skip_ctrl
  should_skip-Stays dc {sw} v m =
      elim (Bool-cases (not (is_set sw.nr_held_groups) && not (is_set dc.swod_skip))) [
        | inl fast ↦ rw fast (Stays-refl v)
        | inr slow ↦ elim (Bool-cases (not (is_prep dc.state))) [
          | inl issued ↦ rw (slow, issued) (stats-Stays v _)
          | inr pending ↦ elim (Bool-cases (is_set dc.swod_skip)) [
            | inl marked ↦
                rw (slow, pending, marked)
                  (let s = stats-Stays v _ in Stays-trans s (check_marked-Stays dc s.inv m))
            | inr plain ↦
                rw (slow, pending, plain)
                  (let s = stats-Stays v _ in Stays-trans s (check_windows-Stays dc s.inv m))
          ]
        ]
      ]
