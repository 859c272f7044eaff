-- ===== src/Swod/Issue/Sound.antt =====
-- Why a command is passed over: `f2fs_swod_should_skip_locked` against the windows.
use redisc.Base.{
  ℕ, zero, suc, ◌+◌, ◌≤◌, ◌<◌, ◌≡◌, refl, ◌∙◌, inl, inr, true, false, not, ◌&&◌, Bool-cases, arith,
  is_set,
}
use redisc.Swod.State.{Ctrl, Sbi, Tunables}
use redisc.Swod.Geometry.{gid_of}
use redisc.Swod.Issue.{
  Cmd, Visit, stop, go, visit_groups, verdict_of, is_waiting, any_waiting, check_windows,
  check_marked, should_skip_ctrl, group_rounds, seg0_of, seg1_of, is_prep, count_timeout,
  count_check,
}
use redisc.Swod.Issue.Delays.{Delays, StopsAt, visit_groups-StopsAt}

any_waiting-witness :
    (now : ℕ) (sw : Ctrl) (n gid : ℕ)
    → any_waiting now sw n gid ≡ true
    → (j : ℕ) × (gid ≤ j) × (j < gid + n) × (is_waiting now (sw.grp_hint j) ≡ true)
unfolding any_waiting
any_waiting-witness now sw zero gid e = cc
any_waiting-witness now sw (suc n) gid e = elim (Bool-cases (is_waiting now (sw.grp_hint gid))) [
  | inl here ↦ (gid, omega arith, omega arith, here)
  | inr not_here ↦
      let (j, l, h, w) = any_waiting-witness now sw n (gid + 1) (rw not_here at e) in
      (j, omega arith, omega arith, w)
]

module _ (sbi : Sbi) (t : Tunables) (now : ℕ) where
  -- The groups of the command are those of `sw`; the windows are those of the state after the call.
  abbrev pub DelayedIn : Cmd → Ctrl → Ctrl → Type 0
  DelayedIn dc sw after =
      (gid : ℕ) × (gid_of sw (seg0_of sbi dc) ≤ gid)
      × (gid ≤ gid_of sw (seg1_of sbi dc))
      × Delays sbi t now (seg0_of sbi dc) (seg1_of sbi dc) after gid

  abbrev pub WaitsIn : Cmd → Ctrl → Ctrl → Type 0
  WaitsIn dc sw after =
      (gid : ℕ) × (gid_of sw (seg0_of sbi dc) ≤ gid)
      × (gid ≤ gid_of sw (seg1_of sbi dc))
      × (is_waiting now (after.grp_hint gid) ≡ true)

  verdict-Delays :
      (dc : Cmd) (sw : Ctrl) (r : Visit)
      → StopsAt sbi t now
          (seg0_of sbi dc)
          (seg1_of sbi dc)
          (gid_of sw (seg0_of sbi dc))
          (gid_of sw (seg0_of sbi dc) + group_rounds sbi dc sw)
          r
      → (verdict_of dc r).skip ≡ true
      → DelayedIn dc sw (verdict_of dc r).ctrl
  verdict-Delays dc sw (go saw sw') k e = cc
  verdict-Delays dc sw (stop sw') (gid, l, h, d) e = (gid, l, omega arith, d)

  pub check_windows-Delays :
      (dc : Cmd) (sw : Ctrl)
      → (check_windows sbi t now dc sw).skip ≡ true
      → DelayedIn dc sw (check_windows sbi t now dc sw).ctrl
  unfolding check_windows
  check_windows-Delays dc sw e =
      verdict-Delays dc sw _
        (visit_groups-StopsAt sbi t now (seg0_of sbi dc) (seg1_of sbi dc) (group_rounds sbi dc sw)
          (gid_of sw (seg0_of sbi dc)) false sw)
        e

  Delayed-Waits : (dc : Cmd) (sw after : Ctrl) → DelayedIn dc sw after → WaitsIn dc sw after
  Delayed-Waits dc sw after (gid, l, h, d) = (gid, l, h, d.waits)

  cmd-check_windows : (dc : Cmd) (sw : Ctrl) → (check_windows sbi t now dc sw).cmd ≡ dc
  unfolding check_windows
  cmd-check_windows dc sw = cmd-verdict (
      visit_groups sbi t now (seg0_of sbi dc) (seg1_of sbi dc) (group_rounds sbi dc sw)
        (gid_of sw (seg0_of sbi dc)) false sw)
    where
      cmd-verdict : (r : Visit) → (verdict_of dc r).cmd ≡ dc
      cmd-verdict (stop sw') = refl
      cmd-verdict (go saw sw') = refl

  check_marked-Waits :
      (dc : Cmd) (sw : Ctrl)
      → (check_marked sbi t now dc sw).skip ≡ true
      → WaitsIn dc sw (check_marked sbi t now dc sw).ctrl
        × ((check_marked sbi t now dc sw).cmd ≡ record dc { swod_skip = 0 })
  unfolding check_marked
  check_marked-Waits dc sw e =
      elim (Bool-cases (any_waiting now sw (group_rounds sbi dc sw) (gid_of sw (seg0_of sbi dc)))) [
        | inl waits ↦
            let (gid, l, h, w) =
              any_waiting-witness now sw (group_rounds sbi dc sw) (gid_of sw (seg0_of sbi dc))
                waits in
            rw waits ((gid, l, omega arith, w), refl)
        | inr over ↦
            let dc' = record dc { swod_skip = 0 } in
            rw over (
              Delayed-Waits dc' (count_timeout sw)
                  (check_windows sbi t now dc' (count_timeout sw)).ctrl
                  (check_windows-Delays dc' (count_timeout sw) (rw over at e)),
              cmd-check_windows dc' (count_timeout sw),
            )
      ]

  -- If f2fs_swod_should_skip_locked passes over a command, then the command is pending, one of its
  -- groups has, after the call, a window whose deadline has not passed, and the call changes
  -- nothing of the command except that a mark is cleared.
  pub should_skip-Waits :
      (dc : Cmd) (sw : Ctrl)
      → (should_skip_ctrl sbi t now dc sw).skip ≡ true
      → (is_prep dc.state ≡ true)
        × WaitsIn dc sw (should_skip_ctrl sbi t now dc sw).ctrl
        × ((should_skip_ctrl sbi t now dc sw).cmd ≡ record dc { swod_skip = 0 })
  unfolding should_skip_ctrl
  should_skip-Waits dc sw e =
      elim (Bool-cases (not (is_set sw.nr_held_groups) && not (is_set dc.swod_skip))) [
        | inl fast ↦ cc (rw fast at e)
        | inr slow ↦ elim (Bool-cases (not (is_prep dc.state))) [
          | inl issued ↦ cc (rw (slow, issued) at e)
          | inr pending ↦ elim (Bool-cases (is_set dc.swod_skip)) [
            | inl marked ↦
                let (w, c) =
                  check_marked-Waits dc (count_check sw) (rw (slow, pending, marked) at e) in
                rw (slow, pending, marked) (ground arith, w, c)
            | inr plain ↦
                let d = check_windows-Delays dc (count_check sw) (rw (slow, pending, plain) at e) in
                rw (slow, pending, plain)
                  (
                    ground arith,
                    Delayed-Waits dc (count_check sw)
                        (check_windows sbi t now dc (count_check sw)).ctrl d,
                    cmd-check_windows dc (count_check sw) ∙ unmarked plain,
                  )
          ]
        ]
      ]
    where
      unmarked : is_set dc.swod_skip ≡ false → dc ≡ record dc { swod_skip = 0 }
      unmarked p = ground arith
