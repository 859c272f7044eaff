-- ===== src/Swod/Inv/Park.antt =====
-- `swod_try_park_group_locked` and the invariant.
use redisc.Base.{
  ℕ, fill, add32, ◌+◌, ◌*◌, ◌≤◌, ◌<◌, ◌≡◌, refl, inl, inr, Bool, true, false, arith, ◌==◌,
  if◌then◌else◌, in_range, Bool-cases,
}
use redisc.Swod.State.{Ctrl, Sbi, Tunables, GroupHint, is_held}
use redisc.Swod.Geometry.{gid_of, group_first_seg, group_nsegs}
use redisc.Swod.Group.{WindowScore}
use redisc.Swod.Hold.{park_group, parked_hint}
use redisc.Swod.Inv.{Inv, hint_held, hint_parked, hint_eligible, mark}
use redisc.Swod.Inv.Replace.{Follows, Change, changed-Inv, remark}
use redisc.Swod.Inv.Window.{fill_window, window_in_group, counters_small}
use redisc.Swod.Inv.Clear.{held_pos, wce_pos}

module _ {sw : Ctrl} (v : Inv sw) (gid : ℕ) (h : gid < sw.nr_groups)
    (waits : is_held (sw.grp_hint gid).state ≡ true) (sbi : Sbi) (t : Tunables) (w : WindowScore)
    (now : ℕ) where
  abbrev shelved : Change
  shelved = record {
    hint = parked_hint sbi t w now (sw.grp_hint gid);
    nr_held = (park_group sbi t gid w now sw).nr_held_groups;
    nr_parked = (park_group sbi t gid w now sw).nr_parked_groups;
    nr_wce = (park_group sbi t gid w now sw).nr_wce_groups;
    hold_map = (park_group sbi t gid w now sw).hold_segmap;
    park_map = (park_group sbi t gid w now sw).park_segmap;
    wce_map = (park_group sbi t gid w now sw).wce_segmap;
    new_stats = sw.stats;
  }

  fits : (sw.grp_hint gid).hold_off + (sw.grp_hint gid).hold_len ≤ group_nsegs sw gid
  fits = ground (arith, (v.hints gid h).window)

  -- The window's bits are set to `b`, which is what the test says of the parked hint; the rest of
  -- the group had none set.
  shelved-bits :
      (p : GroupHint → Bool) (b : Bool) (map : ℕ → Bool) (new : Bool) (s : ℕ)
      → s < sw.nr_main_segs
      → p (parked_hint sbi t w now (sw.grp_hint gid)) ≡ b
      → map s ≡ mark p sw s
      → new ≡ (
          if in_range (gid * sw.win_segs + (sw.grp_hint gid).hold_off) (sw.grp_hint gid).hold_len s
          then b
          else map s)
      → new ≡ remark p sw gid (parked_hint sbi t w now (sw.grp_hint gid)) map s
  shelved-bits p b map new s l e m m' = elim (Bool-cases (gid_of sw s == gid)) [
    | inl same ↦ ground arith
    | inr other ↦ ground (
      arith,
      window_in_group v gid h (sw.grp_hint gid).hold_off (sw.grp_hint gid).hold_len fits s l,
    )
  ]

  filled :
      (b : Bool) (map : ℕ → Bool) (s : ℕ)
      → fill b
          (sw.grp_hint gid).hold_len
          (add32 (group_first_seg sw gid) (sw.grp_hint gid).hold_off)
          map
          s
        ≡ (if in_range (gid * sw.win_segs + (sw.grp_hint gid).hold_off) (sw.grp_hint gid).hold_len s
            then b
            else map s)
  filled b map s =
      fill_window v gid h (sw.grp_hint gid).hold_off (sw.grp_hint gid).hold_len fits b map s

  shelved-Follows : Follows sw gid shelved
  unfolding park_group
  shelved-Follows = record {
    consistent = ground (arith, v.hints gid h);
    held_follows = ground (arith, held_pos v gid h);
    parked_follows = ground (arith, counters_small v gid h);
    wce_follows = ground (arith, wce_pos v gid h);
    hold_follows = λ s l.
        shelved-bits hint_held false sw.hold_segmap _ s l refl (v.hold_bits s l)
          (filled false sw.hold_segmap s);
    park_follows = λ s l.
        shelved-bits hint_parked true sw.park_segmap _ s l refl (v.park_bits s l)
          (filled true sw.park_segmap s);
    wce_follows_bits = λ s l.
        shelved-bits hint_eligible false sw.wce_segmap _ s l refl (v.wce_bits s l)
          (filled false sw.wce_segmap s);
  }

  pub park_group-Inv : Inv (park_group sbi t gid w now sw)
  unfolding park_group
  park_group-Inv = changed-Inv v h shelved-Follows
