-- ===== src/Swod/Inv/Install.antt =====
-- `swod_install_candidate` and the invariant.
use redisc.Base.{
  ℕ, ◌+◌, ◌*◌, ◌≤◌, ◌<◌, ◌≡◌, inl, inr, Bool, true, false, arith, ◌==◌, if◌then◌else◌, in_range,
  Bool-cases,
}
use redisc.Swod.State.{Ctrl, Sbi, Tunables, group_is_active, GroupHint}
use redisc.Swod.Geometry.{gid_of, group_nsegs}
use redisc.Swod.Hold.{Candidate, install_candidate, held_hint, candidate_eligible}
use redisc.Swod.Inv.{Inv, hint_held, hint_parked, hint_eligible, mark}
use redisc.Swod.Inv.Replace.{Follows, Change, changed-Inv, remark}
use redisc.Swod.Inv.Window.{fill_window, window_in_group, window_small, counters_small}

module _ {sw : Ctrl} (v : Inv sw) (gid : ℕ) (h : gid < sw.nr_groups)
    (free : group_is_active (sw.grp_hint gid) ≡ false) (sbi : Sbi) (t : Tunables) (c : Candidate)
    (now : ℕ) (some_len : 0 < c.len) (fits : c.off + c.len ≤ group_nsegs sw gid) where
  abbrev installed : Change
  installed = record {
    hint = held_hint sbi t c now;
    nr_held = (install_candidate sbi t gid c now sw).nr_held_groups;
    nr_parked = (install_candidate sbi t gid c now sw).nr_parked_groups;
    nr_wce = (install_candidate sbi t gid c now sw).nr_wce_groups;
    hold_map = (install_candidate sbi t gid c now sw).hold_segmap;
    park_map = (install_candidate sbi t gid c now sw).park_segmap;
    wce_map = (install_candidate sbi t gid c now sw).wce_segmap;
    new_stats = (install_candidate sbi t gid c now sw).stats;
  }

  -- A free group has no bit set.
  free-mark :
      (p : GroupHint → Bool) (s : ℕ)
      → p (sw.grp_hint gid) ≡ false
      → (gid_of sw s == gid) ≡ true
      → mark p sw s ≡ false
  free-mark p s e same = ground arith

  installed-bits :
      (p : GroupHint → Bool) (b : Bool) (map : ℕ → Bool) (new : Bool) (s : ℕ)
      → s < sw.nr_main_segs
      → p (sw.grp_hint gid) ≡ false
      → p (held_hint sbi t c now) ≡ b
      → map s ≡ mark p sw s
      → new ≡ (if in_range (gid * sw.win_segs + c.off) c.len s then b else map s)
      → new ≡ remark p sw gid (held_hint sbi t c now) map s
  installed-bits p b map new s l e e' m m' = elim (Bool-cases (gid_of sw s == gid)) [
    | inl same ↦ ground (arith, free-mark p s e same, window_small v gid h c.off c.len fits)
    | inr other ↦ ground (arith, window_in_group v gid h c.off c.len fits s l)
  ]

  not_eligible : (sw.grp_hint gid).wce_eligible ≡ false
  not_eligible = ground (arith, (v.hints gid h).eligible)

  installed-Follows : Follows sw gid installed
  unfolding install_candidate
  installed-Follows = record {
    consistent = ground (arith, window_small v gid h c.off c.len fits);
    held_follows = ground (arith, counters_small v gid h);
    parked_follows = ground (arith, counters_small v gid h);
    wce_follows = ground (arith, counters_small v gid h, not_eligible);
    hold_follows = λ s l.
        installed-bits hint_held true sw.hold_segmap _ s l (ground arith) (ground arith)
          (v.hold_bits s l) (fill_window v gid h c.off c.len fits true sw.hold_segmap s);
    park_follows = λ s l.
        installed-bits hint_parked false sw.park_segmap _ s l (ground arith) (ground arith)
          (v.park_bits s l) (fill_window v gid h c.off c.len fits false sw.park_segmap s);
    wce_follows_bits = λ s l.
        installed-bits hint_eligible (candidate_eligible t c) sw.wce_segmap _ s l not_eligible
          (ground arith) (v.wce_bits s l)
          (fill_window v gid h c.off c.len fits (candidate_eligible t c) sw.wce_segmap s);
  }

  -- Under the invariant, swod_install_candidate of a non-empty window that ends within a free group
  -- of the main area keeps the invariant.
  pub install_candidate-Inv : Inv (install_candidate sbi t gid c now sw)
  unfolding install_candidate
  install_candidate-Inv = changed-Inv v h installed-Follows
