-- ===== src/Swod/Worker/Release.antt =====
-- `__f2fs_swod_release_all_locked` and what it leaves.
use redisc.Base.{
  ℕ, zero, suc, ◌+◌, ◌<◌, ◌≡◌, inl, inr, false, Bool-cases, arith, if◌then◌else◌, ◌==◌,
  count-eq-zero,
}
use redisc.Swod.State.{Ctrl, Sbi, ReleaseReason, group_is_active}
use redisc.Swod.Geometry.{gid_of}
use redisc.Swod.Geometry.Laws.{gid_of-lt}
use redisc.Swod.Group.{drop_group, clear_group}
use redisc.Swod.Inv.{Inv, hint_held, hint_parked, hint_eligible}
use redisc.Swod.Worker.{release_from}
use redisc.Swod.Worker.Keeps.{release_from-Stays}

abbrev drop_if : Sbi → ReleaseReason → ℕ → Ctrl → Ctrl
drop_if sbi why gid sw = if group_is_active (sw.grp_hint gid) then drop_group sbi gid why sw else sw

drop_if-idle :
    (sbi : Sbi) (why : ReleaseReason) (gid : ℕ) (sw : Ctrl)
    → group_is_active ((drop_if sbi why gid sw).grp_hint gid) ≡ false
unfolding drop_group clear_group
drop_if-idle sbi why gid sw = ground arith

drop_if-stays_idle :
    (sbi : Sbi) (why : ReleaseReason) (gid j : ℕ) (sw : Ctrl)
    → group_is_active (sw.grp_hint j) ≡ false
    → group_is_active ((drop_if sbi why gid sw).grp_hint j) ≡ false
unfolding drop_group clear_group
drop_if-stays_idle sbi why gid j sw e = ground arith

release_from-idle :
    (sbi : Sbi) (why : ReleaseReason) (n gid : ℕ) (sw : Ctrl)
    → ((j : ℕ) → j < gid → group_is_active (sw.grp_hint j) ≡ false)
    → (j : ℕ) → j < gid + n
    → group_is_active ((release_from sbi why n gid sw).grp_hint j) ≡ false
unfolding release_from
release_from-idle sbi why zero gid sw before j h = before j (omega arith)
release_from-idle sbi why (suc n) gid sw before j h =
    release_from-idle sbi why n (gid + 1) (drop_if sbi why gid sw) before' j (omega arith)
  where
    before' : (j : ℕ) → j < gid + 1 → group_is_active ((drop_if sbi why gid sw).grp_hint j) ≡ false
    before' j h = elim (Bool-cases (j == gid)) [
      | inl last ↦ let e : j ≡ gid = ground arith in rw e (drop_if-idle sbi why gid sw)
      | inr earlier ↦ drop_if-stays_idle sbi why gid j sw (before j (ground arith))
    ]

-- Nothing is held, parked or marked in any of the three bitmaps, and the counters are 0.
pub record IsReleased (sw : Ctrl) : Type 0 where
  pub idle : (gid : ℕ) → gid < sw.nr_groups → group_is_active (sw.grp_hint gid) ≡ false
  pub counters : (sw.nr_held_groups ≡ 0) × (sw.nr_parked_groups ≡ 0) × (sw.nr_wce_groups ≡ 0)
  pub bits :
      (s : ℕ)
      → s < sw.nr_main_segs
      → (sw.hold_segmap s ≡ false) × (sw.park_segmap s ≡ false) × (sw.wce_segmap s ≡ false)

idle-IsReleased :
    {sw : Ctrl}
    → Inv sw
    → ((gid : ℕ) → gid < sw.nr_groups → group_is_active (sw.grp_hint gid) ≡ false)
    → IsReleased sw
idle-IsReleased {sw} v idle = record {
  idle = idle;
  counters = (
    omega (
      arith,
      v.held_count,
      count-eq-zero hint_held sw.nr_groups sw.grp_hint (λ i l. ground (arith, idle i)),
    ),
    omega (
      arith,
      v.parked_count,
      count-eq-zero hint_parked sw.nr_groups sw.grp_hint (λ i l. ground (arith, idle i)),
    ),
    omega (
      arith,
      v.wce_count,
      count-eq-zero hint_eligible sw.nr_groups sw.grp_hint (λ i l. not_eligible i l),
    ),
  );
  bits = λ s l.
      let p = gid_of-lt v.layout s l in
      let e = idle (gid_of sw s) p in
      let e' = not_eligible (gid_of sw s) p in
      (
        ground (arith, v.hold_bits s l),
        ground (arith, v.park_bits s l),
        ground (arith, v.wce_bits s l),
      );
}
  where
    not_eligible : (i : ℕ) → i < sw.nr_groups → (sw.grp_hint i).wce_eligible ≡ false
    not_eligible i l = ground (arith, idle i, (v.hints i l).eligible)

-- From a state that satisfies the invariant, __f2fs_swod_release_all_locked, whatever the reason,
-- leaves no active group, the three counters at 0, and no main segment marked in any of the three
-- bitmaps.
pub release_all-IsReleased :
    (sbi : Sbi) (why : ReleaseReason) (sw : Ctrl)
    → Inv sw
    → IsReleased (release_from sbi why sw.nr_groups 0 sw)
release_all-IsReleased sbi why sw v =
    let s = release_from-Stays sbi why sw.nr_groups 0 v (omega arith) in
    idle-IsReleased s.inv (λ gid h.
      release_from-idle sbi why sw.nr_groups 0 sw (λ j l. absurd (omega arith)) gid
        (let h' : gid < sw.nr_groups = rw (s.same_groups) at h in omega arith))
