-- ===== src/Swod/Inv/Clear.antt =====
-- `swod_drop_group_locked` and the invariant.
use redisc.Base.{
  ℕ, true, ◌<◌, ◌≡◌, Bool, false, arith, ◌==◌, if◌then◌else◌, fill, fill_lem, count-pos, count-le,
  positive32,
}
use redisc.Swod.State.{Ctrl, Sbi, ReleaseReason}
use redisc.Swod.Geometry.{gid_of, group_first_seg, group_nsegs}
use redisc.Swod.Geometry.Laws.{group_bounds, group_partition, groups-le}
use redisc.Swod.Group.{clear_group, drop_group, account_release, idle_hint}
use redisc.Swod.Inv.{Inv, hint_held, hint_parked, hint_eligible}
use redisc.Swod.Inv.Replace.{frame-Inv, Follows, Change, changed-Inv}

module _ {sw : Ctrl} (v : Inv sw) (gid : ℕ) (h : gid < sw.nr_groups) where
  -- Clearing the bits of a group's segments.
  pub fill_group :
      (b : Bool) (map : ℕ → Bool) (s : ℕ)
      → s < sw.nr_main_segs
      → fill b (group_nsegs sw gid) (group_first_seg sw gid) map s
        ≡ (if gid_of sw s == gid then b else map s)
  fill_group b map s l = ground (
    arith,
    fill_lem b (group_nsegs sw gid) (group_first_seg sw gid) map s,
    group_bounds v.layout gid h,
    v.layout.main_small,
    (group_partition v.layout s gid l h).1,
  )

  -- A counter that counts this group is above 0, and small.
  pub held_pos : hint_held (sw.grp_hint gid) ≡ true → 0 < sw.nr_held_groups
  held_pos e = omega (arith, v.held_count, count-pos hint_held sw.nr_groups sw.grp_hint gid h e)

  pub parked_pos : hint_parked (sw.grp_hint gid) ≡ true → 0 < sw.nr_parked_groups
  parked_pos e =
      omega (arith, v.parked_count, count-pos hint_parked sw.nr_groups sw.grp_hint gid h e)

  pub wce_pos : hint_eligible (sw.grp_hint gid) ≡ true → positive32 sw.nr_wce_groups ≡ true
  wce_pos e = ground (
    arith,
    v.wce_count,
    count-pos hint_eligible sw.nr_groups sw.grp_hint gid h e,
    count-le hint_eligible sw.nr_groups sw.grp_hint,
    groups-le v.layout,
    v.layout.main_small,
  )

  abbrev cleared : Sbi → Change
  cleared sbi = record {
    hint = idle_hint sbi.jiffies;
    nr_held = (clear_group sbi gid sw).nr_held_groups;
    nr_parked = (clear_group sbi gid sw).nr_parked_groups;
    nr_wce = (clear_group sbi gid sw).nr_wce_groups;
    hold_map = (clear_group sbi gid sw).hold_segmap;
    park_map = (clear_group sbi gid sw).park_segmap;
    wce_map = (clear_group sbi gid sw).wce_segmap;
    new_stats = (clear_group sbi gid sw).stats;
  }

  cleared-Follows : (sbi : Sbi) → Follows sw gid (cleared sbi)
  unfolding clear_group
  cleared-Follows sbi = record {
    consistent = ground arith;
    held_follows = ground (arith, held_pos);
    parked_follows = ground (arith, held_pos, parked_pos);
    wce_follows = ground (arith, wce_pos);
    hold_follows = λ s l. ground (arith, fill_group false sw.hold_segmap s l);
    park_follows = λ s l. ground (arith, fill_group false sw.park_segmap s l);
    wce_follows_bits = λ s l. ground (arith, fill_group false sw.wce_segmap s l);
  }

  pub clear_group-Inv : (sbi : Sbi) → Inv (clear_group sbi gid sw)
  unfolding clear_group
  clear_group-Inv sbi = changed-Inv v h (cleared-Follows sbi)

-- `swod_drop_group_locked` keeps the invariant, whatever the reason.
pub drop_group-Inv :
    (sbi : Sbi) (why : ReleaseReason) {sw : Ctrl}
    → Inv sw
    → (gid : ℕ) → gid < sw.nr_groups
    → Inv (drop_group sbi gid why sw)
unfolding drop_group
drop_group-Inv sbi why v gid h =
    clear_group-Inv (frame-Inv v _ (account_release why _) _ _ _) gid h sbi
