-- ===== src/Swod/Geometry/Laws.antt =====
-- Groups as consecutive ranges of the main segments, and their 32-bit indices.
use Prim.Native.Nat.{ℕ}
use redisc.Base.{
  ◌+◌, ◌-◌, ◌*◌, ◌/◌, ◌^◌, ◌≤◌, ◌<◌, min, ◌≡◌, ◌↔◌, Option, some, none, arith, ◌==◌, in_range,
}
use redisc.Swod.State.{Ctrl, Sbi, max_win_segs}
use redisc.Swod.Geometry.{gid_of, group_first_seg, group_nsegs, max_hold_len, default_win_segs}

-- The layout that `f2fs_swod_init` sets up and nothing changes.
pub record IsLaidOut (sw : Ctrl) : Type 0 where
  pub win_pos : 0 < sw.win_segs
  pub win_small : sw.win_segs ≤ max_win_segs
  pub main_small : sw.nr_main_segs < 2 ^ 31
  pub groups : sw.nr_groups ≡ (sw.nr_main_segs + sw.win_segs - 1) / sw.win_segs

first-lt : (n w g k : ℕ) → 0 < w → k ≡ (n + w - 1) / w → g < k → g * w < n
first-lt n w g k p e h = grind arith

div-lt-groups : (n w s k : ℕ) → 0 < w → k ≡ (n + w - 1) / w → s < n → s / w < k
div-lt-groups n w s k p e h = grind arith

div_range : (w s g : ℕ) → 0 < w → (s / w ≡ g) ↔ ((g * w ≤ s) × (s < g * w + w))
div_range w s g p = grind arith

groups-le_lem : (n w k : ℕ) → 0 < w → k ≡ (n + w - 1) / w → k ≤ n
groups-le_lem n w k p e = grind arith

module _ {sw : Ctrl} (ok : IsLaidOut sw) where
  pub first-eq : (gid : ℕ) → gid < sw.nr_groups → group_first_seg sw gid ≡ gid * sw.win_segs
  first-eq gid h =
      omega
        (arith, first-lt sw.nr_main_segs sw.win_segs gid sw.nr_groups ok.win_pos ok.groups h, ok)

  pub group_nsegs-eq :
      (gid : ℕ)
      → gid < sw.nr_groups
      → group_nsegs sw gid ≡ min sw.win_segs (sw.nr_main_segs - gid * sw.win_segs)
  unfolding group_nsegs
  group_nsegs-eq gid h = ground (
    arith,
    first-eq gid h,
    first-lt sw.nr_main_segs sw.win_segs gid sw.nr_groups ok.win_pos ok.groups h,
  )

  -- In a control block that is laid out, a group of the main area has at least one and at most 16
  -- segments, and ends within the main area.
  pub group_bounds :
      (gid : ℕ)
      → gid < sw.nr_groups
      → (0 < group_nsegs sw gid)
        × (group_nsegs sw gid ≤ max_win_segs)
        × (group_first_seg sw gid + group_nsegs sw gid ≤ sw.nr_main_segs)
  group_bounds gid h = omega (
    arith,
    group_nsegs-eq gid h,
    first-eq gid h,
    first-lt sw.nr_main_segs sw.win_segs gid sw.nr_groups ok.win_pos ok.groups h,
    ok,
  )

  pub gid_of-lt : (segno : ℕ) → segno < sw.nr_main_segs → gid_of sw segno < sw.nr_groups
  gid_of-lt segno h =
      div-lt-groups sw.nr_main_segs sw.win_segs segno sw.nr_groups ok.win_pos ok.groups h

  -- In a control block that is laid out, a main segment lies in a group of the main area exactly if
  -- that group is the one that swod_gid names, which is itself a group of the main area.
  pub group_partition :
      (segno gid : ℕ)
      → segno < sw.nr_main_segs
      → gid < sw.nr_groups
      → (gid_of sw segno < sw.nr_groups)
        × (in_range (group_first_seg sw gid) (group_nsegs sw gid) segno ≡ (gid_of sw segno == gid))
  group_partition segno gid h l = (
    gid_of-lt segno h,
    ground (
      arith,
      div_range sw.win_segs segno gid ok.win_pos,
      first-eq gid l,
      group_nsegs-eq gid l,
      first-lt sw.nr_main_segs sw.win_segs gid sw.nr_groups ok.win_pos ok.groups l,
    ),
  )

-- The window is never longer than its group, and at most 1 or 2 segments in the urgent modes.
pub max_hold_len-le :
    (sbi : Sbi) (sw : Ctrl) (gid : ℕ) → max_hold_len sbi sw gid ≤ group_nsegs sw gid
unfolding max_hold_len
max_hold_len-le sbi sw gid = ground arith

-- Whatever the device reports, swod_default_win_segs returns 1 to 4.
pub default_win_segs_bounds :
    (q : Option ℕ) (seg_bytes : ℕ)
    → (1 ≤ default_win_segs q seg_bytes) × (default_win_segs q seg_bytes ≤ 4)
unfolding default_win_segs
default_win_segs_bounds none b = omega arith
default_win_segs_bounds (some q) b = ground arith

-- There are no more groups than main segments.
pub groups-le : {sw : Ctrl} → IsLaidOut sw → sw.nr_groups ≤ sw.nr_main_segs
groups-le {sw} ok = groups-le_lem sw.nr_main_segs sw.win_segs sw.nr_groups ok.win_pos ok.groups
