-- ===== src/Swod/Lookup.antt =====
-- What the garbage collector and the write path ask of SWOD: the lookups of swod.c and the WCE
-- filter of gc.c.
pub mod Laws
use redisc.Base.{
  ℕ, zero, suc, ◌+◌, ◌-◌, ◌*◌, ◌/◌, ◌^◌, min, Bool, true, false, not, ◌&&◌, ◌||◌, Option, some,
  none, ltb, leb, ◌==◌, is_set, if◌then◌else◌, add32, sub32, mul32, inc64,
}
use redisc.Swod.State.{Ctrl, Dcc, Sbi, Stats}
use redisc.Swod.Policy.{enabled_ctrl}

abbrev pub is_valid_data_blkaddr : Sbi → ℕ → Bool
is_valid_data_blkaddr sbi blk =
    not (blk == sbi.new_addr || blk == sbi.null_addr || blk == sbi.compress_addr)

abbrev pub null_segno : ℕ
null_segno = 2 ^ 32 - 1

-- `GET_SEGNO` and `START_BLOCK`.
unfoldable pub segno_of : Sbi → ℕ → ℕ
segno_of sbi blk =
    if not (is_valid_data_blkaddr sbi blk)
    then null_segno
    else sub32 (sub32 blk sbi.seg0_blkaddr / 2 ^ sbi.log_blocks_per_seg) sbi.start_segno

unfoldable pub start_block : Sbi → ℕ → ℕ
start_block sbi segno =
    add32 sbi.seg0_blkaddr (mul32 (add32 segno sbi.start_segno) (2 ^ sbi.log_blocks_per_seg))

-- The loop over the segments of a range, with the rounds that are left.
unfoldable pub any_bit : (ℕ → Bool) → ℕ → ℕ → Bool
any_bit map zero segno = false
any_bit map (suc n) segno = let rest = any_bit map n (segno + 1) in if map segno then true else rest

abbrev range_end : Ctrl → ℕ → ℕ → ℕ
range_end sw segno nr_segs = min sw.nr_main_segs (add32 segno nr_segs)

abbrev has_held_in : Option Ctrl → Bool
has_held_in none = false
has_held_in (some sw) = is_set sw.nr_held_groups

-- `f2fs_swod_has_held`.
unfoldable pub has_held : Dcc → Bool
has_held d = has_held_in (enabled_ctrl d)

abbrev pub range_held_in : ℕ → ℕ → Option Ctrl → Bool
range_held_in segno nr_segs none = false
range_held_in segno nr_segs (some sw) =
    if not (is_set nr_segs) || leb sw.nr_main_segs segno
    then false
    else if not (is_set sw.nr_held_groups)
    then false
    else any_bit sw.hold_segmap (range_end sw segno nr_segs - segno) segno

-- `f2fs_swod_range_held`.
unfoldable pub range_held : Dcc → ℕ → ℕ → Bool
unfolding any_bit
range_held d segno nr_segs = range_held_in segno nr_segs (enabled_ctrl d)

-- `f2fs_swod_seg_held`.
abbrev pub seg_held : Dcc → ℕ → Bool
seg_held d segno = range_held d segno 1

abbrev pub any_target : Ctrl → Bool
any_target sw = is_set sw.nr_held_groups || is_set sw.nr_parked_groups || is_set sw.nr_wce_groups

abbrev has_wce_target_in : Option Ctrl → Bool
has_wce_target_in none = false
has_wce_target_in (some sw) = any_target sw

-- `f2fs_swod_has_wce_target`.
unfoldable pub has_wce_target : Dcc → Bool
has_wce_target d = has_wce_target_in (enabled_ctrl d)

abbrev target_bit : Ctrl → ℕ → Bool
target_bit sw s = sw.hold_segmap s || sw.park_segmap s || sw.wce_segmap s

abbrev pub range_wce_target_in : ℕ → ℕ → Option Ctrl → Bool
range_wce_target_in segno nr_segs none = false
range_wce_target_in segno nr_segs (some sw) =
    if not (is_set nr_segs) || leb sw.nr_main_segs segno
    then false
    else if not (any_target sw)
    then false
    else any_bit (target_bit sw) (range_end sw segno nr_segs - segno) segno

-- `f2fs_swod_range_wce_target`.
unfoldable pub range_wce_target : Dcc → ℕ → ℕ → Bool
unfolding any_bit
range_wce_target d segno nr_segs = range_wce_target_in segno nr_segs (enabled_ctrl d)

abbrev pub seg_wce_eligible_in : ℕ → Option Ctrl → Bool
seg_wce_eligible_in segno none = false
seg_wce_eligible_in segno (some sw) =
    if not (is_set sw.nr_wce_groups)
    then false
    else if leb sw.nr_main_segs segno
    then false
    else sw.wce_segmap segno

-- `f2fs_swod_seg_wce_eligible`.
unfoldable pub seg_wce_eligible : Dcc → ℕ → Bool
seg_wce_eligible d segno = seg_wce_eligible_in segno (enabled_ctrl d)

-- `swod_wce_match` of gc.c.
unfoldable pub wce_match : Dcc → ℕ → ℕ → Bool
unfolding range_wce_target seg_wce_eligible
wce_match d segno nr_segs =
    if not (range_wce_target d segno nr_segs) then false else seg_wce_eligible d segno

pub data GcType : Type 0 where
  bg_gc fg_gc : GcType

abbrev gc_knob : Dcc → GcType → ℕ
gc_knob d bg_gc = d.swod_gc_bg_enable
gc_knob d fg_gc = d.swod_gc_fg_enable

abbrev pub is_some {ℓ} : {A : Type ℓ} → Option A → Bool
is_some none = false
is_some (some _) = true

-- `swod_wce_enabled` of gc.c.
unfoldable pub wce_enabled : Dcc → GcType → Bool
wce_enabled d gc_type =
    is_some d.swod
    && is_set d.swod_enable
    && is_set d.swod_completion_enable
    && is_set (gc_knob d gc_type)

abbrev mark_held_in : Sbi → Dcc → ℕ → ℕ → Option Ctrl → Bool
mark_held_in sbi d lstart len none = false
mark_held_in sbi d lstart len (some sw) =
    let first = segno_of sbi lstart in
    let last = segno_of sbi (sub32 (add32 lstart len) 1) in
    if not (is_set sw.nr_held_groups)
    then false
    else range_held d first (add32 (sub32 last first) 1)

-- `f2fs_swod_mark_held_cmd`.
unfoldable pub mark_held_cmd : Sbi → Dcc → ℕ → ℕ → Bool
mark_held_cmd sbi d lstart len = mark_held_in sbi d lstart len (enabled_ctrl d)
