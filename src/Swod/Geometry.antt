-- ===== src/Swod/Geometry.antt =====
-- Groups of segments: which group a segment is in, and which segments a group has.
pub mod Laws
use redisc.Base.{
  ℕ, ◌-◌, ◌*◌, ◌/◌, ◌+◌, ◌^◌, ◌<◌, min, Bool, ◌||◌, Option, leb, ltb, if◌then◌else◌, mul32, sub32,
  add32, u32, u64, is_set, not, true, false, none, some,
}
use redisc.Swod.State.{
  Ctrl, Sbi, GcMode, gc_normal, gc_idle_cb, gc_idle_greedy, gc_idle_at, gc_urgent_high,
  gc_urgent_low, max_win_segs,
}

abbrev pub gid_of : Ctrl → ℕ → ℕ
gid_of sw segno = segno / sw.win_segs

abbrev pub group_first_seg : Ctrl → ℕ → ℕ
group_first_seg sw gid = mul32 gid sw.win_segs

unfoldable pub group_nsegs : Ctrl → ℕ → ℕ
group_nsegs sw gid =
    let first = group_first_seg sw gid in
    if leb sw.nr_main_segs first then 0 else min sw.win_segs (sw.nr_main_segs - first)

abbrev pub is_urgent : GcMode → Bool
is_urgent gc_urgent_high = true
is_urgent gc_urgent_low = true
is_urgent _ = false

abbrev hold_cap : GcMode → ℕ → ℕ
hold_cap gc_urgent_high n = min n 1
hold_cap gc_urgent_low n = min n 2
hold_cap _ n = n

unfoldable pub max_hold_len : Sbi → Ctrl → ℕ → ℕ
unfolding group_nsegs
max_hold_len sbi sw gid = hold_cap sbi.gc_mode (group_nsegs sw gid)

-- The three tests at the end of `swod_default_win_segs`, in order.
clamp_win : ℕ → ℕ
clamp_win n0 =
    let n1 = (if not (is_set n0) then 1 else n0) in
    let n2 = (if ltb 4 n1 then 4 else n1) in if ltb max_win_segs n2 then max_win_segs else n2

-- `swod_default_win_segs`. The option is what the walk sbi->sb->s_bdev and `bdev_get_queue` finds:
-- the queue's `max_discard_sectors`, or `none` where a pointer is NULL.
unfoldable pub default_win_segs : Option ℕ → ℕ → ℕ
unfolding clamp_win
default_win_segs none seg_bytes = 1
default_win_segs (some max_discard_sectors) seg_bytes =
    let max_bytes = u64 (max_discard_sectors * 2 ^ 9) in
    if not (is_set max_bytes) || not (is_set seg_bytes)
    then 1
    else clamp_win (u32 (max_bytes / seg_bytes))
