-- ===== src/Swod/FragIpu.antt =====
-- `f2fs_swod_should_frag_ipu`: whether a block of a log-structured file system may be rewritten in
-- place, because its segment is old and fragmented and in no held window.
pub mod Laws
use redisc.Base.{
  ℕ, Bool, true, false, not, ◌&&◌, ◌||◌, Option, some, none, ltb, leb, is_set, if◌then◌else◌, mul32,
  sub64, inc64, time_after,
}
use redisc.Swod.State.{Stats, Ctrl, Dcc, Tunables, Sbi, SegHint}
use redisc.Swod.Policy.{enabled_ctrl}
use redisc.Swod.Lookup.{is_valid_data_blkaddr, segno_of, has_held, seg_held}

-- What is asked of the inode: `file_is_hot`, `is_inode_flag_set(inode, FI_HOT_DATA)` and
-- `file_is_cold`.
pub record Heat : Type 0 where
  pub hot_file : Bool
  pub hot_flag : Bool
  pub cold_file : Bool

-- The returns of the function: false without a count, false with one of the four counts, or true.
pub data FragVerdict : Type 0 where
  ineligible in_target too_hot wrong_shape too_young picked : FragVerdict

-- The two tests of the pending commands: enough blocks, and enough commands.
abbrev pub is_fragment : Tunables → SegHint → Bool
is_fragment t h =
    is_set h.pend_blks
    && leb (mul32 t.discard_granularity 4) h.pend_blks
    && leb t.swod_frag_ipu_min_cmds h.nr_cmds

-- How old the oldest pending command must be.
abbrev pub age_threshold : Tunables → Heat → ℕ
age_threshold t heat =
    if heat.cold_file then t.swod_frag_ipu_age_ms else mul32 t.swod_frag_ipu_age_ms 2

abbrev pub is_old : Sbi → Tunables → Heat → SegHint → Bool
is_old sbi t heat h =
    is_set h.oldest_jiffies
    && not (time_after h.oldest_jiffies sbi.jiffies)
    && leb (age_threshold t heat) (sbi.jiffies_to_msecs (sub64 sbi.jiffies h.oldest_jiffies))

-- The tests of the segment.
unfoldable pub judge_segment : Sbi → Heat → ℕ → Dcc → Ctrl → FragVerdict
judge_segment sbi heat segno d sw =
    let h = sw.seg_hint segno in
    if leb sw.nr_main_segs segno
    then ineligible
    else if seg_held d segno
    then in_target
    else if is_set d.swod_frag_ipu_skip_hot && (heat.hot_file || heat.hot_flag)
    then too_hot
    else if not (is_fragment d.tun h)
    then wrong_shape
    else if not (is_old sbi d.tun heat h)
    then too_young
    else picked

-- The tests in front of them. The first option is `fio->old_blkaddr`, where `fio` is not NULL.
unfoldable pub judge : Sbi → Heat → Option ℕ → Dcc → Option Ctrl → FragVerdict
unfolding judge_segment
judge sbi heat blk d none = ineligible
judge sbi heat none d (some sw) = ineligible
judge sbi heat (some blk) d (some sw) =
    if not (is_set d.swod_frag_ipu_enable) || not sbi.lfs_mode
    then ineligible
    else if not (is_valid_data_blkaddr sbi blk) || not (has_held d)
    then ineligible
    else judge_segment sbi heat (segno_of sbi blk) d sw

abbrev pub account_frag : FragVerdict → Stats → Stats
account_frag ineligible st = st
account_frag in_target st = record st {
  frag_ipu_skip_target_cnt = inc64 st.frag_ipu_skip_target_cnt;
}
account_frag too_hot st = record st { frag_ipu_skip_hot_cnt = inc64 st.frag_ipu_skip_hot_cnt }
account_frag wrong_shape st = record st {
  frag_ipu_skip_shape_cnt = inc64 st.frag_ipu_skip_shape_cnt;
}
account_frag too_young st = record st { frag_ipu_skip_age_cnt = inc64 st.frag_ipu_skip_age_cnt }
account_frag picked st = record st { frag_ipu_pick_cnt = inc64 st.frag_ipu_pick_cnt }

abbrev pub is_picked : FragVerdict → Bool
is_picked picked = true
is_picked ineligible = false
is_picked in_target = false
is_picked too_hot = false
is_picked wrong_shape = false
is_picked too_young = false

abbrev counted : FragVerdict → Option Ctrl → Option Ctrl
counted v none = none
counted v (some sw) = some (record sw { stats = account_frag v sw.stats })

-- `f2fs_swod_should_frag_ipu`.
unfoldable pub should_frag_ipu : Sbi → Heat → Option ℕ → Dcc → Bool × Dcc
should_frag_ipu sbi heat blk d =
    let v = judge sbi heat blk d (enabled_ctrl d) in
    (is_picked v, record d { swod = counted v d.swod })
