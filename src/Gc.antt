-- ===== src/Gc.antt =====
-- The choice of a victim segment, gc.c: its policies and costs. Without the age-threshold modes
-- GC_AT and AT_SSR, and without CONFIG_F2FS_CHECK_FS.
pub mod Scan
pub mod Victim
pub mod Tests
use redisc.Base.{
  ℕ, zero, suc, ◌+◌, ◌-◌, ◌*◌, ◌/◌, ◌%◌, ◌^◌, Bool, true, false, not, ◌&&◌, ◌||◌, Option, some,
  none, ltb, leb, ◌==◌, is_set, if◌then◌else◌, u32, add32, mul32, add64, sub64, update,
}
use redisc.Swod.State.{
  Dcc, GcMode, gc_normal, gc_idle_cb, gc_idle_greedy, gc_idle_at, gc_urgent_high, gc_urgent_low,
}
use redisc.Swod.Lookup.{GcType, bg_gc, fg_gc}

pub data AllocMode : Type 0 where
  lfs ssr : AllocMode

-- `gc_at` is chosen by the policy; the model of the scan leaves it out.
pub data CostMode : Type 0 where
  gc_cb gc_greedy gc_at : CostMode

-- What the choice reads and does not change: the superblock, the segment entries, the bitmaps of
-- the dirty segments by their type (6 is DIRTY) and of the dirty sections.
pub record View : Type 0 where
  pub gc_mode : GcMode
  pub atgc_enabled : Bool
  pub noheap : Bool
  pub cp_disabled : Bool
  pub main_secs : ℕ
  pub segs_per_sec : ℕ
  pub blocks_per_seg : ℕ
  pub log_blocks_per_seg : ℕ
  pub max_victim_search : ℕ
  pub dirty_segmap : ℕ → ℕ → Bool
  pub nr_dirty : ℕ → ℕ
  pub dirty_secmap : ℕ → Bool
  pub seg_valid_blocks : ℕ → ℕ
  pub sec_valid_blocks : ℕ → ℕ
  pub ckpt_valid_blocks : ℕ → ℕ
  pub has_free_slot : ℕ → Bool
  pub is_cursec : ℕ → Bool
  pub mtime : ℕ → ℕ
  pub usable_segs_in_sec : ℕ → ℕ

-- What it changes; NULL_SEGNO is `none`.
pub record GcState : Type 0 where
  pub last_victim : CostMode → ℕ
  pub cur_victim_sec : ℕ
  pub victim_secmap : ℕ → Bool
  pub next_victim_bg : Option ℕ
  pub next_victim_fg : Option ℕ
  pub min_mtime : ℕ
  pub max_mtime : ℕ
  pub dcc : Dcc

-- `struct victim_sel_policy`, as select_policy leaves it.
pub record VictimPolicy : Type 0 where
  pub alloc_mode : AllocMode
  pub gc_mode : CostMode
  pub dirty_bitmap : ℕ → Bool
  pub max_search : ℕ
  pub offset : ℕ
  pub ofs_unit : ℕ

abbrev pub is_large_section : View → Bool
is_large_section v = ltb 1 v.segs_per_sec

abbrev pub is_fg : GcType → Bool
is_fg fg_gc = true
is_fg bg_gc = false

abbrev pub is_lfs : AllocMode → Bool
is_lfs lfs = true
is_lfs ssr = false

abbrev pub is_gc_at : CostMode → Bool
is_gc_at gc_at = true
is_gc_at gc_cb = false
is_gc_at gc_greedy = false

abbrev is_gc_urgent_high : GcMode → Bool
is_gc_urgent_high gc_urgent_high = true
is_gc_urgent_high gc_normal = false
is_gc_urgent_high gc_idle_cb = false
is_gc_urgent_high gc_idle_greedy = false
is_gc_urgent_high gc_idle_at = false
is_gc_urgent_high gc_urgent_low = false

abbrev default_cost : View → GcType → CostMode
default_cost v fg_gc = gc_greedy
default_cost v bg_gc = if v.atgc_enabled then gc_at else gc_cb

-- `select_gc_type`.
abbrev cost_of_mode : CostMode → GcMode → CostMode
cost_of_mode old gc_idle_cb = gc_cb
cost_of_mode old gc_idle_greedy = gc_greedy
cost_of_mode old gc_urgent_high = gc_greedy
cost_of_mode old gc_idle_at = gc_at
cost_of_mode old gc_normal = old
cost_of_mode old gc_urgent_low = old

unfoldable pub select_gc_type : View → GcType → CostMode
select_gc_type v gc_type = cost_of_mode (default_cost v gc_type) v.gc_mode

-- `count_bits` from 0.
unfoldable pub count_bits : (ℕ → Bool) → ℕ → ℕ
count_bits bits zero = 0
count_bits bits (suc n) = count_bits bits n + (if bits n then 1 else 0)

abbrev dirty : ℕ
dirty = 6

-- CURSEG_HOT_DATA, or IS_NODESEG: 3 .. 5.
abbrev pub is_small_log : ℕ → Bool
is_small_log type = (type == 0) || (leb 3 type && leb type 5)

abbrev base_policy : View → GcType → ℕ → AllocMode → VictimPolicy
base_policy v gc_type type ssr = record {
  alloc_mode = ssr;
  gc_mode = gc_greedy;
  dirty_bitmap = v.dirty_segmap type;
  max_search = v.nr_dirty type;
  offset = 0;
  ofs_unit = 1;
}
base_policy v gc_type type lfs = record {
  alloc_mode = lfs;
  gc_mode = select_gc_type v gc_type;
  dirty_bitmap = if is_large_section v then v.dirty_secmap else v.dirty_segmap dirty;
  max_search =
      if is_large_section v then count_bits v.dirty_secmap v.main_secs else v.nr_dirty dirty;
  offset = 0;
  ofs_unit = v.segs_per_sec;
}

-- `select_policy`.
unfoldable pub select_policy : View → GcState → GcType → ℕ → AllocMode → VictimPolicy
unfolding select_gc_type count_bits
select_policy v st gc_type type alloc_mode =
    let p = base_policy v gc_type type alloc_mode in
    record p {
      max_search =
          if not (is_fg gc_type)
            && not (is_gc_urgent_high v.gc_mode)
            && not (is_gc_at p.gc_mode)
            && ltb v.max_victim_search p.max_search
          then v.max_victim_search
          else p.max_search;
      offset = if v.noheap && is_small_log type then 0 else st.last_victim p.gc_mode;
    }

abbrev uint_max : ℕ
uint_max = 2 ^ 32 - 1

abbrev max_cost_of : View → ℕ → CostMode → ℕ
max_cost_of v ofs_unit gc_greedy = mul32 (mul32 2 v.blocks_per_seg) ofs_unit
max_cost_of v ofs_unit gc_cb = uint_max
max_cost_of v ofs_unit gc_at = uint_max

-- `get_max_cost`.
unfoldable pub get_max_cost : View → VictimPolicy → ℕ
get_max_cost v p =
    if is_lfs p.alloc_mode then max_cost_of v p.ofs_unit p.gc_mode else v.blocks_per_seg

abbrev pub sec_of : View → ℕ → ℕ
sec_of v segno = segno / v.segs_per_sec

-- `get_valid_blocks`.
abbrev pub get_valid_blocks : View → ℕ → Bool → ℕ
get_valid_blocks v segno use_section =
    if use_section && is_large_section v
    then v.sec_valid_blocks (sec_of v segno)
    else v.seg_valid_blocks segno

unfoldable pub sum_from : (ℕ → ℕ) → ℕ → ℕ → ℕ
sum_from f start zero = 0
sum_from f start (suc n) = sum_from f start n + f (start + n)

-- `get_ckpt_valid_blocks` with `use_section`.
abbrev pub get_ckpt_valid_blocks : View → ℕ → ℕ
get_ckpt_valid_blocks v segno =
    if is_large_section v
    then u32 (sum_from v.ckpt_valid_blocks (sec_of v segno * v.segs_per_sec) v.segs_per_sec)
    else v.ckpt_valid_blocks segno

-- `UINT_MAX - ((100 * (100 - u) * age) / (100 + u))`, where the product is an `int`.
abbrev cb_cost_of : ℕ → ℕ → ℕ
cb_cost_of u age =
    if leb u 100
    then uint_max - 100 * (100 - u) * age / (100 + u)
    else u32 (uint_max + 100 * (u - 100) * age / (100 + u))

-- A cost, and the two times that get_cb_cost adjusts.
pub record Cost : Type 0 where
  pub cost : ℕ
  pub min_mtime : ℕ
  pub max_mtime : ℕ

-- `get_cb_cost`.
unfoldable pub get_cb_cost : View → ℕ → ℕ → ℕ → Cost
unfolding sum_from
get_cb_cost v min_mtime max_mtime segno =
    let start = sec_of v segno * v.segs_per_sec in
    let usable = v.usable_segs_in_sec segno in
    let mtime = sum_from v.mtime start usable % 2 ^ 64 / usable in
    let vblocks = get_valid_blocks v segno true / usable in
    let u = mul32 vblocks 100 / 2 ^ v.log_blocks_per_seg % 2 ^ 8 in
    let lo = if ltb mtime min_mtime then mtime else min_mtime in
    let hi = if ltb max_mtime mtime then mtime else max_mtime in
    let age = if hi == lo then 0 else (100 - 100 * (mtime - lo) % 2 ^ 64 / (hi - lo)) % 2 ^ 8 in
    record { cost = cb_cost_of u age; min_mtime = lo; max_mtime = hi }

abbrev lfs_cost : View → GcState → ℕ → CostMode → Cost
lfs_cost v st segno gc_greedy = record {
  cost = get_valid_blocks v segno true;
  min_mtime = st.min_mtime;
  max_mtime = st.max_mtime;
}
lfs_cost v st segno gc_cb = get_cb_cost v st.min_mtime st.max_mtime segno
lfs_cost v st segno gc_at = record { cost = 0; min_mtime = st.min_mtime; max_mtime = st.max_mtime }

-- `get_gc_cost`.
unfoldable pub get_gc_cost : View → GcState → VictimPolicy → ℕ → Cost
unfolding get_cb_cost
get_gc_cost v st p segno = if is_lfs p.alloc_mode then lfs_cost v st segno p.gc_mode else record {
  cost = v.ckpt_valid_blocks segno;
  min_mtime = st.min_mtime;
  max_mtime = st.max_mtime;
}

-- `sec_usage_check`.
abbrev pub sec_usage_check : View → GcState → ℕ → Bool
sec_usage_check v st secno = v.is_cursec secno || (st.cur_victim_sec == secno)
