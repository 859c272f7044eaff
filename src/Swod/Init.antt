-- ===== src/Swod/Init.antt =====
-- `f2fs_swod_init` and `f2fs_swod_destroy`.
pub mod Laws
use redisc.Base.{
  ℕ, ◌+◌, ◌-◌, ◌*◌, ◌/◌, ◌^◌, Bool, true, false, not, ◌&&◌, ◌||◌, Option, some, none, ltb, is_set,
  if◌then◌else◌, u64, add32, sub32,
}
use redisc.Swod.State.{SegHint, GroupHint, Stats, Ctrl, Tunables, Dcc, Sbi, max_win_segs}
use redisc.Swod.Geometry.{default_win_segs}
use redisc.Swod.Group.{idle_hint}
use redisc.Swod.Worker.{cancel_eval}

-- One array: what `f2fs_kmalloc` returns, with the contents of the memory, and whether the zeroing
-- `f2fs_kvzalloc` behind it succeeds.
pub record Alloc {ℓ} (A : Type ℓ) : Type ℓ where
  pub kmalloc : Option (ℕ → A)
  pub kvzalloc : Bool

abbrev pub allocate {ℓ} : {A : Type ℓ} → A → Option (ℕ → A) → Bool → Option (ℕ → A)
allocate zeroed (some contents) b = some contents
allocate zeroed none true = some (λ _. zeroed)
allocate zeroed none false = none

-- The allocator's answers: the zeroed control block, and the five arrays.
pub record Memory : Type 0 where
  pub ctrl_ok : Bool
  pub seg_mem : Alloc SegHint
  pub grp_mem : Alloc GroupHint
  pub hold_mem : Alloc Bool
  pub park_mem : Alloc Bool
  pub wce_mem : Alloc Bool

abbrev pub zero_seg_hint : SegHint
zero_seg_hint = record {
  pend_blks = 0;
  nr_cmds = 0;
  oldest_jiffies = 0;
  last_pend_blks = 0;
  last_nr_cmds = 0;
  last_sample_jiffies = 0;
}

abbrev pub zero_stats : Stats
zero_stats = record {
  hold_cnt = 0;
  skip_cnt = 0;
  skip_check_cnt = 0;
  skip_miss_noheld_cnt = 0;
  skip_miss_timeout_cnt = 0;
  skip_miss_success_cnt = 0;
  skip_miss_overlap_cnt = 0;
  eval_blocked_cnt = 0;
  eval_no_candidate_cnt = 0;
  success_release_cnt = 0;
  timeout_release_cnt = 0;
  pressure_release_cnt = 0;
  gc_pick_bg_cnt = 0;
  gc_pick_fg_cnt = 0;
  gc_fallback_cnt = 0;
  frag_ipu_pick_cnt = 0;
  frag_ipu_skip_target_cnt = 0;
  frag_ipu_skip_hot_cnt = 0;
  frag_ipu_skip_age_cnt = 0;
  frag_ipu_skip_shape_cnt = 0;
  short_hold_cnt = 0;
  completion_hold_cnt = 0;
  capture_followup_cnt = 0;
  capture_blocks = 0;
  coverage_gain_blocks = 0;
  start_nr_cmds_sum = 0;
  release_nr_cmds_sum = 0;
  wce_eligible_cnt = 0;
  wce_blocked_low_maturity_cnt = 0;
  wce_blocked_high_lres_cnt = 0;
  overlap_bypass_cnt = 0;
  policy_bypass_cnt = 0;
  capture_release_cnt = 0;
  mature_release_cnt = 0;
  bypass_release_cnt = 0;
}

-- `if (!x) x = d;`
abbrev pub or_default : ℕ → ℕ → ℕ
or_default x d = if not (is_set x) then d else x

abbrev pub init_win_segs : Sbi → Option ℕ → ℕ → ℕ
init_win_segs sbi queue x =
    let w =
      or_default x
        (default_win_segs queue (u64 (2 ^ (sbi.log_blocksize + sbi.log_blocks_per_seg)))) in
    if ltb max_win_segs w then max_win_segs else w

-- The defaults set before the arrays are allocated.
abbrev pub base_defaults : Sbi → Option ℕ → Tunables → Tunables
base_defaults sbi queue t = record t {
  swod_win_segs = init_win_segs sbi queue t.swod_win_segs;
  swod_qcov_thr_bp = or_default t.swod_qcov_thr_bp 8500;
  swod_lres_thr_bp = or_default t.swod_lres_thr_bp 1000;
  swod_hold_min_ms = or_default t.swod_hold_min_ms 50;
  swod_hold_max_ms = or_default t.swod_hold_max_ms 300;
  swod_cmd_pressure = or_default t.swod_cmd_pressure 4096;
  swod_blk_pressure = or_default t.swod_blk_pressure (2 ^ 20);
  swod_max_held_groups = or_default t.swod_max_held_groups 64;
}

-- The defaults set behind them.
abbrev pub formation_defaults : Tunables → Tunables
formation_defaults t = record t {
  swod_formation_enable = or_default t.swod_formation_enable 1;
  swod_short_hold_min_ms = or_default t.swod_short_hold_min_ms 1;
  swod_short_hold_max_ms = or_default t.swod_short_hold_max_ms 10;
  swod_frag_min_cmds = or_default t.swod_frag_min_cmds 8;
  swod_frag_max_avg_piece_blks = or_default t.swod_frag_max_avg_piece_blks 16;
  swod_frag_min_pend_blks = or_default t.swod_frag_min_pend_blks 32;
  swod_growth_min_bp = or_default t.swod_growth_min_bp 100;
  swod_wce_qcov_thr_bp = or_default t.swod_wce_qcov_thr_bp 7000;
  swod_wce_lres_thr_bp = or_default t.swod_wce_lres_thr_bp 2000;
  swod_overlap_skip_ratio_bp = or_default t.swod_overlap_skip_ratio_bp 5000;
}

pub data Errno : Type 0 where
  no_error einval enomem : Errno

-- The control block over the five arrays.
abbrev pub fresh_ctrl :
    Sbi → Tunables → (ℕ → SegHint) → (ℕ → GroupHint) → (ℕ → Bool) → (ℕ → Bool) → (ℕ → Bool) → Ctrl
fresh_ctrl sbi t segs groups hold park wce = record {
  nr_main_segs = sbi.main_segments;
  win_segs = t.swod_win_segs;
  nr_groups = sub32 (add32 sbi.main_segments t.swod_win_segs) 1 / t.swod_win_segs;
  nr_held_groups = 0;
  nr_parked_groups = 0;
  nr_wce_groups = 0;
  seg_hint = segs;
  grp_hint = groups;
  hold_segmap = hold;
  park_segmap = park;
  wce_segmap = wce;
  stats = zero_stats;
  eval_batch_size = 16;
  eval_next_gid = 0;
  eval_running = 0;
  work_pending = none;
}

-- All five arrays, or none of them.
abbrev pub with_arrays :
    Sbi
    → Tunables
    → Option (ℕ → SegHint)
    → Option (ℕ → GroupHint)
    → Option (ℕ → Bool)
    → Option (ℕ → Bool)
    → Option (ℕ → Bool)
    → Option Ctrl
with_arrays sbi t (some a) (some b) (some c) (some d) (some e) = some (fresh_ctrl sbi t a b c d e)
with_arrays sbi t _ _ _ _ _ = none

abbrev alloc_ctrl : Sbi → Tunables → Memory → Option Ctrl
alloc_ctrl sbi t m =
    with_arrays sbi t (allocate zero_seg_hint m.seg_mem.kmalloc m.seg_mem.kvzalloc)
      (allocate (idle_hint 0) m.grp_mem.kmalloc m.grp_mem.kvzalloc)
      (allocate false m.hold_mem.kmalloc m.hold_mem.kvzalloc)
      (allocate false m.park_mem.kmalloc m.park_mem.kvzalloc)
      (allocate false m.wce_mem.kmalloc m.wce_mem.kvzalloc)

abbrev finish_init : Tunables → Option Ctrl → Errno × Dcc
finish_init t none = (enomem, record { tun = t; swod = none })
finish_init t (some sw) = (no_error, record { tun = formation_defaults t; swod = some sw })

abbrev init_new : Sbi → Option ℕ → Memory → Dcc → Option Ctrl → Errno × Dcc
init_new sbi queue m d (some sw) = (no_error, d)
init_new sbi queue m d none =
    if not m.ctrl_ok
    then (enomem, d)
    else let t = base_defaults sbi queue d.tun in finish_init t (alloc_ctrl sbi t m)

-- `f2fs_swod_init`, where `dcc_info` is not NULL. `queue` is as for `default_win_segs`.
unfoldable pub init : Sbi → Option ℕ → Memory → Dcc → Errno × Dcc
init sbi queue m d = init_new sbi queue m d d.swod

-- `f2fs_swod_init`, which fails where there is no discard control.
unfoldable pub init_of : Sbi → Option ℕ → Memory → Option Dcc → Errno × Option Dcc
unfolding init
init_of sbi queue m none = (einval, none)
init_of sbi queue m (some d) = let (e, d') = init sbi queue m d in (e, some d')

-- `f2fs_swod_destroy`: the work is cancelled, and the control block is gone.
unfoldable pub destroy : Dcc → Dcc
destroy d = record d { swod = none }
