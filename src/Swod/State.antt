-- ===== src/Swod/State.antt =====
-- The data of swod.h and of the discard control in f2fs.h: hints, the control block, tunables, and
-- what SWOD reads of the rest of the file system.
use redisc.Base.{ℕ, Bool, true, false, ◌||◌, Option}

pub data GroupState : Type 0 where
  normal held parked : GroupState

pub data Action : Type 0 where
  bypass short_hold completion_hold : Action

pub data ReleaseReason : Type 0 where
  success timeout pressure capture mature released_bypass : ReleaseReason

pub data GcMode : Type 0 where
  gc_normal gc_idle_cb gc_idle_greedy gc_idle_at gc_urgent_high gc_urgent_low : GcMode

pub data DpolicyType : Type 0 where
  dpolicy_bg dpolicy_force dpolicy_fstrim dpolicy_umount : DpolicyType

pub data CursegType : Type 0 where
  hot_data warm_data cold_data hot_node warm_node cold_node : CursegType

abbrev pub bp_one : ℕ
bp_one = 10_000

abbrev pub max_win_segs : ℕ
max_win_segs = 16

abbrev pub wce_park_min_ms : ℕ
wce_park_min_ms = 500

abbrev pub wce_park_max_ms : ℕ
wce_park_max_ms = 2000

abbrev pub wce_park_lres_cap_bp : ℕ
wce_park_lres_cap_bp = 2000

pub record SegHint : Type 0 where
  pub pend_blks : ℕ
  pub nr_cmds : ℕ
  pub oldest_jiffies : ℕ
  pub last_pend_blks : ℕ
  pub last_nr_cmds : ℕ
  pub last_sample_jiffies : ℕ

-- The two growth fields are 16-bit patterns.
pub record GroupHint : Type 0 where
  pub state : GroupState
  pub action : Action
  pub wce_eligible : Bool
  pub hold_off : ℕ
  pub hold_len : ℕ
  pub hold_qbp : ℕ
  pub hold_lbp : ℕ
  pub park_score : ℕ
  pub hold_until : ℕ
  pub park_until : ℕ
  pub last_eval : ℕ
  pub start_qbp : ℕ
  pub start_lbp : ℕ
  pub start_nr_cmds : ℕ
  pub start_avg_piece : ℕ
  pub last_qbp : ℕ
  pub last_lbp : ℕ
  pub last_nr_cmds : ℕ
  pub last_avg_piece : ℕ
  pub last_q_growth : ℕ
  pub last_cmd_growth : ℕ

-- The `atomic64_t` counters of the control block, as 64-bit patterns.
pub record Stats : Type 0 where
  pub hold_cnt : ℕ
  pub skip_cnt : ℕ
  pub skip_check_cnt : ℕ
  pub skip_miss_noheld_cnt : ℕ
  pub skip_miss_timeout_cnt : ℕ
  pub skip_miss_success_cnt : ℕ
  pub skip_miss_overlap_cnt : ℕ
  pub eval_blocked_cnt : ℕ
  pub eval_no_candidate_cnt : ℕ
  pub success_release_cnt : ℕ
  pub timeout_release_cnt : ℕ
  pub pressure_release_cnt : ℕ
  pub gc_pick_bg_cnt : ℕ
  pub gc_pick_fg_cnt : ℕ
  pub gc_fallback_cnt : ℕ
  pub frag_ipu_pick_cnt : ℕ
  pub frag_ipu_skip_target_cnt : ℕ
  pub frag_ipu_skip_hot_cnt : ℕ
  pub frag_ipu_skip_age_cnt : ℕ
  pub frag_ipu_skip_shape_cnt : ℕ
  pub short_hold_cnt : ℕ
  pub completion_hold_cnt : ℕ
  pub capture_followup_cnt : ℕ
  pub capture_blocks : ℕ
  pub coverage_gain_blocks : ℕ
  pub start_nr_cmds_sum : ℕ
  pub release_nr_cmds_sum : ℕ
  pub wce_eligible_cnt : ℕ
  pub wce_blocked_low_maturity_cnt : ℕ
  pub wce_blocked_high_lres_cnt : ℕ
  pub overlap_bypass_cnt : ℕ
  pub policy_bypass_cnt : ℕ
  pub capture_release_cnt : ℕ
  pub mature_release_cnt : ℕ
  pub bypass_release_cnt : ℕ

-- `struct swod_ctrl`. `work_pending` is the delay in jiffies at which `eval_work` is queued, and
-- `none` while it is not queued.
pub record Ctrl : Type 0 where
  pub nr_main_segs : ℕ
  pub win_segs : ℕ
  pub nr_groups : ℕ
  pub nr_held_groups : ℕ
  pub nr_parked_groups : ℕ
  pub nr_wce_groups : ℕ
  pub seg_hint : ℕ → SegHint
  pub grp_hint : ℕ → GroupHint
  pub hold_segmap : ℕ → Bool
  pub park_segmap : ℕ → Bool
  pub wce_segmap : ℕ → Bool
  pub stats : Stats
  pub eval_batch_size : ℕ
  pub eval_next_gid : ℕ
  pub eval_running : ℕ
  pub work_pending : Option ℕ

-- The SWOD fields of `struct discard_cmd_control`, with the two that SWOD reads beside them.
pub record Tunables : Type 0 where
  pub discard_granularity : ℕ
  pub discard_cmd_cnt : ℕ
  pub swod_enable : ℕ
  pub swod_win_segs : ℕ
  pub swod_qcov_thr_bp : ℕ
  pub swod_lres_thr_bp : ℕ
  pub swod_hold_min_ms : ℕ
  pub swod_hold_max_ms : ℕ
  pub swod_hold_scale_bp : ℕ
  pub swod_cmd_pressure : ℕ
  pub swod_blk_pressure : ℕ
  pub swod_max_held_groups : ℕ
  pub swod_formation_enable : ℕ
  pub swod_short_hold_min_ms : ℕ
  pub swod_short_hold_max_ms : ℕ
  pub swod_frag_min_cmds : ℕ
  pub swod_frag_max_avg_piece_blks : ℕ
  pub swod_frag_min_pend_blks : ℕ
  pub swod_growth_min_bp : ℕ
  pub swod_wce_qcov_thr_bp : ℕ
  pub swod_wce_lres_thr_bp : ℕ
  pub swod_overlap_skip_ratio_bp : ℕ
  pub swod_completion_enable : ℕ
  pub swod_gc_bg_enable : ℕ
  pub swod_gc_fg_enable : ℕ
  pub swod_frag_ipu_enable : ℕ
  pub swod_frag_ipu_max_pend_blks : ℕ
  pub swod_frag_ipu_min_cmds : ℕ
  pub swod_frag_ipu_age_ms : ℕ
  pub swod_frag_ipu_skip_hot : ℕ

-- The tunables and the pointer `swod` beside them; `none` is NULL.
pub record Dcc : Type 0 where
  pub tun : Tunables
  pub open tun use *
  pub swod : Option Ctrl

-- What SWOD reads of the superblock during one call, and the kernel's functions that it calls.
-- `avail_ram` is in pages, `discard_cmd_pages n` the pages that `n` commands take, and
-- `has_nm_info` is that `NM_I(sbi)` is not NULL. The three addresses are the constants NULL_ADDR,
-- NEW_ADDR and COMPRESS_ADDR of linux/f2fs_fs.h.
pub record Sbi : Type 0 where
  pub gc_mode : GcMode
  pub blocks_per_seg : ℕ
  pub log_blocksize : ℕ
  pub log_blocks_per_seg : ℕ
  pub seg0_blkaddr : ℕ
  pub start_segno : ℕ
  pub null_addr : ℕ
  pub new_addr : ℕ
  pub compress_addr : ℕ
  pub main_segments : ℕ
  pub valid_blocks : ℕ → ℕ
  pub seg_type : ℕ → CursegType
  pub valid_user_blocks : ℕ
  pub user_block_count : ℕ
  pub has_nm_info : Bool
  pub avail_ram : ℕ
  pub ram_thresh : ℕ
  pub lfs_mode : Bool
  pub jiffies : ℕ
  pub random_u32 : ℕ
  pub msecs_to_jiffies : ℕ → ℕ
  pub jiffies_to_msecs : ℕ → ℕ
  pub discard_cmd_pages : ℕ → ℕ

abbrev pub is_held : GroupState → Bool
is_held held = true
is_held normal = false
is_held parked = false

abbrev pub is_parked : GroupState → Bool
is_parked parked = true
is_parked normal = false
is_parked held = false

abbrev pub is_cold : CursegType → Bool
is_cold cold_node = true
is_cold cold_data = true
is_cold _ = false

-- `swod_group_is_active`.
abbrev pub group_is_active : GroupHint → Bool
group_is_active g = is_held g.state || is_parked g.state

abbrev deadline_of : GroupState → ℕ → ℕ → ℕ
deadline_of parked park_until hold_until = park_until
deadline_of held park_until hold_until = hold_until
deadline_of normal park_until hold_until = hold_until

-- `swod_group_deadline`.
abbrev pub group_deadline : GroupHint → ℕ
group_deadline g = deadline_of g.state g.park_until g.hold_until
