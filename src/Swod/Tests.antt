-- ===== src/Swod/Tests.antt =====
-- A small file system for the tests: eight main segments of four blocks, in two groups of four.
mod Control
mod Decisions
mod Runs
mod Hints
use redisc.Base.{
  ℕ, zero, suc, ◌-◌, ◌+◌, ◌≤◌, ◌<◌, ◌≡◌, ◌^◌, refl, Bool, true, false, Option, none, some, arith,
}
use redisc.Swod.State.{
  GroupState, normal, held, parked, bypass, completion_hold, GcMode, gc_normal, warm_data, SegHint,
  GroupHint, Ctrl, Tunables, Dcc, Sbi,
}
use redisc.Swod.Geometry.{group_nsegs}
use redisc.Swod.Group.{idle_hint}
use redisc.Swod.Hold.{Candidate, install_candidate}
use redisc.Swod.Search.{Stale}
use redisc.Swod.Issue.{Cmd, d_prep}
use redisc.Swod.Init.{base_defaults, formation_defaults, fresh_ctrl}
use redisc.Swod.Init.Laws.{fresh-Inv}
use redisc.Swod.Inv.{Inv}
use redisc.Swod.Inv.Replace.{frame-Inv}
use redisc.Swod.Inv.Install.{install_candidate-Inv}

abbrev pub fs : Sbi
fs = record {
  gc_mode = gc_normal;
  blocks_per_seg = 4;
  log_blocksize = 12;
  log_blocks_per_seg = 2;
  seg0_blkaddr = 512;
  start_segno = 0;
  null_addr = 0;
  new_addr = 2 ^ 32 - 1;
  compress_addr = 2 ^ 32 - 2;
  main_segments = 8;
  valid_blocks = λ _. 0;
  seg_type = λ _. warm_data;
  valid_user_blocks = 10;
  user_block_count = 100;
  has_nm_info = true;
  avail_ram = 1000;
  ram_thresh = 10;
  lfs_mode = false;
  jiffies = 1000;
  random_u32 = 7;
  msecs_to_jiffies = λ n. n;
  jiffies_to_msecs = λ n. n;
  discard_cmd_pages = λ n. n;
}

abbrev raw_tunables : Tunables
raw_tunables = record {
  discard_granularity = 1;
  discard_cmd_cnt = 3;
  swod_enable = 1;
  swod_win_segs = 4;
  swod_qcov_thr_bp = 0;
  swod_lres_thr_bp = 0;
  swod_hold_min_ms = 0;
  swod_hold_max_ms = 0;
  swod_hold_scale_bp = 0;
  swod_cmd_pressure = 0;
  swod_blk_pressure = 0;
  swod_max_held_groups = 0;
  swod_formation_enable = 0;
  swod_short_hold_min_ms = 0;
  swod_short_hold_max_ms = 0;
  swod_frag_min_cmds = 0;
  swod_frag_max_avg_piece_blks = 0;
  swod_frag_min_pend_blks = 0;
  swod_growth_min_bp = 0;
  swod_wce_qcov_thr_bp = 0;
  swod_wce_lres_thr_bp = 0;
  swod_overlap_skip_ratio_bp = 0;
  swod_completion_enable = 1;
  swod_gc_bg_enable = 1;
  swod_gc_fg_enable = 1;
  swod_frag_ipu_enable = 0;
  swod_frag_ipu_max_pend_blks = 0;
  swod_frag_ipu_min_cmds = 0;
  swod_frag_ipu_age_ms = 0;
  swod_frag_ipu_skip_hot = 0;
}

-- What `f2fs_swod_init` makes of them.
abbrev pub knobs : Tunables
knobs = formation_defaults (base_defaults fs none raw_tunables)

-- Segment 0 has three pending blocks of its four, in one command; the others have none.
abbrev pub hints : ℕ → SegHint
hints zero = record {
  pend_blks = 3;
  nr_cmds = 1;
  oldest_jiffies = 900;
  last_pend_blks = 0;
  last_nr_cmds = 0;
  last_sample_jiffies = 0;
}
hints (suc _) = record {
  pend_blks = 0;
  nr_cmds = 0;
  oldest_jiffies = 0;
  last_pend_blks = 0;
  last_nr_cmds = 0;
  last_sample_jiffies = 0;
}

-- What the uninitialised variables hold: a covered window without live blocks.
abbrev pub stale : Stale
stale = record { qbp_at = λ _ _. 9000; lbp_at = λ _ _. 0 }

-- For every group.
abbrev pub stale_at : ℕ → Stale
stale_at gid = stale

abbrev pub new_ctrl : Ctrl
new_ctrl =
    fresh_ctrl fs (base_defaults fs none raw_tunables) hints (λ _. idle_hint 0) (λ _. false)
      (λ _. false) (λ _. false)

abbrev pub window : Candidate
window = record {
  off = 0;
  len = 2;
  qbp = 9000;
  lbp = 0;
  nr_cmds = 1;
  avg_piece = 16;
  action = completion_hold;
}

-- Segments 0 and 1 are held from time 1000 on.
abbrev pub held_ctrl : Ctrl
held_ctrl = install_candidate fs knobs 0 window 1000 new_ctrl

abbrev pub busy_ctrl : Ctrl
busy_ctrl = record held_ctrl { eval_running = 1 }

abbrev pub one_held : Dcc
one_held = record { tun = knobs; swod = some held_ctrl }

-- A command in segment 0, which the window covers.
abbrev pub covered : Cmd
covered = record { lstart = 512; len = 3; state = d_prep; enq_jiffies = 900; swod_skip = 0 }

abbrev pub marked : Cmd
marked = record covered { swod_skip = 1 }

pub new_ctrl-Inv : Inv new_ctrl
new_ctrl-Inv = fresh-Inv fs none raw_tunables hints (omega arith)

window-fits : window.off + window.len ≤ group_nsegs new_ctrl 0
unfolding group_nsegs
window-fits = omega arith

install_candidate-Inv_example : Inv (install_candidate fs knobs 0 window 1000 new_ctrl)
install_candidate-Inv_example =
    install_candidate-Inv new_ctrl-Inv 0 (omega arith) refl fs knobs window 1000 (omega arith)
      window-fits

pub held_ctrl-Inv : Inv held_ctrl
held_ctrl-Inv =
    install_candidate-Inv new_ctrl-Inv 0 (omega arith) refl fs knobs window 1000 (omega arith)
      window-fits

pub busy_ctrl-Inv : Inv busy_ctrl
unfolding install_candidate
busy_ctrl-Inv = frame-Inv held_ctrl-Inv _ _ _ 1 _
