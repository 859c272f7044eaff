-- ===== src/Swod/Tests/Runs.antt =====
-- Setting up, and a refresh behind a change of the commands, on the small file system.
use redisc.Base.{
  count-pos, ℕ, ◌≤◌, ◌<◌, ◌≡◌, ◌↔◌, refl, true, false, fill, none, some, [], ◌∷◌, arith,
}
use redisc.Swod.FragIpu.{Heat, should_frag_ipu, judge}
use redisc.Swod.State.{held, Sbi, SegHint, Ctrl, Dcc, GroupHint}
use redisc.Swod.Hold.{install_candidate}
use redisc.Swod.Group.{idle_hint}
use redisc.Swod.Lookup.{is_some, has_held, range_held, segno_of, start_block}
use redisc.Swod.Issue.{Cmd, d_prep}
use redisc.Swod.Inv.{hint_held, Inv}
use redisc.Swod.Inv.Stays.{Stays}
use redisc.Swod.Init.{init, no_error, fresh_ctrl, base_defaults}
use redisc.Swod.Init.Laws.{IsBlank, handed, init-Inv, init-Inv_iff, init-no_error_iff, zeroing}
use redisc.Swod.Rebuild.{
  CmdTree, leaf, node, in_order, lower_bound, refresh_ctrl, rebuild_groups, first_gid, last_gid,
}
use redisc.Swod.Rebuild.Search.{AreDisjoint}
use redisc.Swod.Rebuild.Keeps.{refresh_ctrl-Stays}
use redisc.Swod.Tests.{fs, knobs, stale_at, hints, held_ctrl, held_ctrl-Inv, covered, new_ctrl}

abbrev no_ctrl : Dcc
no_ctrl = record { tun = knobs; swod = none }

init-Inv_example :
    ((init fs none (zeroing hints) no_ctrl).0 ≡ no_error)
    × ((sw : Ctrl) × ((init fs none (zeroing hints) no_ctrl).1.swod ≡ some sw) × Inv sw)
init-Inv_example = init-Inv fs none hints no_ctrl (omega arith) refl

init-no_error_iff_example :
    ((init fs none (zeroing hints) no_ctrl).0 ≡ no_error)
    ↔ (is_some (init fs none (zeroing hints) no_ctrl).1.swod ≡ true)
init-no_error_iff_example = init-no_error_iff fs none (zeroing hints) no_ctrl

-- The memory of every group happens to read as held.
abbrev leftover : ℕ → GroupHint
leftover _ = record (idle_hint 0) { state = held }

init-Inv_iff_example :
    let r = init fs none (handed hints leftover (λ _. false) (λ _. false) (λ _. false)) no_ctrl in
    (r.0 ≡ no_error)
    × ((sw : Ctrl) × (r.1.swod ≡ some sw)
        × (Inv sw ↔ IsBlank sw leftover (λ _. false) (λ _. false) (λ _. false)))
init-Inv_iff_example =
    init-Inv_iff fs none hints leftover (λ _. false) (λ _. false) (λ _. false) no_ctrl (omega arith)
      refl

-- So the invariant fails from the start.
leftover-not-Inv :
    (sw : Ctrl) × ((init fs none
        (handed hints leftover (λ _. false) (λ _. false) (λ _. false))
        no_ctrl).1.swod
      ≡ some sw)
    × ¬ Inv sw
unfolding init
leftover-not-Inv = (
  fresh_ctrl fs (base_defaults fs none knobs) hints leftover (λ _. false) (λ _. false) (λ _. false),
  refl,
  λ v. absurd (omega (arith, v.held_count, count-pos hint_held 2 leftover 0 (omega arith) refl)),
)

-- Three commands: in segment 0, across segments 1 and 2, and in segment 6.
abbrev pub across : Cmd
across = record { lstart = 517; len = 6; state = d_prep; enq_jiffies = 800; swod_skip = 0 }

abbrev pub late : Cmd
late = record { lstart = 537; len = 2; state = d_prep; enq_jiffies = 700; swod_skip = 0 }

abbrev pub cmds : CmdTree
cmds = node (node leaf covered leaf) across (node leaf late leaf)

pub cmds_disjoint : AreDisjoint 0 (in_order cmds)
unfolding in_order
cmds_disjoint = (
  omega arith,
  omega arith,
  omega arith,
  (omega arith, omega arith, omega arith, (omega arith, omega arith, omega arith, tt)),
)

lower_bound_example : lower_bound cmds 520 ≡ (across ∷ late ∷ [])
unfolding lower_bound
lower_bound_example = refl

-- The command across two segments counts in both.
rebuilt : ((rebuild_groups fs cmds 0 1 new_ctrl).seg_hint 2).pend_blks ≡ 3
unfolding rebuild_groups start_block segno_of
rebuilt = refl

refreshed_groups : first_gid fs held_ctrl 512 ≤ last_gid fs held_ctrl 512 3
unfolding segno_of install_candidate
refreshed_groups = omega arith

refreshed_in_main : last_gid fs held_ctrl 512 3 < held_ctrl.nr_groups
unfolding segno_of install_candidate
refreshed_in_main = omega arith

refresh_ctrl-Stays_example : Stays held_ctrl (refresh_ctrl fs knobs stale_at cmds 512 3 held_ctrl)
refresh_ctrl-Stays_example =
    refresh_ctrl-Stays fs knobs stale_at cmds 512 3 held_ctrl-Inv refreshed_groups refreshed_in_main

-- A log-structured file system with old fragments in every segment, of which 0 and 1 are held.
abbrev lfs : Sbi
lfs = record fs { lfs_mode = true }

abbrev fragments : ℕ → SegHint
fragments _ = record {
  pend_blks = 4;
  nr_cmds = 2;
  oldest_jiffies = 100;
  last_pend_blks = 0;
  last_nr_cmds = 0;
  last_sample_jiffies = 0;
}

abbrev fragment_ctrl : Ctrl
fragment_ctrl = record held_ctrl { seg_hint = fragments }

abbrev fragment_dcc : Dcc
fragment_dcc = record {
  tun = record knobs {
    swod_frag_ipu_enable = 1;
    swod_frag_ipu_min_cmds = 2;
    swod_frag_ipu_age_ms = 400;
  };
  swod = some fragment_ctrl;
}

abbrev warm : Heat
warm = record { hot_file = false; hot_flag = false; cold_file = false }

held_not_rewritten : (should_frag_ipu lfs warm (some 513) fragment_dcc).0 ≡ false
unfolding should_frag_ipu judge has_held install_candidate segno_of range_held fill
held_not_rewritten = refl
