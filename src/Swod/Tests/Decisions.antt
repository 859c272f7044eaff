-- ===== src/Swod/Tests/Decisions.antt =====
-- The lookups, the check of a command, and the computed bounds, on the small file system.
use redisc.Base.{
  ℕ, ◌+◌, ◌*◌, ◌/◌, ◌^◌, ◌≤◌, ◌<◌, ◌≡◌, ◌↔◌, refl, ◌==◌, true, false, some, arith, in_range, fill,
}
use redisc.Swod.State.{wce_park_min_ms, wce_park_max_ms}
use redisc.Swod.Geometry.{gid_of, group_first_seg, group_nsegs, max_hold_len}
use redisc.Swod.Geometry.Laws.{group_partition}
use redisc.Swod.Policy.{calc_hold_ms, calc_park_ms, calc_short_hold_ms}
use redisc.Swod.Policy.Laws.{calc_ms_bounds}
use redisc.Swod.State.{Dcc}
use redisc.Swod.Hold.{park_group, install_candidate}
use redisc.Swod.Search.{
  Sums, scan_offs, scan_lens, try_window, pend_prefix, try_short, try_complete, search_windows,
  build_window_feat,
}
use redisc.Swod.Search.Pieces.{fragmented-wraps}
use redisc.Swod.Eval.{Choice, choose}
use redisc.Swod.Inv.Stays.{Stays}
use redisc.Swod.Inv.{mark, hint_held, hint_eligible}
use redisc.Swod.Lookup.{range_held, range_wce_target, wce_match, segno_of}
use redisc.Swod.Lookup.Laws.{HasTarget, range_held_iff, wce_match_iff}
use redisc.Swod.Issue.{check_marked, should_skip_ctrl, is_prep}
use redisc.Swod.Issue.Keeps.{InMain, should_skip-Stays}
use redisc.Swod.Issue.Sound.{WaitsIn, should_skip-Waits}
use redisc.Swod.Tests.{
  fs, knobs, stale, new_ctrl, new_ctrl-Inv, held_ctrl, held_ctrl-Inv, one_held, window, covered,
  marked,
}

range_held_iff_example : (range_held one_held 0 1 ≡ true) ↔ (
    (s : ℕ) × (0 ≤ s)
    × (s < 0 + 1)
    × (s < held_ctrl.nr_main_segs)
    × (mark hint_held held_ctrl s ≡ true))
range_held_iff_example = range_held_iff one_held refl held_ctrl-Inv 0 1 (omega arith)

wce_match_iff_example :
    ((range_wce_target one_held 0 1 ≡ true)
      ↔ HasTarget one_held refl held_ctrl-Inv 0 1 (omega arith))
    × ((wce_match one_held 0 1 ≡ true)
        ↔ ((0 < 1) × (0 < held_ctrl.nr_main_segs) × (mark hint_eligible held_ctrl 0 ≡ true)))
wce_match_iff_example = wce_match_iff one_held refl held_ctrl-Inv 0 1 (omega arith)

-- A window that is held to be completed is a target; a segment outside it is not.
matches_inside : wce_match one_held 0 1 ≡ true
unfolding wce_match install_candidate fill
matches_inside = refl

matches_outside : wce_match one_held 2 1 ≡ false
unfolding wce_match install_candidate fill
matches_outside = refl

-- A parked window is a target of the lookup, and no match.
abbrev one_parked : Dcc
one_parked = record one_held {
  swod = some (
      park_group fs knobs 0 (record { qbp = 9000; lbp = 100; cold_cnt = 0; oldest = 900 }) 1000
        held_ctrl);
}

parked_targeted : range_wce_target one_parked 0 1 ≡ true
unfolding range_wce_target park_group install_candidate fill
parked_targeted = refl

parked_unmatched : wce_match one_parked 0 1 ≡ false
unfolding wce_match park_group install_candidate fill
parked_unmatched = refl

-- A window behind the first segment of a range is a target of the lookup, and no match.
abbrev late_held : Dcc
late_held = record one_held {
  swod = some (install_candidate fs knobs 0 (record window { off = 1 }) 1000 new_ctrl);
}

overlap_targeted : range_wce_target late_held 0 2 ≡ true
unfolding range_wce_target install_candidate fill
overlap_targeted = refl

overlap_unmatched : wce_match late_held 0 2 ≡ false
unfolding wce_match install_candidate fill
overlap_unmatched = refl

covered-InMain : InMain fs covered held_ctrl
unfolding segno_of install_candidate
covered-InMain = (omega arith, omega arith)

should_skip-Stays_example : Stays held_ctrl (should_skip_ctrl fs knobs 1000 covered held_ctrl).ctrl
should_skip-Stays_example = should_skip-Stays fs knobs 1000 covered held_ctrl-Inv covered-InMain

marked_skipped : (should_skip_ctrl fs knobs 1000 marked held_ctrl).skip ≡ true
unfolding should_skip_ctrl install_candidate check_marked segno_of calc_hold_ms
marked_skipped = refl

should_skip-Waits_example :
    (is_prep marked.state ≡ true)
    × WaitsIn fs knobs 1000 marked held_ctrl (should_skip_ctrl fs knobs 1000 marked held_ctrl).ctrl
    × ((should_skip_ctrl fs knobs 1000 marked held_ctrl).cmd ≡ covered)
should_skip-Waits_example = should_skip-Waits fs knobs 1000 marked held_ctrl marked_skipped

group_partition_example :
    (gid_of new_ctrl 5 < new_ctrl.nr_groups)
    × (in_range (group_first_seg new_ctrl 1) (group_nsegs new_ctrl 1) 5 ≡ (gid_of new_ctrl 5 == 1))
group_partition_example = group_partition new_ctrl-Inv.layout 5 1 (omega arith) (omega arith)

-- 50 for the base, 10 for the second segment, 5 for the coverage and 9 for few live blocks.
hold_time : calc_hold_ms knobs 2 9000 100 ≡ 74
unfolding calc_hold_ms
hold_time = refl

calc_ms_bounds_example :
    (knobs.swod_hold_min_ms ≤ calc_hold_ms knobs 2 9000 100)
    × (calc_hold_ms knobs 2 9000 100 ≤ knobs.swod_hold_max_ms)
    × (wce_park_min_ms ≤ calc_park_ms knobs 2 9000 100)
    × (calc_park_ms knobs 2 9000 100 ≤ wce_park_max_ms)
    × (knobs.swod_short_hold_min_ms ≤ calc_short_hold_ms fs knobs)
    × (calc_short_hold_ms fs knobs < knobs.swod_short_hold_max_ms)
calc_ms_bounds_example =
    calc_ms_bounds fs knobs 2 9000 100 (omega arith) (omega arith) (omega arith)

-- The longest window that the stale variables let through is the whole group.
abbrev whole_group : Choice
whole_group = record {
  best = record {
    found = true;
    score = 0;
    off = 0;
    len = 4;
    qbp = 9000;
    lbp = 0;
    ncmds = 1;
    avg_piece = 30_000;
    pend_blks = 3;
    oldest = 900;
  };
  is_short = false;
}

whole_group_chosen :
    choose (
      search_windows fs knobs stale new_ctrl 0
        (group_first_seg new_ctrl 0)
        (group_nsegs new_ctrl 0)
        (max_hold_len fs new_ctrl 0))
    ≡ some whole_group
unfolding search_windows scan_offs group_nsegs scan_lens max_hold_len try_window pend_prefix
    try_short build_window_feat try_complete
whole_group_chosen = refl

-- Nine commands of 3362 blocks together: the scaled mean is 3735555, whose low 16 bits are 3.
abbrev large_pieces : Sums
large_pieces = record { q = 3362; l = 0; ncmds = 9; pend = 3362 }

fragmented-wraps_example : 2 ^ 16 ≤ large_pieces.pend * 10_000 / large_pieces.ncmds
fragmented-wraps_example =
    fragmented-wraps knobs 8192 large_pieces (omega arith) (omega arith) (omega arith) refl
