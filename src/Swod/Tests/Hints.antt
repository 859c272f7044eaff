-- ===== src/Swod/Tests/Hints.antt =====
-- The segment hints, rebuilt and updated, on the small file system.
use redisc.Base.{◌-◌, ◌+◌, ◌≤◌, ◌<◌, ◌≡◌, ◌^◌, refl, some, [], ◌∷◌, arith, add32}
use redisc.Swod.State.{Ctrl}
use redisc.Swod.Hold.{install_candidate}
use redisc.Swod.Worker.{queue_eval_ctrl}
use redisc.Swod.Rebuild.{in_order, rebuild_groups}
use redisc.Swod.Rebuild.Blocks.{FitsBlocks, first_block}
use redisc.Swod.Rebuild.Pending.{overlap, pending_in}
use redisc.Swod.Rebuild.Commands.{commands_in}
use redisc.Swod.Rebuild.Tally.{rebuild_groups-commands_in}
use redisc.Swod.Rebuild.Exact.{rebuild_groups-pending_in}
use redisc.Swod.Hints.{with_created, create_cmd, submit_hints, submit_from}
use redisc.Swod.Hints.Laws.{create_cmd-pending_in, submit_hints-pending_in}
use redisc.Swod.Tests.{fs, new_ctrl, held_ctrl, one_held, covered}
use redisc.Swod.Tests.Runs.{cmds, cmds_disjoint}

fits : FitsBlocks fs 8
fits = record {
  above_null = omega arith;
  below_new = omega arith;
  below_compress = omega arith;
  small = omega arith;
}

held_fits : FitsBlocks fs held_ctrl.nr_main_segs
unfolding install_candidate
held_fits = fits

rebuild_groups-pending_in_example :
    ((rebuild_groups fs cmds 0 1 new_ctrl).seg_hint 2).pend_blks ≡ pending_in fs 2 (in_order cmds)
rebuild_groups-pending_in_example =
    rebuild_groups-pending_in fs new_ctrl fits cmds cmds_disjoint 0 1 2 (omega arith) (omega arith)
      (omega arith)

rebuild_groups-commands_in_example :
    ((rebuild_groups fs cmds 0 1 new_ctrl).seg_hint 2).nr_cmds ≡ commands_in fs 2 (in_order cmds)
rebuild_groups-commands_in_example =
    rebuild_groups-commands_in fs new_ctrl fits cmds cmds_disjoint 0 1 2 (omega arith) (omega arith)
      (omega arith)

-- Before the new command, segment 3 has no pending block, and segment 0 has three.
third_agrees : (held_ctrl.seg_hint 3).pend_blks ≡ pending_in fs 3 (covered ∷ [])
unfolding install_candidate pending_in
third_agrees = refl

first_agrees : (held_ctrl.seg_hint 0).pend_blks ≡ pending_in fs 0 (covered ∷ [])
unfolding install_candidate pending_in
first_agrees = refl

third_small : pending_in fs 3 (covered ∷ []) + overlap fs 3 524 (524 + 2) < 2 ^ 32
unfolding pending_in
third_small = omega arith

abbrev after_create : Ctrl
after_create = queue_eval_ctrl fs (with_created fs 524 2 held_ctrl)

abbrev after_submit : Ctrl
after_submit = record held_ctrl {
  seg_hint =
      submit_from fs held_ctrl.nr_main_segs (add32 512 3) (add32 512 3 - 512) 512
        held_ctrl.seg_hint;
}

created : (create_cmd fs 524 2 one_held).1.swod ≡ some after_create
unfolding create_cmd
created = refl

submitted : (submit_hints fs 512 3 one_held).swod ≡ some after_submit
unfolding submit_hints
submitted = refl

in_main_3 : 524 + 2 ≤ first_block fs held_ctrl.nr_main_segs
unfolding install_candidate
in_main_3 = omega arith

in_main_0 : 512 + 3 ≤ first_block fs held_ctrl.nr_main_segs
unfolding install_candidate
in_main_0 = omega arith

create_cmd-pending_in_example :
    (after_create.seg_hint 3).pend_blks
    ≡ pending_in fs 3 ((create_cmd fs 524 2 one_held).0 ∷ covered ∷ [])
create_cmd-pending_in_example =
    create_cmd-pending_in fs one_held refl held_fits (covered ∷ []) 3 524 2 after_create
      third_agrees third_small (omega arith) in_main_3 created

submit_hints-pending_in_example : (after_submit.seg_hint 0).pend_blks ≡ pending_in fs 0 []
submit_hints-pending_in_example =
    submit_hints-pending_in fs one_held refl held_fits [] 0 covered after_submit first_agrees refl
      (omega arith) (omega arith) in_main_0 submitted
