-- ===== src/Swod/Tests/Control.antt =====
-- The operations that change the control block, on the small file system.
use redisc.Base.{ℕ, zero, suc, ◌≤◌, ◌<◌, ◌≡◌, refl, inl, true, false, none, some, arith}
use redisc.Swod.State.{held, parked, Ctrl, GroupHint, timeout, pressure, is_held, is_parked}
use redisc.Swod.Geometry.{group_nsegs, max_hold_len}
use redisc.Swod.Policy.{regime_blocked, calc_hold_ms}
use redisc.Swod.Group.{collect_window, clear_group, drop_group, idle_hint}
use redisc.Swod.Hold.{
  install_candidate, release_group, try_park_group, window_ready, segs_ready, park_victim,
}
use redisc.Swod.Hold.Victim.{park_victim_lem}
use redisc.Swod.Eval.{eval_group, eval_active, held_victim, worse_held}
use redisc.Swod.Eval.Victim.{held_victim_lem}
use redisc.Swod.Eval.Keeps.{eval_group-Stays}
use redisc.Swod.Inv.Stays.{Stays}
use redisc.Swod.Lookup.{is_some}
use redisc.Swod.Inv.{Inv}
use redisc.Swod.Inv.Release.{Keeps, Unreleased, release_group-Keeps}
use redisc.Swod.Worker.{release_from, eval_work_ctrl, queue_eval_ctrl}
use redisc.Swod.Worker.{sweep_ctrl}
use redisc.Swod.Worker.Sweep.{is_overdue, sweep_ctrl-overdue}
use redisc.Swod.Worker.Keeps.{eval_work_ctrl-Inv}
use redisc.Swod.Worker.Release.{IsReleased, release_all-IsReleased}
use redisc.Swod.Worker.Liveness.{here, next, queue, Reach, worker_never_evaluates}
use redisc.Swod.Tests.{
  fs, knobs, stale, stale_at, new_ctrl, held_ctrl, held_ctrl-Inv, busy_ctrl, busy_ctrl-Inv,
}

some_groups : 0 < held_ctrl.nr_groups
unfolding install_candidate
some_groups = omega arith

eval_group-Stays_example : Stays held_ctrl (eval_group fs knobs stale 0 5000 held_ctrl)
eval_group-Stays_example = eval_group-Stays fs knobs 0 5000 stale held_ctrl-Inv some_groups

eval_work_ctrl-Inv_example : Inv (eval_work_ctrl fs knobs stale_at busy_ctrl)
eval_work_ctrl-Inv_example = eval_work_ctrl-Inv fs knobs stale_at busy_ctrl-Inv

sweep_ctrl-overdue_example :
    is_overdue 5000 ((sweep_ctrl fs knobs 5000 held_ctrl).grp_hint 0) ≡ false
sweep_ctrl-overdue_example = sweep_ctrl-overdue fs knobs 5000 held_ctrl-Inv 0 some_groups

-- The held window has run out by then.
overdue_before : is_overdue 5000 (held_ctrl.grp_hint 0) ≡ true
unfolding install_candidate calc_hold_ms
overdue_before = refl

release_all-IsReleased_example :
    IsReleased (release_from fs pressure held_ctrl.nr_groups 0 held_ctrl)
release_all-IsReleased_example = release_all-IsReleased fs pressure held_ctrl held_ctrl-Inv

release_group-Keeps_example :
    Keeps (Unreleased held_ctrl 0) held_ctrl (release_group fs knobs 0 timeout held_ctrl)
release_group-Keeps_example = release_group-Keeps fs knobs 0 timeout held_ctrl-Inv some_groups

-- Two parked windows, of which group 1 has the lower score.
abbrev parked_pair : ℕ → GroupHint
parked_pair zero = record (idle_hint 0) { state = parked; hold_len = 1; park_score = 30 }
parked_pair (suc _) = record (idle_hint 0) { state = parked; hold_len = 1; park_score = 20 }

abbrev parked_ctrl : Ctrl
parked_ctrl = record new_ctrl { nr_parked_groups = 2; grp_hint = parked_pair }

park_victim_example : park_victim parked_ctrl 2 0 none ≡ some 1
unfolding park_victim
park_victim_example = refl

park_victim_lem_example :
    (v : ℕ) × (park_victim parked_ctrl parked_ctrl.nr_groups 0 none ≡ some v)
    × (v < parked_ctrl.nr_groups)
    × (is_parked (parked_ctrl.grp_hint v).state ≡ true)
    × ((parked_ctrl.grp_hint v).park_score ≤ (parked_ctrl.grp_hint 0).park_score)
park_victim_lem_example = park_victim_lem parked_ctrl 0 (omega arith) refl

-- Two held windows, of which group 1 is covered less.
abbrev held_pair : ℕ → GroupHint
held_pair zero = record (idle_hint 0) { state = held; hold_len = 1; hold_qbp = 9500 }
held_pair (suc _) = record (idle_hint 0) { state = held; hold_len = 1; hold_qbp = 9000 }

abbrev two_held : Ctrl
two_held = record new_ctrl { nr_held_groups = 2; grp_hint = held_pair }

held_victim_example : held_victim two_held 2 0 none ≡ some 1
unfolding held_victim
held_victim_example = refl

held_victim_lem_example :
    (v : ℕ) × (held_victim two_held two_held.nr_groups 0 none ≡ some v)
    × (v < two_held.nr_groups)
    × (is_held (two_held.grp_hint v).state ≡ true)
    × (worse_held (two_held.grp_hint 0) (two_held.grp_hint v) ≡ false)
held_victim_lem_example = held_victim_lem two_held 0 (omega arith) refl

-- The discard path has asked for an evaluation.
abbrev asked : Ctrl
asked = queue_eval_ctrl fs new_ctrl

asked_pending : asked.work_pending ≡ some 100
unfolding queue_eval_ctrl
asked_pending = refl

worker_never_evaluates_example :
    (eval_work_ctrl fs knobs stale_at asked
      ≡ record asked { work_pending = none; eval_running = 1 })
    × ((c : Ctrl)
        → Reach fs knobs stale_at (eval_work_ctrl fs knobs stale_at asked) c
        → (c.eval_running ≡ 1) × (is_some c.work_pending ≡ false))
worker_never_evaluates_example =
    worker_never_evaluates fs knobs stale_at new_ctrl asked (inl refl) (next here (queue refl))
      (rw asked_pending refl)

-- A held window that has run out is released; where nothing is held, a covered one is installed.
released_after : is_held ((eval_group fs knobs stale 0 5000 held_ctrl).grp_hint 0).state ≡ false
unfolding eval_group group_nsegs install_candidate regime_blocked max_hold_len eval_active
    window_ready segs_ready calc_hold_ms release_group try_park_group collect_window drop_group
    clear_group
released_after = refl
