-- ===== src/Swod/Worker.antt =====
-- The background evaluation, and the two loops over all groups: `f2fs_swod_eval_work`,
-- `f2fs_swod_queue_eval`, `f2fs_swod_cancel_eval`, `f2fs_swod_release_all`,
-- `f2fs_swod_sweep_timeout`.
pub mod Keeps
pub mod Release
pub mod Liveness
pub mod Sweep
use redisc.Base.{
  ℕ, zero, suc, ◌+◌, ◌-◌, min, Bool, true, false, not, ◌&&◌, Option, some, none, ltb, leb, ◌==◌,
  is_set, if◌then◌else◌, time_after_eq,
}
use redisc.Swod.State.{
  ReleaseReason, timeout, GroupHint, Ctrl, Dcc, Tunables, Sbi, group_is_active, group_deadline,
}
use redisc.Swod.Policy.{enabled_ctrl}
use redisc.Swod.Group.{drop_group}
use redisc.Swod.Hold.{release_group}
use redisc.Swod.Search.{Stale}
use redisc.Swod.Eval.{eval_group}
use redisc.Swod.Lookup.{is_some}

-- The control block is updated where SWOD is enabled.
abbrev pub with_ctrl_in : Dcc → (Ctrl → Ctrl) → Option Ctrl → Dcc
with_ctrl_in d f none = d
with_ctrl_in d f (some sw) = record d { swod = some (f sw) }

abbrev pub with_ctrl : Dcc → (Ctrl → Ctrl) → Dcc
with_ctrl d f = with_ctrl_in d f (enabled_ctrl d)

-- The loop of `__f2fs_swod_release_all_locked`, with the rounds that are left.
unfoldable pub release_from : Sbi → ReleaseReason → ℕ → ℕ → Ctrl → Ctrl
release_from sbi why zero gid sw = sw
release_from sbi why (suc n) gid sw =
    release_from sbi why n (gid + 1)
      (if group_is_active (sw.grp_hint gid) then drop_group sbi gid why sw else sw)

-- `f2fs_swod_release_all`.
unfoldable pub release_all : Sbi → ReleaseReason → Dcc → Dcc
unfolding release_from
release_all sbi why d = with_ctrl d (λ sw. release_from sbi why sw.nr_groups 0 sw)

abbrev pub is_expired : ℕ → GroupHint → Bool
is_expired now g = group_is_active g && time_after_eq now (group_deadline g)

-- The loop of `f2fs_swod_sweep_timeout`, with the rounds that are left.
unfoldable pub sweep_from : Sbi → Tunables → ℕ → ℕ → ℕ → Ctrl → Ctrl
sweep_from sbi t now zero gid sw = sw
sweep_from sbi t now (suc n) gid sw =
    sweep_from sbi t now n (gid + 1)
      (if is_expired now (sw.grp_hint gid) then release_group sbi t gid timeout sw else sw)

-- `f2fs_swod_sweep_timeout` on the control block.
unfoldable pub sweep_ctrl : Sbi → Tunables → ℕ → Ctrl → Ctrl
unfolding sweep_from
sweep_ctrl sbi t now sw =
    if not (is_set sw.nr_held_groups) then sw else sweep_from sbi t now sw.nr_groups 0 sw

-- `f2fs_swod_sweep_timeout`.
unfoldable pub sweep_timeout : Sbi → ℕ → Dcc → Dcc
unfolding sweep_ctrl
sweep_timeout sbi now d = with_ctrl d (sweep_ctrl sbi d.tun now)

-- The batch of `f2fs_swod_eval_work`, with the rounds that are left. Each group reads uninitialised
-- variables of its own.
unfoldable pub eval_from : Sbi → Tunables → (ℕ → Stale) → ℕ → ℕ → ℕ → Ctrl → Ctrl
eval_from sbi t stale now zero gid sw = sw
eval_from sbi t stale now (suc n) gid sw =
    eval_from sbi t stale now n (gid + 1) (eval_group sbi t (stale gid) gid now sw)

-- The part of `f2fs_swod_eval_work` behind its guard. `gid` ends where the batch does.
unfoldable pub eval_batch : Sbi → Tunables → (ℕ → Stale) → Ctrl → Ctrl
unfolding eval_from
eval_batch sbi t stale sw =
    let now = sbi.jiffies in
    let rounds = min sw.eval_batch_size (sw.nr_groups - sw.eval_next_gid) in
    let gid = sw.eval_next_gid + rounds in
    let sw1 = eval_from sbi t stale now rounds sw.eval_next_gid sw in
    let sw2 = record sw1 {
      eval_next_gid = if ltb gid sw.nr_groups then gid else 0;
      eval_running = 0;
    } in
    let sw3 = sweep_ctrl sbi t now sw2 in
    let delay =
      (if ltb gid sw.nr_groups then if ltb 0 sw2.nr_held_groups then 200 else 1000 else 5000) in
    record sw3 { work_pending = some (sbi.msecs_to_jiffies delay) }

-- `atomic_cmpxchg(&sw->eval_running, 0, 1)` returns the old value, and the guard leaves where that
-- is 0. The workqueue has taken the work off before it runs it.
unfoldable pub eval_work_ctrl : Sbi → Tunables → (ℕ → Stale) → Ctrl → Ctrl
unfolding eval_batch
eval_work_ctrl sbi t stale sw =
    let sw0 = record sw { work_pending = none } in
    if sw.eval_running == 0 then record sw0 { eval_running = 1 } else eval_batch sbi t stale sw0

abbrev taken_off : Option Ctrl → Option Ctrl
taken_off none = none
taken_off (some sw) = some (record sw { work_pending = none })

-- `f2fs_swod_eval_work`, run by the workqueue.
unfoldable pub eval_work : Sbi → (ℕ → Stale) → Dcc → Dcc
unfolding eval_work_ctrl
eval_work sbi stale d =
    if is_some (enabled_ctrl d)
    then with_ctrl d (eval_work_ctrl sbi d.tun stale)
    else record d { swod = taken_off d.swod }

-- `f2fs_swod_queue_eval`. `f2fs_swod_init` has set the work's function.
unfoldable pub queue_eval_ctrl : Sbi → Ctrl → Ctrl
queue_eval_ctrl sbi sw =
    if not (is_some sw.work_pending) && not (is_set sw.eval_running)
    then record sw { work_pending = some (sbi.msecs_to_jiffies 100) }
    else sw

unfoldable pub queue_eval : Sbi → Dcc → Dcc
unfolding queue_eval_ctrl
queue_eval sbi d = with_ctrl d (queue_eval_ctrl sbi)

-- `f2fs_swod_cancel_eval`.
unfoldable pub cancel_eval : Dcc → Dcc
cancel_eval d = with_ctrl d (λ sw. record sw { work_pending = none })
