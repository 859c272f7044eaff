-- ===== src/Swod/Worker/Keeps.antt =====
-- The loops over the groups, and `f2fs_swod_eval_work`, and the invariant.
use redisc.Base.{
  ℕ, zero, suc, ◌+◌, ◌-◌, ◌≤◌, min, inl, inr, Bool, true, false, not, Bool-cases, none, arith,
  is_set, ◌==◌, if◌then◌else◌,
}
use redisc.Swod.State.{Ctrl, Sbi, Tunables, ReleaseReason, timeout, group_is_active}
use redisc.Swod.Search.{Stale}
use redisc.Swod.Eval.Keeps.{eval_group-Stays}
use redisc.Swod.Inv.Stays.{Stays, Stays-refl, Stays-trans, Keeps-Stays}
use redisc.Swod.Inv.{Inv}
use redisc.Swod.Inv.Replace.{frame-Inv}
use redisc.Swod.Inv.Release.{release_group-Keeps, drop_group-Keeps}
use redisc.Swod.Worker.{
  release_from, sweep_from, sweep_ctrl, is_expired, eval_from, eval_batch, eval_work_ctrl,
}

-- A step of the loops below: the group is changed where a test says so.
if-Stays : {sw sw' : Ctrl} (b : Bool) → Inv sw → Stays sw sw' → Stays sw (if b then sw' else sw)
if-Stays true v s = s
if-Stays false v s = Stays-refl v

module _ (sbi : Sbi) where
  pub release_from-Stays :
      (why : ReleaseReason) (n gid : ℕ) {sw : Ctrl}
      → Inv sw
      → gid + n ≤ sw.nr_groups
      → Stays sw (release_from sbi why n gid sw)
  unfolding release_from
  release_from-Stays why zero gid v h = Stays-refl v
  release_from-Stays why (suc n) gid {sw} v h =
      let s =
        if-Stays (group_is_active (sw.grp_hint gid)) v
          (Keeps-Stays (drop_group-Keeps sbi why v gid (omega arith))) in
      Stays-trans s (release_from-Stays why n (gid + 1) s.inv (rw (s.same_groups) (omega arith)))

  pub sweep_from-Stays :
      (t : Tunables) (now n gid : ℕ) {sw : Ctrl}
      → Inv sw
      → gid + n ≤ sw.nr_groups
      → Stays sw (sweep_from sbi t now n gid sw)
  unfolding sweep_from
  sweep_from-Stays t now zero gid v h = Stays-refl v
  sweep_from-Stays t now (suc n) gid {sw} v h =
      let s =
        if-Stays (is_expired now (sw.grp_hint gid)) v
          (Keeps-Stays (release_group-Keeps sbi t gid timeout v (omega arith))) in
      Stays-trans s (sweep_from-Stays t now n (gid + 1) s.inv (rw (s.same_groups) (omega arith)))

  pub sweep_ctrl-Stays :
      (t : Tunables) (now : ℕ) {sw : Ctrl} → Inv sw → Stays sw (sweep_ctrl sbi t now sw)
  unfolding sweep_ctrl
  sweep_ctrl-Stays t now {sw} v = elim (Bool-cases (not (is_set sw.nr_held_groups))) [
    | inl none_held ↦ rw none_held (Stays-refl v)
    | inr some_held ↦ rw some_held (sweep_from-Stays t now sw.nr_groups 0 v (omega arith))
  ]

  pub eval_from-Stays :
      (t : Tunables) (stale : ℕ → Stale) (now n gid : ℕ) {sw : Ctrl}
      → Inv sw
      → n ≤ sw.nr_groups - gid
      → Stays sw (eval_from sbi t stale now n gid sw)
  unfolding eval_from
  eval_from-Stays t stale now zero gid v h = Stays-refl v
  eval_from-Stays t stale now (suc n) gid {sw} v h =
      let s = eval_group-Stays sbi t gid now (stale gid) v (omega arith) in
      Stays-trans s
        (eval_from-Stays t stale now n (gid + 1) s.inv (rw (s.same_groups) (omega arith)))

  eval_batch-Inv :
      (t : Tunables) (stale : ℕ → Stale) {sw : Ctrl} → Inv sw → Inv (eval_batch sbi t stale sw)
  unfolding eval_batch
  eval_batch-Inv t stale {sw} v =
      let next = sw.eval_next_gid in
      let e =
        eval_from-Stays t stale sbi.jiffies (min sw.eval_batch_size (sw.nr_groups - next)) next v
          (omega arith) in
      let f = frame-Inv e.inv _ _ _ 0 _ in
      frame-Inv (sweep_ctrl-Stays t sbi.jiffies f).inv _ _ _ _ _

  -- f2fs_swod_eval_work keeps the invariant, whether its guard lets it evaluate a batch or not.
  pub eval_work_ctrl-Inv :
      (t : Tunables) (stale : ℕ → Stale) {sw : Ctrl} → Inv sw → Inv (eval_work_ctrl sbi t stale sw)
  unfolding eval_work_ctrl
  eval_work_ctrl-Inv t stale {sw} v = elim (Bool-cases (sw.eval_running == 0)) [
    | inl idle ↦ rw idle (frame-Inv v sw.seg_hint sw.stats sw.eval_next_gid 1 none)
    | inr busy ↦ rw busy (eval_batch-Inv t stale (frame-Inv v _ _ _ _ none))
  ]
