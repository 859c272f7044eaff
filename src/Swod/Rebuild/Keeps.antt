-- ===== src/Swod/Rebuild/Keeps.antt =====
-- `f2fs_swod_refresh_around_locked` and the invariant.
use redisc.Base.{ℕ, zero, suc, ◌+◌, ◌-◌, ◌≤◌, ◌<◌, refl, inl, inr, Bool-cases, arith, ltb, leb}
use redisc.Swod.State.{Ctrl, SegHint, Sbi, Tunables}
use redisc.Swod.Search.{Stale}
use redisc.Swod.Inv.{Inv}
use redisc.Swod.Inv.Replace.{frame-Inv}
use redisc.Swod.Eval.Keeps.{eval_group-Stays}
use redisc.Swod.Inv.Stays.{Stays, Stays-refl, Stays-trans}
use redisc.Swod.Geometry.{group_first_seg}
use redisc.Swod.Rebuild.{
  CmdTree, rebuild_groups, rebuild_end, eval_groups, refresh_ctrl, first_gid, last_gid,
}

hints-Stays :
    {sw : Ctrl} → Inv sw → (hints : ℕ → SegHint) → Stays sw (record sw { seg_hint = hints })
hints-Stays v hints = record {
  inv = frame-Inv v hints _ _ _ _;
  same_groups = refl;
  same_win = refl;
  same_main = refl;
  same_hint = λ _ e. absurd e;
}

module _ (sbi : Sbi) where
  pub rebuild_groups-Stays :
      (root : CmdTree) (gid0 gid1 : ℕ) {sw : Ctrl}
      → Inv sw
      → Stays sw (rebuild_groups sbi root gid0 gid1 sw)
  unfolding rebuild_groups
  rebuild_groups-Stays root gid0 gid1 {sw} v = elim (Bool-cases (ltb gid1 gid0)) [
    | inl none_at_all ↦ rw none_at_all (Stays-refl v)
    | inr some_groups ↦ elim (Bool-cases (leb (rebuild_end sw gid1) (group_first_seg sw gid0))) [
      | inl empty ↦ rw (some_groups, empty) (hints-Stays v _)
      | inr full ↦ rw (some_groups, full) (hints-Stays v _)
    ]
  ]

  eval_groups-Stays :
      (t : Tunables) (stale : ℕ → Stale) (now n g : ℕ) {sw : Ctrl}
      → Inv sw
      → g + n ≤ sw.nr_groups
      → Stays sw (eval_groups sbi t stale now n g sw)
  unfolding eval_groups
  eval_groups-Stays t stale now zero g v h = Stays-refl v
  eval_groups-Stays t stale now (suc n) g {sw} v h =
      let s = eval_group-Stays sbi t g now (stale g) v (omega arith) in
      Stays-trans s
        (eval_groups-Stays t stale now n (g + 1) s.inv (rw (s.same_groups) (omega arith)))

  -- Under the invariant, f2fs_swod_refresh_around_locked on a range whose groups are in order and
  -- in the main area keeps the invariant and the layout.
  pub refresh_ctrl-Stays :
      (t : Tunables) (stale : ℕ → Stale) (root : CmdTree) (lstart len : ℕ) {sw : Ctrl}
      → Inv sw
      → first_gid sbi sw lstart ≤ last_gid sbi sw lstart len
      → last_gid sbi sw lstart len < sw.nr_groups
      → Stays sw (refresh_ctrl sbi t stale root lstart len sw)
  unfolding refresh_ctrl
  refresh_ctrl-Stays t stale root lstart len {sw} v h l =
      let s = rebuild_groups-Stays root (first_gid sbi sw lstart) (last_gid sbi sw lstart len) v in
      Stays-trans s (
        eval_groups-Stays t stale _ (last_gid sbi sw lstart len + 1 - first_gid sbi sw lstart)
          (first_gid sbi sw lstart) s.inv (rw (s.same_groups) (omega arith)))
