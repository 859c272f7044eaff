-- ===== src/Swod/Eval/Keeps.antt =====
-- `swod_eval_group_locked` and the invariant, with the windows that it chooses.
use redisc.Base.{
  ℕ, inc64, ◌+◌, ◌≤◌, ◌<◌, ◌≡◌, refl, inl, inr, false, Bool-cases, Option, some, none, arith, leb,
  ltb, not, is_set, time_after_eq,
}
use redisc.Swod.State.{
  Ctrl, Sbi, Tunables, pressure, success, timeout, group_is_active, group_deadline,
}
use redisc.Swod.Geometry.{group_nsegs, group_first_seg, max_hold_len}
use redisc.Swod.Policy.{regime_blocked}
use redisc.Swod.Hold.{install_candidate, window_ready}
use redisc.Swod.Search.{Stale, Best, Found, search_windows}
use redisc.Swod.Search.Bounds.{AreWindows, search_windows-AreWindows}
use redisc.Swod.Eval.{
  Choice, choose, evict_held, beats, make_hold_room, install_if, install_choice, candidate_of,
  eval_free, eval_active, eval_group, drop_active, drop_long, eval_rest, choice_stats, gain_stats,
}
use redisc.Swod.Eval.Victim.{IsLeastHeld, held_victim-IsLeastHeld}
use redisc.Swod.Inv.{Inv}
use redisc.Swod.Inv.Stays.{Stays, Stays-refl, Stays-trans, Keeps-Stays, stats-Stays}
use redisc.Swod.Inv.Install.{install_candidate-Inv}
use redisc.Swod.Inv.Release.{release_group-Keeps, drop_group-Keeps}

-- Making room leaves a free group alone: the victim is held, or parked.
abbrev IsFree : Ctrl → ℕ → Type 0
IsFree sw gid = group_is_active (sw.grp_hint gid) ≡ false

abbrev RoomIf : ℕ → Ctrl → Option Ctrl → Type 0
RoomIf gid sw none = Unit
RoomIf gid sw (some sw') =
    Stays sw sw' × IsFree sw' gid × (group_nsegs sw' gid ≡ group_nsegs sw gid)

nsegs-eq :
    (a b : Ctrl) (gid : ℕ)
    → a.win_segs ≡ b.win_segs
    → a.nr_main_segs ≡ b.nr_main_segs
    → group_nsegs a gid ≡ group_nsegs b gid
unfolding group_nsegs
nsegs-eq a b gid e f = ground arith

module _ (sbi : Sbi) (t : Tunables) (gid : ℕ) where
  evict_held-Room :
      {sw : Ctrl} (b : Best) (best : Option ℕ)
      → Inv sw
      → IsFree sw gid
      → IsLeastHeld sw sw.nr_groups best
      → RoomIf gid sw (evict_held sbi t b sw best)
  evict_held-Room b none v free k = tt
  evict_held-Room {sw} b (some i) v free k = elim (Bool-cases (beats b (sw.grp_hint i))) [
    | inl wins ↦
        let r = release_group-Keeps sbi t i pressure v k.0 in
        let waits = k.1 in
        let same = r.same_hint gid (λ e. ground arith, ground arith) in
        rw wins (Keeps-Stays r, rw same free, nsegs-eq _ sw gid r.same_win r.same_main)
    | inr loses ↦ rw loses tt
  ]

  make_hold_room-Room :
      {sw : Ctrl} (b : Best) → Inv sw → IsFree sw gid → RoomIf gid sw (make_hold_room sbi t b sw)
  unfolding make_hold_room
  make_hold_room-Room {sw} b v free =
      elim (Bool-cases (leb t.swod_max_held_groups sw.nr_held_groups)) [
        | inl full ↦ rw full (evict_held-Room b _ v free (held_victim-IsLeastHeld sw))
        | inr room ↦ rw room (Stays-refl v, free, refl)
      ]

-- The chosen window is one of those found.
choose-IsWindow :
    (n m : ℕ) (f : Found)
    → AreWindows n m f
    → (c : Choice) → choose f ≡ some c
    → (0 < c.best.len) × (c.best.off + c.best.len ≤ n) × (c.best.len ≤ m)
choose-IsWindow n m f w c e = ground arith

-- Whatever the uninitialised variables hold, a window that the search over a group chooses is not
-- empty, ends within the group, and is no longer than the mode of the garbage collector allows.
choose-search_windows :
    (sbi : Sbi) (t : Tunables) (stale : Stale) (sw : Ctrl) (gid : ℕ) (c : Choice)
    → choose (
        search_windows sbi t stale sw gid
          (group_first_seg sw gid)
          (group_nsegs sw gid)
          (max_hold_len sbi sw gid))
      ≡ some c
    → (0 < c.best.len)
      × (c.best.off + c.best.len ≤ group_nsegs sw gid)
      × (c.best.len ≤ max_hold_len sbi sw gid)
choose-search_windows sbi t stale sw gid c e =
    choose-IsWindow (group_nsegs sw gid) (max_hold_len sbi sw gid) _
      (search_windows-AreWindows sbi t stale sw gid (group_first_seg sw gid) (group_nsegs sw gid)
        (max_hold_len sbi sw gid))
      c e

module _ (sbi : Sbi) (t : Tunables) (gid now : ℕ) where
  install_if-Stays :
      {sw : Ctrl} (c : Choice) (o : Option Ctrl)
      → Inv sw
      → gid < sw.nr_groups
      → (0 < c.best.len) × (c.best.off + c.best.len ≤ group_nsegs sw gid)
      → RoomIf gid sw o
      → Stays sw (install_if sbi t gid c now sw o)
  unfolding install_candidate
  install_if-Stays c none v h w r = Stays-refl v
  install_if-Stays {sw} c (some sw1) v h w (s, free, same) = record {
    inv =
        install_candidate-Inv
          {sw = record sw1 { stats = gain_stats (sw1.grp_hint gid) c.best sw1.stats }}
          (stats-Stays s.inv _).inv gid (rw (s.same_groups) h) free sbi t (candidate_of c) now w.0
          (rw
            (
              nsegs-eq (record sw1 { stats = gain_stats (sw1.grp_hint gid) c.best sw1.stats }) sw1
                  gid refl refl,
              same,
            )
            (w.1));
    same_groups = s.same_groups;
    same_win = s.same_win;
    same_main = s.same_main;
    same_hint = λ _ e. absurd e;
  }

  install_choice-Stays :
      {sw : Ctrl} (o : Option Choice)
      → Inv sw
      → gid < sw.nr_groups
      → IsFree sw gid
      → ((c : Choice)
          → o ≡ some c
          → (0 < c.best.len) × (c.best.off + c.best.len ≤ group_nsegs sw gid))
      → Stays sw (install_choice sbi t gid now sw o)
  install_choice-Stays none v h free w = stats-Stays v _
  install_choice-Stays {sw} (some c) v h free w =
      let s = stats-Stays v (choice_stats c sw.stats) in
      Stays-trans s (
        install_if-Stays c _ s.inv h
          (rw (nsegs-eq (record sw { stats = choice_stats c sw.stats }) sw gid refl refl)
            (w c refl))
          (make_hold_room-Room sbi t gid c.best s.inv free))

  eval_free-Stays :
      (stale : Stale) {sw : Ctrl}
      → Inv sw
      → gid < sw.nr_groups
      → IsFree sw gid
      → Stays sw (eval_free sbi t stale gid now sw)
  unfolding eval_free
  eval_free-Stays stale {sw} v h free =
      install_choice-Stays _ v h free
        (λ c e. let w = choose-search_windows sbi t stale sw gid c e in (w.0, w.1))

  eval_active-Stays :
      {sw : Ctrl} → Inv sw → gid < sw.nr_groups → Stays sw (eval_active sbi t gid now sw)
  unfolding eval_active
  eval_active-Stays {sw} v h = elim (Bool-cases (window_ready sbi gid sw)) [
    | inl ready ↦ rw ready (Keeps-Stays (release_group-Keeps sbi t gid success v h))
    | inr waiting ↦ elim (Bool-cases (time_after_eq now (group_deadline (sw.grp_hint gid)))) [
      | inl over ↦ rw (waiting, over) (Keeps-Stays (release_group-Keeps sbi t gid timeout v h))
      | inr early ↦ rw (waiting, early) (Stays-refl v)
    ]
  ]

  drop_active-Stays : {sw : Ctrl} → Inv sw → gid < sw.nr_groups → Stays sw (drop_active sbi gid sw)
  drop_active-Stays {sw} v h = elim (Bool-cases (group_is_active (sw.grp_hint gid))) [
    | inl active ↦ rw active (Keeps-Stays (drop_group-Keeps sbi pressure v gid h))
    | inr idle ↦ rw idle (Stays-refl v)
  ]

  drop_long-Stays : {sw : Ctrl} → Inv sw → gid < sw.nr_groups → Stays sw (drop_long sbi gid sw)
  drop_long-Stays {sw} v h =
      elim (Bool-cases (ltb (max_hold_len sbi sw gid) (sw.grp_hint gid).hold_len)) [
        | inl long ↦ rw long (drop_active-Stays v h)
        | inr short ↦ rw short (Stays-refl v)
      ]

  eval_rest-Stays :
      (stale : Stale) {sw : Ctrl}
      → Inv sw
      → gid < sw.nr_groups
      → Stays sw (eval_rest sbi t stale gid now sw)
  eval_rest-Stays stale {sw} v h = elim (Bool-cases (group_is_active (sw.grp_hint gid))) [
    | inl active ↦ rw active (eval_active-Stays v h)
    | inr idle ↦ rw idle (eval_free-Stays stale v h idle)
  ]

  -- Whatever the uninitialised variables hold, swod_eval_group_locked on a group of the main area
  -- keeps the invariant of the control block (counters, hints and bitmaps agree) and its layout.
  pub eval_group-Stays :
      (stale : Stale) {sw : Ctrl}
      → Inv sw
      → gid < sw.nr_groups
      → Stays sw (eval_group sbi t stale gid now sw)
  unfolding eval_group
  eval_group-Stays stale {sw} v h = elim (Bool-cases (not (is_set (group_nsegs sw gid)))) [
    | inl empty ↦ rw empty (Stays-refl v)
    | inr some_segs ↦ elim (Bool-cases (regime_blocked sbi t none)) [
      | inl blocked ↦
          let s =
            stats-Stays v
              (record (sw.stats) { eval_blocked_cnt = inc64 sw.stats.eval_blocked_cnt }) in
          rw (some_segs, blocked) (Stays-trans s (drop_active-Stays s.inv h))
      | inr shaping ↦
          let s = drop_long-Stays v h in
          rw (some_segs, shaping)
            (Stays-trans s (eval_rest-Stays stale s.inv (rw (s.same_groups) h)))
    ]
  ]
