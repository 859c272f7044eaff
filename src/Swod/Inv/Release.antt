-- ===== src/Swod/Inv/Release.antt =====
-- `swod_release_group_locked` and the invariant, with the groups that it may touch.
use redisc.Base.{
  ℕ, ◌<◌, ◌≡◌, ◌≢◌, refl, inl, inr, true, false, arith, Bool-cases, Option, some, none, leb,
}
use redisc.Swod.State.{Ctrl, Sbi, Tunables, ReleaseReason, pressure, is_held, is_parked}
use redisc.Swod.Group.{WindowScore, drop_group, clear_group, collect_window}
use redisc.Swod.Policy.{park_budget}
use redisc.Swod.Hold.{
  park_group, evict_for, make_park_room, park_into, park_scored, try_park_group, parked_or_dropped,
  release_group, may_park, worth_parking,
}
use redisc.Swod.Hold.Victim.{IsLeastParked, park_victim-IsLeastParked}
use redisc.Swod.Inv.{Inv}
use redisc.Swod.Inv.Clear.{drop_group-Inv}
use redisc.Swod.Inv.Park.{park_group-Inv}

-- The invariant and the layout are kept, and so is the hint of every group that passes `free`.
pub record Keeps (free : ℕ → Type 0) (sw sw' : Ctrl) : Type 0 where
  pub inv : Inv sw'
  pub same_groups : sw'.nr_groups ≡ sw.nr_groups
  pub same_win : sw'.win_segs ≡ sw.win_segs
  pub same_main : sw'.nr_main_segs ≡ sw.nr_main_segs
  pub same_hint : (gid : ℕ) → free gid → sw'.grp_hint gid ≡ sw.grp_hint gid

-- The same of a step that may fail.
abbrev KeepsIf : (ℕ → Type 0) → Ctrl → Option Ctrl → Type 0
KeepsIf free sw none = Unit
KeepsIf free sw (some sw') = Keeps free sw sw'

abbrev NotParked : Ctrl → ℕ → Type 0
NotParked sw gid = is_parked (sw.grp_hint gid).state ≡ false

-- A release of group `i` may touch that group, and a parked one.
abbrev pub Unreleased : Ctrl → ℕ → ℕ → Type 0
Unreleased sw i gid = (i ≢ gid) × (is_parked (sw.grp_hint gid).state ≡ false)

pub drop_group-Keeps :
    (sbi : Sbi) (why : ReleaseReason) {sw : Ctrl}
    → Inv sw
    → (i : ℕ) → i < sw.nr_groups
    → Keeps (λ gid. i ≢ gid) sw (drop_group sbi i why sw)
unfolding drop_group clear_group
drop_group-Keeps sbi why {sw} v i h = record {
  inv = drop_group-Inv sbi why v i h;
  same_groups = refl;
  same_win = refl;
  same_main = refl;
  same_hint = λ gid ne. ground arith;
}

pub Keeps-weaken :
    {free free' : ℕ → Type 0} {sw sw' : Ctrl}
    → ((gid : ℕ) → free' gid → free gid)
    → Keeps free sw sw'
    → Keeps free' sw sw'
Keeps-weaken w k = record {
  inv = k.inv;
  same_groups = k.same_groups;
  same_win = k.same_win;
  same_main = k.same_main;
  same_hint = λ gid f. k.same_hint gid (w gid f);
}

-- The victim is parked, so a group that is not parked is not the victim.
evict_for-Keeps :
    (sbi : Sbi) (score : ℕ) {sw : Ctrl} (best : Option ℕ)
    → Inv sw
    → IsLeastParked sw sw.nr_groups best
    → KeepsIf (NotParked sw) sw (evict_for sbi score sw best)
evict_for-Keeps sbi score none v k = tt
evict_for-Keeps sbi score {sw} (some i) v k =
    elim (Bool-cases (leb score (sw.grp_hint i).park_score)) [
      | inl cheap ↦ rw cheap tt
      | inr dear ↦ rw dear (
          Keeps-weaken (λ gid calm same. let p = k.1 in ground arith)
            (drop_group-Keeps sbi pressure v i k.0))
    ]

make_park_room-Keeps :
    (sbi : Sbi) (t : Tunables) (score : ℕ) {sw : Ctrl}
    → Inv sw
    → KeepsIf (NotParked sw) sw (make_park_room sbi t score sw)
unfolding make_park_room
make_park_room-Keeps sbi t score {sw} v =
    elim (Bool-cases (leb (park_budget t) sw.nr_parked_groups)) [
      | inl over ↦ rw over (evict_for-Keeps sbi score _ v (park_victim-IsLeastParked sw))
      | inr under ↦ rw under (record {
        inv = v;
        same_groups = refl;
        same_win = refl;
        same_main = refl;
        same_hint = λ gid f. refl;
      })
    ]

module _ (sbi : Sbi) (t : Tunables) (i : ℕ) (now : ℕ) {sw : Ctrl} (v : Inv sw)
    (h : i < sw.nr_groups) where
  park_into-Keeps :
      (w : WindowScore) (o : Option Ctrl)
      → is_held (sw.grp_hint i).state ≡ true
      → KeepsIf (NotParked sw) sw o
      → KeepsIf (Unreleased sw i) sw (park_into sbi t i w now o)
  unfolding park_group
  park_into-Keeps w none e k = tt
  park_into-Keeps w (some sw1) e k = record {
    inv =
        park_group-Inv k.inv i (rw (k.same_groups) h) (rw (k.same_hint i (ground arith)) e) sbi t w
          now;
    same_groups = k.same_groups;
    same_win = k.same_win;
    same_main = k.same_main;
    same_hint = λ gid f. let e' = k.same_hint gid f.1 in ground arith;
  }

  park_scored-Keeps :
      (o : Option WindowScore)
      → is_held (sw.grp_hint i).state ≡ true
      → KeepsIf (Unreleased sw i) sw (park_scored sbi t i now sw o)
  park_scored-Keeps none e = tt
  park_scored-Keeps (some w) e = elim (Bool-cases (worth_parking t w)) [
    | inl worth ↦ rw worth (park_into-Keeps w _ e (make_park_room-Keeps sbi t _ v))
    | inr poor ↦ rw poor tt
  ]

  pub try_park_group-Keeps :
      (why : ReleaseReason) → KeepsIf (Unreleased sw i) sw (try_park_group sbi t i why now sw)
  unfolding try_park_group
  try_park_group-Keeps why = elim (Bool-cases (is_held (sw.grp_hint i).state)) [
    | inl waits ↦ elim (Bool-cases (may_park why)) [
      | inl may ↦ rw (waits, may) (park_scored-Keeps (collect_window sbi i sw) waits)
      | inr not_may ↦ rw (waits, not_may) tt
    ]
    | inr not_held ↦ rw not_held tt
  ]

module _ (sbi : Sbi) (t : Tunables) (i : ℕ) (why : ReleaseReason) {sw : Ctrl} (v : Inv sw)
    (h : i < sw.nr_groups) where
  parked_or_dropped-Keeps :
      (o : Option Ctrl)
      → KeepsIf (Unreleased sw i) sw o
      → Keeps (Unreleased sw i) sw (parked_or_dropped sbi i why sw o)
  parked_or_dropped-Keeps none k = Keeps-weaken (λ gid f. f.0) (drop_group-Keeps sbi why v i h)
  parked_or_dropped-Keeps (some sw') k = k

  -- Under the invariant, releasing a group of the main area, for any reason, keeps the invariant
  -- and the layout, and leaves the hint of every other group that is not parked as it was.
  pub release_group-Keeps : Keeps (Unreleased sw i) sw (release_group sbi t i why sw)
  unfolding release_group
  release_group-Keeps = parked_or_dropped-Keeps _ (try_park_group-Keeps sbi t i sbi.jiffies v h why)
