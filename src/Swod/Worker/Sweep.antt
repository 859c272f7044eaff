-- ===== src/Swod/Worker/Sweep.antt =====
-- `f2fs_swod_sweep_timeout` and the windows whose time has run out.
use redisc.Base.{
  ℕ, zero, suc, ◌+◌, ◌≤◌, ◌<◌, ◌≡◌, refl, ◌⊎◌, inl, inr, Bool, false, not, ◌&&◌, Bool-cases, Option,
  some, none, arith, is_set, leb, ◌==◌, if◌then◌else◌, time_after_eq, count-pos,
}
use redisc.Swod.State.{Ctrl, Sbi, Tunables, ReleaseReason, timeout, pressure, is_held, GroupHint}
use redisc.Swod.Policy.{park_budget}
use redisc.Swod.Group.{WindowScore, drop_group, clear_group}
use redisc.Swod.Hold.{
  park_group, evict_for, make_park_room, park_into, park_scored, try_park_group, parked_or_dropped,
  release_group, may_park, worth_parking,
}
use redisc.Swod.Inv.{Inv, hint_held}
use redisc.Swod.Worker.{sweep_from, sweep_ctrl, is_expired}

-- A step may end windows, but holds none that it did not hold before.
abbrev Calms : Ctrl → Ctrl → ℕ → Type 0
Calms sw sw' j = (sw'.grp_hint j ≡ sw.grp_hint j) ⊎ (is_held (sw'.grp_hint j).state ≡ false)

abbrev CalmsIf : Ctrl → ℕ → Option Ctrl → Type 0
CalmsIf sw j none = Unit
CalmsIf sw j (some sw') = Calms sw sw' j

-- The released group itself is not held afterwards.
abbrev EndsIf : ℕ → Option Ctrl → Type 0
EndsIf i none = Unit
EndsIf i (some sw') = is_held (sw'.grp_hint i).state ≡ false

module _ (sbi : Sbi) (i : ℕ) where
  drop_group-Calms :
      (why : ReleaseReason) (sw : Ctrl) (j : ℕ) → Calms sw (drop_group sbi i why sw) j
  unfolding drop_group clear_group
  drop_group-Calms why sw j = elim (Bool-cases (i == j)) [
    | inl same ↦ inr (ground arith)
    | inr other ↦ inl (ground arith)
  ]

  drop_group-ends :
      (why : ReleaseReason) (sw : Ctrl)
      → is_held ((drop_group sbi i why sw).grp_hint i).state ≡ false
  unfolding drop_group clear_group
  drop_group-ends why sw = ground arith

evict_for-Calms :
    (sbi : Sbi) (score : ℕ) (sw : Ctrl) (best : Option ℕ) (j : ℕ)
    → CalmsIf sw j (evict_for sbi score sw best)
evict_for-Calms sbi score sw none j = tt
evict_for-Calms sbi score sw (some v) j = elim (Bool-cases (leb score (sw.grp_hint v).park_score)) [
  | inl cheap ↦ rw cheap tt
  | inr dear ↦ rw dear (drop_group-Calms sbi v pressure sw j)
]

make_park_room-Calms :
    (sbi : Sbi) (t : Tunables) (score : ℕ) (sw : Ctrl) (j : ℕ)
    → CalmsIf sw j (make_park_room sbi t score sw)
unfolding make_park_room
make_park_room-Calms sbi t score sw j =
    elim (Bool-cases (leb (park_budget t) sw.nr_parked_groups)) [
      | inl over ↦ rw over (evict_for-Calms sbi score sw _ j)
      | inr under ↦ rw under (inl refl)
    ]

module _ (sbi : Sbi) (t : Tunables) (i now : ℕ) where
  park_into-Calms :
      (w : WindowScore) (sw : Ctrl) (o : Option Ctrl) (j : ℕ)
      → CalmsIf sw j o
      → CalmsIf sw j (park_into sbi t i w now o)
  unfolding park_group
  park_into-Calms w sw none j c = tt
  park_into-Calms w sw (some sw1) j c = elim (Bool-cases (i == j)) [
    | inl same ↦ inr (ground arith)
    | inr other ↦ rw other c
  ]

  park_into-ends : (w : WindowScore) (o : Option Ctrl) → EndsIf i (park_into sbi t i w now o)
  unfolding park_group
  park_into-ends w none = tt
  park_into-ends w (some sw1) = ground arith

  park_scored-Calms :
      (sw : Ctrl) (o : Option WindowScore) (j : ℕ) → CalmsIf sw j (park_scored sbi t i now sw o)
  park_scored-Calms sw none j = tt
  park_scored-Calms sw (some w) j = elim (Bool-cases (worth_parking t w)) [
    | inl worth ↦ rw worth (park_into-Calms w sw _ j (make_park_room-Calms sbi t _ sw j))
    | inr poor ↦ rw poor tt
  ]

  park_scored-ends : (sw : Ctrl) (o : Option WindowScore) → EndsIf i (park_scored sbi t i now sw o)
  park_scored-ends sw none = tt
  park_scored-ends sw (some w) = elim (Bool-cases (worth_parking t w)) [
    | inl worth ↦ rw worth (park_into-ends w _)
    | inr poor ↦ rw poor tt
  ]

  try_park_group-Calms :
      (why : ReleaseReason) (sw : Ctrl) (j : ℕ) → CalmsIf sw j (try_park_group sbi t i why now sw)
  unfolding try_park_group
  try_park_group-Calms why sw j = elim (Bool-cases (not (is_held (sw.grp_hint i).state))) [
    | inl idle ↦ rw idle tt
    | inr waits ↦ elim (Bool-cases (not (may_park why))) [
      | inl may_not ↦ rw (waits, may_not) tt
      | inr may ↦ rw (waits, may) (park_scored-Calms sw _ j)
    ]
  ]

  try_park_group-ends :
      (why : ReleaseReason) (sw : Ctrl) → EndsIf i (try_park_group sbi t i why now sw)
  unfolding try_park_group
  try_park_group-ends why sw = elim (Bool-cases (not (is_held (sw.grp_hint i).state))) [
    | inl idle ↦ rw idle tt
    | inr waits ↦ elim (Bool-cases (not (may_park why))) [
      | inl may_not ↦ rw (waits, may_not) tt
      | inr may ↦ rw (waits, may) (park_scored-ends sw _)
    ]
  ]

module _ (sbi : Sbi) (t : Tunables) (i : ℕ) (why : ReleaseReason) (sw : Ctrl) where
  parked_or_dropped-Calms :
      (o : Option Ctrl) (j : ℕ) → CalmsIf sw j o → Calms sw (parked_or_dropped sbi i why sw o) j
  parked_or_dropped-Calms none j c = drop_group-Calms sbi i why sw j
  parked_or_dropped-Calms (some sw') j c = c

  parked_or_dropped-ends :
      (o : Option Ctrl)
      → EndsIf i o
      → is_held ((parked_or_dropped sbi i why sw o).grp_hint i).state ≡ false
  parked_or_dropped-ends none c = drop_group-ends sbi i why sw
  parked_or_dropped-ends (some sw') c = c

  release_group-Calms : (j : ℕ) → Calms sw (release_group sbi t i why sw) j
  unfolding release_group
  release_group-Calms j =
      parked_or_dropped-Calms _ j (try_park_group-Calms sbi t i sbi.jiffies why sw j)

  release_group-ends : is_held ((release_group sbi t i why sw).grp_hint i).state ≡ false
  unfolding release_group
  release_group-ends = parked_or_dropped-ends _ (try_park_group-ends sbi t i sbi.jiffies why sw)

-- A held window that has run out.
abbrev pub is_overdue : ℕ → GroupHint → Bool
is_overdue now g = is_held g.state && time_after_eq now g.hold_until

module _ (sbi : Sbi) (t : Tunables) (now : ℕ) where
  abbrev swept : ℕ → Ctrl → Ctrl
  swept gid sw = if is_expired now (sw.grp_hint gid) then release_group sbi t gid timeout sw else sw

  Calms-overdue :
      (sw sw' : Ctrl) (j : ℕ)
      → Calms sw sw' j
      → is_overdue now (sw.grp_hint j) ≡ false
      → is_overdue now (sw'.grp_hint j) ≡ false
  Calms-overdue sw sw' j (inl same) e = rw same e
  Calms-overdue sw sw' j (inr calm) e = rw calm refl

  swept-here : (gid : ℕ) (sw : Ctrl) → is_overdue now ((swept gid sw).grp_hint gid) ≡ false
  swept-here gid sw = elim (Bool-cases (is_expired now (sw.grp_hint gid))) [
    | inl over ↦ rw over (rw (release_group-ends sbi t gid timeout sw) refl)
    | inr early ↦ rw early (ground arith)
  ]

  swept-before :
      (gid : ℕ) (sw : Ctrl) (j : ℕ)
      → is_overdue now (sw.grp_hint j) ≡ false
      → is_overdue now ((swept gid sw).grp_hint j) ≡ false
  swept-before gid sw j e = elim (Bool-cases (is_expired now (sw.grp_hint gid))) [
    | inl over ↦ rw over (
        Calms-overdue sw (release_group sbi t gid timeout sw) j
          (release_group-Calms sbi t gid timeout sw j) e)
    | inr early ↦ rw early e
  ]

  sweep_from-overdue :
      (n gid : ℕ) (sw : Ctrl) (j : ℕ)
      → (gid ≤ j) ⊎ (is_overdue now (sw.grp_hint j) ≡ false)
      → j < gid + n
      → is_overdue now ((sweep_from sbi t now n gid sw).grp_hint j) ≡ false
  unfolding sweep_from
  sweep_from-overdue zero gid sw j (inl l) h = absurd (omega arith)
  sweep_from-overdue zero gid sw j (inr e) h = e
  sweep_from-overdue (suc n) gid sw j (inr e) h =
      sweep_from-overdue n (gid + 1) (swept gid sw) j (inr (swept-before gid sw j e)) (omega arith)
  sweep_from-overdue (suc n) gid sw j (inl l) h = elim (Bool-cases (gid == j)) [
    | inl here ↦
        let e : gid ≡ j = ground arith in
        sweep_from-overdue n (gid + 1) (swept gid sw) j (inr (rw (← e) (swept-here gid sw)))
          (omega arith)
    | inr later ↦ sweep_from-overdue n (gid + 1) (swept gid sw) j (inl (ground arith)) (omega arith)
  ]

  -- From a state that satisfies the invariant, after f2fs_swod_sweep_timeout no group of the main
  -- area is held with a deadline that has passed.
  pub sweep_ctrl-overdue :
      {sw : Ctrl}
      → Inv sw
      → (gid : ℕ) → gid < sw.nr_groups
      → is_overdue now ((sweep_ctrl sbi t now sw).grp_hint gid) ≡ false
  unfolding sweep_ctrl
  sweep_ctrl-overdue {sw} v gid h = elim (Bool-cases (not (is_set sw.nr_held_groups))) [
    | inl none_held ↦
        rw none_held
          (ground (arith, v.held_count, count-pos hint_held sw.nr_groups sw.grp_hint gid h))
    | inr some_held ↦
        rw some_held (sweep_from-overdue sw.nr_groups 0 sw gid (inl (omega arith)) (omega arith))
  ]
