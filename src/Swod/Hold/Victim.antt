-- ===== src/Swod/Hold/Victim.antt =====
-- Which parked window gives way when the budget of parked windows is used up.
use redisc.Base.{
  ℕ, zero, suc, ◌+◌, ◌≤◌, ◌<◌, ◌≡◌, inl, refl, inr, true, false, Option, some, none, arith,
  Bool-cases, ◌==◌,
}
use redisc.Swod.State.{Ctrl, is_parked}
use redisc.Swod.Hold.{park_victim, better_park_victim}

-- Among the groups below `i`: a parked one with the least score, or `none` where none is parked.
abbrev pub IsLeastParked : Ctrl → ℕ → Option ℕ → Type 0
IsLeastParked sw i none = (j : ℕ) → j < i → is_parked (sw.grp_hint j).state ≡ false
IsLeastParked sw i (some v) =
    (v < i)
    × (is_parked (sw.grp_hint v).state ≡ true)
    × ((j : ℕ)
        → j < i
        → is_parked (sw.grp_hint j).state ≡ true
        → (sw.grp_hint v).park_score ≤ (sw.grp_hint j).park_score)

none_before :
    (sw : Ctrl) (i j : ℕ)
    → IsLeastParked sw i none
    → is_parked (sw.grp_hint i).state ≡ false
    → j < i + 1
    → is_parked (sw.grp_hint j).state ≡ false
none_before sw i j k e h = elim (Bool-cases (j == i)) [
  | inl last ↦ ground arith
  | inr before ↦ ground (arith, k j)
]

least-take :
    (sw : Ctrl) (i : ℕ) (best : Option ℕ)
    → IsLeastParked sw i best
    → better_park_victim sw i best ≡ true
    → IsLeastParked sw (i + 1) (some i)
least-take sw i none k e = (
  omega arith,
  e,
  λ j h p. elim (Bool-cases (j == i)) [
    | inl last ↦ ground arith
    | inr before ↦ ground (arith, k j)
  ],
)
least-take sw i (some v) k e = (
  omega arith,
  ground arith,
  λ j h p. elim (Bool-cases (j == i)) [
    | inl last ↦ ground arith
    | inr before ↦ ground (arith, k.2 j)
  ],
)

least-keep :
    (sw : Ctrl) (i : ℕ) (best : Option ℕ)
    → IsLeastParked sw i best
    → better_park_victim sw i best ≡ false
    → IsLeastParked sw (i + 1) best
least-keep sw i none k e = λ j h. none_before sw i j k e h
least-keep sw i (some v) k e = (
  omega arith,
  k.1,
  λ j h p. elim (Bool-cases (j == i)) [
    | inl last ↦ ground arith
    | inr before ↦ ground (arith, k.2 j)
  ],
)

least-loop :
    (sw : Ctrl) (n i m : ℕ) (best : Option ℕ)
    → i + n ≡ m
    → IsLeastParked sw i best
    → IsLeastParked sw m (park_victim sw n i best)
unfolding park_victim
least-loop sw zero i m best e k = let e' : i ≡ m = omega arith in rw (← e') k
least-loop sw (suc n) i m best e k = elim (Bool-cases (better_park_victim sw i best)) [
  | inl take ↦
      rw take (least-loop sw n (i + 1) m (some i) (omega arith) (least-take sw i best k take))
  | inr keep ↦ rw keep (least-loop sw n (i + 1) m best (omega arith) (least-keep sw i best k keep))
]

pub park_victim-IsLeastParked :
    (sw : Ctrl) → IsLeastParked sw sw.nr_groups (park_victim sw sw.nr_groups 0 none)
park_victim-IsLeastParked sw =
    least-loop sw sw.nr_groups 0 sw.nr_groups none (omega arith) (λ j h. absurd (omega arith))

parked-some :
    (sw : Ctrl) (j : ℕ) (best : Option ℕ)
    → IsLeastParked sw sw.nr_groups best
    → j < sw.nr_groups
    → is_parked (sw.grp_hint j).state ≡ true
    → (v : ℕ) × (best ≡ some v)
      × (v < sw.nr_groups)
      × (is_parked (sw.grp_hint v).state ≡ true)
      × ((sw.grp_hint v).park_score ≤ (sw.grp_hint j).park_score)
parked-some sw j none k h e = cc (k j h)
parked-some sw j (some v) k h e = (v, refl, k.0, k.1, k.2 j h e)

-- If any group is parked, the search for a group to evict finds one: a parked group of the main
-- area, whose score is at most that of the given group.
pub park_victim_lem :
    (sw : Ctrl) (j : ℕ)
    → j < sw.nr_groups
    → is_parked (sw.grp_hint j).state ≡ true
    → (v : ℕ) × (park_victim sw sw.nr_groups 0 none ≡ some v)
      × (v < sw.nr_groups)
      × (is_parked (sw.grp_hint v).state ≡ true)
      × ((sw.grp_hint v).park_score ≤ (sw.grp_hint j).park_score)
park_victim_lem sw j h e = parked-some sw j _ (park_victim-IsLeastParked sw) h e
