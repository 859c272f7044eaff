-- ===== src/Swod/Eval/Victim.antt =====
-- Which held window gives way when the limit on held windows is reached.
use redisc.Base.{
  ℕ, zero, suc, ◌+◌, ◌<◌, ◌≡◌, inl, refl, inr, true, false, Option, some, none, arith, Bool-cases,
  ◌==◌,
}
use redisc.Swod.State.{Ctrl, GroupHint, is_held}
use redisc.Swod.Eval.{held_victim, better_held_victim, worse_held}

-- Among the groups below `i`: a held one than which none is worth less, or `none` where none is held.
abbrev pub IsLeastHeld : Ctrl → ℕ → Option ℕ → Type 0
IsLeastHeld sw i none = (j : ℕ) → j < i → is_held (sw.grp_hint j).state ≡ false
IsLeastHeld sw i (some v) =
    (v < i)
    × (is_held (sw.grp_hint v).state ≡ true)
    × ((j : ℕ)
        → j < i
        → is_held (sw.grp_hint j).state ≡ true
        → worse_held (sw.grp_hint j) (sw.grp_hint v) ≡ false)

worse_held_trans :
    (a b c : GroupHint) → worse_held b c ≡ true → worse_held a c ≡ false → worse_held a b ≡ false
worse_held_trans a b c e f = ground arith

worse_held_irrefl : (a : GroupHint) → worse_held a a ≡ false
worse_held_irrefl a = ground arith

module _ (sw : Ctrl) (i : ℕ) where
  least-take :
      (best : Option ℕ)
      → IsLeastHeld sw i best
      → better_held_victim sw i best ≡ true
      → IsLeastHeld sw (i + 1) (some i)
  least-take none k e = (
    omega arith,
    e,
    λ j h p. elim (Bool-cases (j == i)) [
      | inl last ↦ let e' : j ≡ i = ground arith in rw e' (worse_held_irrefl (sw.grp_hint i))
      | inr before ↦ ground (arith, k j)
    ],
  )
  least-take (some v) k e = (
    omega arith,
    ground arith,
    λ j h p. elim (Bool-cases (j == i)) [
      | inl last ↦ let e' : j ≡ i = ground arith in rw e' (worse_held_irrefl (sw.grp_hint i))
      | inr before ↦
          worse_held_trans (sw.grp_hint j) (sw.grp_hint i) (sw.grp_hint v) (ground arith)
            (k.2 j (ground arith) p)
    ],
  )

  least-keep :
      (best : Option ℕ)
      → IsLeastHeld sw i best
      → better_held_victim sw i best ≡ false
      → IsLeastHeld sw (i + 1) best
  least-keep none k e = λ j h. elim (Bool-cases (j == i)) [
    | inl last ↦ let e' : j ≡ i = ground arith in rw e' e
    | inr before ↦ ground (arith, k j)
  ]
  least-keep (some v) k e = (
    omega arith,
    k.1,
    λ j h p. elim (Bool-cases (j == i)) [
      | inl last ↦ let e' : j ≡ i = ground arith in rw e' (least_tie v e (rw e' at p))
      | inr before ↦ k.2 j (ground arith) p
    ],
  )
    where
      least_tie :
          (v : ℕ)
          → better_held_victim sw i (some v) ≡ false
          → is_held (sw.grp_hint i).state ≡ true
          → worse_held (sw.grp_hint i) (sw.grp_hint v) ≡ false
      least_tie v e p = rw p at e

least-loop :
    (sw : Ctrl) (n i m : ℕ) (best : Option ℕ)
    → i + n ≡ m
    → IsLeastHeld sw i best
    → IsLeastHeld sw m (held_victim sw n i best)
unfolding held_victim
least-loop sw zero i m best e k = let e' : i ≡ m = omega arith in rw (← e') k
least-loop sw (suc n) i m best e k = elim (Bool-cases (better_held_victim sw i best)) [
  | inl take ↦
      rw take (least-loop sw n (i + 1) m (some i) (omega arith) (least-take sw i best k take))
  | inr keep ↦ rw keep (least-loop sw n (i + 1) m best (omega arith) (least-keep sw i best k keep))
]

pub held_victim-IsLeastHeld :
    (sw : Ctrl) → IsLeastHeld sw sw.nr_groups (held_victim sw sw.nr_groups 0 none)
held_victim-IsLeastHeld sw =
    least-loop sw sw.nr_groups 0 sw.nr_groups none (omega arith) (λ j h. absurd (omega arith))

held-some :
    (sw : Ctrl) (j : ℕ) (best : Option ℕ)
    → IsLeastHeld sw sw.nr_groups best
    → j < sw.nr_groups
    → is_held (sw.grp_hint j).state ≡ true
    → (v : ℕ) × (best ≡ some v)
      × (v < sw.nr_groups)
      × (is_held (sw.grp_hint v).state ≡ true)
      × (worse_held (sw.grp_hint j) (sw.grp_hint v) ≡ false)
held-some sw j none k h e = cc (k j h)
held-some sw j (some v) k h e = (v, refl, k.0, k.1, k.2 j h e)

-- If any group is held, the search for a group to give way finds one: a held group of the main
-- area, and the given group is not worth less than it by coverage, live blocks and length.
pub held_victim_lem :
    (sw : Ctrl) (j : ℕ)
    → j < sw.nr_groups
    → is_held (sw.grp_hint j).state ≡ true
    → (v : ℕ) × (held_victim sw sw.nr_groups 0 none ≡ some v)
      × (v < sw.nr_groups)
      × (is_held (sw.grp_hint v).state ≡ true)
      × (worse_held (sw.grp_hint j) (sw.grp_hint v) ≡ false)
held_victim_lem sw j h e = held-some sw j _ (held_victim-IsLeastHeld sw) h e
