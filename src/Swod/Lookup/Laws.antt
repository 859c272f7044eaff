-- ===== src/Swod/Lookup/Laws.antt =====
-- The lookups against the windows themselves, under the invariant.
use redisc.Base.{
  ℕ, zero, suc, ◌+◌, ◌-◌, ◌≤◌, ◌<◌, ◌≡◌, ◌↔◌, ◌^◌, inl, inr, min, Bool, true, false, not, ◌||◌,
  Bool-cases, some, arith, add32, count, count-pos,
}
use redisc.Swod.State.{Ctrl, Dcc, GroupHint}
use redisc.Swod.Geometry.{gid_of}
use redisc.Swod.Geometry.Laws.{gid_of-lt}
use redisc.Swod.Policy.{enabled_ctrl}
use redisc.Swod.Inv.{Inv, mark, hint_held, hint_parked, hint_eligible}
use redisc.Swod.Lookup.{
  any_bit, range_held, range_wce_target, wce_match, range_held_in, range_wce_target_in,
  seg_wce_eligible_in,
}

any_bit-found :
    (map : ℕ → Bool) (n segno s : ℕ)
    → segno ≤ s
    → s < segno + n
    → map s ≡ true
    → any_bit map n segno ≡ true
unfolding any_bit
any_bit-found map zero segno s l h e = absurd (omega arith)
any_bit-found map (suc n) segno s l h e = elim (Bool-cases (map segno)) [
  | inl here ↦ rw here
  | inr not_here ↦ rw not_here (any_bit-found map n (segno + 1) s (ground arith) (omega arith) e)
]

any_bit-witness :
    (map : ℕ → Bool) (n segno : ℕ)
    → any_bit map n segno ≡ true
    → (s : ℕ) × (segno ≤ s) × (s < segno + n) × (map s ≡ true)
unfolding any_bit
any_bit-witness map zero segno e = cc
any_bit-witness map (suc n) segno e = elim (Bool-cases (map segno)) [
  | inl here ↦ (segno, omega arith, omega arith, here)
  | inr not_here ↦
      let (s, l, h, m) = any_bit-witness map n (segno + 1) (rw not_here at e) in
      (s, omega arith, omega arith, m)
]

-- A window that is marked is counted.
marked-counted :
    (p : GroupHint → Bool) {sw : Ctrl}
    → Inv sw
    → (n s : ℕ) → n ≡ count p sw.nr_groups sw.grp_hint
    → s < sw.nr_main_segs
    → mark p sw s ≡ true
    → 0 < n
marked-counted p {sw} v n s e l m =
    ground (arith, count-pos p sw.nr_groups sw.grp_hint (gid_of sw s), gid_of-lt v.layout s l)

module _ (d : Dcc) {sw : Ctrl} (on : enabled_ctrl d ≡ some sw) (v : Inv sw) (segno n : ℕ)
    (small : segno + n < 2 ^ 32) where
  -- Under the invariant and where SWOD is enabled, for a range that does not wrap,
  -- f2fs_swod_range_held holds exactly if some main segment of the range is in the window of a held
  -- group.
  pub range_held_iff : (range_held d segno n ≡ true) ↔ (
      (s : ℕ) × (segno ≤ s)
      × (s < segno + n)
      × (s < sw.nr_main_segs)
      × (mark hint_held sw s ≡ true))
  unfolding range_held
  range_held_iff = rw on (held_to, held_from)
    where
      held_to :
          range_held_in segno n (some sw) ≡ true
          → (s : ℕ) × (segno ≤ s)
            × (s < segno + n)
            × (s < sw.nr_main_segs)
            × (mark hint_held sw s ≡ true)
      held_to e =
          let (s, l, h, m) =
            any_bit-witness sw.hold_segmap (min sw.nr_main_segs (add32 segno n) - segno) segno
              (ground arith) in
          (s, l, omega arith, omega arith, ground (arith, v.hold_bits s))

      held_from :
          ((s : ℕ) × (segno ≤ s)
            × (s < segno + n)
            × (s < sw.nr_main_segs)
            × (mark hint_held sw s ≡ true))
          → range_held_in segno n (some sw) ≡ true
      held_from (s, l, h, l', m) =
          let found =
            any_bit-found sw.hold_segmap (min sw.nr_main_segs (add32 segno n) - segno) segno s l
              (omega arith) (ground (arith, v.hold_bits s)) in
          let counted = marked-counted hint_held v sw.nr_held_groups s v.held_count l' m in
          ground arith

  wce_match_to :
      not (range_wce_target_in segno n (some sw)) ≡ false
      → seg_wce_eligible_in segno (some sw) ≡ true
      → (0 < n) × (segno < sw.nr_main_segs) × (mark hint_eligible sw segno ≡ true)
  wce_match_to e e' = ground (arith, v.wce_bits segno)

  wce_match_from :
      (0 < n) × (segno < sw.nr_main_segs) × (mark hint_eligible sw segno ≡ true)
      → (range_wce_target_in segno n (some sw) ≡ true)
        × (seg_wce_eligible_in segno (some sw) ≡ true)
  wce_match_from (some_segs, l, m) =
      let bit = v.wce_bits segno l in
      let counted = marked-counted hint_eligible v sw.nr_wce_groups segno v.wce_count l m in
      let found =
        any_bit-found (λ s. sw.hold_segmap s || sw.park_segmap s || sw.wce_segmap s)
          (min sw.nr_main_segs (add32 segno n) - segno) segno segno (omega arith) (omega arith)
          (ground arith) in
      (ground arith, ground arith)

  -- Some main segment of the range is in the window of a group that is held or parked.
  abbrev pub HasTarget : Type 0
  HasTarget =
      (s : ℕ) × (segno ≤ s)
      × (s < segno + n)
      × (s < sw.nr_main_segs)
      × ((mark hint_held sw s || mark hint_parked sw s) ≡ true)

  eligible-held :
      (s : ℕ) → s < sw.nr_main_segs → mark hint_eligible sw s ≡ true → mark hint_held sw s ≡ true
  eligible-held s l m =
      let is_held = (v.hints (gid_of sw s) (gid_of-lt v.layout s l)).eligible (ground arith) in
      ground (arith, is_held)

  target_to : range_wce_target_in segno n (some sw) ≡ true → HasTarget
  target_to e =
      let (s, l, h, m) =
        any_bit-witness (λ s. sw.hold_segmap s || sw.park_segmap s || sw.wce_segmap s)
          (min sw.nr_main_segs (add32 segno n) - segno) segno (ground arith) in
      let in_main : s < sw.nr_main_segs = omega arith in
      (
        s,
        l,
        omega arith,
        in_main,
        ground (arith, v.hold_bits s, v.park_bits s, v.wce_bits s, eligible-held s in_main),
      )

  target_from : HasTarget → range_wce_target_in segno n (some sw) ≡ true
  target_from (s, l, h, l', m) =
      let bit : (sw.hold_segmap s || sw.park_segmap s || sw.wce_segmap s) ≡ true =
        ground (arith, v.hold_bits s l', v.park_bits s l') in
      let found =
        any_bit-found (λ s. sw.hold_segmap s || sw.park_segmap s || sw.wce_segmap s)
          (min sw.nr_main_segs (add32 segno n) - segno) segno s l (omega arith) bit in
      elim (Bool-cases (mark hint_held sw s)) [
        | inl is_held ↦
            let counted = marked-counted hint_held v sw.nr_held_groups s v.held_count l' is_held in
            ground arith
        | inr other ↦
            let is_parked : mark hint_parked sw s ≡ true = ground arith in
            let counted =
              marked-counted hint_parked v sw.nr_parked_groups s v.parked_count l' is_parked in
            ground arith
      ]

  -- Under the invariant and where SWOD is enabled, for a range that does not wrap,
  -- f2fs_swod_range_wce_target holds exactly if some main segment of the range is in a window that
  -- is held or parked, and swod_wce_match, which narrows it, holds exactly if the range is not
  -- empty and its first segment is a main segment in a window that is eligible for completion.
  pub wce_match_iff :
      ((range_wce_target d segno n ≡ true) ↔ HasTarget)
      × ((wce_match d segno n ≡ true)
          ↔ ((0 < n) × (segno < sw.nr_main_segs) × (mark hint_eligible sw segno ≡ true)))
  unfolding wce_match range_wce_target
  wce_match_iff = rw on (
    (target_to, target_from),
    (
      λ e. wce_match_to (ground arith) (ground arith),
      λ k. let r = wce_match_from k in ground arith,
    ),
  )
