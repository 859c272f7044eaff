-- ===== src/Discard/Range/Cases.antt =====
-- One round of `__update_discard_tree_range`, case by case.
use redisc.Base.{
  ℕ, ◌+◌, ◌^◌, ◌≤◌, ◌<◌, ◌≡◌, refl, inl, inr, Bool, true, false, Bool-cases, Option, some, none,
  List, [], ◌∷◌, arith, is_set, add32,
}
use redisc.Swod.State.{Sbi}
use redisc.Swod.Issue.{is_prep}
use redisc.Discard.{
  DiscardInfo, DiscardCmd, Totals, create_discard_cmd, add_undiscard, detach_discard_cmd,
}
use redisc.Discard.Order.{IsSound, AreSoundBefore}
use redisc.Discard.Range.{
  grown_back, grow_back, grow_front, count_merges, push, merges_back, merges_front, fill_gap,
}

-- The next command, if there is one, starts behind `end`.
abbrev pub FitsNext : (ℕ → ℕ) → ℕ → Option DiscardCmd → Type 0
FitsNext base end none = Unit
FitsNext base end (some next) = (end ≤ next.lstart) × IsSound base next

abbrev joins_back : ℕ → ℕ → DiscardInfo → List DiscardCmd → Bool
joins_back bdev max_len di [] = false
joins_back bdev max_len di (prev ∷ before) = merges_back bdev max_len di prev

abbrev joins_front : ℕ → ℕ → DiscardInfo → Option DiscardCmd → Bool
joins_front bdev max_len di none = false
joins_front bdev max_len di (some next) = merges_front bdev max_len di next

-- `fill_gap` case by case, as equations.
module _ (sbi : Sbi) (bdev max_len : ℕ) (di : DiscardInfo) (t : Totals) where
  fill_gap-empty :
      (before : List DiscardCmd) (next : Option DiscardCmd)
      → is_set di.len ≡ false
      → fill_gap sbi bdev max_len di before next t ≡ (push next before, t)
  unfolding fill_gap
  fill_gap-empty before next e = rw e refl

  abbrev pub after_both : DiscardCmd → Totals
  after_both prev = count_merges true true (
      detach_discard_cmd (grow_back di prev)
        (add_undiscard (add32 prev.len di.len) (add_undiscard di.len t)))

  fill_gap-both :
      (prev : DiscardCmd) (before : List DiscardCmd) (next : DiscardCmd)
      → is_set di.len ≡ true
      → merges_back bdev max_len di prev ≡ true
      → merges_front bdev max_len (grown_back di prev) next ≡ true
      → is_set prev.bio_ref ≡ false
      → fill_gap sbi bdev max_len di (prev ∷ before) (some next) t
        ≡ (grow_front (grown_back di prev) next ∷ before, after_both prev)
  unfolding fill_gap
  fill_gap-both prev before next e b f i = rw (e, b, f, i) refl

  fill_gap-back :
      (prev : DiscardCmd) (before : List DiscardCmd) (next : Option DiscardCmd)
      → is_set di.len ≡ true
      → merges_back bdev max_len di prev ≡ true
      → joins_front bdev max_len (grown_back di prev) next ≡ false
      → fill_gap sbi bdev max_len di (prev ∷ before) next t
        ≡ (push next (grow_back di prev ∷ before), count_merges true false (add_undiscard di.len t))
  unfolding fill_gap
  fill_gap-back prev before none e b f = rw (e, b) refl
  fill_gap-back prev before (some next) e b f = rw (e, b, f) refl

  fill_gap-front :
      (before : List DiscardCmd) (next : DiscardCmd)
      → is_set di.len ≡ true
      → joins_back bdev max_len di before ≡ false
      → merges_front bdev max_len di next ≡ true
      → fill_gap sbi bdev max_len di before (some next) t
        ≡ (grow_front di next ∷ before, count_merges false true (add_undiscard di.len t))
  unfolding fill_gap
  fill_gap-front [] next e b f = rw (e, f) refl
  fill_gap-front (prev ∷ before) next e b f = rw (e, b, f) refl

  abbrev pub fresh : DiscardCmd × Totals
  fresh = create_discard_cmd sbi bdev di t

  fill_gap-fresh :
      (before : List DiscardCmd) (next : Option DiscardCmd)
      → is_set di.len ≡ true
      → joins_back bdev max_len di before ≡ false
      → joins_front bdev max_len di next ≡ false
      → fill_gap sbi bdev max_len di before next t ≡ (push next (fresh.0 ∷ before), fresh.1)
  unfolding fill_gap
  fill_gap-fresh [] none e b f = rw e refl
  fill_gap-fresh [] (some next) e b f = rw (e, f) refl
  fill_gap-fresh (prev ∷ before) none e b f = rw (e, b) refl
  fill_gap-fresh (prev ∷ before) (some next) e b f = rw (e, b, f) refl

  -- What a round can do, with the facts of each case.
  pub data Filled : List DiscardCmd → Option DiscardCmd → List DiscardCmd → Totals → Type 0 where
    unchanged :
        {before : List DiscardCmd} {next : Option DiscardCmd}
        → di.len ≡ 0
        → Filled before next (push next before) t
    merged_both :
        {before : List DiscardCmd} {prev next : DiscardCmd}
        → 0 < di.len
        → prev.lstart + prev.len ≡ di.lstart
        → di.lstart + di.len ≡ next.lstart
        → prev.bdev ≡ bdev
        → next.bdev ≡ bdev
        → is_prep prev.state ≡ true
        → is_prep next.state ≡ true
        → Filled
            (prev ∷ before)
            (some next)
            (grow_front (grown_back di prev) next ∷ before)
            (after_both prev)
    merged_back :
        {before : List DiscardCmd} {prev : DiscardCmd} {next : Option DiscardCmd}
        → 0 < di.len
        → prev.lstart + prev.len ≡ di.lstart
        → prev.bdev ≡ bdev
        → is_prep prev.state ≡ true
        → Filled
            (prev ∷ before)
            next
            (push next (grow_back di prev ∷ before))
            (count_merges true false (add_undiscard di.len t))
    merged_front :
        {before : List DiscardCmd} {next : DiscardCmd}
        → 0 < di.len
        → di.lstart + di.len ≡ next.lstart
        → next.bdev ≡ bdev
        → is_prep next.state ≡ true
        → Filled before
            (some next)
            (grow_front di next ∷ before)
            (count_merges false true (add_undiscard di.len t))
    attached :
        {before : List DiscardCmd} {next : Option DiscardCmd}
        → 0 < di.len
        → Filled before next (push next (fresh.0 ∷ before)) fresh.1

merges_back-facts :
    (bdev max_len : ℕ) (di : DiscardInfo) (prev : DiscardCmd)
    → prev.lstart + prev.len < 2 ^ 32
    → merges_back bdev max_len di prev ≡ true
    → (prev.lstart + prev.len ≡ di.lstart) × (prev.bdev ≡ bdev) × (is_prep prev.state ≡ true)
merges_back-facts bdev max_len di prev small h = ground arith

pub grown-len :
    (di : DiscardInfo) (prev : DiscardCmd)
    → prev.lstart + prev.len ≡ di.lstart
    → di.lstart + di.len < 2 ^ 32
    → add32 prev.len di.len ≡ prev.len + di.len
grown-len di prev p small = ground arith

merges_front-facts :
    (bdev max_len : ℕ) (di : DiscardInfo) (next : DiscardCmd)
    → di.lstart + di.len < 2 ^ 32
    → merges_front bdev max_len di next ≡ true
    → (di.lstart + di.len ≡ next.lstart) × (next.bdev ≡ bdev) × (is_prep next.state ≡ true)
merges_front-facts bdev max_len di next small h = ground arith

module _ (sbi : Sbi) (base : ℕ → ℕ) (bdev max_len : ℕ) (di : DiscardInfo) (t : Totals)
    (small : di.lstart + di.len < 2 ^ 32) where
  abbrev pub Round : List DiscardCmd → Option DiscardCmd → Type 0
  Round before next =
      let r = fill_gap sbi bdev max_len di before next t in
      Filled sbi bdev max_len di t before next r.0 r.1

  no_back :
      (before : List DiscardCmd) (next : Option DiscardCmd)
      → is_set di.len ≡ true
      → joins_back bdev max_len di before ≡ false
      → Round before next
  no_back before none e b =
      rw (fill_gap-fresh sbi bdev max_len di t before none e b refl) (attached (ground arith))
  no_back before (some next) e b = elim (Bool-cases (merges_front bdev max_len di next)) [
    | inl f ↦
        let (q, d, i) = merges_front-facts bdev max_len di next small f in
        rw (fill_gap-front sbi bdev max_len di t before next e b f)
          (merged_front (ground arith) q d i)
    | inr f ↦
        rw (fill_gap-fresh sbi bdev max_len di t before (some next) e b f) (attached (ground arith))
  ]

  module _ (prev : DiscardCmd) (before : List DiscardCmd) (sound : IsSound base prev) where
    -- Behind a command that takes the gap.
    with_back :
        (next : Option DiscardCmd)
        → is_set di.len ≡ true
        → merges_back bdev max_len di prev ≡ true
        → Round (prev ∷ before) next
    with_back none e b =
        let (p, d, i) = merges_back-facts bdev max_len di prev sound.small b in
        rw (fill_gap-back sbi bdev max_len di t prev before none e b refl)
          (merged_back (ground arith) p d i)
    with_back (some next) e b =
        let (p, d, i) = merges_back-facts bdev max_len di prev sound.small b in
        elim (Bool-cases (merges_front bdev max_len (grown_back di prev) next)) [
          | inl f ↦
              let l = grown-len di prev p small in
              let idle : is_set prev.bio_ref ≡ false = ground (arith, sound.idle i) in
              let (q, d', i') =
                merges_front-facts bdev max_len (grown_back di prev) next (omega arith) f in
              rw (fill_gap-both sbi bdev max_len di t prev before next e b f idle)
                (merged_both (ground arith) p (omega arith) d d' i i')
          | inr f ↦
              rw (fill_gap-back sbi bdev max_len di t prev before (some next) e b f)
                (merged_back (ground arith) p d i)
        ]

  pub fill_gap-Filled :
      (before : List DiscardCmd) (next : Option DiscardCmd)
      → AreSoundBefore base di.lstart before
      → Round before next
  fill_gap-Filled before next b = elim (Bool-cases (is_set di.len)) [
    | inr e ↦ rw (fill_gap-empty sbi bdev max_len di t before next e) (unchanged (ground arith))
    | inl e ↦ split before next b e
  ]
    where
      split :
          (before : List DiscardCmd) (next : Option DiscardCmd)
          → AreSoundBefore base di.lstart before
          → is_set di.len ≡ true
          → Round before next
      split [] next b e = no_back [] next e refl
      split (prev ∷ before) next b e = elim (Bool-cases (merges_back bdev max_len di prev)) [
        | inl joined ↦ with_back prev before b.1 next e joined
        | inr apart ↦ no_back (prev ∷ before) next e apart
      ]
