-- ===== src/Discard/Range/Rounds.antt =====
-- The loop of `__update_discard_tree_range`: what all its rounds do to the commands and the counters.
use redisc.Base.{
  ℕ, ◌+◌, ◌^◌, ◌≤◌, ◌<◌, ◌≡◌, ◌∙◌, inl, inr, min, Bool, false, not, ◌&&◌, ◌||◌, Bool-cases, Option,
  some, none, List, [], ◌∷◌, arith, leb, add32,
}
use redisc.Swod.State.{Sbi}
use redisc.Swod.Issue.{is_prep}
use redisc.Discard.{DiscardInfo, DiscardCmd, Totals}
use redisc.Discard.Order.{
  AreSound, AreSoundBefore, in_range, AreSound-covers-false, covers, pending, rejoin-pending,
  total_len, length, Counts, Counts-eq, rejoin, rejoin-AreSound, rejoin-covers, rejoin-total_len,
  rejoin-length,
}
use redisc.Discard.Range.{fill_gap, first_gap, next_gap, gap_start, fill_from, head}
use redisc.Discard.Range.Cases.{FitsNext, fill_gap-Filled, Filled}
use redisc.Discard.Range.Fill.{
  reach, le-reach, Filled-covers, Filled-pending, Filled-AreSound, Filled-reach,
}
use redisc.Discard.Range.Tally.{Filled-total_len, Filled-Counts}
use redisc.Discard.Range.Gaps.{IsGap, StartsAt, started, breaks, first_gap-IsGap, next_gap-IsGap}

module _ (base : ℕ → ℕ) (lstart len : ℕ) (t : Totals) (before after : List DiscardCmd) where
  -- The commands and the counters when the loop ends, from those of one of its rounds.
  pub record IsUpdate (r : List DiscardCmd × Totals) : Type 0 where
    pub sound : AreSound base 0 r.0
    pub covered :
        (blk : ℕ)
        → covers r.0 blk ≡ (
            (covers before blk || covers after blk)
            || in_range (reach lstart before) (lstart + len) blk)
    pub pended :
        (blk : ℕ)
        → pending r.0 blk ≡ (
            (pending before blk || pending after blk)
            || (in_range (reach lstart before) (lstart + len) blk && not (covers after blk)))
    pub grows : total_len before + total_len after ≤ total_len r.0
    pub counted :
        Counts t (total_len before + total_len after) (length before + length after)
        → Counts r.1 (total_len r.0) (length r.0)

  stop-IsUpdate :
      lstart + len ≤ reach lstart before
      → AreSoundBefore base (reach lstart before) before
      → AreSound base (reach lstart before) after
      → IsUpdate (rejoin before after, t)
  stop-IsUpdate e b a = record {
    sound = rejoin-AreSound base _ before after b a;
    covered = λ blk. ground (arith, rejoin-covers before after blk);
    pended = λ blk. ground (arith, rejoin-pending before after blk);
    grows = omega (arith, rejoin-total_len before after);
    counted = λ c. rw (rejoin-total_len before after, rejoin-length before after) c;
  }

-- The gap and the blocks behind the next command, as one range.
gap_then_rest :
    (at nl ne to blk : ℕ) (pb pn pa ca : Bool)
    → at ≤ nl
    → nl < ne
    → (blk < ne → ca ≡ false)
    → (((((pn && in_range nl ne blk) || pb) || in_range at (min to nl) blk) || pa)
        || (in_range ne to blk && not ca))
      ≡ ((pb || ((pn && in_range nl ne blk) || pa))
          || (in_range at to blk && not (in_range nl ne blk || ca)))
gap_then_rest at nl ne to blk pb pn pa ca p q h = ground arith

module _ (sbi : Sbi) (base : ℕ → ℕ) (bdev max_len lstart start len : ℕ)
    (small : lstart + len < 2 ^ 32) where
  module _ (di : DiscardInfo) (before : List DiscardCmd) (t : Totals)
      (b : AreSoundBefore base (reach lstart before) before) where
    abbrev filled : Option DiscardCmd → List DiscardCmd × Totals
    filled next = fill_gap sbi bdev max_len di before next t

    last_round :
        IsGap base bdev lstart start len before none di
        → IsUpdate base lstart len t before [] (rejoin (filled none).0 [], (filled none).1)
    unfolding covers pending total_len
    last_round g =
        let gap_small : di.lstart + di.len < 2 ^ 32 = omega (arith, g.ends) in
        let b' : AreSoundBefore base di.lstart before = rw g.begins b in
        let f = fill_gap-Filled sbi base bdev max_len di t gap_small before none b' in
        record {
          sound =
              rejoin-AreSound base _ (filled none).0 []
                (Filled-AreSound sbi base bdev max_len di t gap_small f b' tt g.mapped) tt;
          covered = λ blk.
              let q = Filled-covers sbi base bdev max_len di t gap_small f b' tt blk in
              ground (arith, rejoin-covers (filled none).0 [] blk, g.begins, g.ends);
          pended = λ blk.
              let q = Filled-pending sbi base bdev max_len di t gap_small f b' tt blk in
              ground (arith, rejoin-pending (filled none).0 [] blk, g.begins, g.ends);
          grows = omega (
            arith,
            rejoin-total_len (filled none).0 [],
            Filled-total_len sbi base bdev max_len di t gap_small f b' tt,
          );
          counted = λ c.
              rw (rejoin-total_len (filled none).0 [], rejoin-length (filled none).0 [])
                (Filled-Counts sbi base bdev max_len di t gap_small f b' tt 0 0 c);
        }

    module _ (next : DiscardCmd) (after : List DiscardCmd)
        (g : IsGap base bdev lstart start len before (some next) di)
        (a : AreSound base (reach lstart before) (next ∷ after)) where
      gap_small : di.lstart + di.len < 2 ^ 32
      gap_small = omega (arith, g.ends)

      behind : AreSoundBefore base di.lstart before
      behind = rw g.begins b

      fits : FitsNext base (di.lstart + di.len) (some next)
      fits = (omega (arith, g.ends), a.1)

      filled_round :
          Filled sbi bdev max_len di t before
            (some next)
            (filled (some next)).0
            (filled (some next)).1
      filled_round = fill_gap-Filled sbi base bdev max_len di t gap_small before (some next) behind

      filled-reach : reach lstart (filled (some next)).0 ≡ next.lstart + next.len
      filled-reach = ground (
        arith,
        Filled-reach sbi base bdev max_len di t gap_small filled_round fits lstart,
        a.0,
        le-reach lstart before,
      )

      filled-AreSoundBefore :
          AreSoundBefore base (reach lstart (filled (some next)).0) (filled (some next)).0
      filled-AreSoundBefore =
          rw filled-reach
            (Filled-AreSound sbi base bdev max_len di t gap_small filled_round behind fits g.mapped)

      rest-AreSound : AreSound base (reach lstart (filled (some next)).0) after
      rest-AreSound = rw filled-reach a.2

      next_round :
          (r : List DiscardCmd × Totals)
          → IsUpdate base lstart len (filled (some next)).1 (filled (some next)).0 after r
          → IsUpdate base lstart len t before (next ∷ after) r
      unfolding covers pending total_len
      next_round r u = record {
        sound = u.sound;
        covered = λ blk.
            let q =
              Filled-covers sbi base bdev max_len di t gap_small filled_round behind fits blk in
            ground (arith, u.covered blk, filled-reach, g.begins, g.ends, a.0, a.1.filled);
        pended = λ blk.
            let q =
              Filled-pending sbi base bdev max_len di t gap_small filled_round behind fits blk in
            let l = AreSound-covers-false base (next.lstart + next.len) after blk a.2 in
            let from_next : next.lstart < next.lstart + next.len = omega (arith, a.1.filled) in
            let gap_end : reach lstart before + di.len ≡ min (lstart + len) next.lstart =
              omega (arith, g.begins, g.ends) in
            let m =
              gap_then_rest (reach lstart before) next.lstart (next.lstart + next.len)
                (lstart + len) blk (pending before blk) (is_prep next.state) (pending after blk)
                (covers after blk) a.0 from_next l in
            u.pended blk ∙ rw (filled-reach, q, g.begins, gap_end) m;
        grows = omega (
          arith,
          u.grows,
          Filled-total_len sbi base bdev max_len di t gap_small filled_round behind fits,
        );
        counted = λ c. u.counted (
            Filled-Counts sbi base bdev max_len di t gap_small filled_round behind fits
              (total_len after) (length after) (Counts-eq t (omega arith) (omega arith) c));
      }

      -- The round, and the others behind it.
      rounds :
          (r : List DiscardCmd × Totals)
          → (StartsAt base bdev lstart start len (filled (some next)).0 (head after) di
              → AreSoundBefore base (reach lstart (filled (some next)).0) (filled (some next)).0
              → AreSound base (reach lstart (filled (some next)).0) after
              → IsUpdate base lstart len (filled (some next)).1 (filled (some next)).0 after r)
          → IsUpdate base lstart len t before (next ∷ after) r
      rounds r rest =
          let later : lstart < reach lstart (filled (some next)).0 =
            omega (arith, filled-reach, le-reach lstart before, a.0, a.1.filled) in
          next_round r (
            rest (started base bdev lstart start len _ (head after) di later) filled-AreSoundBefore
              rest-AreSound)

  module _ (mapped : start + base bdev ≡ lstart) where
    pub fill_from-IsUpdate :
        (after : List DiscardCmd) (before : List DiscardCmd) (di : DiscardInfo) (t : Totals)
        → StartsAt base bdev lstart start len before (head after) di
        → AreSoundBefore base (reach lstart before) before
        → AreSound base (reach lstart before) after
        → IsUpdate base lstart len t before after
            (fill_from sbi bdev max_len lstart start (add32 lstart len) di before after t)
    unfolding fill_from
    fill_from-IsUpdate [] [] di t s b a = rw s (
        last_round (first_gap lstart start len none) [] t b
          (first_gap-IsGap base bdev lstart start len small mapped none tt))
    fill_from-IsUpdate [] (prev ∷ before) di t s b a =
        elim (Bool-cases (leb (add32 lstart len) (gap_start lstart prev))) [
          | inl e ↦
              rw (e, fill_from)
                (stop-IsUpdate base lstart len t (prev ∷ before) []
                  (breaks base bdev lstart start len small mapped prev before b.1 e) b a)
          | inr e ↦
              rw (e, fill_from)
                (last_round (next_gap lstart start (add32 lstart len) prev none) (prev ∷ before) t b
                  (next_gap-IsGap base bdev lstart start len small mapped prev before none b.1 tt
                    e))
        ]
    fill_from-IsUpdate (next ∷ after) [] di t s b a =
        let g = first_gap-IsGap base bdev lstart start len small mapped (some next) (a.0, a.1) in
        rw s (
          rounds (first_gap lstart start len (some next)) [] t b next after g a _
            (fill_from-IsUpdate after _ _ _))
    fill_from-IsUpdate (next ∷ after) (prev ∷ before) di t s b a =
        elim (Bool-cases (leb (add32 lstart len) (gap_start lstart prev))) [
          | inl e ↦
              rw (e, fill_from)
                (stop-IsUpdate base lstart len t (prev ∷ before) (next ∷ after)
                  (breaks base bdev lstart start len small mapped prev before b.1 e) b a)
          | inr e ↦
              let g =
                next_gap-IsGap base bdev lstart start len small mapped prev before (some next) b.1
                  (a.0, a.1) e in
              rw (e, fill_from)
                (rounds (next_gap lstart start (add32 lstart len) prev (some next)) (prev ∷ before)
                  t b next after g a _ (fill_from-IsUpdate after _ _ _))
        ]
