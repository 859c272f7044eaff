-- ===== src/Discard/Range/Gaps.antt =====
-- The gaps that `__update_discard_tree_range` goes through, one round after the other.
use redisc.Base.{
  ℕ, ◌+◌, ◌^◌, ◌≤◌, ◌<◌, ◌≡◌, refl, min, true, false, Option, some, none, List, [], ◌∷◌, arith, leb,
  add32,
}
use redisc.Discard.{DiscardInfo, DiscardCmd}
use redisc.Discard.Order.{IsSound}
use redisc.Discard.Range.{first_gap, gap_start, next_gap}
use redisc.Discard.Range.Fill.{reach}

abbrev pub range_before : ℕ → Option DiscardCmd → ℕ
range_before end none = end
range_before end (some next) = min end next.lstart

module _ (base : ℕ → ℕ) (bdev lstart start len : ℕ) where
  -- A gap begins where the commands before it end, and ends with the range or at the next command.
  pub record IsGap (before : List DiscardCmd) (next : Option DiscardCmd) (gap : DiscardInfo)
      : Type 0 where
    pub begins : gap.lstart ≡ reach lstart before
    pub ends : gap.lstart + gap.len ≡ range_before (lstart + len) next
    pub mapped : 0 < gap.len → gap.start + base bdev ≡ gap.lstart

  -- Before the loop `di` is set only where no command starts by `lstart`.
  abbrev pub StartsAt : List DiscardCmd → Option DiscardCmd → DiscardInfo → Type 0
  StartsAt [] next di = di ≡ first_gap lstart start len next
  StartsAt (prev ∷ before) next di = Unit

  pub started :
      (before : List DiscardCmd) (next : Option DiscardCmd) (di : DiscardInfo)
      → lstart < reach lstart before
      → StartsAt before next di
  started [] next di h = absurd (omega arith)
  started (prev ∷ before) next di h = tt

  -- The next command starts behind the commands before.
  abbrev pub NextFrom : ℕ → Option DiscardCmd → Type 0
  NextFrom lo none = Unit
  NextFrom lo (some next) = (lo ≤ next.lstart) × IsSound base next

  module _ (small : lstart + len < 2 ^ 32) (mapped : start + base bdev ≡ lstart) where
    pub breaks :
        (prev : DiscardCmd) (before : List DiscardCmd)
        → IsSound base prev
        → leb (add32 lstart len) (gap_start lstart prev) ≡ true
        → lstart + len ≤ reach lstart (prev ∷ before)
    breaks prev before h e = ground (arith, h.small)

    pub first_gap-IsGap :
        (next : Option DiscardCmd)
        → NextFrom lstart next
        → IsGap [] next (first_gap lstart start len next)
    first_gap-IsGap none n = record { begins = refl; ends = ground arith; mapped = λ e. mapped }
    first_gap-IsGap (some next) n = record {
      begins = refl;
      ends = ground (arith, n.1.small);
      mapped = λ e. mapped;
    }

    pub next_gap-IsGap :
        (prev : DiscardCmd) (before : List DiscardCmd) (next : Option DiscardCmd)
        → IsSound base prev
        → NextFrom (reach lstart (prev ∷ before)) next
        → leb (add32 lstart len) (gap_start lstart prev) ≡ false
        → IsGap (prev ∷ before) next (next_gap lstart start (add32 lstart len) prev next)
    next_gap-IsGap prev before none h n e = record {
      begins = ground (arith, h.small);
      ends = ground (arith, h.small);
      mapped = λ p. ground (arith, h.small);
    }
    next_gap-IsGap prev before (some next) h n e = record {
      begins = ground (arith, h.small);
      ends = ground (arith, h.small, n.1.small);
      mapped = λ p. ground (arith, h.small);
    }
