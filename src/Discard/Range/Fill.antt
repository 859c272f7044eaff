-- ===== src/Discard/Range/Fill.antt =====
-- One round of `__update_discard_tree_range` against the blocks that the commands cover, the
-- well-formed trees, and the counters.
use redisc.Base.{
  ℕ, ◌+◌, ◌^◌, ◌≤◌, ◌<◌, ◌≡◌, refl, sym, max, ◌||◌, Option, some, none, List, [], ◌∷◌, arith,
}
use redisc.Swod.State.{Sbi}
use redisc.Swod.Hints.{create_cmd}
use redisc.Discard.{DiscardInfo, DiscardCmd, Totals, create_discard_cmd}
use redisc.Discard.Order.{IsSound, AreSoundBefore, AreSoundBefore-weaken, in_range, covers, pending}
use redisc.Discard.Range.{push, grown_back, grow_back, grow_front}
use redisc.Discard.Range.Cases.{
  FitsNext, Filled, unchanged, merged_both, merged_back, merged_front, attached, fresh, grown-len,
}

-- From where on the commands do not cover, behind `lo`.
abbrev pub reach : ℕ → List DiscardCmd → ℕ
reach lo [] = lo
reach lo (prev ∷ before) = max lo (prev.lstart + prev.len)

pub le-reach : (lo : ℕ) (before : List DiscardCmd) → lo ≤ reach lo before
le-reach lo [] = omega arith
le-reach lo (prev ∷ before) = omega arith

grow_back-IsSound :
    (base : ℕ → ℕ) (di : DiscardInfo) (prev : DiscardCmd)
    → di.lstart + di.len < 2 ^ 32
    → prev.lstart + prev.len ≡ di.lstart
    → IsSound base prev
    → IsSound base (grow_back di prev)
grow_back-IsSound base di prev small p h = record {
  filled = omega (arith, grown-len di prev p small, h.filled);
  small = omega (arith, grown-len di prev p small);
  mapped = h.mapped;
  idle = h.idle;
  filed = λ prep. refl;
}

grow_front-IsSound :
    (base : ℕ → ℕ) (di : DiscardInfo) (next : DiscardCmd)
    → 0 < di.len
    → di.lstart + di.len ≡ next.lstart
    → di.start + base next.bdev ≡ di.lstart
    → IsSound base next
    → IsSound base (grow_front di next)
grow_front-IsSound base di next e q m h = record {
  filled = ground (arith, h.small);
  small = ground (arith, h.small);
  mapped = m;
  idle = h.idle;
  filed = λ prep. refl;
}

module _ (sbi : Sbi) (base : ℕ → ℕ) (bdev max_len : ℕ) (di : DiscardInfo) (t : Totals)
    (small : di.lstart + di.len < 2 ^ 32) where
  -- The round adds the blocks of the gap, and no other.
  pub Filled-covers :
      {before : List DiscardCmd} {next : Option DiscardCmd} {r : List DiscardCmd} {t' : Totals}
      → Filled sbi bdev max_len di t before next r t'
      → AreSoundBefore base di.lstart before
      → FitsNext base (di.lstart + di.len) next
      → (blk : ℕ)
      → covers r blk
        ≡ (covers (push next before) blk || in_range di.lstart (di.lstart + di.len) blk)
  unfolding covers create_discard_cmd create_cmd
  Filled-covers (unchanged e) b n blk = ground arith
  Filled-covers (merged_both {prev = prev} e p q d d' i i') b n blk =
      ground (arith, n.1.small, grown-len di prev p small)
  Filled-covers {next = none} (merged_back {prev = prev} e p d i) b n blk =
      ground (arith, grown-len di prev p small)
  Filled-covers {next = some next} (merged_back {prev = prev} e p d i) b n blk =
      ground (arith, grown-len di prev p small)
  Filled-covers (merged_front e q d i) b n blk = ground (arith, n.1.small)
  Filled-covers {next = none} (attached e) b n blk = ground arith
  Filled-covers {next = some next} (attached e) b n blk = ground arith

  -- They are pending.
  pub Filled-pending :
      {before : List DiscardCmd} {next : Option DiscardCmd} {r : List DiscardCmd} {t' : Totals}
      → Filled sbi bdev max_len di t before next r t'
      → AreSoundBefore base di.lstart before
      → FitsNext base (di.lstart + di.len) next
      → (blk : ℕ)
      → pending r blk
        ≡ (pending (push next before) blk || in_range di.lstart (di.lstart + di.len) blk)
  unfolding pending create_discard_cmd create_cmd
  Filled-pending (unchanged e) b n blk = ground arith
  Filled-pending (merged_both {prev = prev} e p q d d' i i') b n blk =
      ground (arith, n.1.small, grown-len di prev p small)
  Filled-pending {next = none} (merged_back {prev = prev} e p d i) b n blk =
      ground (arith, grown-len di prev p small)
  Filled-pending {next = some next} (merged_back {prev = prev} e p d i) b n blk =
      ground (arith, grown-len di prev p small)
  Filled-pending (merged_front e q d i) b n blk = ground (arith, n.1.small)
  Filled-pending {next = none} (attached e) b n blk = ground arith
  Filled-pending {next = some next} (attached e) b n blk = ground arith

  -- Where the commands of a round end.
  abbrev pub round_end : Option DiscardCmd → ℕ
  round_end none = di.lstart + di.len
  round_end (some next) = next.lstart + next.len

  pub fresh-IsSound :
      0 < di.len
      → (0 < di.len → di.start + base bdev ≡ di.lstart)
      → IsSound base (fresh sbi bdev max_len di t).0
  unfolding create_discard_cmd create_cmd
  fresh-IsSound e m = record {
    filled = e;
    small = small;
    mapped = m e;
    idle = λ prep. refl;
    filed = λ prep. refl;
  }

  pub Filled-AreSound :
      {before : List DiscardCmd} {next : Option DiscardCmd} {r : List DiscardCmd} {t' : Totals}
      → Filled sbi bdev max_len di t before next r t'
      → AreSoundBefore base di.lstart before
      → FitsNext base (di.lstart + di.len) next
      → (0 < di.len → di.start + base bdev ≡ di.lstart)
      → AreSoundBefore base (round_end next) r
  unfolding create_discard_cmd create_cmd
  Filled-AreSound {next = none} (unchanged e) b n m =
      AreSoundBefore-weaken base di.lstart _ _ (omega arith) b
  Filled-AreSound {next = some next} (unchanged e) b n m =
      (omega arith, n.1, AreSoundBefore-weaken base di.lstart _ _ (omega (arith, n.0)) b)
  Filled-AreSound (merged_both {prev = prev} e p q d d' i i') b n m =
      let l = grown-len di prev p small in
      let h : IsSound base (grow_back di prev) = grow_back-IsSound base di prev small p b.1 in
      (
        ground (arith, n.1.small, b.1.small),
        grow_front-IsSound base (grown_back di prev) _ h.filled (omega arith)
            (rw (d', sym d) b.1.mapped) n.1,
        b.2,
      )
  Filled-AreSound {next = none} (merged_back {prev = prev} e p d i) b n m =
      (ground (arith, grown-len di prev p small), grow_back-IsSound base di prev small p b.1, b.2)
  Filled-AreSound {next = some next} (merged_back {prev = prev} e p d i) b n m =
      let l = grown-len di prev p small in
      let h : IsSound base (grow_back di prev) = grow_back-IsSound base di prev small p b.1 in
      (omega arith, n.1, (omega (arith, n.0), h, b.2))
  Filled-AreSound (merged_front e q d i) b n m =
      (ground (arith, n.1.small), grow_front-IsSound base di _ e q (rw d (m e)) n.1, b)
  Filled-AreSound {next = none} (attached e) b n m = (omega arith, fresh-IsSound e m, b)
  Filled-AreSound {next = some next} (attached e) b n m =
      (omega arith, n.1, (omega (arith, n.0), fresh-IsSound e m, b))

  -- The round ends with the next command, where there is one.
  pub Filled-reach :
      {before : List DiscardCmd} {next : DiscardCmd} {r : List DiscardCmd} {t' : Totals}
      → Filled sbi bdev max_len di t before (some next) r t'
      → FitsNext base (di.lstart + di.len) (some next)
      → (lo : ℕ) → reach lo r ≡ max lo (next.lstart + next.len)
  Filled-reach (unchanged e) n lo = refl
  Filled-reach (merged_both {prev = prev} e p q d d' i i') n lo =
      ground (arith, n.1.small, grown-len di prev p small)
  Filled-reach (merged_back e p d i) n lo = refl
  Filled-reach (merged_front e q d i) n lo = ground (arith, n.1.small)
  Filled-reach (attached e) n lo = refl
