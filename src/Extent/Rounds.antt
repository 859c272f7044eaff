-- ===== src/Extent/Rounds.antt =====
-- The loop of `f2fs_update_extent_tree_range`: no node is left in the range.
use redisc.Base.{
  ℕ, ◌+◌, ◌^◌, ◌≤◌, ◌<◌, ◌≡◌, inl, inr, Bool, Bool-cases, true, List, [], ◌∷◌, arith, ltb,
}
use redisc.Extent.{
  Extent, NodeAlloc, Cut, left_extent, right_extent, keeps_left, keeps_right, try_update_largest,
  invalidate,
}
use redisc.Extent.Order.{
  Fits, AreFrom, AreBefore, AreFrom-weaken, AreBefore-weaken, with_range, try_update_largest-Fits,
  AreFrom-outside, left-Fits, right-Fits,
}

-- The first node ends behind `pos`.
abbrev pub EndsBehind : ℕ → List Extent → Type 0
EndsBehind pos [] = Unit
EndsBehind pos (en ∷ nodes) = pos ≤ en.fofs + en.len

-- What is left in front of the range and behind it agrees with the new addresses.
pub record IsCut (m' : ℕ → ℕ) (pos end : ℕ) (c : Cut) : Type 0 where
  pub before : AreBefore m' pos c.before
  pub after : AreFrom m' end c.after
  pub largest : Fits m' c.largest.0

module _ (alloc : NodeAlloc) (m : ℕ → ℕ) (fofs blkaddr len : ℕ) (small : fofs + len < 2 ^ 32) where
  abbrev new : ℕ → ℕ
  new = with_range fofs blkaddr len m

  module _ (lo : ℕ) (before : List Extent) (en : Extent) (after : List Extent) (h : lo ≤ fofs)
      (b : AreBefore new lo before) (a : AreFrom m lo (en ∷ after)) where
    left_true :
        keeps_left fofs en ≡ true
        → fofs ≤ en.fofs + en.len
        → AreBefore new fofs (left_extent fofs en ∷ before) × Fits new (left_extent fofs en)
    left_true left e =
        let f = left-Fits m fofs blkaddr len en (ground arith) e a.1 in
        ((omega (arith, f.0), f.1, AreBefore-weaken new lo en.fofs before a.0 b), f.1)

    right_true :
        keeps_right (fofs + len) en ≡ true
        → en.fofs < fofs + len
        → AreFrom new (fofs + len) (right_extent (fofs + len) en ∷ after)
          × Fits new (right_extent (fofs + len) en)
    right_true right inside =
        let past : fofs + len < en.fofs + en.len = ground (arith, a.1.small) in
        let f = right-Fits m fofs blkaddr len en inside past a.1 in
        (
          (
            omega arith,
            f.1,
            AreFrom-weaken new _ (en.fofs + en.len) after (omega (arith, f.0))
                (AreFrom-outside m fofs blkaddr len (en.fofs + en.len) after (omega arith) a.2),
          ),
          f.1,
        )

    next_behind : fofs ≤ en.fofs + en.len → EndsBehind fofs after
    next_behind e = go after a.2
      where
        go : (nodes : List Extent) → AreFrom m (en.fofs + en.len) nodes → EndsBehind fofs nodes
        go [] r = tt
        go (next ∷ nodes) r = omega (arith, r.0)

  pub invalidate-IsCut :
      (lo : ℕ) (before : List Extent) (prev : Bool) (rest : List Extent) (largest : Extent × Bool)
      (dei_len : ℕ)
      → lo ≤ fofs
      → AreBefore new lo before
      → AreFrom m lo rest
      → EndsBehind fofs rest
      → Fits new largest.0
      → IsCut new fofs
          (fofs + len)
          (invalidate alloc fofs (fofs + len) before prev rest largest dei_len)
  unfolding invalidate
  invalidate-IsCut lo before prev [] largest dei_len h b a e l = record {
    before = AreBefore-weaken new lo fofs before h b;
    after = tt;
    largest = l;
  }
  invalidate-IsCut lo before prev (en ∷ after) largest dei_len h b a e l =
      let n = next_behind lo before en after h b a e in
      let right_part' = right_extent (fofs + len) en in
      elim (Bool-cases (ltb en.fofs (fofs + len))) [
        | inl inside ↦ elim (Bool-cases (keeps_left fofs en)) [
          | inl left ↦
              let lp = left_true lo before en after h b a left e in
              let go =
                invalidate-IsCut fofs (left_extent fofs en ∷ before) true after
                  (try_update_largest (left_extent fofs en) largest) en.len (omega arith) lp.0
                  (AreFrom-weaken m fofs (en.fofs + en.len) after e a.2) n
                  (try_update_largest-Fits new (left_extent fofs en) largest lp.1 l) in
              elim (Bool-cases (keeps_right (fofs + len) en)) [
                | inl right ↦ elim (Bool-cases alloc.split) [
                  | inl split ↦
                      let rp = right_true lo before en after h b a right (ground arith) in
                      rw (inside, left, right, split, invalidate)
                        (record {
                          before = lp.0;
                          after = rp.0;
                          largest =
                              try_update_largest-Fits new (left_extent fofs en)
                                (try_update_largest right_part' largest) lp.1
                                (try_update_largest-Fits new right_part' largest rp.1 l);
                        })
                  | inr no_split ↦ rw (inside, left, right, no_split, invalidate) go
                ]
                | inr no_right ↦ rw (inside, left, no_right, invalidate) go
              ]
          | inr no_left ↦ elim (Bool-cases (keeps_right (fofs + len) en)) [
            | inl right ↦
                let rp = right_true lo before en after h b a right (ground arith) in
                rw (inside, no_left, right, invalidate)
                  (record {
                    before = AreBefore-weaken new lo fofs before h b;
                    after = rp.0;
                    largest = try_update_largest-Fits new right_part' largest rp.1 l;
                  })
            | inr no_right ↦
                rw (inside, no_left, no_right, invalidate)
                  (invalidate-IsCut lo before prev after largest en.len h b
                    (AreFrom-weaken m lo (en.fofs + en.len) after (omega (arith, a.0)) a.2) n l)
          ]
        ]
        | inr behind ↦
            rw (behind, invalidate)
              (record {
                before = AreBefore-weaken new lo fofs before h b;
                after = AreFrom-weaken new _ en.fofs (en ∷ after) (ground arith) (
                    AreFrom-outside m fofs blkaddr len en.fofs (en ∷ after) (ground arith)
                      (omega arith, a.1, a.2));
                largest = l;
              })
      ]
