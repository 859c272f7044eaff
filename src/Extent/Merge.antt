-- ===== src/Extent/Merge.antt =====
-- The new extent, merged with its neighbours or put between them.
use redisc.Base.{
  ℕ, ◌+◌, ◌≤◌, ◌≡◌, inl, inr, Bool, Bool-cases, true, ◌&&◌, ◌||◌, List, [], ◌∷◌, arith, ltb, add32,
  if◌then◌else◌,
}
use redisc.Extent.{
  Extent, NodeAlloc, Cut, rejoin_nodes, is_extent_mergeable, back_mergeable, front_mergeable,
  merge_prev, merge_next, tail, put_extent,
}
use redisc.Extent.Order.{
  Fits, AreFrom, AreBefore, AreFrom-weaken, rejoin-AreFrom, try_update_largest-Fits,
}
use redisc.Extent.Rounds.{IsCut}

-- Two extents in one.
merge-Fits :
    (m : ℕ → ℕ) (back front : Extent) (len : ℕ)
    → is_extent_mergeable back front ≡ true
    → len ≡ back.len + front.len
    → Fits m back
    → Fits m front
    → Fits m (record back { len = len })
merge-Fits m back front len e l f g =
    let fofs : back.fofs + back.len ≡ front.fofs = ground (arith, f.small) in
    let blk : back.blk + back.len ≡ front.blk = ground (arith, f.blk_small) in
    record {
      small = omega (arith, g.small);
      blk_small = omega (arith, g.blk_small);
      same = λ p lo hi. elim (Bool-cases (ltb p (back.fofs + back.len))) [
        | inl first ↦ omega (arith, f.same p lo (ground arith))
        | inr second ↦ omega (arith, g.same p (ground arith) (omega arith))
      ];
    }

module _ (m : ℕ → ℕ) (pos end : ℕ) where
  -- The new extent with the one before it.
  record IsGrown (nodes : List Extent) (ei : Extent) : Type 0 where
    before : AreBefore m ei.fofs nodes
    fits : Fits m ei
    ends : ei.fofs + ei.len ≡ end

  back-IsGrown :
      (prev : Bool) (ei : Extent) (before : List Extent)
      → ei.fofs ≡ pos
      → ei.fofs + ei.len ≡ end
      → Fits m ei
      → AreBefore m pos before
      → let back = back_mergeable prev ei before in
        IsGrown (if back then tail before else before) (if back then merge_prev ei before else ei)
  back-IsGrown prev ei [] p e f b = record { before = tt; fits = f; ends = e }
  back-IsGrown prev ei (en ∷ before) p e f b =
      elim (Bool-cases (prev && is_extent_mergeable en ei)) [
        | inl back ↦
            let prev_set : is_extent_mergeable en ei ≡ true = ground arith in
            let at : en.fofs + en.len ≡ ei.fofs = ground (arith, b.1.small) in
            let len : add32 en.len ei.len ≡ en.len + ei.len = omega (arith, f.small) in
            rw back (record {
              before = b.2;
              fits = merge-Fits m en ei (add32 en.len ei.len) prev_set len b.1 f;
              ends = omega (arith, len);
            })
        | inr apart ↦ rw apart (record { before = rw p b; fits = f; ends = e })
      ]

  front-AreFrom :
      (ei : Extent) (before after : List Extent)
      → IsGrown before ei
      → AreFrom m end after
      → let front = front_mergeable ei after in
        let merged = if front then merge_next ei after else ei in
        Fits m merged
        × AreFrom m 0 (rejoin_nodes before (merged ∷ (if front then tail after else after)))
  front-AreFrom ei before [] g a =
      (g.fits, rejoin-AreFrom m ei.fofs before _ g.before (omega arith, g.fits, tt))
  front-AreFrom ei before (en ∷ after) g a = elim (Bool-cases (is_extent_mergeable ei en)) [
    | inl front ↦
        let at : ei.fofs + ei.len ≡ en.fofs = ground (arith, g.fits.small) in
        let len : add32 en.len ei.len ≡ ei.len + en.len = omega (arith, a.1.small) in
        let merged = merge-Fits m ei en (add32 en.len ei.len) front len g.fits a.1 in
        rw front (
          merged,
          rejoin-AreFrom m ei.fofs before _ g.before (
            omega arith,
            merged,
            AreFrom-weaken m _ (en.fofs + en.len) after (omega (arith, len)) a.2,
          ),
        )
    | inr apart ↦ rw apart (
      g.fits,
      rejoin-AreFrom m ei.fofs before _ g.before
          (omega arith, g.fits, (omega (arith, a.0, g.ends), a.1, a.2)),
    )
  ]

  pub put_extent-AreFrom :
      (alloc : NodeAlloc) (ei : Extent) (c : Cut)
      → pos ≤ end
      → ei.fofs ≡ pos
      → ei.fofs + ei.len ≡ end
      → Fits m ei
      → IsCut m pos end c
      → AreFrom m 0 (put_extent alloc ei c).nodes × Fits m (put_extent alloc ei c).largest.0
  unfolding put_extent
  put_extent-AreFrom alloc ei c o p e f cut =
      let back = back_mergeable c.prev ei c.before in
      let grown = if back then merge_prev ei c.before else ei in
      let before = if back then tail c.before else c.before in
      let front = front_mergeable grown c.after in
      let merged = if front then merge_next grown c.after else grown in
      let g = back-IsGrown c.prev ei c.before p e f cut.before in
      let r = front-AreFrom grown before c.after g cut.after in
      elim (Bool-cases (back || front || alloc.insert)) [
        | inl stored ↦
            rw (stored, put_extent)
              (r.1, try_update_largest-Fits m merged c.largest r.0 cut.largest)
        | inr lost ↦
            rw (lost, put_extent)
              (
                rejoin-AreFrom m pos c.before c.after cut.before
                    (AreFrom-weaken m pos end c.after o cut.after),
                cut.largest,
              )
      ]
