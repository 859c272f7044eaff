-- ===== src/Extent/Order.antt =====
-- The extents that agree with the block addresses of a file, and the well-formed trees of them.
use redisc.Base.{
  ℕ, ◌+◌, ◌-◌, ◌^◌, ◌≤◌, ◌<◌, ◌≡◌, ◌⊎◌, inl, inr, Bool, Bool-cases, true, ◌&&◌, List, [], ◌∷◌,
  arith, ltb, leb, if◌then◌else◌, is_set, add32, sub32,
}
use redisc.Extent.{Extent, ExtentTree, left_extent, right_extent, rejoin_nodes, try_update_largest}

-- The address of each page of the extent is the extent's, and neither sum wraps.
pub record Fits (m : ℕ → ℕ) (ei : Extent) : Type 0 where
  pub small : ei.fofs + ei.len < 2 ^ 32
  pub blk_small : ei.blk + ei.len < 2 ^ 32
  pub same : (p : ℕ) → ei.fofs ≤ p → p < ei.fofs + ei.len → m p + ei.fofs ≡ ei.blk + p

-- Such extents from `lo` on, in order and without an overlap.
abbrev pub AreFrom : (ℕ → ℕ) → ℕ → List Extent → Type 0
AreFrom m lo [] = Unit
AreFrom m lo (en ∷ nodes) = (lo ≤ en.fofs) × Fits m en × AreFrom m (en.fofs + en.len) nodes

-- The same up to `hi`, the nearest first.
abbrev pub AreBefore : (ℕ → ℕ) → ℕ → List Extent → Type 0
AreBefore m hi [] = Unit
AreBefore m hi (en ∷ nodes) = (en.fofs + en.len ≤ hi) × Fits m en × AreBefore m en.fofs nodes

-- The cache tells nothing but the addresses `m`, and nothing at all where it has been given up.
pub record IsCoherent (m : ℕ → ℕ) (et : ExtentTree) : Type 0 where
  pub nodes : AreFrom m 0 et.nodes
  pub largest : Fits m et.largest
  pub off : et.no_extent ≡ true → (et.nodes ≡ []) × (et.largest.len ≡ 0)

-- The addresses after the pages of a range have got those from `blkaddr` on, or none.
abbrev pub with_range : ℕ → ℕ → ℕ → (ℕ → ℕ) → ℕ → ℕ
with_range fofs blkaddr len m p =
    if leb fofs p && ltb p (fofs + len)
    then (if is_set blkaddr then blkaddr + (p - fofs) else 0)
    else m p

pub AreFrom-weaken :
    (m : ℕ → ℕ) (lo mid : ℕ) (nodes : List Extent)
    → lo ≤ mid
    → AreFrom m mid nodes
    → AreFrom m lo nodes
AreFrom-weaken m lo mid [] h a = tt
AreFrom-weaken m lo mid (en ∷ nodes) h a = (omega (arith, a.0), a.1, a.2)

pub AreBefore-weaken :
    (m : ℕ → ℕ) (mid hi : ℕ) (nodes : List Extent)
    → mid ≤ hi
    → AreBefore m mid nodes
    → AreBefore m hi nodes
AreBefore-weaken m mid hi [] h b = tt
AreBefore-weaken m mid hi (en ∷ nodes) h b = (omega (arith, b.0), b.1, b.2)

pub rejoin-AreFrom :
    (m : ℕ → ℕ) (mid : ℕ) (before after : List Extent)
    → AreBefore m mid before
    → AreFrom m mid after
    → AreFrom m 0 (rejoin_nodes before after)
unfolding rejoin_nodes
rejoin-AreFrom m mid [] after b a = AreFrom-weaken m 0 mid after (omega arith) a
rejoin-AreFrom m mid (en ∷ before) after b a =
    rejoin-AreFrom m en.fofs before (en ∷ after) b.2
      (omega arith, b.1, AreFrom-weaken m _ mid after b.0 a)

pub try_update_largest-Fits :
    (m : ℕ → ℕ) (en : Extent) (l : Extent × Bool)
    → Fits m en
    → Fits m l.0
    → Fits m (try_update_largest en l).0
unfolding try_update_largest
try_update_largest-Fits m en l f g = elim (Bool-cases (ltb l.0.len en.len)) [
  | inl more ↦ rw (more, try_update_largest) f
  | inr less ↦ rw (less, try_update_largest) g
]

-- Outside of the range the addresses stay.
module _ (m : ℕ → ℕ) (fofs blkaddr len : ℕ) where
  pub Fits-outside :
      (ei : Extent)
      → (ei.fofs + ei.len ≤ fofs) ⊎ (fofs + len ≤ ei.fofs)
      → Fits m ei
      → Fits (with_range fofs blkaddr len m) ei
  Fits-outside ei (inl in_front) f = record {
    small = f.small;
    blk_small = f.blk_small;
    same = λ p lo hi. ground (arith, f.same p lo hi);
  }
  Fits-outside ei (inr behind) f = record {
    small = f.small;
    blk_small = f.blk_small;
    same = λ p lo hi. ground (arith, f.same p lo hi);
  }

  pub AreFrom-outside :
      (lo : ℕ) (nodes : List Extent)
      → fofs + len ≤ lo
      → AreFrom m lo nodes
      → AreFrom (with_range fofs blkaddr len m) lo nodes
  AreFrom-outside lo [] h a = tt
  AreFrom-outside lo (en ∷ nodes) h a = (
    a.0,
    Fits-outside en (inr (omega (arith, a.0))) a.1,
    AreFrom-outside (en.fofs + en.len) nodes (omega (arith, a.0)) a.2,
  )

  pub AreBefore-outside :
      (hi : ℕ) (nodes : List Extent)
      → hi ≤ fofs
      → AreBefore m hi nodes
      → AreBefore (with_range fofs blkaddr len m) hi nodes
  AreBefore-outside hi [] h b = tt
  AreBefore-outside hi (en ∷ nodes) h b = (
    b.0,
    Fits-outside en (inl (omega (arith, b.0))) b.1,
    AreBefore-outside en.fofs nodes (omega (arith, b.0)) b.2,
  )

  pub left-Fits :
      (en : Extent)
      → en.fofs < fofs
      → fofs ≤ en.fofs + en.len
      → Fits m en
      → (left_extent fofs en).fofs + (left_extent fofs en).len ≡ fofs
        × Fits (with_range fofs blkaddr len m) (left_extent fofs en)
  left-Fits en h k f =
      let l : sub32 fofs en.fofs ≡ fofs - en.fofs = omega (arith, f.small) in
      (
        omega (arith, l),
        record {
          small = omega (arith, l, f.small);
          blk_small = omega (arith, l, f.blk_small);
          same = λ p lo hi. ground (arith, f.same p lo (omega (arith, l)), l);
        },
      )

  pub right-Fits :
      (en : Extent)
      → en.fofs < fofs + len
      → fofs + len < en.fofs + en.len
      → Fits m en
      → ((right_extent (fofs + len) en).fofs + (right_extent (fofs + len) en).len
          ≡ en.fofs + en.len)
        × Fits (with_range fofs blkaddr len m) (right_extent (fofs + len) en)
  right-Fits en h k f =
      let l : sub32 (add32 en.fofs en.len) (fofs + len) ≡ en.fofs + en.len - (fofs + len) =
        omega (arith, f.small) in
      let b : add32 (sub32 (fofs + len) en.fofs) en.blk ≡ fofs + len - en.fofs + en.blk =
        omega (arith, f.small, f.blk_small) in
      (
        omega (arith, l),
        record {
          small = omega (arith, l, f.small);
          blk_small = omega (arith, l, b, f.blk_small);
          same = λ p lo hi. ground (arith, f.same p (omega arith) (omega (arith, l)), l, b);
        },
      )

  -- The new extent.
  pub new-Fits :
      fofs + len < 2 ^ 32
      → blkaddr + len < 2 ^ 32
      → 0 < blkaddr
      → Fits (with_range fofs blkaddr len m) (record { fofs = fofs; len = len; blk = blkaddr })
  new-Fits s b h = record { small = s; blk_small = b; same = λ p lo hi. ground arith }
