-- ===== src/Extent/Laws.antt =====
-- The extent cache tells the addresses that the file has got.
use redisc.Base.{
  ℕ, ◌+◌, ◌^◌, ◌≤◌, ◌<◌, ◌≡◌, refl, inl, inr, Bool, Bool-cases, true, false, ◌&&◌, List, [], ◌∷◌,
  arith, ltb, leb, is_set, add32, u32,
}
use redisc.Extent.{
  Extent, ExtentTree, NodeAlloc, Cut, rejoin_nodes, seek, finds_prev, invalidate, put_extent,
  drop_largest, update_extent_tree_range, finish_update,
}
use redisc.Extent.Order.{
  Fits, AreFrom, AreBefore, IsCoherent, AreFrom-weaken, AreBefore-weaken, with_range,
  rejoin-AreFrom, Fits-outside, AreBefore-outside, new-Fits,
}
use redisc.Extent.Merge.{put_extent-AreFrom}
use redisc.Extent.Rounds.{EndsBehind, IsCut, invalidate-IsCut}

-- The lookup splits the nodes.
seek-IsSought :
    (m : ℕ → ℕ) (fofs lo : ℕ) (before nodes : List Extent)
    → lo ≤ fofs
    → AreBefore m lo before
    → AreFrom m lo nodes
    → (mid : ℕ) × (mid ≤ fofs)
      × AreBefore m mid (seek fofs before nodes).0
      × AreFrom m mid (seek fofs before nodes).1
      × EndsBehind fofs (seek fofs before nodes).1
unfolding seek
seek-IsSought m fofs lo before [] h b a = (lo, h, b, tt, tt)
seek-IsSought m fofs lo before (en ∷ nodes) h b a =
    elim (Bool-cases (leb (add32 en.fofs en.len) fofs)) [
      | inl by ↦
          rw (by, seek)
            (seek-IsSought m fofs (en.fofs + en.len) (en ∷ before) nodes (ground (arith, a.1.small))
              (omega arith, a.1, AreBefore-weaken m lo en.fofs before a.0 b) a.2)
      | inr behind ↦ rw (behind, seek) (lo, h, b, a, ground (arith, a.1.small))
    ]

drop_largest-Fits :
    (m : ℕ → ℕ) (fofs blkaddr len : ℕ) (l : Extent × Bool)
    → Fits m l.0
    → Fits (with_range fofs blkaddr len m) (drop_largest fofs len l).0
unfolding drop_largest
drop_largest-Fits m fofs blkaddr len l f =
    elim (Bool-cases (ltb fofs (add32 l.0.fofs l.0.len) && ltb l.0.fofs (fofs + len))) [
      | inl over ↦
          rw (over, drop_largest)
            (record {
              small = omega (arith, f.small);
              blk_small = omega (arith, f.blk_small);
              same = λ p lo hi. absurd (omega arith);
            })
      | inr apart ↦
          rw (apart, drop_largest)
            (elim (Bool-cases (leb (l.0.fofs + l.0.len) fofs)) [
              | inl in_front ↦ Fits-outside m fofs blkaddr len l.0 (inl (ground arith)) f
              | inr behind ↦ Fits-outside m fofs blkaddr len l.0 (inr (ground (arith, f.small))) f
            ])
    ]

given_up-Fits : (m m' : ℕ → ℕ) (ei : Extent) → ei.len ≡ 0 → Fits m ei → Fits m' ei
given_up-Fits m m' ei e f = record {
  small = f.small;
  blk_small = f.blk_small;
  same = λ p lo hi. absurd (omega arith);
}

pub empty-Fits : (m m' : ℕ → ℕ) (ei : Extent) → Fits m ei → Fits m' (record ei { len = 0 })
empty-Fits m m' ei f = record {
  small = omega (arith, f.small);
  blk_small = omega (arith, f.blk_small);
  same = λ p lo hi. absurd (omega arith);
}

-- A cache that was given up tells nothing, whatever the addresses.
pub given_up-IsCoherent :
    (m m' : ℕ → ℕ) (et : ExtentTree) → et.no_extent ≡ true → IsCoherent m et → IsCoherent m' et
given_up-IsCoherent m m' et given_up ok = record {
  nodes = rw (ok.off given_up).0 tt;
  largest = given_up-Fits m m' et.largest (ok.off given_up).1 ok.largest;
  off = λ t. ok.off given_up;
}

finish_update-IsCoherent :
    (m : ℕ → ℕ) (give_up : Bool) (nodes : List Extent) (largest : Extent × Bool)
    → AreFrom m 0 nodes
    → Fits m largest.0
    → IsCoherent m (finish_update give_up nodes largest).0
finish_update-IsCoherent m true nodes largest a f = record {
  nodes = tt;
  largest = empty-Fits m m largest.0 f;
  off = λ e. (refl, refl);
}
finish_update-IsCoherent m false nodes largest a f = record {
  nodes = a;
  largest = f;
  off = λ e. cc;
}

module _ (alloc : NodeAlloc) (m : ℕ → ℕ) (fofs blkaddr len : ℕ) (small : fofs + len < 2 ^ 32)
    (blk_small : blkaddr + len < 2 ^ 32) (et : ExtentTree) (ok : IsCoherent m et) where
  abbrev new : ℕ → ℕ
  new = with_range fofs blkaddr len m

  abbrev cut : Cut
  cut =
      invalidate alloc fofs (fofs + len) (seek fofs [] et.nodes).0
        (finds_prev fofs (seek fofs [] et.nodes).1) (seek fofs [] et.nodes).1
        (drop_largest fofs len (et.largest, et.largest_updated)) 0

  cut-IsCut : IsCut new fofs (fofs + len) cut
  cut-IsCut =
      let (mid, o, b, a, e) = seek-IsSought m fofs 0 [] et.nodes (omega arith) tt ok.nodes in
      invalidate-IsCut alloc m fofs blkaddr len small mid (seek fofs [] et.nodes).0 _ _ _ 0 o
        (AreBefore-outside m fofs blkaddr len mid _ o b) a e
        (drop_largest-Fits m fofs blkaddr len (et.largest, et.largest_updated) ok.largest)

  added :
      let put = put_extent alloc (record { fofs = fofs; len = len; blk = blkaddr }) cut in
      is_set blkaddr ≡ true → AreFrom new 0 put.nodes × Fits new put.largest.0
  added some_blk =
      put_extent-AreFrom new fofs (fofs + len) alloc _ cut (omega arith) refl refl
        (new-Fits m fofs blkaddr len small blk_small (ground arith)) cut-IsCut

  removed : AreFrom new 0 (rejoin_nodes cut.before cut.after)
  removed =
      rejoin-AreFrom new fofs cut.before cut.after cut-IsCut.before
        (AreFrom-weaken new fofs (fofs + len) cut.after (omega arith) cut-IsCut.after)

  -- Where the range of pages and the addresses from blkaddr on fit in 32 bits, if the nodes of an
  -- extent tree are in order, do not overlap, and each of them and the largest extent tells only
  -- addresses of the file, then after f2fs_update_extent_tree_range, whether its allocations
  -- succeed or not, the same holds for the file whose pages of the range have got the addresses
  -- from blkaddr on, or none where it is 0.
  pub update_extent_tree_range-IsCoherent :
      IsCoherent
        (with_range fofs blkaddr len m)
        (update_extent_tree_range alloc fofs blkaddr len et).0
  unfolding update_extent_tree_range
  update_extent_tree_range-IsCoherent =
      let pos : u32 fofs ≡ fofs = omega arith in
      let end : u32 (fofs + len) ≡ fofs + len = omega arith in
      elim (Bool-cases et.no_extent) [
        | inl given_up ↦ simp (given_up) (given_up-IsCoherent m new et given_up ok)
        | inr kept ↦ elim (Bool-cases (is_set blkaddr)) [
          | inl some_blk ↦
              rw (pos, end, kept, some_blk)
                (finish_update-IsCoherent new _ _
                  (put_extent alloc (record { fofs = fofs; len = len; blk = blkaddr }) cut).largest
                  (added some_blk).0 (added some_blk).1)
          | inr no_blk ↦
              rw (pos, end, kept, no_blk)
                (finish_update-IsCoherent new false _ cut.largest removed cut-IsCut.largest)
        ]
      ]
