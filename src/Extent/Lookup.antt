-- ===== src/Extent/Lookup.antt =====
-- What a lookup in the extent cache tells, also after the update for one block of a file.
use redisc.Base.{
  ℕ, ◌+◌, ◌-◌, ◌^◌, ◌≤◌, ◌<◌, ◌≡◌, refl, sym, subst, inl, inr, Bool, Bool-cases, true, false, ◌||◌,
  Option, some, none, List, [], ◌∷◌, arith, ◌==◌, add32, if◌then◌else◌,
}
use redisc.Node.{Layout, NodePath, get_or, get_node_path, start_bidx_of_node}
use redisc.Node.Arith.{IsLayout}
use redisc.Node.Laws.{LeadsTo, get_node_path-LeadsTo}
use redisc.Extent.{
  Extent, ExtentTree, NodeAlloc, lookup_extent_tree, lookup_nodes, holds, update_extent_cache,
  update_extent_tree_range,
}
use redisc.Extent.Order.{Fits, AreFrom, IsCoherent, with_range}
use redisc.Extent.Laws.{update_extent_tree_range-IsCoherent}

-- Does some node hold the page?
abbrev pub is_cached : ℕ → List Extent → Bool
is_cached pgofs [] = false
is_cached pgofs (en ∷ nodes) = holds pgofs en || is_cached pgofs nodes

-- An extent that holds the page and has its address at the page's place, or none exactly where no
-- extent holds the page.
abbrev pub TellsOf : (ℕ → ℕ) → ℕ → Bool → Option Extent → Type 0
TellsOf m pgofs cached none = cached ≡ false
TellsOf m pgofs cached (some ei) =
    (ei.fofs ≤ pgofs) × (pgofs < ei.fofs + ei.len) × (m pgofs ≡ ei.blk + (pgofs - ei.fofs))

abbrev pub Tells : (ℕ → ℕ) → ℕ → ExtentTree → Option Extent → Type 0
Tells m pgofs et = TellsOf m pgofs (holds pgofs et.largest || is_cached pgofs et.nodes)

held :
    (m : ℕ → ℕ) (pgofs : ℕ) (ei : Extent)
    → Fits m ei
    → holds pgofs ei ≡ true
    → (ei.fofs ≤ pgofs) × (pgofs < ei.fofs + ei.len) × (m pgofs ≡ ei.blk + (pgofs - ei.fofs))
held m pgofs ei f h =
    let lo : ei.fofs ≤ pgofs = ground arith in
    let hi : pgofs < ei.fofs + ei.len = ground (arith, f.small) in
    (lo, hi, omega (arith, f.same pgofs lo hi))

lookup_nodes-Tells :
    (m : ℕ → ℕ) (pgofs lo : ℕ) (nodes : List Extent)
    → AreFrom m lo nodes
    → TellsOf m pgofs (is_cached pgofs nodes) (lookup_nodes pgofs nodes)
unfolding lookup_nodes
lookup_nodes-Tells m pgofs lo [] a = refl
lookup_nodes-Tells m pgofs lo (en ∷ nodes) a = elim (Bool-cases (holds pgofs en)) [
  | inl here ↦ rw (here, lookup_nodes) (held m pgofs en a.1 here)
  | inr later ↦ rw (later, lookup_nodes) (lookup_nodes-Tells m pgofs (en.fofs + en.len) nodes a.2)
]

pub lookup_extent_tree-Tells :
    (m : ℕ → ℕ) (pgofs : ℕ) (et : ExtentTree)
    → IsCoherent m et
    → Tells m pgofs et (lookup_extent_tree pgofs et)
unfolding lookup_extent_tree
lookup_extent_tree-Tells m pgofs et ok = elim (Bool-cases (holds pgofs et.largest)) [
  | inl here ↦ rw (here, lookup_extent_tree) (held m pgofs et.largest ok.largest here)
  | inr nodes ↦ rw (nodes, lookup_extent_tree) (lookup_nodes-Tells m pgofs 0 et.nodes ok.nodes)
]

-- The address that an update stores: none for a block that is only reserved.
abbrev pub stored : ℕ → ℕ → ℕ
stored new_addr data_blkaddr = if data_blkaddr == new_addr then 0 else data_blkaddr

module _ (l : Layout) (laid : IsLayout l) (alloc : NodeAlloc) (m : ℕ → ℕ) (new_addr : ℕ)
    (et : ExtentTree) (ok : IsCoherent m et) (block data_blkaddr : ℕ) (small : block + 1 < 2 ^ 32)
    (blk_small : data_blkaddr + 1 < 2 ^ 32) (p : NodePath)
    (path : get_node_path l block ≡ some p) where
  abbrev updated : ExtentTree
  updated =
      (update_extent_cache l alloc true new_addr (get_or p.noffset p.level)
        (get_or p.offset p.level) data_blkaddr et).0

  starts : add32 (start_bidx_of_node l (get_or p.noffset p.level)) (get_or p.offset p.level) ≡ block
  starts =
      let leads : LeadsTo l (2 ^ 29) block (some p) =
        subst (LeadsTo l (2 ^ 29) block) path
          (get_node_path-LeadsTo l laid (2 ^ 29) (omega arith) block) in
      omega (arith, leads.1.start)

  -- In a layout within the bounds of f2fs, where the block and its address leave room for one more
  -- in 32 bits, if the cache tells only addresses of the file, f2fs_update_extent_cache at the node
  -- and the offset that get_node_path finds for a block changes the page of that block and no
  -- other: a lookup of any page afterwards gives an extent that holds the page, with the address
  -- that the page has now, or nothing exactly where no extent of the tree holds it.
  pub update_extent_cache-Tells :
      (pgofs : ℕ)
      → Tells
          (with_range block (stored new_addr data_blkaddr) 1 m)
          pgofs
          updated
          (lookup_extent_tree pgofs updated)
  unfolding update_extent_cache
  update_extent_cache-Tells pgofs =
      lookup_extent_tree-Tells (with_range block (stored new_addr data_blkaddr) 1 m) pgofs updated (
        subst
          (λ x.
            IsCoherent (with_range block (stored new_addr data_blkaddr) 1 m)
              (update_extent_tree_range alloc x (stored new_addr data_blkaddr) 1 et).0)
          (sym starts)
          (update_extent_tree_range-IsCoherent alloc m block (stored new_addr data_blkaddr) 1 small
            (ground arith) et ok))
