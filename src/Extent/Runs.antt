-- ===== src/Extent/Runs.antt =====
-- Histories of an extent cache, with the addresses of its file.
use redisc.Base.{
  ℕ, ◌+◌, ◌-◌, ◌^◌, ◌≤◌, ◌<◌, ◌≡◌, refl, inl, inr, Bool, Bool-cases, true, false, not, ◌&&◌, Option,
  some, none, List, [], ◌∷◌, arith, if◌then◌else◌,
}
use redisc.Extent.{
  Extent, ExtentTree, NodeAlloc, update_extent_cache_range, drop_extent_tree, lookup_extent_cache,
  lookup_extent_tree,
}
use redisc.Extent.Order.{IsCoherent, with_range}
use redisc.Extent.Laws.{update_extent_tree_range-IsCoherent, empty-Fits, given_up-IsCoherent}
use redisc.Extent.Lookup.{TellsOf, lookup_extent_tree-Tells}

-- The addresses of a range of pages change, or the cache of the inode is dropped.
pub data Change : Type 0 where
  store_range : NodeAlloc → (fofs blkaddr len : ℕ) → Change
  drop_cache : Change

abbrev IsSmall : Change → Type 0
IsSmall (store_range alloc fofs blkaddr len) = (fofs + len < 2 ^ 32) × (blkaddr + len < 2 ^ 32)
IsSmall drop_cache = Unit

abbrev pub AreSmall : List Change → Type 0
AreSmall [] = Unit
AreSmall (x ∷ xs) = IsSmall x × AreSmall xs

-- The addresses of the file after the changes, the first one first.
abbrev pub addresses_after : List Change → (ℕ → ℕ) → ℕ → ℕ
addresses_after [] m = m
addresses_after (store_range alloc fofs blkaddr len ∷ xs) m =
    addresses_after xs (with_range fofs blkaddr len m)
addresses_after (drop_cache ∷ xs) m = addresses_after xs m

-- The tree after them. f2fs_may_extent_tree asks for the flag FI_NO_EXTENT and for what `cached`
-- stands for: a regular file, the mount option and so on.
abbrev pub may_extent : Bool → ExtentTree → Bool
may_extent cached et = cached && not et.no_extent

abbrev changed : Bool → Change → ExtentTree → ExtentTree
changed cached (store_range alloc fofs blkaddr len) et =
    (update_extent_cache_range alloc (may_extent cached et) fofs blkaddr len et).0
changed cached drop_cache et = if may_extent cached et then (drop_extent_tree et).0 else et

abbrev pub tree_after : Bool → List Change → ExtentTree → ExtentTree
tree_after cached [] et = et
tree_after cached (x ∷ xs) et = tree_after cached xs (changed cached x et)

-- What a lookup tells is so.
abbrev pub IsTold : (ℕ → ℕ) → ℕ → Option Extent → Type 0
IsTold m pgofs none = Unit
IsTold m pgofs (some ei) =
    (ei.fofs ≤ pgofs) × (pgofs < ei.fofs + ei.len) × (m pgofs ≡ ei.blk + (pgofs - ei.fofs))

stored-IsCoherent :
    (alloc : NodeAlloc) (may : Bool) (m : ℕ → ℕ) (fofs blkaddr len : ℕ) (et : ExtentTree)
    → (may ≡ false → et.no_extent ≡ true)
    → fofs + len < 2 ^ 32
    → blkaddr + len < 2 ^ 32
    → IsCoherent m et
    → IsCoherent
        (with_range fofs blkaddr len m)
        (update_extent_cache_range alloc may fofs blkaddr len et).0
unfolding update_extent_cache_range
stored-IsCoherent alloc true m fofs blkaddr len et off s b ok =
    update_extent_tree_range-IsCoherent alloc m fofs blkaddr len s b et ok
stored-IsCoherent alloc false m fofs blkaddr len et off s b ok =
    given_up-IsCoherent m _ et (off refl) ok

dropped-IsCoherent :
    (m : ℕ → ℕ) (et : ExtentTree) → IsCoherent m et → IsCoherent m (changed true drop_cache et)
unfolding drop_extent_tree
dropped-IsCoherent m et ok = elim (Bool-cases et.no_extent) [
  | inl off ↦ simp off ok
  | inr on ↦
      simp (on, drop_extent_tree)
        (record {
          nodes = tt;
          largest = empty-Fits m m et.largest ok.largest;
          off = λ e. (refl, refl);
        })
]

changed-IsCoherent :
    (xs : List Change) (m : ℕ → ℕ) (et : ExtentTree)
    → AreSmall xs
    → IsCoherent m et
    → IsCoherent (addresses_after xs m) (tree_after true xs et)
changed-IsCoherent [] m et s ok = ok
changed-IsCoherent (store_range alloc fofs blkaddr len ∷ xs) m et s ok =
    changed-IsCoherent xs (with_range fofs blkaddr len m)
      (changed true (store_range alloc fofs blkaddr len) et) s.1
      (stored-IsCoherent alloc (not et.no_extent) m fofs blkaddr len et (λ e. ground arith) s.0.0
        s.0.1 ok)
changed-IsCoherent (drop_cache ∷ xs) m et s ok =
    changed-IsCoherent xs m (changed true drop_cache et) s.1 (dropped-IsCoherent m et ok)

TellsOf-IsTold :
    (m : ℕ → ℕ) (pgofs : ℕ) (cached : Bool) (o : Option Extent)
    → TellsOf m pgofs cached o
    → IsTold m pgofs o
TellsOf-IsTold m pgofs cached none t = tt
TellsOf-IsTold m pgofs cached (some ei) t = t

lookup_extent_cache-IsTold :
    (m : ℕ → ℕ) (may : Bool) (pgofs : ℕ) (et : ExtentTree)
    → IsCoherent m et
    → IsTold m pgofs (lookup_extent_cache may pgofs et)
unfolding lookup_extent_cache
lookup_extent_cache-IsTold m true pgofs et ok =
    TellsOf-IsTold m pgofs _ (lookup_extent_tree pgofs et) (lookup_extent_tree-Tells m pgofs et ok)
lookup_extent_cache-IsTold m false pgofs et ok = tt

-- After every sequence of calls of f2fs_update_extent_cache_range, each for a range whose pages and
-- addresses fit in 32 bits, and of f2fs_drop_extent_tree, from a tree that tells only addresses of
-- the file, and whether the inode may have a cache or not, what f2fs_lookup_extent_cache gives for
-- a page is an extent that holds it and has the address that the file has there after the sequence.
pub tree_after-IsTold :
    (cached : Bool) (xs : List Change) (m : ℕ → ℕ) (et : ExtentTree) (pgofs : ℕ)
    → AreSmall xs
    → IsCoherent m et
    → let after = tree_after cached xs et in
      IsTold
        (addresses_after xs m)
        pgofs
        (lookup_extent_cache (may_extent cached after) pgofs after)
unfolding lookup_extent_cache
tree_after-IsTold true xs m et pgofs s ok =
    lookup_extent_cache-IsTold (addresses_after xs m) _ pgofs (tree_after true xs et)
      (changed-IsCoherent xs m et s ok)
tree_after-IsTold false xs m et pgofs s ok = tt
