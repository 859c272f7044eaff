-- ===== src/Extent.antt =====
-- The extent cache of an inode, extent_cache.c, with the extents of f2fs.h; without
-- CONFIG_F2FS_FS_COMPRESSION.
pub mod Order
pub mod Rounds
pub mod Merge
pub mod Laws
pub mod Lookup
pub mod Runs
pub mod Tests
use redisc.Base.{
  ℕ, ◌+◌, ◌%◌, ◌^◌, Bool, true, false, not, ◌&&◌, ◌||◌, Option, some, none, List, [], ◌∷◌, ltb, leb,
  ◌==◌, is_set, if◌then◌else◌, u32, add32, sub32,
}
use redisc.Node.{Layout, start_bidx_of_node}

-- `struct extent_info`.
pub record Extent : Type 0 where
  pub fofs : ℕ
  pub len : ℕ
  pub blk : ℕ

-- `struct extent_tree` with the inode's FI_NO_EXTENT; the nodes in their order. `cached_en` only
-- shortens the way to a node, and `node_cnt` is the length of the list.
pub record ExtentTree : Type 0 where
  pub nodes : List Extent
  pub largest : Extent
  pub largest_updated : Bool
  pub no_extent : Bool

abbrev pub min_extent_len : ℕ
min_extent_len = 64

-- `__is_extent_mergeable`.
abbrev pub is_extent_mergeable : Extent → Extent → Bool
is_extent_mergeable back front =
    (add32 back.fofs back.len == front.fofs) && (add32 back.blk back.len == front.blk)

-- `__try_update_largest_extent`, on the largest extent and its flag.
unfoldable pub try_update_largest : Extent → Extent × Bool → Extent × Bool
try_update_largest en (largest, updated) =
    if ltb largest.len en.len then (en, true) else (largest, updated)

-- `__drop_largest_extent`; `fofs + len` is a 64-bit sum.
unfoldable pub drop_largest : ℕ → ℕ → Extent × Bool → Extent × Bool
drop_largest fofs len (largest, updated) =
    if ltb fofs (add32 largest.fofs largest.len) && ltb largest.fofs (fofs + len)
    then (record largest { len = 0 }, true)
    else (largest, updated)

-- The nodes of the first list in reverse, then those of the second.
unfoldable pub rejoin_nodes : List Extent → List Extent → List Extent
rejoin_nodes [] after = after
rejoin_nodes (en ∷ before) after = rejoin_nodes before (en ∷ after)

-- `f2fs_lookup_rb_tree_ret`: the nodes that end by `fofs`, the nearest first, and the others. The
-- first of the others is the node that holds `fofs`, or the next.
unfoldable pub seek : ℕ → List Extent → List Extent → List Extent × List Extent
seek fofs before [] = (before, [])
seek fofs before (en ∷ after) =
    let rest = seek fofs (en ∷ before) after in
    if leb (add32 en.fofs en.len) fofs then rest else (before, en ∷ after)

-- Without `force`, it gives the previous node where no node holds `fofs`, or one starts there.
abbrev pub finds_prev : ℕ → List Extent → Bool
finds_prev fofs [] = true
finds_prev fofs (en ∷ after) = leb fofs en.fofs

-- Whether an allocation succeeds: of the second part of a split node, and of the new node.
pub record NodeAlloc : Type 0 where
  pub split : Bool
  pub insert : Bool

-- What the loop of `f2fs_update_extent_tree_range` leaves: the nodes before the range, whether
-- `prev_en` is the nearest of them, those behind the range, of which `next_en` is the first, the
-- largest extent with its flag, and the length of `dei`.
pub record Cut : Type 0 where
  pub before : List Extent
  pub prev : Bool
  pub after : List Extent
  pub largest : Extent × Bool
  pub dei_len : ℕ

abbrev pub left_extent : ℕ → Extent → Extent
left_extent pos en = record en { len = sub32 pos en.fofs }

abbrev pub right_extent : ℕ → Extent → Extent
right_extent end en = record {
  fofs = end;
  len = sub32 (add32 en.fofs en.len) end;
  blk = add32 (sub32 end en.fofs) en.blk;
}

abbrev pub keeps_left : ℕ → Extent → Bool
keeps_left pos en = ltb en.fofs pos && leb min_extent_len (sub32 pos en.fofs)

abbrev pub keeps_right : ℕ → Extent → Bool
keeps_right end en =
    let org_end = add32 en.fofs en.len in ltb end org_end && leb min_extent_len (sub32 org_end end)

-- 2. The loop over the nodes of the range. A right part starts at the end of the range, so the loop
-- ends with it.
unfoldable pub invalidate :
    NodeAlloc → ℕ → ℕ → List Extent → Bool → List Extent → Extent × Bool → ℕ → Cut
invalidate alloc pos end before prev [] largest dei_len = record {
  before = before;
  prev = prev;
  after = [];
  largest = largest;
  dei_len = dei_len;
}
invalidate alloc pos end before prev (en ∷ after) largest dei_len =
    let left = left_extent pos en in
    let right = right_extent end en in
    let with_left = try_update_largest left largest in
    let go_left = invalidate alloc pos end (left ∷ before) true after with_left en.len in
    let go = invalidate alloc pos end before prev after largest en.len in
    if not (ltb en.fofs end)
    then record {
      before = before;
      prev = prev;
      after = en ∷ after;
      largest = largest;
      dei_len = dei_len;
    }
    else if keeps_left pos en && keeps_right end en && alloc.split
    then record {
      before = left ∷ before;
      prev = true;
      after = right ∷ after;
      largest = try_update_largest left (try_update_largest right largest);
      dei_len = en.len;
    }
    else if keeps_left pos en
    then go_left
    else if keeps_right end en
    then record {
      before = before;
      prev = prev;
      after = right ∷ after;
      largest = try_update_largest right largest;
      dei_len = en.len;
    }
    else go

abbrev pub back_mergeable : Bool → Extent → List Extent → Bool
back_mergeable prev ei [] = false
back_mergeable prev ei (en ∷ before) = prev && is_extent_mergeable en ei

abbrev pub front_mergeable : Extent → List Extent → Bool
front_mergeable ei [] = false
front_mergeable ei (en ∷ after) = is_extent_mergeable ei en

abbrev pub merge_prev : Extent → List Extent → Extent
merge_prev ei [] = ei
merge_prev ei (en ∷ before) = record en { len = add32 en.len ei.len }

abbrev pub merge_next : Extent → List Extent → Extent
merge_next ei [] = ei
merge_next ei (en ∷ after) = record ei { len = add32 en.len ei.len }

abbrev pub tail : List Extent → List Extent
tail [] = []
tail (en ∷ nodes) = nodes

-- The nodes, and the largest extent with its flag.
pub record Put : Type 0 where
  pub nodes : List Extent
  pub largest : Extent × Bool

-- 3. `__try_merge_extent_node`, and `__insert_extent_tree` where it merges nothing.
unfoldable pub put_extent : NodeAlloc → Extent → Cut → Put
put_extent alloc ei c =
    let back = back_mergeable c.prev ei c.before in
    let grown = if back then merge_prev ei c.before else ei in
    let front = front_mergeable grown c.after in
    let merged = if front then merge_next grown c.after else grown in
    let before = if back then tail c.before else c.before in
    let after = if front then tail c.after else c.after in
    if back || front || alloc.insert
    then record {
      nodes = rejoin_nodes before (merged ∷ after);
      largest = try_update_largest merged c.largest;
    }
    else record { nodes = rejoin_nodes c.before c.after; largest = c.largest }

-- The end of the update, with the largest extent at its start: the cache is given up if only small
-- extents are left. The second result is whether the inode is marked dirty.
abbrev pub finish_update : Bool → List Extent → Extent × Bool → ExtentTree × Bool
finish_update give_up nodes (largest, updated) = (
  record {
    nodes = if give_up then [] else nodes;
    largest = if give_up then record largest { len = 0 } else largest;
    largest_updated = false;
    no_extent = give_up;
  },
  updated || give_up,
)

-- `f2fs_update_extent_tree_range`; `len` is not 0.
unfoldable pub update_extent_tree_range : NodeAlloc → ℕ → ℕ → ℕ → ExtentTree → ExtentTree × Bool
update_extent_tree_range alloc fofs blkaddr len et =
    let end = u32 (fofs + len) in
    let pos = u32 fofs in
    let largest = drop_largest fofs len (et.largest, et.largest_updated) in
    let (before, after) = seek pos [] et.nodes in
    let c = invalidate alloc pos end before (finds_prev pos after) after largest 0 in
    let put = put_extent alloc (record { fofs = pos; len = len; blk = blkaddr }) c in
    let give_up =
      is_set c.dei_len
      && ltb et.largest.len min_extent_len
      && ltb put.largest.0.len min_extent_len in
    if et.no_extent
    then (et, false)
    else if is_set blkaddr
    then finish_update give_up put.nodes put.largest
    else finish_update false (rejoin_nodes c.before c.after) c.largest

-- `f2fs_lookup_extent_tree`: the largest extent, or the node that holds the page.
abbrev pub holds : ℕ → Extent → Bool
holds pgofs ei = leb ei.fofs pgofs && ltb pgofs (add32 ei.fofs ei.len)

unfoldable pub lookup_nodes : ℕ → List Extent → Option Extent
lookup_nodes pgofs [] = none
lookup_nodes pgofs (en ∷ nodes) =
    let rest = lookup_nodes pgofs nodes in if holds pgofs en then some en else rest

unfoldable pub lookup_extent_tree : ℕ → ExtentTree → Option Extent
lookup_extent_tree pgofs et =
    if holds pgofs et.largest then some et.largest else lookup_nodes pgofs et.nodes

-- `f2fs_drop_extent_tree` of an inode that may have a tree.
unfoldable pub drop_extent_tree : ExtentTree → ExtentTree × Bool
drop_extent_tree et = (
  record et { nodes = []; largest = record (et.largest) { len = 0 }; no_extent = true },
  is_set et.largest.len,
)

-- `f2fs_update_extent_cache`, for the address of a block in a node; `new_addr` is NEW_ADDR, and the
-- parameter `may_extent` is f2fs_may_extent_tree(inode).
unfoldable pub update_extent_cache :
    Layout → NodeAlloc → Bool → ℕ → ℕ → ℕ → ℕ → ExtentTree → ExtentTree × Bool
update_extent_cache l alloc may_extent new_addr node_ofs ofs_in_node data_blkaddr et =
    let blkaddr = if data_blkaddr == new_addr then 0 else data_blkaddr in
    let fofs = add32 (start_bidx_of_node l node_ofs) ofs_in_node in
    if may_extent then update_extent_tree_range alloc fofs blkaddr 1 et else (et, false)

-- `f2fs_update_extent_cache_range`, and `f2fs_lookup_extent_cache`.
unfoldable pub update_extent_cache_range :
    NodeAlloc → Bool → ℕ → ℕ → ℕ → ExtentTree → ExtentTree × Bool
update_extent_cache_range alloc may_extent fofs blkaddr len et =
    if may_extent then update_extent_tree_range alloc fofs blkaddr len et else (et, false)

unfoldable pub lookup_extent_cache : Bool → ℕ → ExtentTree → Option Extent
lookup_extent_cache may_extent pgofs et = if may_extent then lookup_extent_tree pgofs et else none
