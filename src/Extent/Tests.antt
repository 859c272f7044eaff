-- ===== src/Extent/Tests.antt =====
-- A small cache: an update in the middle of a node, and the theorems at it.
use redisc.Base.{
  List, ℕ, ◌+◌, ◌≡◌, refl, true, false, ◌&&◌, some, [], ◌∷◌, arith, ltb, leb, if◌then◌else◌,
}
use redisc.Node.{get_node_path, start_bidx_of_node, NodePath}
use redisc.Node.Tests.{usual, usual-IsLayout}
use redisc.Extent.{
  lookup_extent_cache, update_extent_cache_range, Extent, ExtentTree, NodeAlloc, seek, invalidate,
  put_extent, rejoin_nodes, try_update_largest, drop_largest, update_extent_tree_range,
  update_extent_cache, lookup_extent_tree, lookup_nodes,
}
use redisc.Extent.Order.{Fits, IsCoherent, with_range}
use redisc.Extent.Laws.{update_extent_tree_range-IsCoherent}
use redisc.Extent.Runs.{
  Change, store_range, drop_cache, AreSmall, addresses_after, may_extent, tree_after, IsTold,
  tree_after-IsTold,
}
use redisc.Extent.Lookup.{Tells, stored, update_extent_cache-Tells}

abbrev run : Extent
run = record { fofs = 100; len = 200; blk = 5000 }

abbrev one_run : ExtentTree
one_run = record { nodes = run ∷ []; largest = run; largest_updated = false; no_extent = false }

abbrev addresses : ℕ → ℕ
addresses p = if leb 100 p && ltb p 300 then p + 4900 else 0

run-Fits : Fits addresses run
run-Fits = record { small = omega arith; blk_small = omega arith; same = λ p lo hi. ground arith }

one_run-IsCoherent : IsCoherent addresses one_run
one_run-IsCoherent = record {
  nodes = (omega arith, run-Fits, tt);
  largest = run-Fits;
  off = λ e. absurd (ground arith);
}

abbrev all_allocated : NodeAlloc
all_allocated = record { split = true; insert = true }

-- The left part is kept and the right one, of 50 pages, is not.
splits_node :
    (update_extent_tree_range all_allocated 240 9000 10 one_run).0.nodes
    ≡ record { fofs = 100; len = 140; blk = 5000 }
      ∷ record { fofs = 240; len = 10; blk = 9000 }
      ∷ []
unfolding update_extent_tree_range seek invalidate put_extent rejoin_nodes try_update_largest
    drop_largest
splits_node = refl

update_extent_tree_range-IsCoherent_example :
    IsCoherent
      (with_range 240 9000 10 addresses)
      (update_extent_tree_range all_allocated 240 9000 10 one_run).0
update_extent_tree_range-IsCoherent_example =
    update_extent_tree_range-IsCoherent all_allocated addresses 240 9000 10 (omega arith)
      (omega arith) one_run one_run-IsCoherent

-- Page 250 is in the inode itself.
abbrev path_of_250 : NodePath
path_of_250 = record { level = 0; offset = 250 ∷ []; noffset = 0 ∷ [] }

path_of_250-found : get_node_path usual 250 ≡ some path_of_250
unfolding get_node_path
path_of_250-found = refl

abbrev after_250 : ExtentTree
after_250 = (update_extent_cache usual all_allocated true 0xffff_ffff 0 250 7000 one_run).0

update_extent_cache-Tells_example :
    Tells
      (with_range 250 (stored 0xffff_ffff 7000) 1 addresses)
      250
      after_250
      (lookup_extent_tree 250 after_250)
update_extent_cache-Tells_example =
    update_extent_cache-Tells usual usual-IsLayout all_allocated addresses 0xffff_ffff one_run
      one_run-IsCoherent 250 7000 (omega arith) (omega arith) path_of_250 path_of_250-found 250

finds_250 : lookup_extent_tree 250 after_250 ≡ some (record { fofs = 250; len = 1; blk = 7000 })
unfolding lookup_extent_tree lookup_nodes update_extent_cache start_bidx_of_node
    update_extent_tree_range seek invalidate put_extent rejoin_nodes try_update_largest drop_largest
finds_250 = refl

-- A range moves, the cache is dropped, and a later change leaves it given up.
abbrev history : List Change
history =
    store_range all_allocated 240 9000 10 ∷ drop_cache ∷ store_range all_allocated 300 7000 64 ∷ []

history-AreSmall : AreSmall history
history-AreSmall = ((omega arith, omega arith), (tt, ((omega arith, omega arith), tt)))

tree_after-IsTold_example :
    let after = tree_after true history one_run in
    IsTold
      (addresses_after history addresses)
      245
      (lookup_extent_cache (may_extent true after) 245 after)
tree_after-IsTold_example =
    tree_after-IsTold true history addresses one_run 245 history-AreSmall one_run-IsCoherent

-- Before the cache is dropped, it tells the new address.
moved_245 :
    let after = tree_after true (store_range all_allocated 240 9000 10 ∷ []) one_run in
    lookup_extent_cache (may_extent true after) 245 after
    ≡ some (record { fofs = 240; len = 10; blk = 9000 })
unfolding lookup_extent_cache lookup_extent_tree lookup_nodes update_extent_cache_range
    update_extent_tree_range seek invalidate put_extent rejoin_nodes try_update_largest drop_largest
moved_245 = refl
