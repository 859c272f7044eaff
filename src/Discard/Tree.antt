-- ===== src/Discard/Tree.antt =====
-- The lookups of extent_cache.c in the rb-tree of the discard commands. A tree is its shape:
-- colours, parents and the rebalancing, which keeps the order, are the kernel's.
pub mod Lists
pub mod Laws
use redisc.Base.{ℕ, Option, some, none, List, [], ◌∷◌, ◌++◌, ltb, leb, if◌then◌else◌, add32}
use redisc.Discard.{DiscardCmd}
use redisc.Discard.Order.{rejoin}
use redisc.Discard.Range.{head}

pub data RbTree : Type 0 where
  leaf : RbTree
  node : RbTree → DiscardCmd → RbTree → RbTree

unfoldable pub in_order : RbTree → List DiscardCmd
in_order leaf = []
in_order (node l re r) = in_order l ++ (re ∷ in_order r)

-- `__lookup_rb_tree_slow`, which `f2fs_lookup_rb_tree` calls where no entry is cached.
unfoldable pub lookup_rb_tree_slow : ℕ → RbTree → Option DiscardCmd
lookup_rb_tree_slow ofs leaf = none
lookup_rb_tree_slow ofs (node l re r) =
    let left = lookup_rb_tree_slow ofs l in
    let right = lookup_rb_tree_slow ofs r in
    if ltb ofs re.lstart then left else if leb (add32 re.lstart re.len) ofs then right else some re

-- The entry and its neighbours.
pub record Neighbours : Type 0 where
  pub entry : Option DiscardCmd
  pub prev_entry : Option DiscardCmd
  pub next_entry : Option DiscardCmd

-- How the descent came to where it is.
pub data Parent : Type 0 where
  at_root : Parent
  left_of right_of : DiscardCmd → Parent

-- The neighbours where the descent ends. To the left of its parent the offset is in front of it,
-- so `next` is the parent and `prev` is its rb_prev; to the right `prev` is the parent.
abbrev at_end : ℕ → Parent → List DiscardCmd → List DiscardCmd → Neighbours
at_end ofs at_root prevs nexts = record { entry = none; prev_entry = none; next_entry = none }
at_end ofs (left_of re) prevs nexts = record {
  entry = none;
  prev_entry = head prevs;
  next_entry = some re;
}
at_end ofs (right_of re) prevs nexts = record {
  entry = none;
  prev_entry = some re;
  next_entry = if ltb re.lstart ofs then head nexts else some re;
}

-- `f2fs_lookup_rb_tree_ret` with `force` and no cached entry. The entries before the subtree, the
-- nearest first, and those behind it are what rb_prev and rb_next go through.
unfoldable pub lookup_from : ℕ → RbTree → Parent → List DiscardCmd → List DiscardCmd → Neighbours
unfolding in_order rejoin
lookup_from ofs leaf parent prevs nexts = at_end ofs parent prevs nexts
lookup_from ofs (node l re r) parent prevs nexts =
    let left = lookup_from ofs l (left_of re) prevs (re ∷ (in_order r ++ nexts)) in
    let right = lookup_from ofs r (right_of re) (re ∷ rejoin (in_order l) prevs) nexts in
    if ltb ofs re.lstart then left else if leb (add32 re.lstart re.len) ofs then right else record {
      entry = some re;
      prev_entry = head (rejoin (in_order l) prevs);
      next_entry = head (in_order r ++ nexts);
    }

unfoldable pub lookup_rb_tree_ret : ℕ → RbTree → Neighbours
unfolding lookup_from
lookup_rb_tree_ret ofs root = lookup_from ofs root at_root [] []

-- `f2fs_lookup_rb_tree_for_insert` and the link of the new entry there. Inside an entry the source
-- stops with f2fs_bug_on; the tree is left as it is.
unfoldable pub insert_rb_tree : DiscardCmd → RbTree → RbTree
insert_rb_tree new leaf = node leaf new leaf
insert_rb_tree new (node l re r) =
    let left = insert_rb_tree new l in
    let right = insert_rb_tree new r in
    if ltb new.lstart re.lstart
    then node left re r
    else if leb (add32 re.lstart re.len) new.lstart
    then node l re right
    else node l re r
