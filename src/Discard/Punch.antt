-- ===== src/Discard/Punch.antt =====
-- `__punch_discard_cmd`, `f2fs_wait_discard_bio` and `__wait_one_discard_bio`: a block that is
-- allocated leaves the discard commands.
pub mod Found
pub mod Cases
pub mod Laws
use redisc.Base.{
  ℕ, ◌+◌, Bool, true, false, ◌||◌, Option, some, none, List, [], ◌∷◌, ◌++◌, ltb, leb, ◌==◌, is_set,
  if◌then◌else◌, u16, sub16, add32, sub32,
}
use redisc.Swod.State.{Sbi}
use redisc.Swod.Issue.{is_prep}
use redisc.Discard.{
  DiscardInfo, DiscardCmd, Totals, Control, is_done, add_undiscard, sub_undiscard,
  remove_discard_cmd, relocate_discard_cmd, insert_discard_tree,
}
use redisc.Discard.Order.{rejoin}

-- A command with those before it, the nearest first, and those behind it.
pub record Position : Type 0 where
  pub before : List DiscardCmd
  pub dc : DiscardCmd
  pub after : List DiscardCmd

-- `f2fs_lookup_rb_tree` on the commands in their order; its descent is in Discard/Tree.
unfoldable pub lookup_rb_tree : ℕ → List DiscardCmd → List DiscardCmd → Option Position
lookup_rb_tree ofs before [] = none
lookup_rb_tree ofs before (dc ∷ after) =
    let rest = lookup_rb_tree ofs (dc ∷ before) after in
    if ltb ofs dc.lstart
    then none
    else if leb (add32 dc.lstart dc.len) ofs
    then rest
    else some (record { before = before; dc = dc; after = after })

-- The tree with other commands at a position.
abbrev pub put_back : Position → List DiscardCmd → List DiscardCmd
put_back at here = rejoin at.before (here ++ at.after)

-- The command in front of the block.
abbrev pub left_part : DiscardCmd → ℕ → DiscardCmd
left_part dc blkaddr =
    relocate_discard_cmd (record dc { di = record (dc.di) { len = sub32 blkaddr dc.lstart } })

-- What is left of the command behind the block.
abbrev pub right_info : DiscardCmd → ℕ → DiscardInfo
right_info dc blkaddr = record {
  lstart = add32 blkaddr 1;
  len = sub32 (sub32 (add32 dc.lstart dc.len) 1) blkaddr;
  start = sub32 (add32 (add32 dc.start blkaddr) 1) dc.lstart;
}

-- The command without its first block.
abbrev pub without_first : DiscardCmd → DiscardCmd
without_first dc = relocate_discard_cmd (record dc {
  di = record { lstart = add32 dc.lstart 1; len = sub32 dc.len 1; start = add32 dc.start 1 };
})

-- `__punch_discard_cmd`.
unfoldable pub punch_discard_cmd : Sbi → Position → ℕ → Totals → Control
unfolding remove_discard_cmd insert_discard_tree
punch_discard_cmd sbi at blkaddr t =
    let dc = at.dc in
    let (kept, removed) = remove_discard_cmd dc t in
    let left = left_part dc blkaddr in
    let rest = without_first dc in
    let taken = sub_undiscard dc.len t in
    let cut : Control = record {
      root = put_back at (left ∷ []);
      totals = add_undiscard left.len taken;
    } in
    let behind = ltb blkaddr (sub32 (add32 dc.lstart dc.len) 1) in
    if is_done dc.state || (dc.len == 1)
    then record { root = put_back at kept; totals = removed }
    else if ltb dc.lstart blkaddr
    then (if behind then insert_discard_tree sbi dc.bdev (right_info dc blkaddr) cut else cut)
    else if behind
    then record { root = put_back at (rest ∷ []); totals = add_undiscard rest.len taken }
    else record { root = put_back at (dc ∷ []); totals = taken }

-- What `f2fs_wait_discard_bio` does with the result of its lookup.
unfoldable pub wait_discard_at : Sbi → ℕ → Control → Option Position → Control × Bool
unfolding punch_discard_cmd
wait_discard_at sbi blkaddr c none = (c, false)
wait_discard_at sbi blkaddr c (some at) =
    let waiter = record (at.dc) { ref = u16 (at.dc.ref + 1) } in
    if is_prep at.dc.state
    then (punch_discard_cmd sbi at blkaddr c.totals, false)
    else (record c { root = put_back at (waiter ∷ []) }, true)

-- The part of `f2fs_wait_discard_bio` under the lock, and whether it goes on to wait.
unfoldable pub wait_discard_bio : Sbi → ℕ → Control → Control × Bool
unfolding wait_discard_at lookup_rb_tree
wait_discard_bio sbi blkaddr c = wait_discard_at sbi blkaddr c (lookup_rb_tree blkaddr [] c.root)

-- `__wait_one_discard_bio` for a command whose bios have completed: the blocks that it reports.
unfoldable pub wait_one_discard_bio : Position → Totals → Control × ℕ
unfolding remove_discard_cmd
wait_one_discard_bio at t =
    let dc = record (at.dc) { ref = sub16 at.dc.ref 1 } in
    let (kept, t') = remove_discard_cmd dc t in
    if is_set dc.ref
    then (record { root = put_back at (dc ∷ []); totals = t }, 0)
    else (record { root = put_back at kept; totals = t' }, if is_set dc.error then 0 else dc.len)
