-- ===== src/Discard/Tests/Lookups.antt =====
-- The lookups in a small tree, and a round of the discard thread on a nearly full file system.
use redisc.Base.{◌≡◌, refl, true, false, not, ◌||◌, [], some}
use redisc.Swod.Issue.{d_submit}
use redisc.Swod.Tests.{fs, one_held, held_ctrl, held_ctrl-Inv}
use redisc.Discard.{insert_cmd, wait_list}
use redisc.Discard.Tests.{command, waiting, one_request, device_base, three-AreSound}
use redisc.Discard.Order.{AreSound, covers}
use redisc.Discard.Range.{head, lookup_ret}
use redisc.Swod.State.{Sbi, Ctrl, gc_normal}
use redisc.Discard.Tree.{
  RbTree, leaf, node, in_order, lookup_rb_tree_slow, lookup_rb_tree_ret, insert_rb_tree,
}
use redisc.Discard.Tree.Laws.{RbTree-lookups, dc_of, or_else}
use redisc.Discard.Policy.{Policy, is_over_utilized, begin_round}
use redisc.Discard.Policy.Laws.{begin_round-IsReleased}
use redisc.Swod.Policy.{utilization, discard_cache_fits}
use redisc.Swod.Worker.Release.{IsReleased}
use redisc.Discard.Punch.{lookup_rb_tree}

-- A tree of the three commands, with the second at the root.
abbrev tree_of_three : RbTree
tree_of_three =
    node (node leaf (waiting 100 4) leaf) (waiting 106 2)
      (node leaf (command 120 8 d_submit wait_list) leaf)

tree_of_three-AreSound : AreSound device_base 0 (in_order tree_of_three)
unfolding in_order
tree_of_three-AreSound = three-AreSound

not_covered : covers (in_order tree_of_three) 110 ≡ false
unfolding in_order covers
not_covered = refl

RbTree-lookups_example :
    let n = lookup_rb_tree_ret 105 tree_of_three in
    let s = lookup_ret 105 [] (in_order tree_of_three) in
    (lookup_rb_tree_slow 105 tree_of_three ≡ dc_of (lookup_rb_tree 105 [] (in_order tree_of_three)))
    × (or_else n.entry n.prev_entry ≡ head s.0)
    × (n.next_entry ≡ head s.1)
    × (in_order (insert_rb_tree (waiting 110 3) tree_of_three)
        ≡ insert_cmd (waiting 110 3) (in_order tree_of_three))
RbTree-lookups_example =
    RbTree-lookups device_base tree_of_three 105 (waiting 110 3) tree_of_three-AreSound not_covered

-- Nine blocks in ten are in use.
abbrev full_fs : Sbi
full_fs = record fs { valid_user_blocks = 90; user_block_count = 100; gc_mode = gc_normal }

abbrev old_policy : Policy
old_policy = record {
  limits = one_request;
  min_interval = 0;
  mid_interval = 0;
  max_interval = 0;
  io_aware_gran = 0;
  io_aware = false;
  sync = false;
  ordered = false;
  timeout = false;
  granularity = 0;
}

pressed : (not (discard_cache_fits full_fs one_held.tun) || is_over_utilized full_fs) ≡ true
unfolding discard_cache_fits utilization
pressed = refl

begin_round-IsReleased_example :
    let (p, d') = begin_round full_fs old_policy one_held in
    (p.granularity ≡ 1) × ((sw' : Ctrl) × (d'.swod ≡ some sw') × IsReleased sw')
begin_round-IsReleased_example =
    begin_round-IsReleased full_fs old_policy one_held held_ctrl refl held_ctrl-Inv refl pressed
