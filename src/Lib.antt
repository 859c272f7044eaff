-- ===== src/Lib.antt =====
-- SWOD, the segment-window discard shaper of this f2fs, the discard commands that it shapes, the
-- choice of victims of the garbage collector that it steers, and the extent cache with the node
-- paths: a model of swod.c and swod.h, of the victim selection in gc.c, of the discard commands
-- in segment.c with their lookups in extent_cache.c, of the extent tree of an inode in
-- extent_cache.c, of get_node_path in node.c, and of what they use of f2fs.h, segment.h and
-- node.h. SWOD groups the segments of the main area, holds back the discard commands of a window
-- of segments while more of its blocks become free, parks windows that are nearly complete for
-- the garbage collector, and releases each by success, timeout or pressure.
--
-- The parts, with the files of this directory that model them:
--
--   Base                  32-bit and 64-bit words, arrays and bitmaps as functions, counting
--   Swod/State            swod.h: swod_ctrl, hints, counters; f2fs.h: discard_cmd_control
--   Swod/Geometry         swod_gid .. swod_default_win_segs
--   Swod/Policy           swod_regime_blocked, the computed times and scores
--   Swod/Group            swod_clear_group_locked, swod_drop_group_locked,
--                         swod_collect_window_locked
--   Swod/Hold             swod_install_candidate, swod_try_park_group_locked,
--                         swod_release_group_locked, swod_window_ready_locked
--   Swod/Search           the loops of swod_eval_group_locked, swod_build_window_feat
--   Swod/Eval             swod_eval_group_locked around them
--   Swod/Rebuild          swod_rb_lower_bound, swod_rebuild_groups_locked,
--                         f2fs_swod_refresh_around_locked
--   Swod/Issue            f2fs_swod_should_skip_locked
--   Swod/FragIpu          f2fs_swod_should_frag_ipu
--   Swod/Hints            segment.c: __create_discard_cmd and __submit_discard_cmd, their hints
--   Swod/Lookup           f2fs_swod_has_held .. f2fs_swod_mark_held_cmd, swod_wce_match in gc.c
--   Swod/Worker           f2fs_swod_release_all, f2fs_swod_sweep_timeout, f2fs_swod_eval_work
--   Swod/Init             f2fs_swod_init, f2fs_swod_destroy
--   Swod/Inv              the invariant of the control block, and what each change does to it
--   Discard               segment.c: discard commands, their creation and removal
--   Discard/Order         the well-formed trees, and the blocks that commands cover
--   Discard/Range         __update_discard_tree_range and its lookup
--   Discard/Queue         __queue_discard_cmd
--   Discard/Punch         __punch_discard_cmd, f2fs_wait_discard_bio
--   Discard/Submit        __submit_discard_cmd
--   Discard/Tree          extent_cache.c: the rb-tree lookups that these use
--   Discard/Orderly       __issue_discard_cmd_orderly
--   Discard/Policy        __init_discard_policy, rounds of issue_discard_thread
--   Gc                    gc.c: select_policy, get_gc_cost and what they use
--   Gc/Scan               the loop of get_victim_by_default over the dirty bitmap
--   Gc/Victim             get_victim_by_default around it, check_bg_victims
--   Node                  node.c: get_node_path; gc.c: f2fs_start_bidx_of_node; IS_DNODE
--   Extent                extent_cache.c: f2fs_update_extent_tree_range, lookups, updates
--   Swod/Tests            a small file system, on which the theorems are applied
--
-- The children of a module prove things about it: Laws, Keeps (about the invariant), Victim,
-- Bounds, and so on. Issue, Worker and Rebuild call Eval and Hold; Eval calls Search and Hold;
-- Hold calls Group and Policy; all of them change the one record Ctrl, and the invariant Inv is
-- what they rely on between the calls: the three counters count the hints, every active window is
-- not empty and lies in its group, only a held window is eligible for completion, and each bitmap
-- marks exactly the segments of the windows of its kind.
--
-- Discard/Queue and Discard/Submit call Discard/Range; Discard/Range and Discard/Punch create and
-- remove commands, and each creation goes through Swod/Hints, as the end of a submission does.
-- Discard/Issue and Discard/Orderly call Discard/Submit, and Discard/Policy calls Swod/Worker.
-- The abstract view of the commands is two sets of blocks, those that some command covers and
-- those that a pending one covers; a valid state is in Discard/Order.
--
-- Gc/Victim asks Swod/Lookup for the targets of completion and counts in the control block.
-- Extent finds the page of a block by Node, which turns paths of nodes into blocks again. The
-- abstract view of an extent tree is the function from the pages of the file to their addresses,
-- of which the tree tells some.
--
-- The state is passed explicitly. A pointer that may be NULL is an Option; an array or a bitmap
-- is a function of the index, so that an index beyond the array is not a fault in the model, and
-- the theorems about indices say where they stay inside. Numbers are natural numbers, and every
-- 16-bit, 32-bit or 64-bit operation that can wrap has its remainder written out; Boolean tests
-- are functions. The discard commands stand in a list, in the order of their blocks, in place of
-- the rb-tree, of which only the order matters; a lookup with its two neighbours splits the list,
-- and the command of a lookup is changed at its position. The loop of the range update recurs on
-- the commands behind the range's start, that of the submission on the requests that are left,
-- and that of the pass on the commands behind the one it is at. The block layer and the devices
-- are the parameters Block and Devices. Of the pending lists the model keeps which one a command
-- is in; the order within a list is a parameter of the pass over them, any function that leaves
-- no command out.
--
-- jiffies, the random number, the memory statistics, the counts of valid blocks and the
-- conversions between jiffies and milliseconds are fields of Sbi, fixed during a call.
--
-- Loops run over the rounds that are left, which is the number that the source computes. The
-- loops on fuel are add_cmd, create_from and submit_from, the cut of a command into segments: the
-- fuel is the number of blocks, of which each round takes at least one; and scan, which needs no
-- more than two rounds for each search unit and two more where the limits are whole numbers of
-- units, and may otherwise not end. The variables qbp and lbp of the search are read and never
-- assigned in the source: the record Stale, a parameter throughout, says what is read; the loops
-- over groups have one for each group.
--
-- Not modelled: the locks and the interleavings that they exclude, since every operation here
-- runs with the lock held or reads one state; the delayed work is an optional delay, and the
-- workqueue runs it in a step of its own. The retry of __issue_discard_cmd at unmount, the waits
-- of the discard thread, the completion of the bios and the waits for it, the age-threshold modes
-- of the victim selection, the shrinker of the extent cache and its set-up from the inode page,
-- and the rest of f2fs are outside. The sections, segment entries and bitmaps that the victim
-- selection reads are fixed during a call; allocations of extent nodes may fail as the parameter
-- NodeAlloc says.
pub mod Base
pub mod Swod
pub mod Discard
pub mod Node
pub mod Extent
pub mod Gc
