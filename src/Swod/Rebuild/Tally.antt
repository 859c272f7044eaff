-- ===== src/Swod/Rebuild/Tally.antt =====
-- The commands that `swod_rebuild_groups_locked` counts, against the tree.
use redisc.Base.{ℕ, ◌+◌, ◌-◌, ◌≤◌, ◌<◌, ◌≡◌, ◌∙◌, false, arith, ltb, leb}
use redisc.Swod.State.{Sbi, SegHint, Ctrl}
use redisc.Swod.Geometry.{group_first_seg}
use redisc.Swod.Lookup.{start_block}
use redisc.Swod.Rebuild.{
  CmdTree, in_order, scan_cmds, clear_hints, rebuild_end, rebuild_groups, lower_bound,
}
use redisc.Swod.Rebuild.Blocks.{first_block, FitsBlocks, first_mono, start_block-eq}
use redisc.Swod.Rebuild.Search.{AreDisjoint, drop_ended, lower_bound_lem}
use redisc.Swod.Rebuild.Exact.{drop_ended-AreDisjoint, pending_in-le, clear_hints-IsCleared}
use redisc.Swod.Rebuild.Commands.{
  commands_in, commands_in-le, commands_in-drop_ended, scan_cmds-commands_in,
}

module _ (sbi : Sbi) {n : ℕ} (fits : FitsBlocks sbi n) (root : CmdTree)
    (d : AreDisjoint 0 (in_order root)) where
  scan-tally :
      (gs ge : ℕ) (hints : ℕ → SegHint) (s : ℕ)
      → ge ≤ n
      → gs ≤ s
      → s < ge
      → (scan_cmds sbi
          (start_block sbi gs)
          (start_block sbi ge)
          (lower_bound root (start_block sbi gs))
          (clear_hints (ge - gs) gs hints)
          s).nr_cmds
        ≡ commands_in sbi s (in_order root)
  scan-tally gs ge hints s top l u =
      let dcs = drop_ended (first_block sbi gs) (in_order root) in
      let zero' = (clear_hints-IsCleared (ge - gs) gs hints s l (omega arith)).1 in
      let same =
        commands_in-drop_ended sbi s (first_block sbi gs) 0 (in_order root) d
          (first_mono sbi gs s l) in
      let bound = pending_in-le sbi s 0 (in_order root) d in
      let fewer = commands_in-le sbi s (in_order root) in
      rw
        (
          start_block-eq sbi fits gs (omega arith),
          start_block-eq sbi fits ge top,
          lower_bound_lem root (first_block sbi gs) d,
        )
        (scan_cmds-commands_in sbi fits gs ge 0 dcs (clear_hints (ge - gs) gs hints) s
            (drop_ended-AreDisjoint (first_block sbi gs) 0 (in_order root) d) top l u
            (rw (zero', same) (omega (arith, first_mono sbi (s + 1) n (omega arith), fits)))
          ∙ rw (zero', same) (omega arith))

module _ (sbi : Sbi) (sw : Ctrl) (fits : FitsBlocks sbi sw.nr_main_segs) (root : CmdTree)
    (d : AreDisjoint 0 (in_order root)) (gid0 gid1 : ℕ) where
  -- Where the main segments end below the reserved addresses, the commands of the tree are not
  -- empty, stand in order, do not overlap and do not wrap, and the groups are in order,
  -- swod_rebuild_groups_locked leaves in every segment that it covers exactly the number of pending
  -- commands of the tree that have a block in the segment.
  pub rebuild_groups-commands_in :
      (s : ℕ)
      → gid0 ≤ gid1
      → group_first_seg sw gid0 ≤ s
      → s < rebuild_end sw gid1
      → ((rebuild_groups sbi root gid0 gid1 sw).seg_hint s).nr_cmds
        ≡ commands_in sbi s (in_order root)
  unfolding rebuild_groups
  rebuild_groups-commands_in s le l u =
      let in_order' : ltb gid1 gid0 ≡ false = ground arith in
      let some_segs : leb (rebuild_end sw gid1) (group_first_seg sw gid0) ≡ false = ground arith in
      rw (in_order', some_segs)
        (scan-tally sbi fits root d (group_first_seg sw gid0) (rebuild_end sw gid1) sw.seg_hint s
          (omega arith) l u)
