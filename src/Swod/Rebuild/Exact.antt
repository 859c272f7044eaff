-- ===== src/Swod/Rebuild/Exact.antt =====
-- `swod_rebuild_groups_locked` against the pending commands of the tree.
use redisc.Base.{
  ℕ, zero, suc, ◌+◌, ◌-◌, ◌≤◌, ◌<◌, ◌≡◌, refl, ◌∙◌, inl, inr, max, false, Bool-cases, List, [], ◌∷◌,
  arith, ltb, leb, ◌==◌,
}
use redisc.Swod.State.{Sbi, SegHint, Ctrl}
use redisc.Swod.Geometry.{group_first_seg}
use redisc.Swod.Lookup.{start_block}
use redisc.Swod.Issue.{Cmd}
use redisc.Swod.Rebuild.{
  CmdTree, in_order, ends_by, clear_hints, rebuild_end, rebuild_groups, lower_bound, scan_cmds,
}
use redisc.Swod.Rebuild.Blocks.{first_block, FitsBlocks, first_mono, start_block-eq}
use redisc.Swod.Rebuild.Pending.{overlap, pending_in, scan_cmds-pend}
use redisc.Swod.Rebuild.Search.{AreDisjoint, drop_ended, lower_bound_lem}

-- The loop that clears the hints leaves both counts of a segment that it has passed at 0.
abbrev IsCleared : SegHint → Type 0
IsCleared h = (h.pend_blks ≡ 0) × (h.nr_cmds ≡ 0)

clear_hints-keeps :
    (n g : ℕ) (hints : ℕ → SegHint) (s : ℕ)
    → IsCleared (hints s)
    → s < g
    → IsCleared (clear_hints n g hints s)
unfolding clear_hints
clear_hints-keeps zero g hints s e h = e
clear_hints-keeps (suc n) g hints s e h =
    clear_hints-keeps n (g + 1) _ s (ground arith) (omega arith)

pub clear_hints-IsCleared :
    (n g : ℕ) (hints : ℕ → SegHint) (s : ℕ)
    → g ≤ s
    → s < g + n
    → IsCleared (clear_hints n g hints s)
unfolding clear_hints
clear_hints-IsCleared zero g hints s l h = absurd (omega arith)
clear_hints-IsCleared (suc n) g hints s l h = elim (Bool-cases (g == s)) [
  | inl here ↦ clear_hints-keeps n (g + 1) _ s (ground arith) (ground arith)
  | inr later ↦ clear_hints-IsCleared n (g + 1) _ s (ground arith) (omega arith)
]

disjoint_weaken :
    (lo lo' : ℕ) (dcs : List Cmd) → lo ≤ lo' → AreDisjoint lo' dcs → AreDisjoint lo dcs
disjoint_weaken lo lo' [] h d = tt
disjoint_weaken lo lo' (dc ∷ dcs) h d = (omega (arith, d.0), d.1, d.2, d.3)

pub drop_ended-AreDisjoint :
    (blk lo : ℕ) (dcs : List Cmd) → AreDisjoint lo dcs → AreDisjoint lo (drop_ended blk dcs)
unfolding drop_ended
drop_ended-AreDisjoint blk lo [] d = tt
drop_ended-AreDisjoint blk lo (dc ∷ dcs) d = elim (Bool-cases (ends_by blk dc)) [
  | inl ended ↦ rw ended (
      disjoint_weaken lo (dc.lstart + dc.len) _ (omega (arith, d.0))
        (drop_ended-AreDisjoint blk (dc.lstart + dc.len) dcs d.3))
  | inr open_ ↦ rw open_ d
]

module _ (sbi : Sbi) (s : ℕ) where
  -- The commands that end in front of a segment have no block in it.
  pending_in-drop_ended :
      (blk lo : ℕ) (dcs : List Cmd)
      → AreDisjoint lo dcs
      → blk ≤ first_block sbi s
      → pending_in sbi s (drop_ended blk dcs) ≡ pending_in sbi s dcs
  unfolding drop_ended pending_in
  pending_in-drop_ended blk lo [] d h = refl
  pending_in-drop_ended blk lo (dc ∷ dcs) d h = elim (Bool-cases (ends_by blk dc)) [
    | inl ended ↦
        let none_here : overlap sbi s dc.lstart (dc.lstart + dc.len) ≡ 0 = ground (arith, d.2) in
        rw (ended, none_here)
          (pending_in-drop_ended blk (dc.lstart + dc.len) dcs d.3 h ∙ ground arith)
    | inr open_ ↦ rw open_ refl
  ]

  -- Disjoint commands have no more blocks in a segment than it has.
  pub pending_in-le :
      (lo : ℕ) (dcs : List Cmd)
      → AreDisjoint lo dcs
      → pending_in sbi s dcs ≤ first_block sbi (s + 1) - max lo (first_block sbi s)
  unfolding pending_in
  pending_in-le lo [] d = omega arith
  pending_in-le lo (dc ∷ dcs) d =
      let rest = pending_in-le (dc.lstart + dc.len) dcs d.3 in ground (arith, d.0, d.1)

module _ (sbi : Sbi) {n : ℕ} (fits : FitsBlocks sbi n) (root : CmdTree)
    (d : AreDisjoint 0 (in_order root)) where
  scan-exact :
      (gs ge : ℕ) (hints : ℕ → SegHint) (s : ℕ)
      → ge ≤ n
      → gs ≤ s
      → s < ge
      → (scan_cmds sbi
          (start_block sbi gs)
          (start_block sbi ge)
          (lower_bound root (start_block sbi gs))
          (clear_hints (ge - gs) gs hints)
          s).pend_blks
        ≡ pending_in sbi s (in_order root)
  scan-exact gs ge hints s top l u =
      let dcs = drop_ended (first_block sbi gs) (in_order root) in
      let zero' = (clear_hints-IsCleared (ge - gs) gs hints s l (omega arith)).0 in
      let same =
        pending_in-drop_ended sbi s (first_block sbi gs) 0 (in_order root) d
          (first_mono sbi gs s l) in
      let bound = pending_in-le sbi s 0 (in_order root) d in
      rw
        (
          start_block-eq sbi fits gs (omega arith),
          start_block-eq sbi fits ge top,
          lower_bound_lem root (first_block sbi gs) d,
        )
        (scan_cmds-pend sbi fits gs ge 0 dcs (clear_hints (ge - gs) gs hints) s
            (drop_ended-AreDisjoint (first_block sbi gs) 0 (in_order root) d) top l u
            (rw (zero', same) (omega (arith, first_mono sbi (s + 1) n (omega arith), fits)))
          ∙ rw (zero', same) (omega arith))

module _ (sbi : Sbi) (sw : Ctrl) (fits : FitsBlocks sbi sw.nr_main_segs) (root : CmdTree)
    (d : AreDisjoint 0 (in_order root)) (gid0 gid1 : ℕ) where
  -- Where the main segments end below the reserved addresses, the commands of the tree are not
  -- empty, stand in order, do not overlap and do not wrap, and the groups are in order,
  -- swod_rebuild_groups_locked leaves in every segment that it covers exactly the number of blocks
  -- of the segment that the pending commands of the tree cover.
  pub rebuild_groups-pending_in :
      (s : ℕ)
      → gid0 ≤ gid1
      → group_first_seg sw gid0 ≤ s
      → s < rebuild_end sw gid1
      → ((rebuild_groups sbi root gid0 gid1 sw).seg_hint s).pend_blks
        ≡ pending_in sbi s (in_order root)
  unfolding rebuild_groups
  rebuild_groups-pending_in s le l u =
      let in_order' : ltb gid1 gid0 ≡ false = ground arith in
      let some_segs : leb (rebuild_end sw gid1) (group_first_seg sw gid0) ≡ false = ground arith in
      rw (in_order', some_segs)
        (scan-exact sbi fits root d (group_first_seg sw gid0) (rebuild_end sw gid1) sw.seg_hint s
          (omega arith) l u)
