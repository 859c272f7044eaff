-- ===== src/Swod/Rebuild.antt =====
-- `swod_rebuild_groups_locked`, `swod_rb_lower_bound` and `f2fs_swod_refresh_around_locked`.
pub mod Blocks
pub mod Pending
pub mod Search
pub mod Exact
pub mod Commands
pub mod Tally
pub mod Keeps
use redisc.Base.{
  ℕ, zero, suc, ◌+◌, ◌-◌, min, max, Bool, true, false, not, ◌&&◌, ◌||◌, Option, some, none, List,
  [], ◌∷◌, ◌++◌, ltb, leb, ◌==◌, is_set, if◌then◌else◌, add32, sub32, update, fill, time_before,
}
use redisc.Swod.State.{SegHint, Ctrl, Dcc, Tunables, Sbi}
use redisc.Swod.Geometry.{gid_of, group_first_seg}
use redisc.Swod.Policy.{enabled_ctrl}
use redisc.Swod.Group.{older}
use redisc.Swod.Search.{Stale}
use redisc.Swod.Eval.{eval_group}
use redisc.Swod.Lookup.{segno_of, start_block}
use redisc.Swod.Issue.{Cmd, is_prep}
use redisc.Swod.Worker.{with_ctrl}

-- The rb-tree of discard commands, by their logical start.
pub data CmdTree : Type 0 where
  leaf : CmdTree
  node : CmdTree → Cmd → CmdTree → CmdTree

-- The commands from first to last: `rb_next` goes from each to the next.
unfoldable pub in_order : CmdTree → List Cmd
in_order leaf = []
in_order (node l dc r) = in_order l ++ (dc ∷ in_order r)

abbrev pub ends_by : ℕ → Cmd → Bool
ends_by blk dc = leb (add32 dc.lstart dc.len) blk

-- `swod_rb_lower_bound`, with what `rb_next` goes on to from the command that it returns: `rest` are
-- the commands behind the subtree.
lower_bound_before : ℕ → CmdTree → List Cmd → List Cmd → List Cmd
lower_bound_before blk leaf best rest = best
lower_bound_before blk (node l dc r) best rest =
    let here = dc ∷ (in_order r ++ rest) in
    let right = lower_bound_before blk r best rest in
    let left = lower_bound_before blk l here here in if ends_by blk dc then right else left

unfoldable pub lower_bound : CmdTree → ℕ → List Cmd
unfolding lower_bound_before in_order
lower_bound root blk = lower_bound_before blk root [] []

-- One piece of a command, within one segment, goes into that segment's hint.
abbrev pub add_piece : ℕ → ℕ → SegHint → SegHint
add_piece piece enq h = record h {
  pend_blks = add32 h.pend_blks piece;
  nr_cmds = add32 h.nr_cmds 1;
  oldest_jiffies =
      if not (is_set h.oldest_jiffies) || time_before enq h.oldest_jiffies
      then enq
      else h.oldest_jiffies;
}

-- while (cur < to), with fuel: each round takes at least a block.
unfoldable pub add_cmd : Sbi → ℕ → ℕ → ℕ → ℕ → (ℕ → SegHint) → ℕ → SegHint
add_cmd sbi enq to zero cur hints = hints
add_cmd sbi enq to (suc f) cur hints =
    let segno = segno_of sbi cur in
    let seg_end = start_block sbi (add32 segno 1) in
    let piece = sub32 (min to seg_end) cur in
    let rest =
      add_cmd sbi enq to f (add32 cur piece)
        (update hints segno (add_piece piece enq (hints segno))) in
    if ltb cur to then rest else hints

-- The scan over the commands from the lower bound on.
unfoldable pub scan_cmds : Sbi → ℕ → ℕ → List Cmd → (ℕ → SegHint) → ℕ → SegHint
scan_cmds sbi scan_start scan_end [] hints = hints
scan_cmds sbi scan_start scan_end (dc ∷ dcs) hints =
    let to = min (add32 dc.lstart dc.len) scan_end in
    let from = max dc.lstart scan_start in
    let hints' =
      (if is_prep dc.state then add_cmd sbi dc.enq_jiffies to (to - from) from hints else hints) in
    let rest = scan_cmds sbi scan_start scan_end dcs hints' in
    if ltb dc.lstart scan_end then rest else hints

-- for (g = start; g < end; g++): the three summary fields are cleared.
abbrev pub clear_hint : SegHint → SegHint
clear_hint h = record h { pend_blks = 0; nr_cmds = 0; oldest_jiffies = 0 }

unfoldable pub clear_hints : ℕ → ℕ → (ℕ → SegHint) → ℕ → SegHint
clear_hints zero g hints = hints
clear_hints (suc n) g hints = clear_hints n (g + 1) (update hints g (clear_hint (hints g)))

abbrev pub rebuild_end : Ctrl → ℕ → ℕ
rebuild_end sw gid1 = min sw.nr_main_segs (add32 (group_first_seg sw gid1) sw.win_segs)

-- `swod_rebuild_groups_locked`.
unfoldable pub rebuild_groups : Sbi → CmdTree → ℕ → ℕ → Ctrl → Ctrl
unfolding clear_hints scan_cmds add_cmd lower_bound
rebuild_groups sbi root gid0 gid1 sw =
    let start_seg = group_first_seg sw gid0 in
    let end_seg = rebuild_end sw gid1 in
    let cleared = clear_hints (end_seg - start_seg) start_seg sw.seg_hint in
    let scan_start = start_block sbi start_seg in
    let scan_end = start_block sbi end_seg in
    if ltb gid1 gid0
    then sw
    else if leb end_seg start_seg
    then record sw { seg_hint = cleared }
    else record sw {
      seg_hint = scan_cmds sbi scan_start scan_end (lower_bound root scan_start) cleared;
    }

-- for (g = gid0; g <= gid1; g++), with the rounds that are left.
unfoldable pub eval_groups : Sbi → Tunables → (ℕ → Stale) → ℕ → ℕ → ℕ → Ctrl → Ctrl
eval_groups sbi t stale now zero g sw = sw
eval_groups sbi t stale now (suc n) g sw =
    eval_groups sbi t stale now n (g + 1) (eval_group sbi t (stale g) g now sw)

-- The groups of a range, with a neighbour on each side.
abbrev pub first_gid : Sbi → Ctrl → ℕ → ℕ
first_gid sbi sw lstart = let g = gid_of sw (segno_of sbi lstart) in if ltb 0 g then g - 1 else g

abbrev pub last_gid : Sbi → Ctrl → ℕ → ℕ → ℕ
last_gid sbi sw lstart len =
    let g = gid_of sw (segno_of sbi (sub32 (add32 lstart len) 1)) in
    if ltb (g + 1) sw.nr_groups then g + 1 else g

unfoldable pub refresh_ctrl : Sbi → Tunables → (ℕ → Stale) → CmdTree → ℕ → ℕ → Ctrl → Ctrl
unfolding rebuild_groups eval_groups
refresh_ctrl sbi t stale root lstart len sw =
    let gid0 = first_gid sbi sw lstart in
    let gid1 = last_gid sbi sw lstart len in
    eval_groups sbi t stale sbi.jiffies (gid1 + 1 - gid0) gid0
      (rebuild_groups sbi root gid0 gid1 sw)

-- `f2fs_swod_refresh_around_locked`.
unfoldable pub refresh_around : Sbi → (ℕ → Stale) → CmdTree → ℕ → ℕ → Dcc → Dcc
unfolding refresh_ctrl
refresh_around sbi stale root lstart len d =
    if not (is_set len) then d else with_ctrl d (refresh_ctrl sbi d.tun stale root lstart len)
