-- ===== src/Swod/Hints.antt =====
-- The incremental updates of the segment hints in segment.c: what `__create_discard_cmd` adds for a
-- new command, and what `__submit_discard_cmd` takes off for one that has been issued.
pub mod Laws
use redisc.Base.{
  ℕ, zero, suc, ◌+◌, ◌-◌, min, Bool, true, false, not, Option, some, none, ltb, leb, is_set,
  if◌then◌else◌, add32, sub32, update,
}
use redisc.Swod.State.{SegHint, Ctrl, Dcc, Tunables, Sbi}
use redisc.Swod.Policy.{enabled_ctrl}
use redisc.Swod.Lookup.{segno_of, start_block}
use redisc.Swod.Issue.{Cmd, d_prep}
use redisc.Swod.Rebuild.{add_piece}
use redisc.Swod.Worker.{with_ctrl, queue_eval_ctrl}

-- while (cur < end) of `__create_discard_cmd`, on fuel: each round takes at least a block.
unfoldable pub create_from : Sbi → ℕ → ℕ → ℕ → ℕ → (ℕ → SegHint) → ℕ → SegHint
create_from sbi main end zero cur hints = hints
create_from sbi main end (suc f) cur hints =
    let s = segno_of sbi cur in
    let piece = sub32 (min end (start_block sbi (add32 s 1))) cur in
    let rest =
      create_from sbi main end f (add32 cur piece)
        (update hints s (add_piece piece sbi.jiffies (hints s))) in
    if not (ltb cur end) then hints else if leb main s then hints else rest

abbrev pub take_piece : ℕ → SegHint → SegHint
take_piece piece h = record h {
  pend_blks = if leb piece h.pend_blks then h.pend_blks - piece else h.pend_blks;
  nr_cmds = if is_set h.nr_cmds then h.nr_cmds - 1 else h.nr_cmds;
}

-- while (cur < end) of `__submit_discard_cmd`, on fuel.
unfoldable pub submit_from : Sbi → ℕ → ℕ → ℕ → ℕ → (ℕ → SegHint) → ℕ → SegHint
submit_from sbi main end zero cur hints = hints
submit_from sbi main end (suc f) cur hints =
    let s = segno_of sbi cur in
    let piece = sub32 (min end (start_block sbi (add32 s 1))) cur in
    let rest =
      submit_from sbi main end f (add32 cur piece) (update hints s (take_piece piece (hints s))) in
    if not (ltb cur end) then hints else if leb main s then hints else rest

abbrev pub with_created : Sbi → ℕ → ℕ → Ctrl → Ctrl
with_created sbi lstart len sw = record sw {
  seg_hint =
      create_from sbi sw.nr_main_segs (add32 lstart len) (add32 lstart len - lstart) lstart
        sw.seg_hint;
}

-- The SWOD fields of the command that `__create_discard_cmd` makes.
abbrev pub new_cmd : Sbi → ℕ → ℕ → Cmd
new_cmd sbi lstart len = record {
  lstart = lstart;
  len = len;
  state = d_prep;
  enq_jiffies = sbi.jiffies;
  swod_skip = 0;
}

-- `__create_discard_cmd`: the command, the hints, the request for an evaluation, and the count.
unfoldable pub create_cmd : Sbi → ℕ → ℕ → Dcc → Cmd × Dcc
unfolding create_from
create_cmd sbi lstart len d =
    let d' = with_ctrl d (λ sw. queue_eval_ctrl sbi (with_created sbi lstart len sw)) in
    (
      new_cmd sbi lstart len,
      record d' { tun = record (d'.tun) { discard_cmd_cnt = add32 d'.discard_cmd_cnt 1 } },
    )

-- The end of `__submit_discard_cmd`, for the range that the command had at its start.
unfoldable pub submit_hints : Sbi → ℕ → ℕ → Dcc → Dcc
unfolding submit_from
submit_hints sbi lstart len d =
    if not (is_set len)
    then d
    else with_ctrl d (λ sw. record sw {
      seg_hint =
          submit_from sbi sw.nr_main_segs (add32 lstart len) (add32 lstart len - lstart) lstart
            sw.seg_hint;
    })
