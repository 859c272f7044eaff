-- ===== src/Discard/Range.antt =====
-- `__update_discard_tree_range`: the blocks of a range become pending for discard.
pub mod Cases
pub mod Fill
pub mod Tally
pub mod Gaps
pub mod Rounds
pub mod Split
pub mod Laws
use redisc.Base.{
  ℕ, min, Bool, true, false, not, ◌&&◌, Option, some, none, List, [], ◌∷◌, ◌++◌, ltb, leb, ◌==◌,
  is_set, if◌then◌else◌, add32, sub32, add64,
}
use redisc.Swod.State.{Sbi}
use redisc.Swod.Issue.{is_prep}
use redisc.Discard.{
  DiscardInfo, DiscardCmd, Totals, Control, is_discard_back_mergeable, is_discard_front_mergeable,
  add_undiscard, create_discard_cmd, remove_discard_cmd, relocate_discard_cmd,
}
use redisc.Discard.Order.{rejoin}

-- `f2fs_lookup_rb_tree_ret` on the commands in their order, whose descent is in Discard/Tree: those up to the last that starts by
-- `ofs`, the nearest first, and the others. The caller takes a command that holds `ofs` as the
-- previous one.
unfoldable pub lookup_ret :
    ℕ → List DiscardCmd → List DiscardCmd → List DiscardCmd × List DiscardCmd
lookup_ret ofs before [] = (before, [])
lookup_ret ofs before (dc ∷ after) =
    let rest = lookup_ret ofs (dc ∷ before) after in
    if leb dc.lstart ofs then rest else (before, dc ∷ after)

-- What one of the two merges leaves: `di`, whether it was done, the commands and the counters.
pub record Merge (A : Type 0) : Type 0 where
  pub di : DiscardInfo
  pub merged : Bool
  pub cmds : A
  pub totals : Totals

abbrev pub may_merge : ℕ → DiscardCmd → Bool
may_merge bdev dc = is_prep dc.state && (dc.bdev == bdev)

abbrev pub merges_back : ℕ → ℕ → DiscardInfo → DiscardCmd → Bool
merges_back bdev max_len di prev =
    may_merge bdev prev && is_discard_back_mergeable di prev.di max_len

abbrev pub merges_front : ℕ → ℕ → DiscardInfo → DiscardCmd → Bool
merges_front bdev max_len di next =
    may_merge bdev next && is_discard_front_mergeable di next.di max_len

abbrev pub grown_back : DiscardInfo → DiscardCmd → DiscardInfo
grown_back di prev = record (prev.di) { len = add32 prev.len di.len }

abbrev pub grow_back : DiscardInfo → DiscardCmd → DiscardCmd
grow_back di prev = relocate_discard_cmd (record prev { di = grown_back di prev })

abbrev pub grow_front : DiscardInfo → DiscardCmd → DiscardCmd
grow_front di next =
    relocate_discard_cmd (record next { di = record di { len = add32 next.len di.len } })

-- The first `if` of the loop, on the commands before the gap.
abbrev pub merge_back : ℕ → ℕ → DiscardInfo → List DiscardCmd → Totals → Merge (List DiscardCmd)
merge_back bdev max_len di [] t = record { di = di; merged = false; cmds = []; totals = t }
merge_back bdev max_len di (prev ∷ before) t =
    if merges_back bdev max_len di prev
    then record {
      di = grown_back di prev;
      merged = true;
      cmds = grow_back di prev ∷ before;
      totals = add_undiscard di.len t;
    }
    else record { di = di; merged = false; cmds = prev ∷ before; totals = t }

-- The second `if`, on the command behind the gap.
abbrev pub merge_front :
    ℕ → ℕ → DiscardInfo → Option DiscardCmd → Totals → Merge (Option DiscardCmd)
merge_front bdev max_len di none t = record { di = di; merged = false; cmds = none; totals = t }
merge_front bdev max_len di (some next) t =
    if merges_front bdev max_len di next
    then record {
      di = di;
      merged = true;
      cmds = some (grow_front di next);
      totals = add_undiscard di.len t;
    }
    else record { di = di; merged = false; cmds = some next; totals = t }

abbrev pub count_merges : Bool → Bool → Totals → Totals
count_merges true true t = record t { discard_both_merge_cnt = add64 t.discard_both_merge_cnt 1 }
count_merges true false t = record t {
  discard_back_only_merge_cnt = add64 t.discard_back_only_merge_cnt 1;
}
count_merges false true t = record t {
  discard_front_only_merge_cnt = add64 t.discard_front_only_merge_cnt 1;
}
count_merges false false t = t

abbrev pub push : Option DiscardCmd → List DiscardCmd → List DiscardCmd
push none before = before
push (some dc) before = dc ∷ before

-- `if (tdc) __remove_discard_cmd(sbi, tdc)`, with `tdc` the first of the commands.
abbrev pub remove_tdc : List DiscardCmd → Totals → List DiscardCmd × Totals
remove_tdc [] t = ([], t)
remove_tdc (tdc ∷ before) t = let (kept, t') = remove_discard_cmd tdc t in (kept ++ before, t')

-- One round for the gap `di`: the commands up to and with the next one, and the counters. A new
-- command stands where the lookup for its insertion ends, between the two neighbours.
unfoldable pub fill_gap :
    Sbi
    → ℕ
    → ℕ
    → DiscardInfo
    → List DiscardCmd
    → Option DiscardCmd
    → Totals
    → List DiscardCmd × Totals
unfolding create_discard_cmd remove_discard_cmd
fill_gap sbi bdev max_len di before next t =
    let back = merge_back bdev max_len di before t in
    let front = merge_front bdev max_len back.di next back.totals in
    let (kept, t') =
      if back.merged && front.merged
      then remove_tdc back.cmds front.totals
      else (back.cmds, front.totals) in
    let (dc, created) = create_discard_cmd sbi bdev di t in
    if not (is_set di.len)
    then (push next before, t)
    else if back.merged
    then (push front.cmds kept, count_merges true front.merged t')
    else if front.merged
    then (push front.cmds kept, count_merges false true t')
    else (push next (dc ∷ before), created)

-- `di` before the loop, where no command starts by `lstart`.
abbrev pub first_gap : ℕ → ℕ → ℕ → Option DiscardCmd → DiscardInfo
first_gap lstart start len none = record { lstart = lstart; len = min len len; start = start }
first_gap lstart start len (some next) = record {
  lstart = lstart;
  len = min (sub32 next.lstart lstart) len;
  start = start;
}

-- The start of the gap behind a command.
abbrev pub gap_start : ℕ → DiscardCmd → ℕ
gap_start lstart prev =
    let after_prev = add32 prev.lstart prev.len in
    if ltb after_prev lstart then lstart else after_prev

abbrev pub gap_len : ℕ → ℕ → Option DiscardCmd → ℕ
gap_len end at none = sub32 end at
gap_len end at (some next) = if ltb end next.lstart then sub32 end at else sub32 next.lstart at

-- `di` of a round behind a command.
abbrev pub next_gap : ℕ → ℕ → ℕ → DiscardCmd → Option DiscardCmd → DiscardInfo
next_gap lstart start end prev next =
    let at = gap_start lstart prev in
    record { lstart = at; len = gap_len end at next; start = sub32 (add32 start at) lstart }

-- `di` of a round, or none where the loop breaks.
abbrev pub gap_of :
    ℕ → ℕ → ℕ → DiscardInfo → List DiscardCmd → Option DiscardCmd → Option DiscardInfo
gap_of lstart start end di [] next = some di
gap_of lstart start end di (prev ∷ before) next =
    if leb end (gap_start lstart prev) then none else some (next_gap lstart start end prev next)

module _ (sbi : Sbi) (bdev max_len lstart start end : ℕ) where
  -- while (1), with `prev_dc` the first of `before` and `next_dc` the first of `after`.
  unfoldable pub fill_from :
      DiscardInfo → List DiscardCmd → List DiscardCmd → Totals → List DiscardCmd × Totals
  unfolding fill_gap
  fill_from di before [] t = elim (gap_of lstart start end di before none) [
    | none ↦ (rejoin before [], t)
    | some gap ↦
        let (filled, t') = fill_gap sbi bdev max_len gap before none t in (rejoin filled [], t')
  ]
  fill_from di before (next ∷ after) t = elim (gap_of lstart start end di before (some next)) [
    | none ↦ (rejoin before (next ∷ after), t)
    | some gap ↦
        let (filled, t') = fill_gap sbi bdev max_len gap before (some next) t in
        fill_from gap filled after t'
  ]

abbrev pub head : List DiscardCmd → Option DiscardCmd
head [] = none
head (dc ∷ dcs) = some dc

-- `max_len` is SECTOR_TO_BLOCK of the queue's limit max_discard_sectors.
unfoldable pub update_discard_tree_range : Sbi → ℕ → ℕ → ℕ → ℕ → ℕ → Control → Control
unfolding lookup_ret fill_from
update_discard_tree_range sbi max_len bdev lstart start len c =
    let (before, after) = lookup_ret lstart [] c.root in
    let (root, totals) =
      fill_from sbi bdev max_len lstart start (add32 lstart len)
        (first_gap lstart start len (head after)) before after c.totals in
    record { root = root; totals = totals }
