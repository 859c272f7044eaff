-- ===== src/Discard.antt =====
-- The discard commands of segment.c: `struct discard_cmd` and the functions that create, remove,
-- insert and move one. The commands of the rb-tree stand in a list, in the order of their blocks.
pub mod Order
pub mod Range
pub mod Punch
pub mod Queue
pub mod Submit
pub mod Tree
pub mod Orderly
pub mod Issue
pub mod Policy
mod Tests
use redisc.Base.{
  ℕ, ◌-◌, Bool, true, false, ◌&&◌, List, [], ◌∷◌, ltb, leb, ◌==◌, is_set, if◌then◌else◌, add32,
  sub32,
}
use redisc.Swod.State.{Dcc, Tunables, Sbi}
use redisc.Swod.Issue.{CmdState, d_prep, d_partial, d_submit, d_done}
use redisc.Swod.Hints.{create_cmd}

-- The list that `dc->list` hangs in: a pending list by its index, or one of the two wait lists.
pub data Place : Type 0 where
  pend_list : ℕ → Place
  wait_list fstrim_list : Place

pub record DiscardInfo : Type 0 where
  pub lstart : ℕ
  pub len : ℕ
  pub start : ℕ

-- `struct discard_cmd`, with `di` for its union. What only the log and the completion read is left
-- out: `submit_time`, `policy_type`, `orig_len`, `wait`.
pub record DiscardCmd : Type 0 where
  pub di : DiscardInfo
  pub open di use *
  pub list : Place
  pub bdev : ℕ
  pub ref : ℕ
  pub state : CmdState
  pub queued : ℕ
  pub error : ℕ
  pub bio_ref : ℕ
  pub enq_jiffies : ℕ
  pub swod_skip : ℕ

-- The counters of `struct discard_cmd_control`, with its SWOD part.
pub record Totals : Type 0 where
  pub dcc : Dcc
  pub undiscard_blks : ℕ
  pub issued_discard : ℕ
  pub queued_discard : ℕ
  pub discard_back_only_merge_cnt : ℕ
  pub discard_front_only_merge_cnt : ℕ
  pub discard_both_merge_cnt : ℕ

pub record Control : Type 0 where
  pub root : List DiscardCmd
  pub totals : Totals

abbrev pub max_plist_num : ℕ
max_plist_num = 512

abbrev pub plist_idx : ℕ → ℕ
plist_idx blk_num = if leb max_plist_num blk_num then max_plist_num - 1 else sub32 blk_num 1

abbrev pub is_done : CmdState → Bool
is_done d_done = true
is_done d_prep = false
is_done d_partial = false
is_done d_submit = false

-- `__is_discard_mergeable`.
abbrev pub is_discard_mergeable : DiscardInfo → DiscardInfo → ℕ → Bool
is_discard_mergeable back front max_len =
    (add32 back.lstart back.len == front.lstart) && leb (add32 back.len front.len) max_len

abbrev pub is_discard_back_mergeable : DiscardInfo → DiscardInfo → ℕ → Bool
is_discard_back_mergeable cur back max_len = is_discard_mergeable back cur max_len

abbrev pub is_discard_front_mergeable : DiscardInfo → DiscardInfo → ℕ → Bool
is_discard_front_mergeable cur front max_len = is_discard_mergeable cur front max_len

abbrev pub add_undiscard : ℕ → Totals → Totals
add_undiscard n t = record t { undiscard_blks = add32 t.undiscard_blks n }

abbrev pub sub_undiscard : ℕ → Totals → Totals
sub_undiscard n t = record t { undiscard_blks = sub32 t.undiscard_blks n }

-- `__create_discard_cmd`.
unfoldable pub create_discard_cmd : Sbi → ℕ → DiscardInfo → Totals → DiscardCmd × Totals
create_discard_cmd sbi bdev di t =
    let (c, d) = create_cmd sbi di.lstart di.len t.dcc in
    (
      record {
        di = record di { lstart = c.lstart; len = c.len };
        list = pend_list (plist_idx di.len);
        bdev = bdev;
        ref = 0;
        state = c.state;
        queued = 0;
        error = 0;
        bio_ref = 0;
        enq_jiffies = c.enq_jiffies;
        swod_skip = c.swod_skip;
      },
      record (add_undiscard di.len t) { dcc = d },
    )

abbrev pub count_cmd_out : Dcc → Dcc
count_cmd_out d = record d { tun = record (d.tun) { discard_cmd_cnt = sub32 d.discard_cmd_cnt 1 } }

-- What `__detach_discard_cmd` does to the counters.
abbrev pub detach_discard_cmd : DiscardCmd → Totals → Totals
detach_discard_cmd dc t = record (sub_undiscard dc.len t) {
  queued_discard = if is_done dc.state then sub32 t.queued_discard dc.queued else t.queued_discard;
  dcc = count_cmd_out t.dcc;
}

-- `__remove_discard_cmd`: what it leaves of the command in the tree, and the counters.
unfoldable pub remove_discard_cmd : DiscardCmd → Totals → List DiscardCmd × Totals
remove_discard_cmd dc t = if is_set dc.bio_ref then (dc ∷ [], t) else ([], detach_discard_cmd dc t)

-- `__relocate_discard_cmd`.
abbrev pub relocate_discard_cmd : DiscardCmd → DiscardCmd
relocate_discard_cmd dc = record dc { list = pend_list (plist_idx dc.len) }

-- The place that `f2fs_lookup_rb_tree_for_insert` finds for a command; its descent is in
-- Discard/Tree.
unfoldable pub insert_cmd : DiscardCmd → List DiscardCmd → List DiscardCmd
insert_cmd dc [] = dc ∷ []
insert_cmd dc (d ∷ ds) =
    let rest = insert_cmd dc ds in if ltb dc.lstart d.lstart then dc ∷ d ∷ ds else d ∷ rest

-- `__insert_discard_tree` with `__attach_discard_cmd`.
unfoldable pub insert_discard_tree : Sbi → ℕ → DiscardInfo → Control → Control
unfolding create_discard_cmd insert_cmd
insert_discard_tree sbi bdev di c =
    let (dc, t) = create_discard_cmd sbi bdev di c.totals in
    record { root = insert_cmd dc c.root; totals = t }
