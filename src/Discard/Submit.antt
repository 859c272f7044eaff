-- ===== src/Discard/Submit.antt =====
-- `__submit_discard_cmd`: the bios of a command, and what is left for later.
pub mod Bios
pub mod Counted
pub mod Cut
pub mod Laws
use redisc.Base.{
  ℕ, zero, suc, ◌+◌, ◌-◌, ◌%◌, ◌^◌, Bool, true, false, not, ◌&&◌, ◌||◌, List, [], ◌∷◌, ltb, leb,
  ◌==◌, is_set, if◌then◌else◌, u16, add32, sub32,
}
use redisc.Swod.State.{Sbi, DpolicyType, dpolicy_bg, dpolicy_force, dpolicy_fstrim, dpolicy_umount}
use redisc.Swod.Issue.{CmdState, d_prep, d_partial, d_submit, d_done, is_prep}
use redisc.Swod.Hints.{submit_hints}
use redisc.Discard.{DiscardCmd, Place, wait_list, fstrim_list, Totals, Control, sub_undiscard}
use redisc.Discard.Range.{update_discard_tree_range}
use redisc.Discard.Punch.{Position, put_back}

-- The parts of `struct discard_policy` that the function reads.
pub record Limits : Type 0 where
  pub policy_type : DpolicyType
  pub max_requests : ℕ

-- `need_fsck` is the flag SBI_NEED_FSCK, `max_discard_blocks` the limit of the command's device,
-- `inject` is time_to_inject for the request of that number, and `issue_err` what
-- __blkdev_issue_discard returns for a start and a length: 0, or an error.
pub record Block : Type 0 where
  pub need_fsck : Bool
  pub max_discard_blocks : ℕ
  pub inject : ℕ → Bool
  pub issue_err : ℕ → ℕ → ℕ

abbrev wait_list_of : DpolicyType → Place
wait_list_of dpolicy_fstrim = fstrim_list
wait_list_of dpolicy_bg = wait_list
wait_list_of dpolicy_force = wait_list
wait_list_of dpolicy_umount = wait_list

abbrev after_error : CmdState → CmdState
after_error d_partial = d_submit
after_error d_prep = d_prep
after_error d_submit = d_submit
after_error d_done = d_done

abbrev eio : ℕ
eio = 5

-- The variables of the loop, with the command and the counters that it changes.
pub record Submission : Type 0 where
  pub dc : DiscardCmd
  pub issued : ℕ
  pub lstart : ℕ
  pub start : ℕ
  pub len : ℕ
  pub total_len : ℕ
  pub err : ℕ
  pub totals : Totals

-- A bio that the block layer has taken: the command's state and lists, and the counters.
abbrev sent : Limits → Bool → DiscardCmd → DiscardCmd
sent limits last dc = record dc {
  state = if last then d_submit else d_partial;
  bio_ref = u16 (dc.bio_ref + 1);
  queued = (dc.queued + 1) % 2 ^ 8;
  list = wait_list_of limits.policy_type;
}

abbrev count_sent : Totals → Totals
count_sent t = record t {
  queued_discard = add32 t.queued_discard 1;
  issued_discard = add32 t.issued_discard 1;
}

-- The body of the loop.
unfoldable pub submit_bio : Block → Limits → Submission → Submission
submit_bio block limits s =
    let whole = leb s.len block.max_discard_blocks in
    let len = if whole then s.len else block.max_discard_blocks in
    let issued = add32 s.issued 1 in
    let last = whole || (issued == limits.max_requests) in
    let dc = record (s.dc) { di = record (s.dc.di) { len = add32 s.dc.len len } } in
    let err = if block.inject issued then eio else block.issue_err s.start len in
    if is_set err
    then record s {
      dc = record dc { state = after_error dc.state };
      issued = issued;
      len = len;
      err = err;
    }
    else record {
      dc = sent limits last dc;
      issued = issued;
      lstart = add32 s.lstart len;
      start = add32 s.start len;
      len = sub32 s.total_len len;
      total_len = sub32 s.total_len len;
      err = 0;
      totals = count_sent s.totals;
    }

-- The loop, with the requests that are left, `max_requests - *issued`.
unfoldable pub submit_bios : Block → Limits → ℕ → Submission → Submission
unfolding submit_bio
submit_bios block limits zero s = s
submit_bios block limits (suc n) s =
    let rest = submit_bios block limits n (submit_bio block limits s) in
    if not (is_set s.total_len) then s else if is_set s.err then s else rest

abbrev pub first_submission : DiscardCmd → ℕ → Totals → Submission
first_submission dc issued t = record {
  dc = record dc { di = record (dc.di) { len = 0 } };
  issued = issued;
  lstart = dc.lstart;
  start = dc.start;
  len = dc.len;
  total_len = dc.len;
  err = 0;
  totals = t;
}

-- What the call leaves: the state, the command in it, `*issued`, and its error.
pub record Submitted : Type 0 where
  pub dc : DiscardCmd
  pub control : Control
  pub issued : ℕ
  pub err : ℕ

abbrev with_hints : Sbi → DiscardCmd → Control → Control
with_hints sbi dc c = record c {
  totals = record (c.totals) { dcc = submit_hints sbi dc.lstart dc.len c.totals.dcc };
}

-- `__submit_discard_cmd` for the command of the position.
unfoldable pub submit_discard_cmd : Sbi → Block → Limits → Position → ℕ → Totals → Submitted
unfolding submit_bios update_discard_tree_range submit_hints
submit_discard_cmd sbi block limits at issued t =
    let s =
      submit_bios block limits (limits.max_requests - issued) (first_submission at.dc issued t) in
    let sent_off : Control = record { root = put_back at (s.dc ∷ []); totals = s.totals } in
    let later =
      update_discard_tree_range sbi block.max_discard_blocks at.dc.bdev s.lstart s.start s.len
        (record sent_off { totals = sub_undiscard s.len s.totals }) in
    if not (is_prep at.dc.state) || block.need_fsck
    then record {
      dc = at.dc;
      control = record { root = put_back at (at.dc ∷ []); totals = t };
      issued = issued;
      err = 0;
    }
    else record {
      dc = s.dc;
      control =
          with_hints sbi at.dc (if not (is_set s.err) && is_set s.len then later else sent_off);
      issued = s.issued;
      err = s.err;
    }
