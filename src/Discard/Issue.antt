-- ===== src/Discard/Issue.antt =====
-- `__issue_discard_cmd`: one pass over the pending lists, up to the retry of DPOLICY_UMOUNT, which
-- waits for the bios.
pub mod Lists
pub mod Step
pub mod OneList
pub mod Laws
use redisc.Base.{
  ℕ, zero, suc, ◌+◌, Bool, true, false, not, ◌&&◌, ◌||◌, Option, some, none, List, [], ◌∷◌, leb,
  ltb, ◌==◌, is_set, if◌then◌else◌,
}
use redisc.Swod.State.{Sbi}
use redisc.Discard.{DiscardCmd, Control, Place, pend_list, wait_list, fstrim_list, max_plist_num}
use redisc.Discard.Punch.{Position, lookup_rb_tree}
use redisc.Discard.Submit.{Block, submit_discard_cmd}
use redisc.Discard.Policy.{Policy, Issued, bios, interrupted}
use redisc.Discard.Orderly.{Pass, issue_discard_cmd_orderly}

abbrev pub default_discard_granularity : ℕ
default_discard_granularity = 16

abbrev pub is_on : ℕ → Place → Bool
is_on i (pend_list j) = i == j
is_on i wait_list = false
is_on i fstrim_list = false

-- The commands of a pending list, by their starts, in the order of their blocks.
unfoldable pub starts_in : ℕ → List DiscardCmd → List ℕ
starts_in i [] = []
starts_in i (dc ∷ dcs) =
    let rest = starts_in i dcs in if is_on i dc.list then dc.lstart ∷ rest else rest

-- What the loops ask the clock and the device, `over` and `over_list` by f2fs_time_over(sbi,
-- UMOUNT_DISCARD_TIMEOUT) at a command and at a list, `is_idle` by is_idle(sbi, DISCARD_TIME).
pub record Clock : Type 0 where
  pub over_list : ℕ → Bool
  pub over : DiscardCmd → Bool
  pub is_idle : DiscardCmd → Bool

-- What the inner loop leaves.
pub record ListPass : Type 0 where
  pub control : Control
  pub issued : ℕ
  pub io_interrupted : Bool

module _ (sbi : Sbi) (block : Block) (policy : Policy) (clock : Clock)
    (list_order : ℕ → List ℕ → List ℕ) where
  -- The loop over the commands of list `i`. A command is queued again only when the requests are
  -- used up, so where the loop goes on, the list behind the command is the one that it was.
  unfoldable pub issue_list : ℕ → List ℕ → ℕ → Control → ListPass
  issue_list i [] issued c = record { control = c; issued = issued; io_interrupted = false }
  issue_list i (start ∷ starts) issued c = elim (lookup_rb_tree start [] c.root) [
    | none ↦ issue_list i starts issued c
    | some at ↦
        let r = submit_discard_cmd sbi block policy.limits at issued c.totals in
        let rest = issue_list i starts r.issued r.control in
        if policy.timeout && clock.over at.dc
        then record { control = c; issued = issued; io_interrupted = false }
        else if policy.io_aware && ltb i policy.io_aware_gran && not (clock.is_idle at.dc)
        then record { control = c; issued = issued; io_interrupted = true }
        else if leb policy.max_requests r.issued
        then record { control = r.control; issued = r.issued; io_interrupted = false }
        else rest
  ]

  -- How the pass ends, with its result.
  abbrev pub stop_at : ℕ → ListPass → Pass × Issued
  stop_at pos l = (
    record {
      control = l.control;
      next_pos = pos;
      issued = l.issued;
      io_interrupted = l.io_interrupted;
    },
    if not (is_set l.issued) && l.io_interrupted then interrupted else bios l.issued,
  )

  -- The loop over the lists, of which `n` are left.
  unfoldable pub issue_lists : ℕ → ℕ → ℕ → Control → Pass × Issued
  unfolding issue_list starts_in
  issue_lists zero pos issued c =
      stop_at pos (record { control = c; issued = issued; io_interrupted = false })
  issue_lists (suc i) pos issued c =
      let l = issue_list i (list_order i (starts_in i c.root)) issued c in
      let rest = issue_lists i pos l.issued l.control in
      if (policy.timeout && clock.over_list i) || ltb (i + 1) policy.granularity
      then stop_at pos (record { control = c; issued = issued; io_interrupted = false })
      else if ltb (i + 1) default_discard_granularity && policy.ordered
      then issue_discard_cmd_orderly sbi block policy clock.is_idle pos c
      else if leb policy.max_requests l.issued || l.io_interrupted
      then stop_at pos l
      else rest

  -- `__issue_discard_cmd`, with `next_pos`. The state keeps no order within a pending list;
  -- `list_order` gives it.
  unfoldable pub issue_discard_cmd : ℕ → Control → Pass × Issued
  unfolding issue_lists
  issue_discard_cmd pos c = issue_lists max_plist_num pos 0 c
