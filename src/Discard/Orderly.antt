-- ===== src/Discard/Orderly.antt =====
-- `__issue_discard_cmd_orderly`: one pass over the commands, from a position on.
pub mod Quiet
pub mod Loop
pub mod Laws
use redisc.Base.{
  ℕ, Bool, true, false, not, ◌&&◌, List, [], ◌∷◌, ◌++◌, leb, is_set, if◌then◌else◌, add32, ltb,
}
use redisc.Swod.State.{Sbi}
use redisc.Swod.Issue.{is_prep}
use redisc.Discard.{DiscardCmd, Totals, Control, remove_discard_cmd}
use redisc.Discard.Order.{rejoin}
use redisc.Discard.Range.{lookup_ret}
use redisc.Discard.Punch.{Position}
use redisc.Discard.Submit.{Block, submit_discard_cmd}
use redisc.Discard.Policy.{Policy, Issued, bios, interrupted}

-- What the pass leaves: `next_pos` of the control block beside the rest.
pub record Pass : Type 0 where
  pub control : Control
  pub next_pos : ℕ
  pub issued : ℕ
  pub io_interrupted : Bool

-- The commands that an error leaves in the tree.
abbrev kept_after : ℕ → DiscardCmd → Totals → List DiscardCmd × Totals
kept_after err dc t = if is_set err then remove_discard_cmd dc t else (dc ∷ [], t)

-- The commands from the position on: the one that holds it, or the next.
abbrev pub start_at : ℕ → List DiscardCmd × List DiscardCmd → List DiscardCmd × List DiscardCmd
start_at pos ([], after) = ([], after)
start_at pos (prev ∷ before, after) =
    if ltb pos (add32 prev.lstart prev.len) then (before, prev ∷ after) else (prev ∷ before, after)

module _ (sbi : Sbi) (block : Block) (policy : Policy) (is_idle : DiscardCmd → Bool) where
  -- while (dc), with the commands behind `dc`; `is_idle` says what is_idle(sbi, DISCARD_TIME) is
  -- when the loop is at a command. The rest of a command is queued again only when the requests
  -- are used up, so where the loop goes on, the command's successor is the one that it had.
  unfoldable pub issue_from : List DiscardCmd → List DiscardCmd → ℕ → ℕ → Totals → Pass
  issue_from before [] issued pos t = record {
    control = record { root = rejoin before []; totals = t };
    next_pos = 0;
    issued = issued;
    io_interrupted = false;
  }
  issue_from before (dc ∷ after) issued pos t =
      let at : Position = record { before = before; dc = dc; after = after } in
      let r = submit_discard_cmd sbi block policy.limits at issued t in
      let end = add32 dc.lstart dc.len in
      let (kept, t') = kept_after r.err r.dc r.control.totals in
      let skipped = issue_from (dc ∷ before) after issued pos t in
      let rest = issue_from (kept ++ before) after r.issued end t' in
      if not (is_prep dc.state)
      then skipped
      else if policy.io_aware && not (is_idle dc)
      then record {
        control = record { root = rejoin before (dc ∷ after); totals = t };
        next_pos = pos;
        issued = issued;
        io_interrupted = true;
      }
      else if leb policy.max_requests r.issued
      then record { control = r.control; next_pos = end; issued = r.issued; io_interrupted = false }
      else rest

  -- `__issue_discard_cmd_orderly`, from `next_pos`.
  unfoldable pub issue_discard_cmd_orderly : ℕ → Control → Pass × Issued
  unfolding lookup_ret issue_from
  issue_discard_cmd_orderly pos c =
      let (before, after) = start_at pos (lookup_ret pos [] c.root) in
      let pass = issue_from before after 0 pos c.totals in
      (
        pass,
        if not (is_set pass.issued) && pass.io_interrupted then interrupted else bios pass.issued,
      )
