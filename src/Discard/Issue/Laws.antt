-- ===== src/Discard/Issue/Laws.antt =====
-- A pass of `__issue_discard_cmd` over the pending lists.
use redisc.Base.{
  ◌⊎◌, ℕ, zero, suc, ◌+◌, ◌^◌, ◌≤◌, ◌<◌, ◌≡◌, subst, inl, inr, Bool, Bool-cases, true, false, not,
  ◌&&◌, ◌||◌, List, arith, leb, ltb, if◌then◌else◌,
}
use redisc.Swod.State.{Sbi}
use redisc.Swod.Issue.{is_prep}
use redisc.Discard.{DiscardCmd, Control, plist_idx, max_plist_num}
use redisc.Discard.Order.{IsValid}
use redisc.Discard.Submit.{Block}
use redisc.Discard.Submit.Bios.{TakesAll}
use redisc.Discard.Policy.{Policy}
use redisc.Discard.Orderly.{Pass, issue_discard_cmd_orderly}
use redisc.Discard.Orderly.Quiet.{IsQuiet}
use redisc.Discard.Orderly.Laws.{issue_discard_cmd_orderly-Passed}
use redisc.Discard.Issue.{
  Clock, starts_in, issue_list, issue_lists, issue_discard_cmd, default_discard_granularity,
}
use redisc.Discard.Issue.Lists.{
  some_cmd, mem, some_cmd-either, is_listed, is_missed, none-listed, starts_in-missed,
}
use redisc.Discard.Issue.OneList.{issue_list-ListEnds}
use redisc.Discard.Issue.Step.{Stays, Stays-refl, Stays-trans}

-- The lists that the granularity admits.
abbrev pub is_admitted : ℕ → DiscardCmd → Bool
is_admitted granularity dc = is_prep dc.state && leb granularity (plist_idx dc.len + 1)

-- Nothing is left of what the pass goes through: no block behind its position, where it ends in the
-- order of the blocks, and otherwise no pending command of the lists that the granularity admits.
abbrev pub IsDone : Policy → ℕ → List DiscardCmd → Type 0
IsDone policy pos root =
    if policy.ordered && ltb policy.granularity default_discard_granularity
    then IsQuiet pos root
    else some_cmd (is_admitted policy.granularity) root ≡ false

pub record IsPass (base : ℕ → ℕ) (policy : Policy) (pos : ℕ) (c : Control) (p : Pass) : Type 0 where
  pub stays : Stays base c p.control
  pub bounded : p.issued ≤ policy.max_requests
  pub ends :
      (p.io_interrupted ≡ true)
      ⊎ (p.issued ≡ policy.max_requests)
      ⊎ IsDone policy pos p.control.root

module _ (sbi : Sbi) (base : ℕ → ℕ) (block : Block) (takes : TakesAll block)
    (no_fsck : block.need_fsck ≡ false) (policy : Policy) (few : policy.max_requests < 2 ^ 32)
    (no_timeout : policy.timeout ≡ false) (clock : Clock) (list_order : ℕ → List ℕ → List ℕ)
    (keeps : (k : ℕ) (starts : List ℕ) (x : ℕ)
      → mem x starts ≡ true
      → mem x (list_order k starts) ≡ true) where
  -- The pass ends with the lists from `n` on, which are all that the granularity admits.
  done-IsPass :
      (n pos issued : ℕ) (c : Control)
      → IsValid base c
      → issued < policy.max_requests
      → (policy.ordered && ltb policy.granularity default_discard_granularity) ≡ false
      → ((x : ℕ) → (leb policy.granularity (x + 1) && not (leb n x)) ≡ false)
      → some_cmd (is_listed n) c.root ≡ false
      → IsPass base policy pos c
          (record { control = c; next_pos = pos; issued = issued; io_interrupted = false })
  done-IsPass n pos issued c v room unordered h m = record {
    stays = Stays-refl base c v;
    bounded = omega (arith, room);
    ends = inr (
        inr (
          rw unordered (
            some_cmd-either (is_admitted policy.granularity) (is_listed n) (is_listed n) c.root
              (λ dc. ground (arith, h (plist_idx dc.len))) m m)));
  }

  ordered-IsPass :
      (pos : ℕ) (c : Control)
      → IsValid base c
      → 0 < policy.max_requests
      → (policy.ordered && ltb policy.granularity default_discard_granularity) ≡ true
      → IsPass base policy pos c (issue_discard_cmd_orderly sbi block policy clock.is_idle pos c).0
  ordered-IsPass pos c v some_requests ordered =
      let p =
        issue_discard_cmd_orderly-Passed sbi base block takes no_fsck policy some_requests few
          clock.is_idle pos c v in
      record {
        stays = record { valid = p.valid; same = p.same; shrinks = p.shrinks };
        bounded = p.bounded;
        ends = rw ordered p.ends;
      }

  IsPass-after :
      (pos : ℕ) (c c' : Control) (p : Pass)
      → Stays base c c'
      → IsPass base policy pos c' p
      → IsPass base policy pos c p
  IsPass-after pos c c' p s h = record {
    stays = Stays-trans base c c' p.control s h.stays;
    bounded = h.bounded;
    ends = h.ends;
  }

  issue_lists-IsPass :
      (n pos issued : ℕ) (c : Control)
      → IsValid base c
      → issued < policy.max_requests
      → (policy.ordered && ltb policy.granularity default_discard_granularity && ltb n 15) ≡ false
      → some_cmd (is_listed n) c.root ≡ false
      → IsPass base policy pos c (issue_lists sbi block policy clock list_order n pos issued c).0
  unfolding issue_lists
  issue_lists-IsPass zero pos issued c v room some_lists m =
      done-IsPass zero pos issued c v room (ground (arith, some_lists)) (λ x. ground arith) m
  issue_lists-IsPass (suc i) pos issued c v room some_lists m =
      let starts = list_order i (starts_in i c.root) in
      let l = issue_list sbi block policy clock list_order i starts issued c in
      let missed : some_cmd (is_missed i starts) c.root ≡ false =
        starts_in-missed base i 0 c.root starts v.sound (keeps i (starts_in i c.root))
          (subst (λ (n : ℕ). some_cmd (is_listed n) c.root ≡ false) (omega arith) m) in
      let e =
        issue_list-ListEnds sbi base block takes no_fsck policy few no_timeout clock list_order
          keeps i starts issued c v room missed in
      elim (Bool-cases ((policy.timeout && clock.over_list i) || ltb (i + 1) policy.granularity)) [
        | inl fine ↦
            rw (fine, issue_lists)
              (done-IsPass (suc i) pos issued c v room (ground (arith, some_lists))
                (λ x. ground (arith, no_timeout)) m)
        | inr coarse ↦
            elim (Bool-cases (ltb (i + 1) default_discard_granularity && policy.ordered)) [
              | inl ordered ↦
                  rw (coarse, ordered, issue_lists)
                    (ordered-IsPass pos c v (omega (arith, room)) (ground arith))
              | inr by_lists ↦ elim e.ends [
                | inl busy ↦
                    let stop : (leb policy.max_requests l.issued || l.io_interrupted) ≡ true =
                      ground (arith, busy) in
                    rw (coarse, by_lists, stop, issue_lists)
                      (record { stays = e.stays; bounded = e.bounded; ends = inl busy })
                | inr (inl full) ↦
                    let stop : leb policy.max_requests l.issued ≡ true = ground (arith, full) in
                    rw (coarse, by_lists, stop, issue_lists)
                      (record { stays = e.stays; bounded = e.bounded; ends = inr (inl full) })
                | inr (inr (left, quiet, cleared)) ↦
                    let go_on : leb policy.max_requests l.issued ≡ false = ground arith in
                    rw (coarse, by_lists, go_on, quiet, issue_lists)
                      (IsPass-after pos c l.control _ e.stays (
                        issue_lists-IsPass i pos l.issued l.control e.stays.valid left
                          (ground arith) cleared))
              ]
            ]
      ]

  -- Where the file system needs no check, the block layer takes every request, the limit of the
  -- device is not 0, the policy has no timeout and allows at least one request, and whatever the
  -- order within the pending lists, __issue_discard_cmd ends from a valid state in a valid state,
  -- whose commands cover the same blocks, of which none is pending that was not before; it counts
  -- no more requests than the policy allows; and either it was interrupted, or it has issued all of
  -- them, or no pending command is left in the lists that the granularity admits or, where the pass
  -- ends in the order of the blocks, no block from its position on is pending.
  pub issue_discard_cmd-IsPass :
      (pos : ℕ) (c : Control)
      → 0 < policy.max_requests
      → IsValid base c
      → IsPass base policy pos c (issue_discard_cmd sbi block policy clock list_order pos c).0
  unfolding issue_discard_cmd
  issue_discard_cmd-IsPass pos c some_requests v =
      issue_lists-IsPass max_plist_num pos 0 c v some_requests (ground arith)
        (none-listed base 0 c.root v.sound)
