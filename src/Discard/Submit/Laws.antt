-- ===== src/Discard/Submit/Laws.antt =====
-- `__submit_discard_cmd` against the set of blocks that the commands cover.
use redisc.Base.{
  ◌≤◌, ℕ, zero, suc, ◌+◌, ◌-◌, ◌*◌, ◌^◌, ◌<◌, ◌≡◌, refl, sym, ◌∙◌, inl, inr, min, true, false, not,
  ◌&&◌, Bool-cases, [], ◌∷◌, arith, is_set,
}
use redisc.Swod.State.{Sbi}
use redisc.Swod.Issue.{is_prep}
use redisc.Discard.{Control, sub_undiscard}
use redisc.Discard.Order.{
  IsSound, pending, rejoin, rejoin-pending, in_range, covers, IsValid, rejoin-covers,
}
use redisc.Discard.Range.{update_discard_tree_range}
use redisc.Discard.Range.Laws.{update_discard_tree_range-refines}
use redisc.Discard.Punch.{Position, put_back}
use redisc.Discard.Punch.Found.{Holds}
use redisc.Discard.Submit.{
  Limits, Block, Submission, Submitted, submit_bios, first_submission, submit_discard_cmd,
}
use redisc.Discard.Submit.Bios.{TakesAll, IsSent, IsOpen, submit_bios-IsSent}
use redisc.Discard.Submit.Counted.{IsCounted, submit_bios-IsCounted}
use redisc.Discard.Submit.Cut.{
  sent-IsSound, mul_pos, with_hints-IsValid, cut-IsValid, cut-covers, cut-pending,
}

module _ (sbi : Sbi) (base : ℕ → ℕ) (block : Block) (takes : TakesAll block)
    (no_fsck : block.need_fsck ≡ false) (limits : Limits) (few : limits.max_requests < 2 ^ 32)
    (c : Control) (v : IsValid base c) (blk : ℕ) (at : Position) (h : Holds base c.root blk at)
    (prep : is_prep at.dc.state ≡ true) (issued : ℕ) (room : issued < limits.max_requests) where
  abbrev submission : Submission
  submission =
      submit_bios block limits (limits.max_requests - issued)
        (first_submission at.dc issued c.totals)

  abbrev sent_len : ℕ
  sent_len = min at.dc.len ((limits.max_requests - issued) * block.max_discard_blocks)

  first-IsOpen :
      (n : ℕ)
      → limits.max_requests - issued ≡ suc n
      → IsOpen limits (suc n) (first_submission at.dc issued c.totals)
  first-IsOpen n e = record {
    whole = refl;
    no_err = refl;
    left = omega arith;
    busy = h.sound.filled;
    cmd_small = omega (arith, h.sound.small);
    small = h.sound.small;
    start_small = omega (arith, h.sound.small, h.sound.mapped);
  }

  submission-IsSent : IsSent (first_submission at.dc issued c.totals) submission sent_len
  submission-IsSent = go (limits.max_requests - issued) refl
    where
      go :
          (k : ℕ)
          → limits.max_requests - issued ≡ k
          → IsSent
              (first_submission at.dc issued c.totals)
              (submit_bios block limits k (first_submission at.dc issued c.totals))
              (min at.dc.len (k * block.max_discard_blocks))
      go zero e = absurd (omega arith)
      go (suc n) e =
          submit_bios-IsSent block takes limits few n (first_submission at.dc issued c.totals)
            (first-IsOpen n e)

  some_sent : 0 < sent_len
  some_sent = ground (
    arith,
    h.sound.filled,
    mul_pos (limits.max_requests - issued) block.max_discard_blocks (omega arith) takes.some_blocks,
  )

  abbrev result : Submitted
  result = submit_discard_cmd sbi block limits at issued c.totals

  abbrev sent_off : Control
  sent_off = record { root = put_back at (submission.dc ∷ []); totals = submission.totals }

  abbrev cut_off : Control
  cut_off = record sent_off { totals = sub_undiscard submission.len submission.totals }

  abbrev later : Control
  later =
      update_discard_tree_range sbi block.max_discard_blocks at.dc.bdev submission.lstart
        submission.start submission.len cut_off

  cut_off-IsValid : IsValid base cut_off
  cut_off-IsValid =
      cut-IsValid base c v blk at h issued submission sent_len submission-IsSent some_sent
        (omega arith)

  cut_off-covers :
      (b : ℕ)
      → covers cut_off.root b
        ≡ (covers c.root b && not (in_range (at.dc.lstart + sent_len) (at.dc.lstart + at.dc.len) b))
  cut_off-covers =
      cut-covers base c v blk at h issued submission sent_len submission-IsSent some_sent
        (omega arith)

  -- The blocks of the command are in the tree.
  whole-covers :
      (b : ℕ) → in_range at.dc.lstart (at.dc.lstart + at.dc.len) b ≡ true → covers c.root b ≡ true
  unfolding covers
  whole-covers b e = rw (sym h.same) (ground (arith, rejoin-covers at.before (at.dc ∷ at.after) b))

  cut_off-pending :
      (b : ℕ)
      → pending cut_off.root b
        ≡ (pending c.root b && not (in_range at.dc.lstart (at.dc.lstart + at.dc.len) b))
  cut_off-pending =
      cut-pending base c v blk at h issued submission sent_len submission-IsSent some_sent
        (omega arith) prep

  whole-pending :
      (b : ℕ) → in_range at.dc.lstart (at.dc.lstart + at.dc.len) b ≡ true → pending c.root b ≡ true
  unfolding pending
  whole-pending b e =
      rw (sym h.same) (ground (arith, prep, rejoin-pending at.before (at.dc ∷ at.after) b))

  -- The tree covers what it did, and the blocks that have been sent are no longer pending.
  abbrev Refined : Control → Type 0
  Refined r =
      IsValid base r
      × ((b : ℕ)
          → (covers r.root b ≡ covers c.root b)
            × (pending r.root b
                ≡ (pending c.root b && not (in_range at.dc.lstart (at.dc.lstart + sent_len) b))))

  later-refines : Refined later
  later-refines =
      let i = submission-IsSent in
      let fits : submission.lstart + submission.len < 2 ^ 32 =
        omega (arith, i.lstart, i.len, h.sound.small) in
      let mapped : submission.start + base at.dc.bdev ≡ submission.lstart =
        omega (arith, i.start, i.lstart, h.sound.mapped) in
      let (valid, added) =
        update_discard_tree_range-refines sbi base block.max_discard_blocks at.dc.bdev
          submission.lstart submission.start submission.len fits mapped cut_off cut_off-IsValid in
      (
        valid,
        λ b. (
          (added b).0 ∙ ground (arith, cut_off-covers b, whole-covers b, i.lstart, i.len),
          (added b).1
              ∙ ground (
                arith,
                cut_off-covers b,
                cut_off-pending b,
                whole-covers b,
                whole-pending b,
                i.lstart,
                i.len,
              ),
        ),
      )

  -- Where nothing is left, the command has been sent as a whole.
  all_sent : is_set submission.len ≡ false → Refined sent_off
  all_sent none_left =
      let i = submission-IsSent in
      let w = cut_off-IsValid in
      (
        record {
          sound = w.sound;
          counted = record {
            undiscard = ground (arith, w.counted.undiscard, i.undiscard, v.counted.undiscard);
            cmd_cnt = w.counted.cmd_cnt;
          };
        },
        λ b. (cut_off-covers b ∙ ground (arith, i.len), cut_off-pending b ∙ ground (arith, i.len)),
      )

  -- Where the file system needs no check, the block layer takes every request and the limit of the
  -- device is not 0, from a valid state, __submit_discard_cmd for a pending command of the tree
  -- with requests left returns 0 and ends in a valid state, whose commands cover the same blocks;
  -- no longer pending are exactly the first blocks of the command, as many as it has or as the
  -- requests that are left may take.
  pub submit_discard_cmd-refines :
      let r = submit_discard_cmd sbi block limits at issued c.totals in
      (r.err ≡ 0)
      × IsValid base r.control
      × ((b : ℕ)
          → (covers r.control.root b ≡ covers c.root b)
            × (pending r.control.root b ≡ (
                pending c.root b
                && not (
                    in_range at.dc.lstart
                      (at.dc.lstart
                        + min at.dc.len ((limits.max_requests - issued) * block.max_discard_blocks))
                      b))))
  unfolding submit_discard_cmd
  submit_discard_cmd-refines =
      let fine : is_set submission.err ≡ false = ground (arith, submission-IsSent.err) in
      elim (Bool-cases (is_set submission.len)) [
        | inl left ↦
            rw (prep, no_fsck, fine, left, submit_discard_cmd)
              (
                submission-IsSent.err,
                with_hints-IsValid sbi base at.dc later later-refines.0,
                later-refines.1,
              )
        | inr none_left ↦
            rw (prep, no_fsck, fine, none_left, submit_discard_cmd)
              (
                submission-IsSent.err,
                with_hints-IsValid sbi base at.dc sent_off (all_sent none_left).0,
                (all_sent none_left).1,
              )
      ]

  submission-IsCounted : IsCounted limits (first_submission at.dc issued c.totals) submission
  submission-IsCounted = go (limits.max_requests - issued) refl
    where
      go :
          (k : ℕ)
          → limits.max_requests - issued ≡ k
          → IsCounted limits
              (first_submission at.dc issued c.totals)
              (submit_bios block limits k (first_submission at.dc issued c.totals))
      go zero e = absurd (omega arith)
      go (suc n) e =
          submit_bios-IsCounted block takes limits few n (first_submission at.dc issued c.totals)
            (first-IsOpen n e)

  -- The requests are counted up, and not beyond the limit.
  pub submit_discard_cmd-issued :
      let r = submit_discard_cmd sbi block limits at issued c.totals in
      (issued < r.issued) × (r.issued ≤ limits.max_requests)
  unfolding submit_discard_cmd
  submit_discard_cmd-issued =
      let i = submission-IsCounted in rw (prep, no_fsck, submit_discard_cmd) (i.more, i.bounded)

  -- Where requests are left, the command has been sent as a whole, in its place.
  pub submit_discard_cmd-whole :
      let r = submit_discard_cmd sbi block limits at issued c.totals in
      r.issued < limits.max_requests
      → (r.control.root ≡ rejoin at.before (r.dc ∷ at.after))
        × (r.dc.lstart ≡ at.dc.lstart)
        × (r.dc.len ≡ at.dc.len)
        × (is_prep r.dc.state ≡ false)
        × IsSound base r.dc
  unfolding submit_discard_cmd
  submit_discard_cmd-whole =
      rw (prep, no_fsck, submit_discard_cmd)
        λ room.
          let i = submission-IsSent in
          let fine : is_set submission.err ≡ false = ground (arith, i.err) in
          let none_left = submission-IsCounted.room room in
          rw (fine, none_left)
            (
              refl,
              i.cmd_lstart,
              ground (arith, i.len, i.cmd_len),
              i.cmd_state,
              sent-IsSound base c v blk at h issued submission sent_len i some_sent (omega arith),
            )
