-- ===== src/Discard/Orderly/Loop.antt =====
-- The loop of `__issue_discard_cmd_orderly`: what stays, and what is no longer pending behind it.
use redisc.Base.{
  ℕ, ◌+◌, ◌^◌, ◌≤◌, ◌<◌, ◌≡◌, refl, ap, sym, subst, inl, inr, Bool, true, false, not, ◌&&◌,
  Bool-cases, List, [], ◌∷◌, arith, leb,
}
use redisc.Swod.State.{Sbi}
use redisc.Swod.Issue.{is_prep}
use redisc.Discard.{DiscardCmd, Totals, Control}
use redisc.Discard.Order.{
  IsSound, AreSound, AreSoundBefore, AreSoundBefore-weaken, IsValid, covers, pending, rejoin,
}
use redisc.Discard.Punch.{Position}
use redisc.Discard.Punch.Found.{Holds}
use redisc.Discard.Submit.{Block, Submitted, submit_discard_cmd}
use redisc.Discard.Submit.Bios.{TakesAll}
use redisc.Discard.Submit.Laws.{
  submit_discard_cmd-refines, submit_discard_cmd-issued, submit_discard_cmd-whole,
}
use redisc.Discard.Policy.{Policy}
use redisc.Discard.Orderly.{Pass, issue_from}
use redisc.Discard.Orderly.Quiet.{IsQuiet, Passed, IsQuiet-add, rejoin-IsQuiet, Passed-after}

module _ (sbi : Sbi) (base : ℕ → ℕ) (block : Block) (takes : TakesAll block)
    (no_fsck : block.need_fsck ≡ false) (policy : Policy) (few : policy.max_requests < 2 ^ 32)
    (is_idle : DiscardCmd → Bool) (from : ℕ) where
  abbrev at_state : List DiscardCmd → List DiscardCmd → Totals → Control
  at_state before after t = record { root = rejoin before after; totals = t }

  abbrev position : List DiscardCmd → DiscardCmd → List DiscardCmd → Position
  position before dc after = record { before = before; dc = dc; after = after }

  here :
      (before : List DiscardCmd) (dc : DiscardCmd) (after : List DiscardCmd)
      → AreSoundBefore base dc.lstart before
      → IsSound base dc
      → AreSound base (dc.lstart + dc.len) after
      → Holds base (rejoin before (dc ∷ after)) dc.lstart (position before dc after)
  here before dc after b s a = record {
    same = refl;
    before = b;
    sound = s;
    after = a;
    lower = omega arith;
    upper = omega (arith, s.filled);
  }

  -- A command of the tree that the pass sends.
  module _ (before : List DiscardCmd) (dc : DiscardCmd) (after : List DiscardCmd) (t : Totals)
      (b : AreSoundBefore base dc.lstart before) (s : IsSound base dc)
      (a : AreSound base (dc.lstart + dc.len) after)
      (v : IsValid base (at_state before (dc ∷ after) t)) (prep : is_prep dc.state ≡ true)
      (issued : ℕ) (room : issued < policy.max_requests) where
    abbrev sent : Submitted
    sent = submit_discard_cmd sbi block policy.limits (position before dc after) issued t

    sent-refines :
        (sent.err ≡ 0)
        × IsValid base sent.control
        × ((blk : ℕ)
            → (covers sent.control.root blk ≡ covers (rejoin before (dc ∷ after)) blk)
              × ((pending sent.control.root blk && not (pending (rejoin before (dc ∷ after)) blk))
                  ≡ false))
    sent-refines =
        let r =
          submit_discard_cmd-refines sbi base block takes no_fsck policy.limits few
            (at_state before (dc ∷ after) t) v dc.lstart (position before dc after)
            (here before dc after b s a) prep issued room in
        (r.0, r.1, λ blk. ((r.2 blk).0, ground (arith, (r.2 blk).1)))

    sent-issued : (issued < sent.issued) × (sent.issued ≤ policy.max_requests)
    sent-issued =
        submit_discard_cmd-issued sbi base block takes no_fsck policy.limits few
          (at_state before (dc ∷ after) t) v dc.lstart (position before dc after)
          (here before dc after b s a) prep issued room

    -- The requests are used up.
    stop-Passed :
        (pos : ℕ)
        → leb policy.max_requests sent.issued ≡ true
        → Passed base policy.max_requests from (at_state before (dc ∷ after) t) (record {
          control = sent.control;
          next_pos = pos;
          issued = sent.issued;
          io_interrupted = false;
        })
    stop-Passed pos full = record {
      valid = sent-refines.1;
      same = λ blk. (sent-refines.2 blk).0;
      shrinks = λ blk. (sent-refines.2 blk).1;
      bounded = sent-issued.1;
      ends = inr (inl (ground (arith, sent-issued.1)));
    }

    module _ (left : sent.issued < policy.max_requests) where
      abbrev next : Control
      next = at_state (sent.dc ∷ before) after sent.control.totals

      in_place :
          (sent.control.root ≡ rejoin before (sent.dc ∷ after))
          × (sent.dc.lstart ≡ dc.lstart)
          × (sent.dc.len ≡ dc.len)
          × (is_prep sent.dc.state ≡ false)
          × IsSound base sent.dc
      in_place =
          submit_discard_cmd-whole sbi base block takes no_fsck policy.limits few
            (at_state before (dc ∷ after) t) v dc.lstart (position before dc after)
            (here before dc after b s a) prep issued room left

      next-same : sent.control ≡ next
      unfolding rejoin
      next-same = ap (λ dcs. record { root = dcs; totals = sent.control.totals }) in_place.0

      next-IsValid : IsValid base next
      next-IsValid = subst (IsValid base) next-same sent-refines.1

      next-AreSoundBefore : AreSoundBefore base (dc.lstart + dc.len) (sent.dc ∷ before)
      next-AreSoundBefore =
          let p = in_place in
          (
            omega (arith, p.1, p.2),
            p.4,
            AreSoundBefore-weaken base dc.lstart sent.dc.lstart before (omega (arith, p.1)) b,
          )

      -- The pass goes on behind the command.
      go_on-Passed :
          (p : Pass)
          → Passed base policy.max_requests from next p
          → Passed base policy.max_requests from (at_state before (dc ∷ after) t) p
      go_on-Passed p h =
          Passed-after base policy.max_requests from (at_state before (dc ∷ after) t) sent.control p
            (λ blk. (sent-refines.2 blk).0) (λ blk. (sent-refines.2 blk).1)
            (subst (λ c. Passed base policy.max_requests from c p) (sym next-same) h)

  pub issue_from-Passed :
      (before after : List DiscardCmd) (hi issued pos : ℕ) (t : Totals)
      → AreSoundBefore base hi before
      → AreSound base hi after
      → IsValid base (at_state before after t)
      → issued < policy.max_requests
      → IsQuiet from before
      → Passed base policy.max_requests from
          (at_state before after t)
          (issue_from sbi block policy is_idle before after issued pos t)
  unfolding issue_from rejoin
  issue_from-Passed before [] hi issued pos t b a v room quiet = record {
    valid = v;
    same = λ blk. refl;
    shrinks = λ blk. ground arith;
    bounded = omega (arith, room);
    ends = inr (inr λ blk. rejoin-IsQuiet from before quiet blk);
  }
  issue_from-Passed before (dc ∷ after) hi issued pos t b a v room quiet =
      let b' = AreSoundBefore-weaken base hi dc.lstart before a.0 b in
      elim (Bool-cases (is_prep dc.state)) [
        | inl prep ↦ elim (Bool-cases (policy.io_aware && not (is_idle dc))) [
          | inl busy ↦
              rw (prep, busy, issue_from)
                (record {
                  valid = v;
                  same = λ blk. refl;
                  shrinks = λ blk. ground arith;
                  bounded = omega (arith, room);
                  ends = inl refl;
                })
          | inr free ↦
              elim (Bool-cases (
                leb policy.max_requests
                  (sent before dc after t b' a.1 a.2 v prep issued room).issued)) [
                    | inl full ↦
                        rw (prep, free, full, issue_from)
                          (stop-Passed before dc after t b' a.1 a.2 v prep issued room _ full)
                    | inr some_left ↦
                        let r = sent before dc after t b' a.1 a.2 v prep issued room in
                        let left : r.issued < policy.max_requests = ground arith in
                        let f = sent-refines before dc after t b' a.1 a.2 v prep issued room in
                        rw (prep, free, some_left, f.0, issue_from)
                          (go_on-Passed before dc after t b' a.1 a.2 v prep issued room left _ (
                            issue_from-Passed (r.dc ∷ before) after (dc.lstart + dc.len) r.issued _
                              r.control.totals
                              (next-AreSoundBefore before dc after t b' a.1 a.2 v prep issued room
                                left)
                              a.2
                              (next-IsValid before dc after t b' a.1 a.2 v prep issued room left)
                              left
                              (IsQuiet-add from before r.dc
                                (in_place before dc after t b' a.1 a.2 v prep issued room left).3
                                quiet)))
                  ]
        ]
        | inr past ↦
            rw (past, issue_from)
              (issue_from-Passed (dc ∷ before) after (dc.lstart + dc.len) issued pos t
                (omega arith, a.1, b') a.2 v room (IsQuiet-add from before dc past quiet))
      ]
