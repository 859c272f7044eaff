-- ===== src/Discard/Submit/Cut.antt =====
-- The tree while `__submit_discard_cmd` has the command cut to what has been sent.
use redisc.Base.{
  ℕ, ◌+◌, ◌*◌, ◌%◌, ◌^◌, ◌≤◌, ◌<◌, ◌≡◌, refl, sym, ap, ◌∙◌, inl, inr, true, not, ◌&&◌, Bool-cases,
  [], ◌∷◌, arith, is_set,
}
use redisc.Swod.State.{Sbi, Dcc}
use redisc.Swod.Policy.{enabled_ctrl}
use redisc.Swod.Hints.{submit_hints}
use redisc.Swod.Issue.{is_prep}
use redisc.Discard.{DiscardCmd, Control, sub_undiscard}
use redisc.Discard.Order.{
  AreSound-covers-false, AreSoundBefore-covers-false, pending, pending-covers, rejoin-pending,
  IsSound, AreSound-weaken, in_range, covers, total_len, length, IsValid, rejoin-AreSound,
  rejoin-covers, rejoin-total_len, rejoin-length,
}
use redisc.Discard.Range.Tally.{with_ctrl_in-tun}
use redisc.Discard.Punch.{Position, put_back}
use redisc.Discard.Punch.Found.{Holds}
use redisc.Discard.Submit.{Submission, first_submission, with_hints}
use redisc.Discard.Submit.Bios.{IsSent}

pub mul_pos : (k m : ℕ) → 0 < k → 0 < m → 0 < k * m
mul_pos k m p q = grind arith

submit_hints-cnt :
    (sbi : Sbi) (lstart len : ℕ) (d : Dcc)
    → (submit_hints sbi lstart len d).discard_cmd_cnt ≡ d.discard_cmd_cnt
unfolding submit_hints
submit_hints-cnt sbi lstart len d = elim (Bool-cases (is_set len)) [
  | inl some_len ↦
      rw (some_len, submit_hints)
        (ap (λ t. t.discard_cmd_cnt) (with_ctrl_in-tun d _ (enabled_ctrl d)))
  | inr no_len ↦ rw (no_len, submit_hints) refl
]

pub with_hints-IsValid :
    (sbi : Sbi) (base : ℕ → ℕ) (dc : DiscardCmd) (c : Control)
    → IsValid base c
    → IsValid base (with_hints sbi dc c)
with_hints-IsValid sbi base dc c v = record {
  sound = v.sound;
  counted = record {
    undiscard = v.counted.undiscard;
    cmd_cnt = submit_hints-cnt sbi dc.lstart dc.len c.totals.dcc ∙ v.counted.cmd_cnt;
  };
}

module _ (base : ℕ → ℕ) (c : Control) (v : IsValid base c) (blk : ℕ) (at : Position)
    (h : Holds base c.root blk at) (issued : ℕ) (s : Submission) (m : ℕ)
    (i : IsSent (first_submission at.dc issued c.totals) s m) (some_sent : 0 < m)
    (fits : m ≤ at.dc.len) where
  -- The tree with the command cut to what has been sent.
  abbrev pub cut : Control
  cut = record { root = put_back at (s.dc ∷ []); totals = sub_undiscard s.len s.totals }

  pub sent-IsSound : IsSound base s.dc
  sent-IsSound = record {
    filled = omega (arith, i.cmd_len);
    small = omega (arith, i.cmd_len, i.cmd_lstart, h.sound.small);
    mapped = rw (i.cmd_start, i.cmd_bdev, i.cmd_lstart) h.sound.mapped;
    idle = λ p. absurd (cc (i.cmd_state));
    filed = λ p. absurd (cc (i.cmd_state));
  }

  blocks_before : total_len c.root ≡ total_len at.before + (at.dc.len + total_len at.after)
  unfolding total_len
  blocks_before = ap total_len (sym h.same) ∙ rejoin-total_len at.before (at.dc ∷ at.after)

  pub cut-IsValid : IsValid base cut
  unfolding total_len
  cut-IsValid = record {
    sound = rejoin-AreSound base at.dc.lstart at.before (s.dc ∷ at.after) h.before (
      omega (arith, i.cmd_lstart),
      sent-IsSound,
      AreSound-weaken base _ _ at.after (omega (arith, i.cmd_lstart, i.cmd_len)) h.after,
    );
    counted = record {
      undiscard = ground (
        arith,
        blocks_before,
        rejoin-total_len at.before (s.dc ∷ at.after),
        v.counted.undiscard,
        i.undiscard,
        i.cmd_len,
        i.len,
        h.sound.small,
      );
      cmd_cnt =
          ap (λ d. d.discard_cmd_cnt) i.dcc
          ∙ v.counted.cmd_cnt
          ∙ ap (λ n. n % 2 ^ 32)
              (ap length (sym h.same)
                ∙ rejoin-length at.before (at.dc ∷ at.after)
                ∙ sym (rejoin-length at.before (s.dc ∷ at.after)));
    };
  }

  pub cut-covers :
      (b : ℕ)
      → covers cut.root b
        ≡ (covers c.root b && not (in_range (at.dc.lstart + m) (at.dc.lstart + at.dc.len) b))
  unfolding covers
  cut-covers b = rw (sym h.same) (
      ground (
        arith,
        rejoin-covers at.before (s.dc ∷ at.after) b,
        rejoin-covers at.before (at.dc ∷ at.after) b,
        AreSoundBefore-covers-false base at.dc.lstart at.before b h.before,
        AreSound-covers-false base (at.dc.lstart + at.dc.len) at.after b h.after,
        i.cmd_lstart,
        i.cmd_len,
      ))

  pub cut-pending :
      is_prep at.dc.state ≡ true
      → (b : ℕ)
      → pending cut.root b
        ≡ (pending c.root b && not (in_range at.dc.lstart (at.dc.lstart + at.dc.len) b))
  unfolding pending
  cut-pending prep b =
      let none_before : pending at.before b ≡ true → b < at.dc.lstart = ground (
        arith,
        pending-covers at.before b,
        AreSoundBefore-covers-false base at.dc.lstart at.before b h.before,
      ) in
      let none_after : pending at.after b ≡ true → at.dc.lstart + at.dc.len ≤ b = ground (
        arith,
        pending-covers at.after b,
        AreSound-covers-false base (at.dc.lstart + at.dc.len) at.after b h.after,
      ) in
      rw (sym h.same) (
        ground (
          arith,
          rejoin-pending at.before (s.dc ∷ at.after) b,
          rejoin-pending at.before (at.dc ∷ at.after) b,
          i.cmd_state,
        ))
