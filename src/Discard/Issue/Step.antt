-- ===== src/Discard/Issue/Step.antt =====
-- One command of a pending list is sent.
use redisc.Base.{
  ℕ, ◌+◌, ◌^◌, ◌≤◌, ◌<◌, ◌≡◌, refl, sym, ap, ◌∙◌, subst, inl, inr, Bool-cases, true, false, not,
  ◌&&◌, ◌||◌, List, ◌∷◌, arith,
}
use redisc.Swod.State.{Sbi}
use redisc.Swod.Issue.{is_prep}
use redisc.Discard.{DiscardCmd, Control}
use redisc.Discard.Order.{IsValid, covers, pending, rejoin}
use redisc.Discard.Punch.{Position}
use redisc.Discard.Punch.Found.{Holds}
use redisc.Discard.Submit.{Block, Submitted, submit_discard_cmd}
use redisc.Discard.Submit.Bios.{TakesAll}
use redisc.Discard.Submit.Laws.{
  submit_discard_cmd-refines, submit_discard_cmd-issued, submit_discard_cmd-whole,
}
use redisc.Discard.Policy.{Policy}
use redisc.Discard.Issue.Lists.{
  some_cmd, mem, rejoin-some_cmd, some_cmd-either, starts_at, before-starts_at, after-starts_at,
  is_missed,
}

-- The state stays valid and covers the same blocks, none of them is pending that was not.
pub record Stays (base : ℕ → ℕ) (c c' : Control) : Type 0 where
  pub valid : IsValid base c'
  pub same : (b : ℕ) → covers c'.root b ≡ covers c.root b
  pub shrinks : (b : ℕ) → (pending c'.root b && not (pending c.root b)) ≡ false

pub Stays-refl : (base : ℕ → ℕ) (c : Control) → IsValid base c → Stays base c c
Stays-refl base c v = record { valid = v; same = λ b. refl; shrinks = λ b. ground arith }

pub Stays-trans :
    (base : ℕ → ℕ) (c c' c'' : Control) → Stays base c c' → Stays base c' c'' → Stays base c c''
Stays-trans base c c' c'' s t = record {
  valid = t.valid;
  same = λ b. t.same b ∙ s.same b;
  shrinks = λ b. ground (arith, s.shrinks b, t.shrinks b);
}

-- Another command at the position, which is not pending.
pub replaced-missed :
    (base : ℕ → ℕ) (root : List DiscardCmd) (p k : ℕ) (starts : List ℕ) (at : Position)
    → Holds base root p at
    → (new : DiscardCmd) → is_prep new.state ≡ false
    → some_cmd (is_missed k (p ∷ starts)) root ≡ false
    → some_cmd (is_missed k starts) (rejoin at.before (new ∷ at.after)) ≡ false
unfolding some_cmd mem
replaced-missed base root p k starts at h new past e =
    let f = is_missed k (p ∷ starts) in
    let parts : (some_cmd f at.before || (f at.dc || some_cmd f at.after)) ≡ false =
      sym (rejoin-some_cmd f at.before (at.dc ∷ at.after)) ∙ ap (some_cmd f) h.same ∙ e in
    let before =
      some_cmd-either (is_missed k starts) f (starts_at p) at.before (λ dc. ground arith)
        (ground arith) (before-starts_at base at.dc.lstart p at.before h.before h.lower) in
    let after =
      some_cmd-either (is_missed k starts) f (starts_at p) at.after (λ dc. ground arith)
        (ground arith)
        (after-starts_at base (at.dc.lstart + at.dc.len) p at.after h.after h.upper) in
    rejoin-some_cmd (is_missed k starts) at.before (new ∷ at.after) ∙ rw (before, after, past) refl

module _ (sbi : Sbi) (base : ℕ → ℕ) (block : Block) (takes : TakesAll block)
    (no_fsck : block.need_fsck ≡ false) (policy : Policy) (few : policy.max_requests < 2 ^ 32)
    (p : ℕ) (c : Control) (v : IsValid base c) (at : Position) (h : Holds base c.root p at)
    (issued : ℕ) (room : issued < policy.max_requests) where
  abbrev pub sent : Submitted
  sent = submit_discard_cmd sbi block policy.limits at issued c.totals

  -- What the step achieves.
  pub record IsSent : Type 0 where
    pub stays : Stays base c sent.control
    pub bounded : sent.issued ≤ policy.max_requests
    pub missed :
        sent.issued < policy.max_requests
        → (k : ℕ) (starts : List ℕ) → some_cmd (is_missed k (p ∷ starts)) c.root ≡ false
        → some_cmd (is_missed k starts) sent.control.root ≡ false

  pending-IsSent : is_prep at.dc.state ≡ true → IsSent
  pending-IsSent prep =
      let r =
        submit_discard_cmd-refines sbi base block takes no_fsck policy.limits few c v p at h prep
          issued room in
      record {
        stays = record {
          valid = r.1;
          same = λ b. (r.2 b).0;
          shrinks = λ b. ground (arith, (r.2 b).1);
        };
        bounded =
            (submit_discard_cmd-issued sbi base block takes no_fsck policy.limits few c v p at h
              prep issued room).1;
        missed = λ left k starts e.
            let w =
              submit_discard_cmd-whole sbi base block takes no_fsck policy.limits few c v p at h
                prep issued room left in
            ap (some_cmd (is_missed k starts)) w.0
            ∙ replaced-missed base c.root p k starts at h sent.dc w.3 e;
      }

  past-IsSent : is_prep at.dc.state ≡ false → IsSent
  unfolding submit_discard_cmd
  past-IsSent past =
      let same : sent.control ≡ c =
        rw past (ap (λ dcs. record { root = dcs; totals = c.totals }) h.same) in
      record {
        stays = subst (Stays base c) (sym same) (Stays-refl base c v);
        bounded = rw past (omega (arith, room));
        missed = λ left k starts e.
            ap (λ d. some_cmd (is_missed k starts) d.root) same
            ∙ sym (ap (some_cmd (is_missed k starts)) h.same)
            ∙ replaced-missed base c.root p k starts at h at.dc past e;
      }

  pub submit-IsSent : IsSent
  submit-IsSent = elim (Bool-cases (is_prep at.dc.state)) [
    | inl prep ↦ pending-IsSent prep
    | inr past ↦ past-IsSent past
  ]
