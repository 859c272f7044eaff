-- ===== src/Discard/Issue/OneList.antt =====
-- The loop over one pending list.
use redisc.Base.{
  ◌⊎◌, ℕ, ◌^◌, ◌≤◌, ◌<◌, ◌≡◌, refl, subst, inl, inr, Bool-cases, Option-cases, true, false, not,
  ◌&&◌, none, List, [], ◌∷◌, arith, leb, ltb,
}
use redisc.Swod.State.{Sbi}
use redisc.Discard.{Control}
use redisc.Discard.Order.{IsValid, rejoin}
use redisc.Discard.Punch.{lookup_rb_tree}
use redisc.Discard.Punch.Found.{Holds, Finds, lookup_rb_tree-Finds}
use redisc.Discard.Submit.{Block}
use redisc.Discard.Submit.Bios.{TakesAll}
use redisc.Discard.Policy.{Policy}
use redisc.Discard.Issue.{Clock, ListPass, issue_list}
use redisc.Discard.Issue.Lists.{
  some_cmd, mem, some_cmd-either, starts_at, covers-starts_at, is_listed, is_missed,
}
use redisc.Discard.Issue.Step.{Stays, Stays-refl, Stays-trans, sent, submit-IsSent}

-- What the loop over one list achieves.
pub record ListEnds (base : ℕ → ℕ) (limit k : ℕ) (c : Control) (l : ListPass) : Type 0 where
  pub stays : Stays base c l.control
  pub bounded : l.issued ≤ limit
  pub ends :
      (l.io_interrupted ≡ true)
      ⊎ (l.issued ≡ limit)
      ⊎ ((l.issued < limit)
          × (l.io_interrupted ≡ false)
          × (some_cmd (is_listed k) l.control.root ≡ false))

-- What it achieves from a state on, it achieves from a state before.
ListEnds-after :
    (base : ℕ → ℕ) (limit k : ℕ) (c c' : Control) (l : ListPass)
    → Stays base c c'
    → ListEnds base limit k c' l
    → ListEnds base limit k c l
ListEnds-after base limit k c c' l s e = record {
  stays = Stays-trans base c c' l.control s e.stays;
  bounded = e.bounded;
  ends = e.ends;
}

module _ (sbi : Sbi) (base : ℕ → ℕ) (block : Block) (takes : TakesAll block)
    (no_fsck : block.need_fsck ≡ false) (policy : Policy) (few : policy.max_requests < 2 ^ 32)
    (no_timeout : policy.timeout ≡ false) (clock : Clock) (list_order : ℕ → List ℕ → List ℕ)
    (keeps : (k : ℕ) (starts : List ℕ) (x : ℕ)
      → mem x starts ≡ true
      → mem x (list_order k starts) ≡ true) where
  found : (p : ℕ) (c : Control) → IsValid base c → Finds base c.root p (lookup_rb_tree p [] c.root)
  unfolding rejoin
  found p c v = lookup_rb_tree-Finds base p 0 [] c.root tt v.sound (omega arith)

  -- A start that the tree does not hold.
  skip-missed :
      (c : Control) (p k : ℕ) (starts : List ℕ)
      → IsValid base c
      → lookup_rb_tree p [] c.root ≡ none
      → some_cmd (is_missed k (p ∷ starts)) c.root ≡ false
      → some_cmd (is_missed k starts) c.root ≡ false
  unfolding mem
  skip-missed c p k starts v e m =
      some_cmd-either (is_missed k starts) (is_missed k (p ∷ starts)) (starts_at p) c.root
        (λ dc. ground arith) m
        (covers-starts_at base 0 p c.root v.sound (subst (Finds base c.root p) e (found p c v)))

  pub issue_list-ListEnds :
      (k : ℕ) (starts : List ℕ) (issued : ℕ) (c : Control)
      → IsValid base c
      → issued < policy.max_requests
      → some_cmd (is_missed k starts) c.root ≡ false
      → ListEnds base policy.max_requests k c
          (issue_list sbi block policy clock list_order k starts issued c)
  unfolding issue_list mem
  issue_list-ListEnds k [] issued c v room m = record {
    stays = Stays-refl base c v;
    bounded = omega (arith, room);
    ends = inr (
        inr (
          room,
          refl,
          some_cmd-either (is_listed k) (is_missed k []) (is_missed k []) c.root
              (λ dc. ground arith) m m,
        ));
  }
  issue_list-ListEnds k (p ∷ starts) issued c v room m =
      elim (Option-cases (lookup_rb_tree p [] c.root)) [
        | inl none_there ↦
            rw (none_there, issue_list)
              (issue_list-ListEnds k starts issued c v room
                (skip-missed c p k starts v none_there m))
        | inr (at, there) ↦
            let h : Holds base c.root p at = subst (Finds base c.root p) there (found p c v) in
            let step =
              submit-IsSent sbi base block takes no_fsck policy few p c v at h issued room in
            let r = sent sbi base block takes no_fsck policy few p c v at h issued room in
            elim (Bool-cases
              (policy.io_aware && ltb k policy.io_aware_gran && not (clock.is_idle at.dc))) [
                | inl busy ↦
                    rw (there, no_timeout, busy, issue_list)
                      (record {
                        stays = Stays-refl base c v;
                        bounded = omega (arith, room);
                        ends = inl refl;
                      })
                | inr free ↦ elim (Bool-cases (leb policy.max_requests r.issued)) [
                  | inl full ↦
                      rw (there, no_timeout, free, full, issue_list)
                        (record {
                          stays = step.stays;
                          bounded = step.bounded;
                          ends = inr (inl (ground (arith, step.bounded)));
                        })
                  | inr some_left ↦
                      let left : r.issued < policy.max_requests = ground arith in
                      rw (there, no_timeout, free, some_left, issue_list)
                        (ListEnds-after base policy.max_requests k c r.control _ step.stays (
                          issue_list-ListEnds k starts r.issued r.control step.stays.valid left
                            (step.missed left k starts m)))
                ]
              ]
      ]
