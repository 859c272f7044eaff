-- ===== src/Discard/Submit/Counted.antt =====
-- The requests that the loop of `__submit_discard_cmd` uses.
use redisc.Base.{
  ℕ, zero, suc, ◌+◌, ◌^◌, ◌≤◌, ◌<◌, ◌≡◌, inl, inr, true, false, Bool-cases, arith, leb, is_set,
  add32,
}
use redisc.Discard.Submit.{Limits, Block, Submission, submit_bio, submit_bios}
use redisc.Discard.Submit.Bios.{
  TakesAll, IsOpen, submit_bios-done, submit_bio-whole, submit_bio-total, submit_bio-IsOpen,
}

-- The requests are counted, and blocks are left only where they are used up.
pub record IsCounted (limits : Limits) (s s' : Submission) : Type 0 where
  pub more : s.issued < s'.issued
  pub bounded : s'.issued ≤ limits.max_requests
  pub room : s'.issued < limits.max_requests → is_set s'.len ≡ false

module _ (block : Block) (takes : TakesAll block) (limits : Limits)
    (few : limits.max_requests < 2 ^ 32) where
  submit_bio-issued :
      (n : ℕ) (s : Submission)
      → IsOpen limits (suc n) s
      → (submit_bio block limits s).issued ≡ s.issued + 1
  unfolding submit_bio
  submit_bio-issued n s o = elim (Bool-cases (leb s.len block.max_discard_blocks)) [
    | inl e ↦
        rw (takes.not_injected (add32 s.issued 1), e, takes.no_error s.start s.len, submit_bio)
          (ground (arith, o.left, few))
    | inr e ↦
        rw
          (
            takes.not_injected (add32 s.issued 1),
            e,
            takes.no_error s.start block.max_discard_blocks,
            submit_bio,
          )
          (ground (arith, o.left, few))
  ]

  whole-IsCounted :
      (n : ℕ) (s : Submission)
      → IsOpen limits (suc n) s
      → leb s.len block.max_discard_blocks ≡ true
      → IsCounted limits s (submit_bios block limits (suc n) s)
  unfolding submit_bios
  whole-IsCounted n s o e =
      let busy : is_set s.total_len ≡ true = ground (arith, o.busy) in
      let clear : is_set s.err ≡ false = ground (arith, o.no_err) in
      let done =
        submit_bios-done block takes limits few n (submit_bio block limits s)
          (submit_bio-total block takes limits few s e o.whole (omega (arith, o.cmd_small))) in
      let up = submit_bio-issued n s o in
      rw (busy, clear, done, submit_bios)
        (record {
          more = omega (arith, up);
          bounded = omega (arith, up, o.left);
          room = λ r. ground (arith, (submit_bio-whole block takes limits few n s o e).len);
        })

  part-IsCounted :
      (n : ℕ) (s : Submission)
      → IsOpen limits (suc n) s
      → IsCounted limits
          (submit_bio block limits s)
          (submit_bios block limits n (submit_bio block limits s))
      → IsCounted limits s (submit_bios block limits (suc n) s)
  unfolding submit_bios
  part-IsCounted n s o c =
      let busy : is_set s.total_len ≡ true = ground (arith, o.busy) in
      let clear : is_set s.err ≡ false = ground (arith, o.no_err) in
      let up = submit_bio-issued n s o in
      rw (busy, clear, submit_bios)
        (record { more = omega (arith, up, c.more); bounded = c.bounded; room = c.room })

  last-IsCounted :
      (s : Submission) → IsOpen limits 1 s → IsCounted limits s (submit_bios block limits 1 s)
  unfolding submit_bios
  last-IsCounted s o =
      let busy : is_set s.total_len ≡ true = ground (arith, o.busy) in
      let clear : is_set s.err ≡ false = ground (arith, o.no_err) in
      let up = submit_bio-issued 0 s o in
      rw (busy, clear, submit_bios)
        (record {
          more = omega (arith, up);
          bounded = omega (arith, up, o.left);
          room = λ r. absurd (omega (arith, up, o.left));
        })

  pub submit_bios-IsCounted :
      (n : ℕ) (s : Submission)
      → IsOpen limits (suc n) s
      → IsCounted limits s (submit_bios block limits (suc n) s)
  submit_bios-IsCounted zero s o = last-IsCounted s o
  submit_bios-IsCounted (suc n) s o = elim (Bool-cases (leb s.len block.max_discard_blocks)) [
    | inl e ↦ whole-IsCounted (suc n) s o e
    | inr e ↦ part-IsCounted (suc n) s o (
        submit_bios-IsCounted n (submit_bio block limits s)
          (submit_bio-IsOpen block takes limits few (suc n) s o e))
  ]
