-- ===== src/Discard/Submit/Bios.antt =====
-- The loop of `__submit_discard_cmd` where the block layer takes every bio.
use redisc.Base.{
  ℕ, zero, suc, ◌+◌, ◌-◌, ◌*◌, ◌^◌, ◌<◌, ◌≡◌, refl, sym, ◌∙◌, inl, inr, min, Bool, true, false,
  Bool-cases, arith, leb, ◌==◌, is_set, if◌then◌else◌, add32,
}
use redisc.Swod.Issue.{d_submit, d_partial, is_prep}
use redisc.Discard.Submit.{Limits, Block, Submission, submit_bio, submit_bios}

-- The block layer takes every request.
pub record TakesAll (block : Block) : Type 0 where
  pub not_injected : (n : ℕ) → block.inject n ≡ false
  pub no_error : (start len : ℕ) → block.issue_err start len ≡ 0
  pub some_blocks : 0 < block.max_discard_blocks

-- From one state of the variables to another, `m` blocks have been sent.
pub record IsSent (s s' : Submission) (m : ℕ) : Type 0 where
  pub cmd_len : s'.dc.len ≡ s.dc.len + m
  pub cmd_lstart : s'.dc.lstart ≡ s.dc.lstart
  pub cmd_start : s'.dc.start ≡ s.dc.start
  pub cmd_bdev : s'.dc.bdev ≡ s.dc.bdev
  pub cmd_state : is_prep s'.dc.state ≡ false
  pub lstart : s'.lstart ≡ s.lstart + m
  pub start : s'.start ≡ s.start + m
  pub len : s'.len ≡ s.total_len - m
  pub err : s'.err ≡ 0
  pub undiscard : s'.totals.undiscard_blks ≡ s.totals.undiscard_blks
  pub dcc : s'.totals.dcc ≡ s.totals.dcc

-- Between two requests.
pub record IsOpen (limits : Limits) (n : ℕ) (s : Submission) : Type 0 where
  pub whole : s.len ≡ s.total_len
  pub no_err : s.err ≡ 0
  pub left : s.issued + n ≡ limits.max_requests
  pub busy : 0 < s.total_len
  pub cmd_small : s.dc.len + s.total_len < 2 ^ 32
  pub small : s.lstart + s.total_len < 2 ^ 32
  pub start_small : s.start + s.total_len < 2 ^ 32

IsSent-trans :
    {a b c : Submission} {m n : ℕ}
    → IsSent a b m
    → b.total_len ≡ a.total_len - m
    → IsSent b c n
    → IsSent a c (m + n)
IsSent-trans p t q = record {
  cmd_len = omega (arith, p.cmd_len, q.cmd_len);
  cmd_lstart = q.cmd_lstart ∙ p.cmd_lstart;
  cmd_start = q.cmd_start ∙ p.cmd_start;
  cmd_bdev = q.cmd_bdev ∙ p.cmd_bdev;
  cmd_state = q.cmd_state;
  lstart = omega (arith, p.lstart, q.lstart);
  start = omega (arith, p.start, q.start);
  len = omega (arith, q.len);
  err = q.err;
  undiscard = q.undiscard ∙ p.undiscard;
  dcc = q.dcc ∙ p.dcc;
}

module _ (block : Block) (takes : TakesAll block) (limits : Limits)
    (few : limits.max_requests < 2 ^ 32) where
  pub submit_bios-done :
      (n : ℕ) (s : Submission) → is_set s.total_len ≡ false → submit_bios block limits n s ≡ s
  unfolding submit_bios
  submit_bios-done zero s e = refl
  submit_bios-done (suc n) s e = rw (e, submit_bios) refl

  pub submit_bio-whole :
      (n : ℕ) (s : Submission)
      → IsOpen limits (suc n) s
      → leb s.len block.max_discard_blocks ≡ true
      → IsSent s (submit_bio block limits s) s.total_len
  unfolding submit_bio
  submit_bio-whole n s o e =
      rw (takes.not_injected (add32 s.issued 1), e, takes.no_error s.start s.len, submit_bio)
        (record {
          cmd_len = ground (arith, o.whole, o.cmd_small);
          cmd_lstart = refl;
          cmd_start = refl;
          cmd_bdev = refl;
          cmd_state = refl;
          lstart = ground (arith, o.whole, o.small);
          start = ground (arith, o.whole, o.start_small);
          len = ground (arith, o.whole, o.cmd_small);
          err = refl;
          undiscard = refl;
          dcc = refl;
        })

  module _ (n : ℕ) (s : Submission) (o : IsOpen limits (suc n) s)
      (e : leb s.len block.max_discard_blocks ≡ false) where
    more : block.max_discard_blocks < s.total_len
    more = ground (arith, o.whole)

    prep_no_more : (last : Bool) → is_prep (if last then d_submit else d_partial) ≡ false
    prep_no_more true = refl
    prep_no_more false = refl

    submit_bio-part : IsSent s (submit_bio block limits s) block.max_discard_blocks
    unfolding submit_bio
    submit_bio-part =
        rw
          (
            takes.not_injected (add32 s.issued 1),
            e,
            takes.no_error s.start block.max_discard_blocks,
            submit_bio,
          )
          (record {
            cmd_len = ground (arith, more, o.cmd_small);
            cmd_lstart = refl;
            cmd_start = refl;
            cmd_bdev = refl;
            cmd_state = prep_no_more (add32 s.issued 1 == limits.max_requests);
            lstart = ground (arith, more, o.small);
            start = ground (arith, more, o.start_small);
            len = ground (arith, more, o.cmd_small);
            err = refl;
            undiscard = refl;
            dcc = refl;
          })

    pub submit_bio-IsOpen : IsOpen limits n (submit_bio block limits s)
    unfolding submit_bio
    submit_bio-IsOpen =
        rw
          (
            takes.not_injected (add32 s.issued 1),
            e,
            takes.no_error s.start block.max_discard_blocks,
            submit_bio,
          )
          (record {
            whole = refl;
            no_err = refl;
            left = ground (arith, o.left, few);
            busy = ground (arith, more, o.cmd_small);
            cmd_small = ground (arith, more, o.cmd_small, takes.some_blocks);
            small = ground (arith, more, o.small, o.cmd_small);
            start_small = ground (arith, more, o.start_small, o.cmd_small);
          })

  pub submit_bio-total :
      (s : Submission)
      → leb s.len block.max_discard_blocks ≡ true
      → s.len ≡ s.total_len
      → s.total_len < 2 ^ 32
      → is_set (submit_bio block limits s).total_len ≡ false
  unfolding submit_bio
  submit_bio-total s e w small =
      rw (takes.not_injected (add32 s.issued 1), e, takes.no_error s.start s.len, submit_bio)
        (ground arith)

  rounds_add :
      (n : ℕ)
      → suc n * block.max_discard_blocks ≡ n * block.max_discard_blocks + block.max_discard_blocks
  rounds_add n = grind arith

  fits_one :
      (n : ℕ) (s : Submission)
      → IsOpen limits (suc n) s
      → leb s.len block.max_discard_blocks ≡ true
      → min s.total_len (suc n * block.max_discard_blocks) ≡ s.total_len
  fits_one n s o e = ground (arith, o.whole, rounds_add n)

  IsSent-whole :
      (n : ℕ) (s : Submission)
      → IsOpen limits (suc n) s
      → leb s.len block.max_discard_blocks ≡ true
      → IsSent s
          (submit_bios block limits (suc n) s)
          (min s.total_len (suc n * block.max_discard_blocks))
  unfolding submit_bios
  IsSent-whole n s o e =
      let busy : is_set s.total_len ≡ true = ground (arith, o.busy) in
      let clear : is_set s.err ≡ false = ground (arith, o.no_err) in
      let total_small : s.total_len < 2 ^ 32 = omega (arith, o.cmd_small) in
      let done =
        submit_bios-done n (submit_bio block limits s) (submit_bio-total s e o.whole total_small) in
      rw (busy, clear, done, submit_bios, fits_one n s o e) (submit_bio-whole n s o e)

  IsSent-part :
      (n : ℕ) (s : Submission)
      → IsOpen limits (suc n) s
      → (m : ℕ) → IsSent s (submit_bios block limits n (submit_bio block limits s)) m
      → m ≡ min s.total_len (suc n * block.max_discard_blocks)
      → IsSent s
          (submit_bios block limits (suc n) s)
          (min s.total_len (suc n * block.max_discard_blocks))
  unfolding submit_bios
  IsSent-part n s o m h e =
      let busy : is_set s.total_len ≡ true = ground (arith, o.busy) in
      let clear : is_set s.err ≡ false = ground (arith, o.no_err) in
      rw (busy, clear, submit_bios, sym e) h

  -- All the blocks of the command are sent, or as many as the requests that are left may take.
  pub submit_bios-IsSent :
      (n : ℕ) (s : Submission)
      → IsOpen limits (suc n) s
      → IsSent s
          (submit_bios block limits (suc n) s)
          (min s.total_len (suc n * block.max_discard_blocks))
  unfolding submit_bios
  submit_bios-IsSent zero s o = elim (Bool-cases (leb s.len block.max_discard_blocks)) [
    | inl e ↦ IsSent-whole zero s o e
    | inr e ↦
        IsSent-part zero s o block.max_discard_blocks (submit_bio-part zero s o e)
          (ground (arith, more zero s o e))
  ]
  submit_bios-IsSent (suc n) s o = elim (Bool-cases (leb s.len block.max_discard_blocks)) [
    | inl e ↦ IsSent-whole (suc n) s o e
    | inr e ↦
        let p = submit_bio-part (suc n) s o e in
        let open_ = submit_bio-IsOpen (suc n) s o e in
        let rest = submit_bios-IsSent n (submit_bio block limits s) open_ in
        let left : (submit_bio block limits s).total_len ≡ s.total_len - block.max_discard_blocks =
          sym open_.whole ∙ p.len in
        IsSent-part (suc n) s o _ (IsSent-trans p left rest)
          (rw left (ground (arith, more (suc n) s o e, rounds_add (suc n))))
  ]
