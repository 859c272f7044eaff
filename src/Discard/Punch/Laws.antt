-- ===== src/Discard/Punch/Laws.antt =====
-- The punch of a block against the set of blocks that the commands cover.
use redisc.Base.{
  ℕ, ◌+◌, ◌≤◌, ◌<◌, ◌≡◌, refl, sym, ap, ◌∙◌, inl, inr, true, false, not, ◌&&◌, ◌||◌, Bool-cases,
  Option, some, none, List, [], ◌∷◌, ◌++◌, arith, ◌==◌, u16,
}
use redisc.Swod.State.{Sbi}
use redisc.Swod.Issue.{is_prep}
use redisc.Discard.{DiscardCmd, Totals, Control}
use redisc.Discard.Order.{
  covers-append, AreSound-covers-false, AreSoundBefore-covers-false, pending, pending-covers,
  rejoin-pending, covers, total_len, length, Counts, Counts-eq, IsValid, rejoin, rejoin-AreSound,
  rejoin-covers, rejoin-total_len, rejoin-length,
}
use redisc.Discard.Punch.{Position, lookup_rb_tree, wait_discard_at, wait_discard_bio}
use redisc.Discard.Punch.Found.{Holds, Finds, lookup_rb_tree-Finds}
use redisc.Discard.Punch.Cases.{IsPunch, punch_discard_cmd-IsPunch}

pending-append :
    (xs ys : List DiscardCmd) (blk : ℕ)
    → pending (xs ++ ys) blk ≡ (pending xs blk || pending ys blk)
unfolding pending
pending-append [] ys blk = refl
pending-append (x ∷ xs) ys blk = ground (arith, pending-append xs ys blk)

total_len-append : (xs ys : List DiscardCmd) → total_len (xs ++ ys) ≡ total_len xs + total_len ys
unfolding total_len
total_len-append [] ys = omega arith
total_len-append (x ∷ xs) ys = omega (arith, total_len-append xs ys)

length-append : (xs ys : List DiscardCmd) → length (xs ++ ys) ≡ length xs + length ys
length-append [] ys = omega arith
length-append (x ∷ xs) ys = omega (arith, length-append xs ys)

module _ (base : ℕ → ℕ) (root : List DiscardCmd) (blk : ℕ) (t : Totals) (at : Position)
    (h : Holds base root blk at) (r : Control) (p : IsPunch base at t blk r) where
  IsPunch-covers : (b : ℕ) → covers r.root b ≡ (covers root b && not (b == blk))
  unfolding covers
  IsPunch-covers b =
      rw (p.root, sym h.same)
        (ground (
          arith,
          rejoin-covers at.before (p.here ++ at.after) b,
          covers-append p.here at.after b,
          rejoin-covers at.before (at.dc ∷ at.after) b,
          p.covered b,
          AreSoundBefore-covers-false base at.dc.lstart at.before b h.before,
          AreSound-covers-false base (at.dc.lstart + at.dc.len) at.after b h.after,
          h.lower,
          h.upper,
        ))

  IsPunch-pending :
      is_prep at.dc.state ≡ true → (b : ℕ) → pending r.root b ≡ (pending root b && not (b == blk))
  unfolding pending
  IsPunch-pending prep b =
      let none_before : pending at.before b ≡ true → b < at.dc.lstart = ground (
        arith,
        pending-covers at.before b,
        AreSoundBefore-covers-false base at.dc.lstart at.before b h.before,
      ) in
      let none_after : pending at.after b ≡ true → at.dc.lstart + at.dc.len ≤ b = ground (
        arith,
        pending-covers at.after b,
        AreSound-covers-false base (at.dc.lstart + at.dc.len) at.after b h.after,
      ) in
      rw (p.root, sym h.same)
        (ground (
          arith,
          rejoin-pending at.before (p.here ++ at.after) b,
          pending-append p.here at.after b,
          rejoin-pending at.before (at.dc ∷ at.after) b,
          p.pended b ∙ p.covered b,
          h.lower,
          h.upper,
        ))

  IsPunch-IsValid : Counts t (total_len root) (length root) → IsValid base r
  unfolding total_len
  IsPunch-IsValid c = record {
    sound =
        rw p.root
          (rejoin-AreSound base at.dc.lstart at.before (p.here ++ at.after) h.before p.sound);
    counted = rw p.root (
        Counts-eq r.totals
          (omega (
            arith,
            rejoin-total_len at.before (p.here ++ at.after),
            total_len-append p.here at.after,
          ))
          (omega
            (arith, rejoin-length at.before (p.here ++ at.after), length-append p.here at.after))
          (p.counted (total_len at.before + total_len at.after) (length at.before + length at.after)
            (Counts-eq t
              (ap total_len (sym h.same)
                ∙ rejoin-total_len at.before (at.dc ∷ at.after)
                ∙ omega arith)
              (ap length (sym h.same) ∙ rejoin-length at.before (at.dc ∷ at.after) ∙ omega arith)
              c)));
  }

module _ (base : ℕ → ℕ) (root : List DiscardCmd) (blk : ℕ) (t : Totals) (at : Position)
    (h : Holds base root blk at) where
  abbrev waiter : DiscardCmd
  waiter = record (at.dc) { ref = u16 (at.dc.ref + 1) }

  abbrev waited : Control
  waited = record { root = rejoin at.before (waiter ∷ at.after); totals = t }

  waited-covers : (b : ℕ) → covers waited.root b ≡ covers root b
  unfolding covers
  waited-covers b =
      rejoin-covers at.before (waiter ∷ at.after) b
      ∙ sym (rejoin-covers at.before (at.dc ∷ at.after) b)
      ∙ ap (λ dcs. covers dcs b) h.same

  waited-pending : (b : ℕ) → pending waited.root b ≡ pending root b
  unfolding pending
  waited-pending b =
      rejoin-pending at.before (waiter ∷ at.after) b
      ∙ sym (rejoin-pending at.before (at.dc ∷ at.after) b)
      ∙ ap (λ dcs. pending dcs b) h.same

  waited-IsValid : Counts t (total_len root) (length root) → IsValid base waited
  unfolding total_len
  waited-IsValid c = record {
    sound = rejoin-AreSound base at.dc.lstart at.before (waiter ∷ at.after) h.before (
      omega arith,
      record {
        filled = h.sound.filled;
        small = h.sound.small;
        mapped = h.sound.mapped;
        idle = h.sound.idle;
        filed = h.sound.filed;
      },
      h.after,
    );
    counted =
        Counts-eq t
          (ap total_len (sym h.same)
            ∙ rejoin-total_len at.before (at.dc ∷ at.after)
            ∙ sym (rejoin-total_len at.before (waiter ∷ at.after)))
          (ap length (sym h.same)
            ∙ rejoin-length at.before (at.dc ∷ at.after)
            ∙ sym (rejoin-length at.before (waiter ∷ at.after)))
          c;
  }

module _ (sbi : Sbi) (base : ℕ → ℕ) (blk : ℕ) (c : Control) (v : IsValid base c) where
  found : Finds base c.root blk (lookup_rb_tree blk [] c.root)
  unfolding rejoin
  found = lookup_rb_tree-Finds base blk 0 [] c.root tt v.sound (omega arith)

  wait_discard_at-covers :
      (o : Option Position)
      → Finds base c.root blk o
      → (b : ℕ)
      → let (c', waits) = wait_discard_at sbi blk c o in
        covers c'.root b ≡ (covers c.root b && (waits || not (b == blk)))
  unfolding wait_discard_at
  wait_discard_at-covers none f b = elim (Bool-cases (b == blk)) [
    | inl same ↦ let e : b ≡ blk = ground arith in rw (e, f) refl
    | inr other ↦ rw other (ground arith)
  ]
  wait_discard_at-covers (some at) f b = elim (Bool-cases (is_prep at.dc.state)) [
    | inl prep ↦
        rw (prep, wait_discard_at)
          (IsPunch-covers base c.root blk c.totals at f _
            (punch_discard_cmd-IsPunch sbi base c.root blk c.totals at.before at.dc at.after f prep)
            b)
    | inr busy ↦
        rw (busy, wait_discard_at) (waited-covers base c.root blk c.totals at f b ∙ ground arith)
  ]

  wait_discard_at-pending :
      (o : Option Position)
      → Finds base c.root blk o
      → (b : ℕ)
      → let (c', waits) = wait_discard_at sbi blk c o in
        pending c'.root b ≡ (pending c.root b && (waits || not (b == blk)))
  unfolding wait_discard_at
  wait_discard_at-pending none f b = elim (Bool-cases (b == blk)) [
    | inl same ↦
        let e : b ≡ blk = ground arith in
        let out : pending c.root blk ≡ false = ground (arith, pending-covers c.root blk) in
        rw (e, out) refl
    | inr other ↦ rw other (ground arith)
  ]
  wait_discard_at-pending (some at) f b = elim (Bool-cases (is_prep at.dc.state)) [
    | inl prep ↦
        rw (prep, wait_discard_at)
          (IsPunch-pending base c.root blk c.totals at f _
            (punch_discard_cmd-IsPunch sbi base c.root blk c.totals at.before at.dc at.after f prep)
            prep b)
    | inr busy ↦
        rw (busy, wait_discard_at) (waited-pending base c.root blk c.totals at f b ∙ ground arith)
  ]

  wait_discard_at-IsValid :
      (o : Option Position) → Finds base c.root blk o → IsValid base (wait_discard_at sbi blk c o).0
  unfolding wait_discard_at
  wait_discard_at-IsValid none f = v
  wait_discard_at-IsValid (some at) f = elim (Bool-cases (is_prep at.dc.state)) [
    | inl prep ↦
        rw (prep, wait_discard_at)
          (IsPunch-IsValid base c.root blk c.totals at f _
            (punch_discard_cmd-IsPunch sbi base c.root blk c.totals at.before at.dc at.after f prep)
            v.counted)
    | inr busy ↦ rw (busy, wait_discard_at) (waited-IsValid base c.root blk c.totals at f v.counted)
  ]

  wait_discard_bio-covers :
      (b : ℕ)
      → let (c', waits) = wait_discard_bio sbi blk c in
        covers c'.root b ≡ (covers c.root b && (waits || not (b == blk)))
  unfolding wait_discard_bio
  wait_discard_bio-covers b = wait_discard_at-covers _ found b

  wait_discard_bio-pending :
      (b : ℕ)
      → let (c', waits) = wait_discard_bio sbi blk c in
        pending c'.root b ≡ (pending c.root b && (waits || not (b == blk)))
  unfolding wait_discard_bio
  wait_discard_bio-pending b = wait_discard_at-pending _ found b

  wait_discard_bio-IsValid : IsValid base (wait_discard_bio sbi blk c).0
  unfolding wait_discard_bio
  wait_discard_bio-IsValid = wait_discard_at-IsValid _ found

  -- From a valid state, f2fs_wait_discard_bio for a block, up to where it leaves the lock, ends in
  -- a valid state; if it does not go on to wait, the commands cover, and those that are pending
  -- cover, the same blocks but this one; if it goes on to wait, the same blocks.
  pub wait_discard_bio-refines :
      let (c', waits) = wait_discard_bio sbi blk c in
      IsValid base c'
      × ((b : ℕ)
          → (covers c'.root b ≡ (covers c.root b && (waits || not (b == blk))))
            × (pending c'.root b ≡ (pending c.root b && (waits || not (b == blk)))))
  wait_discard_bio-refines =
      (wait_discard_bio-IsValid, λ b. (wait_discard_bio-covers b, wait_discard_bio-pending b))
