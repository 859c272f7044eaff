-- ===== src/Discard/Orderly/Quiet.antt =====
-- What a pass of `__issue_discard_cmd_orderly` is to achieve.
use redisc.Base.{
  ◌⊎◌, ℕ, ◌≤◌, ◌≡◌, refl, ◌∙◌, inl, inr, true, false, not, ◌&&◌, Bool-cases, List, [], ◌∷◌, arith,
  leb,
}
use redisc.Swod.Issue.{is_prep}
use redisc.Discard.{DiscardCmd, Control}
use redisc.Discard.Order.{
  pending-covers, AreSoundBefore-covers-false, AreSoundBefore, IsValid, covers, pending, rejoin,
  rejoin-pending,
}
use redisc.Discard.Orderly.{Pass}

-- No block from `pos` on is pending.
abbrev pub IsQuiet : ℕ → List DiscardCmd → Type 0
IsQuiet pos dcs = (b : ℕ) → (leb pos b && pending dcs b) ≡ false

-- The state stays valid and covers the same blocks, none of them is pending that was not, the
-- requests stay within the limit; and an interruption, the limit or the end of the work has ended
-- the pass.
pub record Passed (base : ℕ → ℕ) (limit pos : ℕ) (c : Control) (p : Pass) : Type 0 where
  pub valid : IsValid base p.control
  pub same : (b : ℕ) → covers p.control.root b ≡ covers c.root b
  pub shrinks : (b : ℕ) → (pending p.control.root b && not (pending c.root b)) ≡ false
  pub bounded : p.issued ≤ limit
  pub ends : (p.io_interrupted ≡ true) ⊎ (p.issued ≡ limit) ⊎ IsQuiet pos p.control.root

pub before-IsQuiet :
    (base : ℕ → ℕ) (hi pos : ℕ) (before : List DiscardCmd)
    → AreSoundBefore base hi before
    → hi ≤ pos
    → IsQuiet pos before
before-IsQuiet base hi pos before b h blk = elim (Bool-cases (leb pos blk)) [
  | inl from_pos ↦ ground (
    arith,
    pending-covers before blk,
    AreSoundBefore-covers-false base hi before blk b (ground arith),
  )
  | inr in_front ↦ rw (in_front) refl
]

-- Behind one more command that is not pending.
pub IsQuiet-add :
    (from : ℕ) (before : List DiscardCmd) (dc : DiscardCmd)
    → is_prep dc.state ≡ false
    → IsQuiet from before
    → IsQuiet from (dc ∷ before)
unfolding pending
IsQuiet-add from before dc e quiet b = ground (arith, e, quiet b)

pub rejoin-IsQuiet :
    (from : ℕ) (before : List DiscardCmd) → IsQuiet from before → IsQuiet from (rejoin before [])
unfolding pending
rejoin-IsQuiet from before quiet b = ground (arith, rejoin-pending before [] b, quiet b)

-- What a pass from one state on achieves, it achieves from a state before.
pub Passed-after :
    (base : ℕ → ℕ) (limit from : ℕ) (c c' : Control) (p : Pass)
    → ((b : ℕ) → covers c'.root b ≡ covers c.root b)
    → ((b : ℕ) → (pending c'.root b && not (pending c.root b)) ≡ false)
    → Passed base limit from c' p
    → Passed base limit from c p
Passed-after base limit from c c' p same shrinks h = record {
  valid = h.valid;
  same = λ b. h.same b ∙ same b;
  shrinks = λ b. ground (arith, h.shrinks b, shrinks b);
  bounded = h.bounded;
  ends = h.ends;
}
