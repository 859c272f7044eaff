-- ===== src/Discard/Orderly/Laws.antt =====
-- A pass of `__issue_discard_cmd_orderly` from its position on.
use redisc.Base.{
  ℕ, ◌+◌, ◌^◌, ◌<◌, ◌≡◌, ap, sym, subst, inl, inr, Bool, false, Bool-cases, List, [], ◌∷◌, arith,
  ltb, add32,
}
use redisc.Swod.State.{Sbi}
use redisc.Discard.{DiscardCmd, Control}
use redisc.Discard.Order.{AreSound-weaken, AreSound, AreSoundBefore, IsValid, rejoin}
use redisc.Discard.Range.{lookup_ret}
use redisc.Discard.Range.Split.{StartsBy, IsSplit, lookup_ret-IsSplit}
use redisc.Discard.Range.Fill.{reach}
use redisc.Discard.Submit.{Block}
use redisc.Discard.Submit.Bios.{TakesAll}
use redisc.Discard.Policy.{Policy}
use redisc.Discard.Orderly.{issue_from, start_at, issue_discard_cmd_orderly}
use redisc.Discard.Orderly.Quiet.{before-IsQuiet, Passed}
use redisc.Discard.Orderly.Loop.{issue_from-Passed}

module _ (sbi : Sbi) (base : ℕ → ℕ) (block : Block) (takes : TakesAll block)
    (no_fsck : block.need_fsck ≡ false) (policy : Policy) (some_requests : 0 < policy.max_requests)
    (few : policy.max_requests < 2 ^ 32) (is_idle : DiscardCmd → Bool) (pos : ℕ) (c : Control) where
  start_at-Passed :
      (before after : List DiscardCmd)
      → StartsBy pos before
      → AreSoundBefore base (reach pos before) before
      → AreSound base (reach pos before) after
      → IsValid base (record { root = rejoin before after; totals = c.totals })
      → let (before', after') = start_at pos (before, after) in
        Passed base policy.max_requests pos
          (record { root = rejoin before after; totals = c.totals })
          (issue_from sbi block policy is_idle before' after' 0 pos c.totals)
  unfolding rejoin
  start_at-Passed [] after s b a v =
      issue_from-Passed sbi base block takes no_fsck policy few is_idle pos [] after pos 0 pos
        c.totals b a v some_requests (before-IsQuiet base pos pos [] tt (omega arith))
  start_at-Passed (prev ∷ before) after s b a v =
      elim (Bool-cases (ltb pos (add32 prev.lstart prev.len))) [
        | inl holds ↦ rw (holds) (
            issue_from-Passed sbi base block takes no_fsck policy few is_idle pos before
              (prev ∷ after) prev.lstart 0 pos c.totals b.2
              (omega arith, b.1, AreSound-weaken base _ _ after (ground arith) a) v some_requests
              (before-IsQuiet base prev.lstart pos before b.2 s))
        | inr past ↦ rw (past) (
            issue_from-Passed sbi base block takes no_fsck policy few is_idle pos (prev ∷ before)
              after (reach pos (prev ∷ before)) 0 pos c.totals b a v some_requests
              (before-IsQuiet base (prev.lstart + prev.len) pos (prev ∷ before)
                (omega arith, b.1, b.2) (ground (arith, b.1.small))))
      ]

  -- Where the file system needs no check, the block layer takes every request, the limit of the
  -- device is not 0 and the policy allows at least one request, __issue_discard_cmd_orderly ends
  -- from a valid state in a valid state, whose commands cover the same blocks, of which none is
  -- pending that was not before; it issues no more requests than the policy allows; and either it
  -- was interrupted, or it has issued all of them, or no block from its start position on is
  -- pending any more.
  pub issue_discard_cmd_orderly-Passed :
      IsValid base c
      → Passed base policy.max_requests pos c
          (issue_discard_cmd_orderly sbi block policy is_idle pos c).0
  unfolding issue_discard_cmd_orderly rejoin
  issue_discard_cmd_orderly-Passed v =
      let p : IsSplit base pos c.root (lookup_ret pos [] c.root) =
        lookup_ret-IsSplit base pos 0 [] c.root tt tt v.sound in
      let same : record {
        root = rejoin (lookup_ret pos [] c.root).0 (lookup_ret pos [] c.root).1;
        totals = c.totals;
      }
          ≡ c =
        ap (λ dcs. record { root = dcs; totals = c.totals }) p.same in
      subst
        (λ d.
          Passed base policy.max_requests pos d
            (issue_discard_cmd_orderly sbi block policy is_idle pos c).0)
        same
        (start_at-Passed (lookup_ret pos [] c.root).0 (lookup_ret pos [] c.root).1 p.starts p.before
          p.after (subst (IsValid base) (sym same) v))
