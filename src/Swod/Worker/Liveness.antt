-- ===== src/Swod/Worker/Liveness.antt =====
-- What the guard of the background evaluation does: `atomic_cmpxchg` returns the old value, 0 on
-- success, and the guard leaves on 0.
use redisc.Base.{ℕ, ◌≡◌, ◌⊎◌, inl, inr, true, false, none, arith, ◌==◌}
use redisc.Swod.State.{Ctrl, Sbi, Tunables}
use redisc.Swod.Search.{Stale}
use redisc.Swod.Lookup.{is_some}
use redisc.Swod.Worker.{eval_work_ctrl, queue_eval_ctrl}

-- What can happen to the control block: the discard path asks for an evaluation, the workqueue runs
-- work that is queued, the work is cancelled, or some other operation runs, none of which touches
-- the flag or the queue.
pub data Step (sbi : Sbi) (t : Tunables) (stale : ℕ → Stale) (sw sw' : Ctrl) : Type 0 where
  queue : sw' ≡ queue_eval_ctrl sbi sw → Step sbi t stale sw sw'
  fire :
      is_some sw.work_pending ≡ true → sw' ≡ eval_work_ctrl sbi t stale sw → Step sbi t stale sw sw'
  cancel : sw' ≡ record sw { work_pending = none } → Step sbi t stale sw sw'
  other :
      sw'.eval_running ≡ sw.eval_running
      → sw'.work_pending ≡ sw.work_pending
      → Step sbi t stale sw sw'

pub data Reach (sbi : Sbi) (t : Tunables) (stale : ℕ → Stale) (sw : Ctrl) : Ctrl → Type 0 where
  here : Reach sbi t stale sw sw
  next : {a b : Ctrl} → Reach sbi t stale sw a → Step sbi t stale a b → Reach sbi t stale sw b

-- Work is queued only while the flag is 0.
abbrev IsIdle : Ctrl → Type 0
IsIdle sw = (sw.eval_running ≡ 0) ⊎ (is_some sw.work_pending ≡ false)

module _ (sbi : Sbi) (t : Tunables) (stale : ℕ → Stale) where
  -- A run that finds the flag 0 sets it, and returns.
  pub fire_at_zero :
      (sw : Ctrl)
      → sw.eval_running ≡ 0
      → eval_work_ctrl sbi t stale sw ≡ record sw { work_pending = none; eval_running = 1 }
  unfolding eval_work_ctrl
  fire_at_zero sw e = let e' : (sw.eval_running == 0) ≡ true = ground arith in rw e'

  Step-IsIdle : {a b : Ctrl} → IsIdle a → Step sbi t stale a b → IsIdle b
  unfolding queue_eval_ctrl
  Step-IsIdle i (queue e) = ground arith
  Step-IsIdle {a} i (fire p e) = ground (arith, fire_at_zero a)
  Step-IsIdle i (cancel e) = ground arith
  Step-IsIdle i (other e e') = ground arith

  Reach-IsIdle : {a b : Ctrl} → IsIdle a → Reach sbi t stale a b → IsIdle b
  Reach-IsIdle i here = i
  Reach-IsIdle i (next r s) = Step-IsIdle (Reach-IsIdle i r) s

  IsStuck-Step :
      {a b : Ctrl}
      → (a.eval_running ≡ 1) × (is_some a.work_pending ≡ false)
      → Step sbi t stale a b
      → (b.eval_running ≡ 1) × (is_some b.work_pending ≡ false)
  unfolding queue_eval_ctrl
  IsStuck-Step i (queue e) = ground arith
  IsStuck-Step i (fire p e) = cc
  IsStuck-Step i (cancel e) = ground arith
  IsStuck-Step i (other e e') = ground arith

  worker_stops :
      (a b : Ctrl)
      → (a.eval_running ≡ 1) × (is_some a.work_pending ≡ false)
      → Reach sbi t stale a b
      → (b.eval_running ≡ 1) × (is_some b.work_pending ≡ false)
  worker_stops a b i here = i
  worker_stops a b i (next r s) = IsStuck-Step (worker_stops a _ i r) s

  -- After every history of requests, runs, cancellations and other operations that starts with the
  -- flag at 0 or with nothing queued, a run of queued work evaluates no group: it only sets the
  -- flag and leaves the queue empty; and every history after it leads to states in which the flag
  -- is 1 and nothing is queued.
  pub worker_never_evaluates :
      (a b : Ctrl)
      → (a.eval_running ≡ 0) ⊎ (is_some a.work_pending ≡ false)
      → Reach sbi t stale a b
      → is_some b.work_pending ≡ true
      → (eval_work_ctrl sbi t stale b ≡ record b { work_pending = none; eval_running = 1 })
        × ((c : Ctrl)
            → Reach sbi t stale (eval_work_ctrl sbi t stale b) c
            → (c.eval_running ≡ 1) × (is_some c.work_pending ≡ false))
  worker_never_evaluates a b i r p =
      let e = fire_at_zero b (elim (Reach-IsIdle i r) [ inl e ↦ e | inr e ↦ cc ]) in
      (e, λ c r'. worker_stops _ c (ground (arith, e)) r')
