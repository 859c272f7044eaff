-- ===== src/Swod/Search/Bounds.antt =====
-- The bounds of what the search of `swod_eval_group_locked` finds.
use redisc.Base.{
  ℕ, zero, suc, ◌+◌, ◌-◌, ◌≤◌, ◌<◌, ◌≡◌, min, inl, inr, true, Bool-cases, arith, sub32, ltb, ◌==◌,
  ◌*◌,
}
use redisc.Swod.State.{Ctrl, Sbi, Tunables, GroupHint}
use redisc.Swod.Search.{
  Stale, Best, Found, Round, no_best, try_short, try_complete, try_window, scan_lens, scan_offs,
  search_windows, pend_prefix,
}

-- What is found is not empty, ends within `n` segments and is at most `m` long.
abbrev pub IsWindow : ℕ → ℕ → Best → Type 0
IsWindow n m b = b.found ≡ true → (0 < b.len) × (b.off + b.len ≤ n) × (b.len ≤ m)

abbrev pub AreWindows : ℕ → ℕ → Found → Type 0
AreWindows n m f = IsWindow n m f.short × IsWindow n m f.complete

abbrev RoundFits : ℕ → ℕ → Round → Type 0
RoundFits n m r = (0 < r.at_len) × (r.at_off + r.at_len ≤ n) × (r.at_len ≤ m)

try_short-IsWindow :
    (t : Tunables) (g : GroupHint) (n m : ℕ) (r : Round) (b : Best)
    → RoundFits n m r
    → IsWindow n m b
    → IsWindow n m (try_short t g r b)
unfolding try_short
try_short-IsWindow t g n m r b fit w = ground arith

try_complete-IsWindow :
    (t : Tunables) (n m : ℕ) (r : Round) (b : Best)
    → RoundFits n m r
    → IsWindow n m b
    → IsWindow n m (try_complete t r b)
unfolding try_complete
try_complete-IsWindow t n m r b fit w = ground arith

module _ (sbi : Sbi) (t : Tunables) (stale : Stale) (sw : Ctrl) (gid first n m : ℕ) where
  try_window-AreWindows :
      (off len oldest : ℕ) (f : Found)
      → (0 < len) × (off + len ≤ n) × (len ≤ m)
      → AreWindows n m f
      → AreWindows n m (try_window sbi t stale sw gid first n m off len oldest f)
  unfolding try_window
  try_window-AreWindows off len oldest f fit w =
      elim (Bool-cases (
        sub32 (pend_prefix sw first (off + len)) (pend_prefix sw first off)
        == len * sbi.blocks_per_seg)) [
          | inl ready ↦ rw ready w
          | inr open_ ↦ elim (Bool-cases (ltb t.swod_lres_thr_bp (stale.lbp_at off len))) [
            | inl live ↦ rw (open_, live) w
            | inr clean ↦
                rw (open_, clean)
                  (
                    try_short-IsWindow t (sw.grp_hint gid) n m _ f.short fit w.0,
                    try_complete-IsWindow t n m _ f.complete fit w.1,
                  )
          ]
        ]

  scan_lens-AreWindows :
      (k off len oldest : ℕ) (f : Found)
      → 0 < len
      → off + len + k ≤ n + 1
      → len + k ≤ m + 1
      → AreWindows n m f
      → AreWindows n m (scan_lens sbi t stale sw gid first n m k off len oldest f)
  unfolding scan_lens
  scan_lens-AreWindows zero off len oldest f p q r w = w
  scan_lens-AreWindows (suc k) off len oldest f p q r w =
      scan_lens-AreWindows k off (len + 1) _ _ (omega arith) (omega arith) (omega arith)
        (try_window-AreWindows off len _ f (omega arith) w)

  scan_offs-AreWindows :
      (k off : ℕ) (f : Found)
      → off + k ≤ n
      → AreWindows n m f
      → AreWindows n m (scan_offs sbi t stale sw gid first n m k off f)
  unfolding scan_offs
  scan_offs-AreWindows zero off f q w = w
  scan_offs-AreWindows (suc k) off f q w =
      scan_offs-AreWindows k (off + 1) _ (omega arith) (
        scan_lens-AreWindows (min m (n - off)) off 1 0 f (omega arith) (omega arith) (omega arith)
          w)

  -- The search finds windows of the group that are no longer than the mode allows.
  pub search_windows-AreWindows : AreWindows n m (search_windows sbi t stale sw gid first n m)
  unfolding search_windows
  search_windows-AreWindows =
      scan_offs-AreWindows n 0 (record { short = no_best; complete = no_best }) (omega arith)
        (λ e. cc, λ e. cc)
