-- ===== src/Swod/Policy/Laws.antt =====
-- Bounds of the computed times.
use redisc.Base.{ℕ, ◌≤◌, ◌<◌, ◌^◌, arith}
use redisc.Swod.State.{Tunables, Sbi, wce_park_min_ms, wce_park_max_ms}
use redisc.Swod.Policy.{calc_hold_ms, calc_park_ms, calc_short_hold_ms, score_formation}

-- Where the configured minimum is at most the maximum, swod_calc_hold_ms returns a time between the
-- two.
calc_hold_ms_bounds :
    (t : Tunables) (len qbp lbp : ℕ)
    → t.swod_hold_min_ms ≤ t.swod_hold_max_ms
    → (t.swod_hold_min_ms ≤ calc_hold_ms t len qbp lbp)
      × (calc_hold_ms t len qbp lbp ≤ t.swod_hold_max_ms)
unfolding calc_hold_ms
calc_hold_ms_bounds t len qbp lbp h = ground arith

-- Whatever the tunables, swod_calc_park_ms returns a time from 500 to 2000 milliseconds.
calc_park_ms_bounds :
    (t : Tunables) (len qbp lbp : ℕ)
    → (wce_park_min_ms ≤ calc_park_ms t len qbp lbp)
      × (calc_park_ms t len qbp lbp ≤ wce_park_max_ms)
unfolding calc_park_ms
calc_park_ms_bounds t len qbp lbp = ground arith

-- Where the minimum is below the maximum and both fit in 32 bits, swod_calc_short_hold_ms returns a
-- time of at least the minimum and below the maximum, whatever the random number.
calc_short_hold_ms_bounds :
    (sbi : Sbi) (t : Tunables)
    → t.swod_short_hold_min_ms < t.swod_short_hold_max_ms
    → t.swod_short_hold_max_ms < 2 ^ 32
    → (t.swod_short_hold_min_ms ≤ calc_short_hold_ms sbi t)
      × (calc_short_hold_ms sbi t < t.swod_short_hold_max_ms)
unfolding calc_short_hold_ms
calc_short_hold_ms_bounds sbi t h h' = ground arith

-- Where each configured minimum is at most, and that of the short holds below, its maximum, which
-- fits in 32 bits, swod_calc_hold_ms returns a time between its minimum and its maximum,
-- swod_calc_park_ms one from 500 to 2000 milliseconds, and swod_calc_short_hold_ms one of at least
-- its minimum and below its maximum, whatever the random number.
pub calc_ms_bounds :
    (sbi : Sbi) (t : Tunables) (len qbp lbp : ℕ)
    → t.swod_hold_min_ms ≤ t.swod_hold_max_ms
    → t.swod_short_hold_min_ms < t.swod_short_hold_max_ms
    → t.swod_short_hold_max_ms < 2 ^ 32
    → (t.swod_hold_min_ms ≤ calc_hold_ms t len qbp lbp)
      × (calc_hold_ms t len qbp lbp ≤ t.swod_hold_max_ms)
      × (wce_park_min_ms ≤ calc_park_ms t len qbp lbp)
      × (calc_park_ms t len qbp lbp ≤ wce_park_max_ms)
      × (t.swod_short_hold_min_ms ≤ calc_short_hold_ms sbi t)
      × (calc_short_hold_ms sbi t < t.swod_short_hold_max_ms)
calc_ms_bounds sbi t len qbp lbp h s s' =
    let hold = calc_hold_ms_bounds t len qbp lbp h in
    let park = calc_park_ms_bounds t len qbp lbp in
    let short = calc_short_hold_ms_bounds sbi t s s' in
    (hold.0, hold.1, park.0, park.1, short.0, short.1)

-- The score fits its signed 32-bit type.
score_formation_bounds : (t : Tunables) (avg q c : ℕ) → score_formation t avg q c < 2 ^ 31
unfolding score_formation
score_formation_bounds t avg q c = ground arith
