-- ===== src/Swod/Search/Pieces.antt =====
-- The test for small pieces against the scale in which pieces are measured.
use redisc.Base.{ℕ, ◌*◌, ◌/◌, ◌≤◌, ◌<◌, ◌≡◌, ◌^◌, true, arith}
use redisc.Swod.State.{Tunables, bp_one}
use redisc.Swod.Search.{Sums, features_of, fragmented}

div-ge : (p n k : ℕ) → 0 < n → n ≤ p → k ≤ p * k / n
div-ge p n k h l = grind arith

-- With a limit on the mean piece below 10000, a positive minimum of commands, and at least a block
-- for each command, a window passes the test for fragments only if the scaled mean does not fit in
-- 16 bits.
pub fragmented-wraps :
    (t : Tunables) (cap : ℕ) (s : Sums)
    → t.swod_frag_max_avg_piece_blks < bp_one
    → 0 < t.swod_frag_min_cmds
    → s.ncmds ≤ s.pend
    → fragmented t (features_of cap s) ≡ true
    → 2 ^ 16 ≤ s.pend * bp_one / s.ncmds
fragmented-wraps t cap s small some_cmds blocks e = ground (arith, div-ge s.pend s.ncmds bp_one)
