-- ===== src/Base/Arrays.antt =====
-- C arrays and bitmaps as functions of the index, and the loops that write a range of them.
use Prim.Native.Nat.{ℕ, zero, suc, ◌+◌, ◌%◌, ◌^◌, ◌<◌}
use mathlib.Core.Path.{◌≡◌}
use mathlib.Core.Bool.{Bool, ◌&&◌}
use native.Mathlib.Omega.{arith}
use redisc.Base.Tests.{ltb, leb, ◌==◌, if◌then◌else◌}
use redisc.Base.Words.{add32}

abbrev pub update {ℓ} : {A : Type ℓ} → (ℕ → A) → ℕ → A → ℕ → A
update f i a j = if i == j then a else f j

-- for (i = 0; i < n; i++) map[from + i] = b, with `from + i` in 32 bits.
unfoldable pub fill {ℓ} : {A : Type ℓ} → A → ℕ → ℕ → (ℕ → A) → ℕ → A
fill b zero from map = map
fill b (suc n) from map = fill b n (add32 from 1) (update map (from % 2 ^ 32) b)

abbrev pub in_range : ℕ → ℕ → ℕ → Bool
in_range from n s = leb from s && ltb s (from + n)

-- The loop writes exactly the indices of its range, as long as the range does not wrap.
pub fill_lem {ℓ} :
    {A : Type ℓ} (b : A) (n from : ℕ) (map : ℕ → A) (s : ℕ)
    → from + n < 2 ^ 32
    → fill b n from map s ≡ (if in_range from n s then b else map s)
unfolding fill
fill_lem b zero from map s h = ground arith
fill_lem b (suc n) from map s h =
    ground (arith, fill_lem b n (add32 from 1) (update map (from % 2 ^ 32) b) s)
