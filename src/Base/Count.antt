-- ===== src/Base/Count.antt =====
-- How many of the first `n` entries of an array pass a test.
use Prim.Native.Nat.{ℕ, zero, suc, ◌+◌, ◌≤◌, ◌<◌}
use mathlib.Core.Path.{◌≡◌, refl}
use mathlib.Core.Bool.{Bool, true, false}
use native.Mathlib.Omega.{arith}
use redisc.Base.Tests.{◌==◌, Bool-cases}
use redisc.Base.Arrays.{update}
use mathlib.Core.Logic.{inl, inr}

abbrev pub bit : Bool → ℕ
bit true = 1
bit false = 0

module _ {ℓ} {A : Type ℓ} (p : A → Bool) where
  pub count : ℕ → (ℕ → A) → ℕ
  count zero f = 0
  count (suc n) f = count n f + bit (p (f n))

  pub count-update_above :
      (n : ℕ) (f : ℕ → A) (i : ℕ) (a : A) → n ≤ i → count n (update f i a) ≡ count n f
  unfolding count
  count-update_above zero f i a h = refl
  count-update_above (suc n) f i a h = ground (arith, count-update_above n f i a)

  -- A write changes the count by the entry that it replaces and the one that it puts in.
  pub count-update :
      (n : ℕ) (f : ℕ → A) (i : ℕ) (a : A)
      → i < n
      → count n (update f i a) + bit (p (f i)) ≡ count n f + bit (p a)
  unfolding count
  count-update zero f i a h = absurd (omega arith)
  count-update (suc n) f i a h = elim (Bool-cases (i == n)) [
    | inl last ↦ ground (arith, count-update_above n f i a)
    | inr below ↦ ground (arith, count-update n f i a)
  ]

  pub count-le : (n : ℕ) (f : ℕ → A) → count n f ≤ n
  unfolding count
  count-le zero f = omega arith
  count-le (suc n) f = ground (arith, count-le n f)

  pub count-pos : (n : ℕ) (f : ℕ → A) (i : ℕ) → i < n → p (f i) ≡ true → 0 < count n f
  unfolding count
  count-pos zero f i h e = absurd (omega arith)
  count-pos (suc n) f i h e = elim (Bool-cases (i == n)) [
    | inl last ↦ ground arith
    | inr below ↦ ground (arith, count-pos n f i)
  ]

  pub count-eq-zero : (n : ℕ) (f : ℕ → A) → ((i : ℕ) → i < n → p (f i) ≡ false) → count n f ≡ 0
  unfolding count
  count-eq-zero zero f h = refl
  count-eq-zero (suc n) f h = ground (arith, h n, count-eq-zero n f (λ i l. h i (omega arith)))
