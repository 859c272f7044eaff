-- ===== src/Gc/Scan/Units.antt =====
-- Whole numbers of units, and the last victims by their mode.
use native.Mathlib.Nat.{mod-lt, div-add-mod, mul-add-mod_self_left, mod-eq_of_lt}
use redisc.Base.{
  ℕ, zero, suc, ◌+◌, ◌*◌, ◌/◌, ◌%◌, ◌^◌, ◌≤◌, ◌<◌, ◌≡◌, refl, sym, ap, ◌∙◌, true, arith, is_set,
  add32,
}
use redisc.Gc.{CostMode, gc_cb, gc_greedy, gc_at}
use redisc.Gc.Scan.{set_of}

pub mul-le_of_le : (a b u : ℕ) → a ≤ b → a * u ≤ b * u
mul-le_of_le a b u h = grind arith

pub mul-lt_of_lt : (a b u : ℕ) → a < b → a * u + u ≤ b * u
mul-lt_of_lt a b u h = grind arith

pub add_one : (x u : ℕ) → (x + 1) * u ≡ x * u + u
add_one x u = grind arith

pub mod_units : (x n u : ℕ) → 0 < n → 0 < u → x * u % (n * u) ≡ x % n * u
mod_units x n u some_n some_u =
    let q = x / n in
    let r = x % n in
    let below : r * u < n * u = omega (arith, mul-lt_of_lt r n u (mod-lt x some_n), some_u) in
    let parts : x * u ≡ n * u * q + r * u =
      ap (λ (y : ℕ). y * u) (sym (div-add-mod x n)) ∙ grind arith in
    rw (parts) (mul-add-mod_self_left (n * u) q (r * u) ∙ mod-eq_of_lt below)

pub set_of_self : (mode : CostMode) (f : CostMode → ℕ) (x : ℕ) → set_of mode f x mode ≡ x
set_of_self gc_cb f x = refl
set_of_self gc_greedy f x = refl
set_of_self gc_at f x = refl

pub is_set-units : (l u : ℕ) → is_set (l * u) ≡ true → is_set l ≡ true
is_set-units zero u h = absurd (ground arith)
is_set-units (suc l) u h = ground arith

pub one_more :
    (units u : ℕ)
    → (units + 1) * u < 2 ^ 32
    → 0 < u
    → (x y : ℕ) {w : ℕ} → x ≤ units
    → y ≡ x * u
    → w < units
    → add32 y u % (units * u) ≡ (x + 1) % units * u
one_more units u small some_u x y h e some_units =
    let next : add32 y u ≡ (x + 1) * u =
      omega (arith, e, add_one x u, mul-le_of_le (x + 1) (units + 1) u (omega arith), small) in
    rw (next) (mod_units (x + 1) units u (omega arith) some_u)
