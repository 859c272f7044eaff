-- ===== src/Gc/Scan/Bits.antt =====
-- The search for the next bit.
use redisc.Base.{
  ℕ, zero, suc, ◌+◌, ◌-◌, ◌≤◌, ◌<◌, ◌≡◌, ◌⊎◌, refl, inl, inr, Bool, Bool-cases, true, arith, leb,
}
use redisc.Gc.Scan.{next_bit, find_next_bit}

-- The next bit is set and in range, unless it is the size.
pub record IsNext (bits : ℕ → Bool) (size start u : ℕ) : Type 0 where
  pub lower : u < size → start ≤ u
  pub upper : u ≤ size
  pub found : (u ≡ size) ⊎ (bits u ≡ true)

next_bit-IsNext : (bits : ℕ → Bool) (n u : ℕ) → IsNext bits (u + n) u (next_bit bits n u)
unfolding next_bit
next_bit-IsNext bits zero u = record {
  lower = λ h. omega arith;
  upper = omega arith;
  found = inl (omega arith);
}
next_bit-IsNext bits (suc n) u = elim (Bool-cases (bits u)) [
  | inl hit ↦
      rw (hit, next_bit) (record { lower = λ h. omega arith; upper = omega arith; found = inr hit })
  | inr miss ↦
      let r = next_bit-IsNext bits n (u + 1) in
      rw (miss, next_bit)
        (record {
          lower = λ h. omega (arith, r.lower (omega arith));
          upper = omega (arith, r.upper);
          found = elim r.found [ inl e ↦ inl (omega (arith, e)) | inr b ↦ inr b ];
        })
]

pub find_next_bit-IsNext :
    (bits : ℕ → Bool) (size start : ℕ) → IsNext bits size start (find_next_bit bits size start)
unfolding find_next_bit
find_next_bit-IsNext bits size start = elim (Bool-cases (leb size start)) [
  | inl end ↦
      rw (end, find_next_bit)
        (record { lower = λ h. absurd (omega arith); upper = omega arith; found = inl refl })
  | inr more ↦
      let r = next_bit-IsNext bits (size - start) start in
      let whole : start + (size - start) ≡ size = ground arith in
      rw (more, find_next_bit)
        (record {
          lower = λ h. r.lower (omega (arith, h));
          upper = omega (arith, r.upper);
          found = elim r.found [ inl e ↦ inl (omega (arith, e)) | inr b ↦ inr b ];
        })
]

pub find_next_bit-behind :
    (bits : ℕ → Bool) (size start : ℕ) → size ≤ start → find_next_bit bits size start ≡ size
unfolding find_next_bit
find_next_bit-behind bits size start h =
    let end : leb size start ≡ true = ground arith in rw (end, find_next_bit) refl
