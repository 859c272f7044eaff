-- ===== src/Swod/Rebuild/Blocks.antt =====
-- Where the segments lie: the arithmetic of GET_SEGNO and START_BLOCK in the main area.
use redisc.Base.{ℕ, ◌+◌, ◌-◌, ◌*◌, ◌/◌, ◌^◌, ◌≤◌, ◌<◌, ◌≡◌, true, arith, add32, sub32}
use native.Mathlib.Nat.{one-le-pow}
use redisc.Swod.State.{Sbi}
use redisc.Swod.Lookup.{is_valid_data_blkaddr, segno_of, start_block}

-- The first block of a segment, without wrapping.
abbrev pub first_block : Sbi → ℕ → ℕ
first_block sbi s = sbi.seg0_blkaddr + (s + sbi.start_segno) * 2 ^ sbi.log_blocks_per_seg

-- `n` main segments end below the reserved addresses.
pub record FitsBlocks (sbi : Sbi) (n : ℕ) : Type 0 where
  pub above_null : sbi.null_addr < first_block sbi 0
  pub below_new : first_block sbi n ≤ sbi.new_addr
  pub below_compress : first_block sbi n ≤ sbi.compress_addr
  pub small : first_block sbi n < 2 ^ 32

pow_pos : (k : ℕ) → 0 < 2 ^ k
pow_pos k = omega (arith, one-le-pow k 2 (omega arith))

mul_mono : (a b p : ℕ) → a ≤ b → a * p ≤ b * p
mul_mono a b p h = grind arith

mul-step : (a p : ℕ) → (a + 1) * p ≡ a * p + p
mul-step a p = grind arith

le-mul : (a p : ℕ) → 0 < p → a ≤ a * p
le-mul a p h = grind arith

div-in : (x a p : ℕ) → 0 < p → a * p ≤ x → x < a * p + p → x / p ≡ a
div-in x a p h l u = grind arith

div-bounds : (x p : ℕ) → 0 < p → (x / p * p ≤ x) × (x < x / p * p + p)
div-bounds x p h = grind arith

lt-of-mul : (a b p : ℕ) → a * p < b * p → a < b
lt-of-mul a b p h = grind arith

module _ (sbi : Sbi) where
  pub first_mono : (a b : ℕ) → a ≤ b → first_block sbi a ≤ first_block sbi b
  first_mono a b h = omega (
    arith,
    mul_mono (a + sbi.start_segno) (b + sbi.start_segno) (2 ^ sbi.log_blocks_per_seg) (omega arith),
  )

  module _ {n : ℕ} (fits : FitsBlocks sbi n) where
    pub segments_small : n < 2 ^ 32
    segments_small = omega (
      arith,
      le-mul (n + sbi.start_segno) (2 ^ sbi.log_blocks_per_seg) (pow_pos sbi.log_blocks_per_seg),
      fits,
    )

    pub start_block-eq : (s : ℕ) → s ≤ n → start_block sbi s ≡ first_block sbi s
    unfolding start_block
    start_block-eq s h =
        let no_wrap : add32 s sbi.start_segno ≡ s + sbi.start_segno = omega (
          arith,
          first_mono s n h,
          le-mul (s + sbi.start_segno) (2 ^ sbi.log_blocks_per_seg)
              (pow_pos sbi.log_blocks_per_seg),
          fits,
        ) in
        rw no_wrap (omega (arith, first_mono s n h, fits))

    pub segno_of-eq :
        (s blk : ℕ)
        → s < n
        → first_block sbi s ≤ blk
        → blk < first_block sbi (s + 1)
        → segno_of sbi blk ≡ s
    unfolding segno_of
    segno_of-eq s blk h l u =
        let p = pow_pos sbi.log_blocks_per_seg in
        let step = mul-step (s + sbi.start_segno) (2 ^ sbi.log_blocks_per_seg) in
        let top = first_mono (s + 1) n (omega arith) in
        let bottom = first_mono 0 s (omega arith) in
        let valid : is_valid_data_blkaddr sbi blk ≡ true = ground (arith, fits) in
        let offset : sub32 blk sbi.seg0_blkaddr ≡ blk - sbi.seg0_blkaddr = omega (arith, fits) in
        let quotient : (blk - sbi.seg0_blkaddr) / 2 ^ sbi.log_blocks_per_seg ≡ s + sbi.start_segno =
          div-in (blk - sbi.seg0_blkaddr) (s + sbi.start_segno) (2 ^ sbi.log_blocks_per_seg) p
            (omega arith) (omega (arith, step)) in
        let low = le-mul (s + sbi.start_segno) (2 ^ sbi.log_blocks_per_seg) p in
        rw (valid, offset, quotient) (omega (arith, fits))

    -- Every block of the main area lies in a segment.
    pub segment_around :
        (blk : ℕ)
        → first_block sbi 0 ≤ blk
        → blk < first_block sbi n
        → (s : ℕ) × (s < n) × (first_block sbi s ≤ blk) × (blk < first_block sbi (s + 1))
    segment_around blk l u =
        let p = pow_pos sbi.log_blocks_per_seg in
        let x = blk - sbi.seg0_blkaddr in
        let b = div-bounds x (2 ^ sbi.log_blocks_per_seg) p in
        let q = x / 2 ^ sbi.log_blocks_per_seg in
        let step = mul-step q (2 ^ sbi.log_blocks_per_seg) in
        let from = lt-of-mul sbi.start_segno (q + 1) (2 ^ sbi.log_blocks_per_seg) (omega arith) in
        let below = lt-of-mul q (n + sbi.start_segno) (2 ^ sbi.log_blocks_per_seg) (omega arith) in
        let same : q - sbi.start_segno + sbi.start_segno ≡ q = omega arith in
        let same' : q - sbi.start_segno + 1 + sbi.start_segno ≡ q + 1 = omega arith in
        (q - sbi.start_segno, omega arith, rw same (omega arith), rw same' (omega arith))
