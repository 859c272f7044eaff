-- ===== src/Swod/Rebuild/Pending.antt =====
-- The cut of the commands into segments, and the pending blocks that it counts.
use redisc.Base.{
  ℕ, zero, suc, ◌+◌, ◌-◌, ◌^◌, ◌≤◌, ◌<◌, ◌≡◌, refl, ◌∙◌, inl, inr, min, max, true, Bool-cases, List,
  [], ◌∷◌, arith, ltb, ◌==◌, if◌then◌else◌, add32, sub32, update,
}
use redisc.Swod.State.{Sbi, SegHint}
use redisc.Swod.Lookup.{start_block}
use redisc.Swod.Issue.{Cmd, is_prep}
use redisc.Swod.Rebuild.{add_piece, add_cmd, scan_cmds}
use redisc.Swod.Rebuild.Blocks.{
  first_block, FitsBlocks, segments_small, first_mono, start_block-eq, segno_of-eq, segment_around,
}
use redisc.Swod.Rebuild.Search.{AreDisjoint}

-- How many of the blocks from `from` to `to` lie in segment `s`.
abbrev pub overlap : Sbi → ℕ → ℕ → ℕ → ℕ
overlap sbi s from to = min to (first_block sbi (s + 1)) - max from (first_block sbi s)

-- How many blocks of segment `s` the pending commands cover.
unfoldable pub pending_in : Sbi → ℕ → List Cmd → ℕ
pending_in sbi s [] = 0
pending_in sbi s (dc ∷ dcs) =
    (if is_prep dc.state then overlap sbi s dc.lstart (dc.lstart + dc.len) else 0)
    + pending_in sbi s dcs

-- One round of the cut takes the blocks up to the end of the segment that it is in.
pub overlap-split :
    (sbi : Sbi) (g s cur to : ℕ)
    → first_block sbi g ≤ cur
    → cur < first_block sbi (g + 1)
    → cur < to
    → overlap sbi s cur to
      ≡ (if g == s then min to (first_block sbi (g + 1)) - cur else 0)
        + overlap sbi s (min to (first_block sbi (g + 1))) to
overlap-split sbi g s cur to l u h = elim (Bool-cases (g == s)) [
  | inl same ↦ let e : g ≡ s = ground arith in rw (same, ← e) (omega arith)
  | inr other ↦ elim (Bool-cases (ltb g s)) [
    | inl before ↦ rw other (omega (arith, first_mono sbi (g + 1) s (ground arith)))
    | inr behind ↦ rw other (omega (arith, first_mono sbi (s + 1) g (ground arith)))
  ]
]

pend-update :
    (hints : ℕ → SegHint) (g s piece enq : ℕ)
    → (hints s).pend_blks + (if g == s then piece else 0) < 2 ^ 32
    → (update hints g (add_piece piece enq (hints g)) s).pend_blks
      ≡ (hints s).pend_blks + (if g == s then piece else 0)
pend-update hints g s piece enq small = elim (Bool-cases (g == s)) [
  | inl same ↦ let e : g ≡ s = ground arith in rw (same, e) (ground arith)
  | inr other ↦ rw other (omega arith)
]

module _ (sbi : Sbi) {n : ℕ} (fits : FitsBlocks sbi n) where
  -- The end of the piece that a round takes, in 32 bits.
  pub next_piece :
      (to cur g : ℕ)
      → g < n
      → cur < first_block sbi (g + 1)
      → cur < to
      → to ≤ first_block sbi n
      → (sub32 (min to (start_block sbi (add32 g 1))) cur ≡ min to (first_block sbi (g + 1)) - cur)
        × (add32 cur (min to (first_block sbi (g + 1)) - cur) ≡ min to (first_block sbi (g + 1)))
  next_piece to cur g h u going top =
      let next : add32 g 1 ≡ g + 1 = omega (arith, segments_small sbi fits) in
      rw (next, start_block-eq sbi fits (g + 1) (omega arith))
        (omega (arith, fits), omega (arith, fits))

  pub add_cmd-step :
      (enq to f cur g : ℕ) (hints : ℕ → SegHint)
      → g < n
      → first_block sbi g ≤ cur
      → cur < first_block sbi (g + 1)
      → cur < to
      → to ≤ first_block sbi n
      → add_cmd sbi enq to (suc f) cur hints
        ≡ add_cmd sbi enq to f
            (min to (first_block sbi (g + 1)))
            (update hints g (add_piece (min to (first_block sbi (g + 1)) - cur) enq (hints g)))
  unfolding add_cmd
  add_cmd-step enq to f cur g hints h l u going top =
      let going' : ltb cur to ≡ true = ground arith in
      let piece = next_piece to cur g h u going top in
      rw (segno_of-eq sbi fits g cur h l u, piece.0, piece.1, going')

  add_cmd-round :
      (enq to f cur g : ℕ) (hints : ℕ → SegHint) (s : ℕ)
      → g < n
      → first_block sbi g ≤ cur
      → cur < first_block sbi (g + 1)
      → cur < to
      → to ≤ first_block sbi n
      → (hints s).pend_blks + overlap sbi s cur to < 2 ^ 32
      → ((next : ℕ → SegHint)
          → (next s).pend_blks + overlap sbi s (min to (first_block sbi (g + 1))) to < 2 ^ 32
          → (add_cmd sbi enq to f (min to (first_block sbi (g + 1))) next s).pend_blks
            ≡ (next s).pend_blks + overlap sbi s (min to (first_block sbi (g + 1))) to)
      → (add_cmd sbi enq to (suc f) cur hints s).pend_blks
        ≡ (hints s).pend_blks + overlap sbi s cur to
  add_cmd-round enq to f cur g hints s h lo hi going top small ih =
      let stop = min to (first_block sbi (g + 1)) in
      let split = overlap-split sbi g s cur to lo hi going in
      let pend = pend-update hints g s (stop - cur) enq (omega arith) in
      rw (add_cmd-step enq to f cur g hints h lo hi going top) (
        ih (update hints g (add_piece (stop - cur) enq (hints g))) (rw pend (omega arith))
        ∙ rw pend (omega arith))

  -- The cut of a command adds its blocks in every segment.
  pub add_cmd-pend :
      (enq to f cur : ℕ) (hints : ℕ → SegHint) (s : ℕ)
      → to ≤ cur + f
      → first_block sbi 0 ≤ cur
      → to ≤ first_block sbi n
      → (hints s).pend_blks + overlap sbi s cur to < 2 ^ 32
      → (add_cmd sbi enq to f cur hints s).pend_blks ≡ (hints s).pend_blks + overlap sbi s cur to
  unfolding add_cmd
  add_cmd-pend enq to zero cur hints s e l u small = omega arith
  add_cmd-pend enq to (suc f) cur hints s e l u small = elim (Bool-cases (ltb cur to)) [
    | inr done ↦ rw done (ground arith)
    | inl going ↦
        let (g, h, lo, hi) = segment_around sbi fits cur l (ground arith) in
        add_cmd-round enq to f cur g hints s h lo hi (ground arith) u small (λ next small'.
          add_cmd-pend enq to f (min to (first_block sbi (g + 1))) next s (ground arith)
            (ground arith) u small')
  ]

  -- A segment behind which every command starts has none of their blocks.
  pub pending_in-zero :
      (s lo : ℕ) (dcs : List Cmd)
      → AreDisjoint lo dcs
      → first_block sbi (s + 1) ≤ lo
      → pending_in sbi s dcs ≡ 0
  unfolding pending_in
  pending_in-zero s lo [] d h = refl
  pending_in-zero s lo (dc ∷ dcs) d h =
      let rest = pending_in-zero s (dc.lstart + dc.len) dcs d.3 (omega (arith, d.0)) in
      rw rest (ground (arith, d.0))

  -- A command that the scan cuts off at its ends has the same blocks in a segment between them.
  scan-one :
      (gs ge : ℕ) (dc : Cmd) (hints : ℕ → SegHint) (s : ℕ)
      → dc.lstart + dc.len < 2 ^ 32
      → ge ≤ n
      → gs ≤ s
      → s < ge
      → (hints s).pend_blks + overlap sbi s dc.lstart (dc.lstart + dc.len) < 2 ^ 32
      → (add_cmd sbi dc.enq_jiffies
          (min (add32 dc.lstart dc.len) (first_block sbi ge))
          (min (add32 dc.lstart dc.len) (first_block sbi ge) - max dc.lstart (first_block sbi gs))
          (max dc.lstart (first_block sbi gs))
          hints
          s).pend_blks
        ≡ (hints s).pend_blks + overlap sbi s dc.lstart (dc.lstart + dc.len)
  scan-one gs ge dc hints s wrap top l u small =
      let ends : add32 dc.lstart dc.len ≡ dc.lstart + dc.len = omega arith in
      let to = min (dc.lstart + dc.len) (first_block sbi ge) in
      let from = max dc.lstart (first_block sbi gs) in
      let low = first_mono sbi gs s l in
      let high = first_mono sbi (s + 1) ge (omega arith) in
      let same : overlap sbi s from to ≡ overlap sbi s dc.lstart (dc.lstart + dc.len) =
        omega arith in
      rw ends (
        add_cmd-pend dc.enq_jiffies to (to - from) from hints s (omega arith)
          (omega (arith, first_mono sbi 0 gs (omega arith)))
          (omega (arith, first_mono sbi ge n top)) (omega arith)
        ∙ rw same refl)

  -- The scan adds the blocks of the pending commands in every segment between its ends.
  pub scan_cmds-pend :
      (gs ge lo : ℕ) (dcs : List Cmd) (hints : ℕ → SegHint) (s : ℕ)
      → AreDisjoint lo dcs
      → ge ≤ n
      → gs ≤ s
      → s < ge
      → (hints s).pend_blks + pending_in sbi s dcs < 2 ^ 32
      → (scan_cmds sbi (first_block sbi gs) (first_block sbi ge) dcs hints s).pend_blks
        ≡ (hints s).pend_blks + pending_in sbi s dcs
  unfolding scan_cmds pending_in
  scan_cmds-pend gs ge lo [] hints s d top l u small = omega arith
  scan_cmds-pend gs ge lo (dc ∷ dcs) hints s d top l u small =
      elim (Bool-cases (ltb dc.lstart (first_block sbi ge))) [
        | inr behind ↦
            let after : first_block sbi ge ≤ dc.lstart = ground arith in
            let empty =
              pending_in-zero s dc.lstart (dc ∷ dcs) (omega arith, d.1, d.2, d.3)
                (omega (arith, first_mono sbi (s + 1) ge (omega arith))) in
            rw (behind, empty) (omega arith)
        | inl before ↦ elim (Bool-cases (is_prep dc.state)) [
          | inl pending ↦
              let one =
                scan-one gs ge dc hints s d.2 top l u (omega (arith, rw pending at small)) in
              rw (before, pending)
                (scan_cmds-pend gs ge (dc.lstart + dc.len) dcs _ s d.3 top l u
                    (rw one (omega (arith, rw pending at small)))
                  ∙ rw one (omega arith))
          | inr issued ↦
              rw (before, issued)
                (scan_cmds-pend gs ge (dc.lstart + dc.len) dcs hints s d.3 top l u
                    (omega (arith, rw issued at small))
                  ∙ omega arith)
        ]
      ]
