-- ===== src/Swod/Hints/Laws.antt =====
-- The incremental updates of the hints against the commands themselves.
use redisc.Base.{
  ℕ, zero, suc, ◌+◌, ◌-◌, ◌^◌, ◌≤◌, ◌<◌, ◌≡◌, refl, ◌∙◌, inl, inr, min, Bool, true, false, not,
  ◌&&◌, Bool-cases, List, ◌∷◌, arith, some, ltb, leb, ◌==◌, is_set, if◌then◌else◌, add32, update,
}
use redisc.Swod.State.{Sbi, SegHint, Ctrl, Dcc}
use redisc.Swod.Policy.{enabled_ctrl}
use redisc.Swod.Lookup.{is_some}
use redisc.Swod.Issue.{Cmd, is_prep}
use redisc.Swod.Rebuild.{add_cmd}
use redisc.Swod.Rebuild.Blocks.{first_block, FitsBlocks, segno_of-eq, segment_around}
use redisc.Swod.Rebuild.Pending.{overlap, overlap-split, next_piece, pending_in, add_cmd-pend}
use redisc.Swod.Worker.{queue_eval_ctrl}
use redisc.Swod.Hints.{
  create_from, with_created, submit_from, take_piece, create_cmd, submit_hints, new_cmd,
}

module _ (sbi : Sbi) {n : ℕ} (fits : FitsBlocks sbi n) where
  -- In the main area the loop of the creation is that of the rebuild.
  create_from-eq :
      (to f cur : ℕ) (hints : ℕ → SegHint)
      → first_block sbi 0 ≤ cur
      → to ≤ first_block sbi n
      → create_from sbi n to f cur hints ≡ add_cmd sbi sbi.jiffies to f cur hints
  unfolding create_from add_cmd
  create_from-eq to zero cur hints l u = refl
  create_from-eq to (suc f) cur hints l u = elim (Bool-cases (ltb cur to)) [
    | inr done ↦ rw done refl
    | inl going ↦
        let (g, h, lo, hi) = segment_around sbi fits cur l (ground arith) in
        let going' : cur < to = ground arith in
        let piece = next_piece sbi fits to cur g h hi going' u in
        let inside : leb n g ≡ false = ground arith in
        rw (going, segno_of-eq sbi fits g cur h lo hi, inside, piece.0, piece.1)
          (create_from-eq to f (min to (first_block sbi (g + 1))) _ (omega arith) u)
  ]

take-update :
    (hints : ℕ → SegHint) (g s piece : ℕ)
    → (if g == s then piece else 0) ≤ (hints s).pend_blks
    → (update hints g (take_piece piece (hints g)) s).pend_blks
      ≡ (hints s).pend_blks - (if g == s then piece else 0)
take-update hints g s piece small = elim (Bool-cases (g == s)) [
  | inl same ↦ let e : g ≡ s = ground arith in rw (same, e) (ground (arith, rw same at small))
  | inr other ↦ rw other (omega arith)
]

module _ (sbi : Sbi) {n : ℕ} (fits : FitsBlocks sbi n) where
  submit_from-round :
      (to f cur g : ℕ) (hints : ℕ → SegHint) (s : ℕ)
      → g < n
      → first_block sbi g ≤ cur
      → cur < first_block sbi (g + 1)
      → cur < to
      → to ≤ first_block sbi n
      → overlap sbi s cur to ≤ (hints s).pend_blks
      → ((next : ℕ → SegHint)
          → overlap sbi s (min to (first_block sbi (g + 1))) to ≤ (next s).pend_blks
          → (submit_from sbi n to f (min to (first_block sbi (g + 1))) next s).pend_blks
            ≡ (next s).pend_blks - overlap sbi s (min to (first_block sbi (g + 1))) to)
      → (submit_from sbi n to (suc f) cur hints s).pend_blks
        ≡ (hints s).pend_blks - overlap sbi s cur to
  unfolding submit_from
  submit_from-round to f cur g hints s h lo hi going top small ih =
      let going' : ltb cur to ≡ true = ground arith in
      let inside : leb n g ≡ false = ground arith in
      let piece = next_piece sbi fits to cur g h hi going top in
      let stop = min to (first_block sbi (g + 1)) in
      let split = overlap-split sbi g s cur to lo hi going in
      let taken = take-update hints g s (stop - cur) (omega arith) in
      rw (going', segno_of-eq sbi fits g cur h lo hi, inside, piece.0, piece.1)
        (ih (update hints g (take_piece (stop - cur) (hints g))) (rw taken (omega arith))
          ∙ rw taken (omega arith))

  submit_from-pend :
      (to f cur : ℕ) (hints : ℕ → SegHint) (s : ℕ)
      → to ≤ cur + f
      → first_block sbi 0 ≤ cur
      → to ≤ first_block sbi n
      → overlap sbi s cur to ≤ (hints s).pend_blks
      → (submit_from sbi n to f cur hints s).pend_blks ≡ (hints s).pend_blks - overlap sbi s cur to
  unfolding submit_from
  submit_from-pend to zero cur hints s e l u small = omega arith
  submit_from-pend to (suc f) cur hints s e l u small = elim (Bool-cases (ltb cur to)) [
    | inr done ↦ rw done (ground arith)
    | inl going ↦
        let (g, h, lo, hi) = segment_around sbi fits cur l (ground arith) in
        submit_from-round to f cur g hints s h lo hi (ground arith) u small (λ next small'.
          submit_from-pend to f (min to (first_block sbi (g + 1))) next s (ground arith)
            (ground arith) u small')
  ]

some-eq : {a b : Ctrl} → some a ≡ some b → a ≡ b
some-eq e = cc

seg_hint-queue_eval_ctrl : (sbi : Sbi) (sw : Ctrl) → (queue_eval_ctrl sbi sw).seg_hint ≡ sw.seg_hint
unfolding queue_eval_ctrl
seg_hint-queue_eval_ctrl sbi sw =
    if-same (not (is_some sw.work_pending) && not (is_set sw.eval_running))
  where
    if-same :
        (b : Bool)
        → (if b then record sw { work_pending = some (sbi.msecs_to_jiffies 100) } else sw).seg_hint
          ≡ sw.seg_hint
    if-same true = refl
    if-same false = refl

module _ (sbi : Sbi) (d : Dcc) {sw : Ctrl} (on : enabled_ctrl d ≡ some sw)
    (fits : FitsBlocks sbi sw.nr_main_segs) (dcs : List Cmd) (s : ℕ) where
  created-pending_in :
      (lstart len : ℕ)
      → (sw.seg_hint s).pend_blks ≡ pending_in sbi s dcs
      → pending_in sbi s dcs + overlap sbi s lstart (lstart + len) < 2 ^ 32
      → first_block sbi 0 ≤ lstart
      → lstart + len ≤ first_block sbi sw.nr_main_segs
      → ((with_created sbi lstart len sw).seg_hint s).pend_blks
        ≡ pending_in sbi s (new_cmd sbi lstart len ∷ dcs)
  unfolding pending_in
  created-pending_in lstart len agrees small l u =
      let no_wrap : add32 lstart len ≡ lstart + len = omega (arith, fits) in
      let to = lstart + len in
      rw (no_wrap, create_from-eq sbi fits to (to - lstart) lstart sw.seg_hint l u)
        (add_cmd-pend sbi fits sbi.jiffies to (to - lstart) lstart sw.seg_hint s (omega arith) l u
            (omega arith)
          ∙ omega arith)

  -- Where SWOD is enabled and the main segments end below the reserved addresses, if the hint of a
  -- segment counts the blocks of a list of pending commands, __create_discard_cmd of a range in the
  -- main area leaves it counting those of the new command too, as long as the sum fits in 32 bits.
  pub create_cmd-pending_in :
      (lstart len : ℕ) (after : Ctrl)
      → (sw.seg_hint s).pend_blks ≡ pending_in sbi s dcs
      → pending_in sbi s dcs + overlap sbi s lstart (lstart + len) < 2 ^ 32
      → first_block sbi 0 ≤ lstart
      → lstart + len ≤ first_block sbi sw.nr_main_segs
      → (create_cmd sbi lstart len d).1.swod ≡ some after
      → (after.seg_hint s).pend_blks ≡ pending_in sbi s ((create_cmd sbi lstart len d).0 ∷ dcs)
  unfolding create_cmd
  create_cmd-pending_in lstart len after agrees small l u e =
      let made : queue_eval_ctrl sbi (with_created sbi lstart len sw) ≡ after =
        some-eq (rw on at e) in
      rw (← made, seg_hint-queue_eval_ctrl sbi (with_created sbi lstart len sw))
        (created-pending_in lstart len agrees small l u)

  -- Where SWOD is enabled and the main segments end below the reserved addresses, if the hint of a
  -- segment counts the blocks of a list of pending commands, the end of __submit_discard_cmd for
  -- the first of them, a pending, non-empty command of the main area, leaves it counting those of
  -- the others.
  pub submit_hints-pending_in :
      (dc : Cmd) (after : Ctrl)
      → (sw.seg_hint s).pend_blks ≡ pending_in sbi s (dc ∷ dcs)
      → is_prep dc.state ≡ true
      → 0 < dc.len
      → first_block sbi 0 ≤ dc.lstart
      → dc.lstart + dc.len ≤ first_block sbi sw.nr_main_segs
      → (submit_hints sbi dc.lstart dc.len d).swod ≡ some after
      → (after.seg_hint s).pend_blks ≡ pending_in sbi s dcs
  unfolding submit_hints pending_in
  submit_hints-pending_in dc after agrees prep some_len l u e =
      let some_len' : is_set dc.len ≡ true = ground arith in
      let to = dc.lstart + dc.len in
      let no_wrap : add32 dc.lstart dc.len ≡ to = omega (arith, fits) in
      let made : record sw {
        seg_hint =
            submit_from sbi sw.nr_main_segs (add32 dc.lstart dc.len)
              (add32 dc.lstart dc.len - dc.lstart) dc.lstart sw.seg_hint;
      }
          ≡ after =
        some-eq (rw (some_len', on) at e) in
      rw (← made, no_wrap)
        (submit_from-pend sbi fits to (to - dc.lstart) dc.lstart sw.seg_hint s (omega arith) l u
            (omega (arith, rw prep at agrees))
          ∙ omega (arith, rw prep at agrees))
