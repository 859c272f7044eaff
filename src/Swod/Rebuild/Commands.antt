-- ===== src/Swod/Rebuild/Commands.antt =====
-- The number of commands that `swod_rebuild_groups_locked` counts in a segment.
use redisc.Base.{
  ℕ, zero, suc, ◌+◌, ◌-◌, ◌^◌, ◌≤◌, ◌<◌, ◌≡◌, refl, ◌∙◌, inl, inr, min, max, Bool-cases, List, [],
  ◌∷◌, arith, ltb, ◌==◌, is_set, if◌then◌else◌, add32, update,
}
use redisc.Swod.State.{Sbi, SegHint}
use redisc.Swod.Issue.{Cmd, is_prep}
use redisc.Swod.Rebuild.{ends_by, add_piece, add_cmd, scan_cmds}
use redisc.Swod.Rebuild.Blocks.{first_block, FitsBlocks, first_mono, segment_around}
use redisc.Swod.Rebuild.Pending.{overlap, overlap-split, pending_in, add_cmd-step}
use redisc.Swod.Rebuild.Search.{AreDisjoint, drop_ended}

abbrev pub touches : Sbi → ℕ → ℕ → ℕ → ℕ
touches sbi s from to = if is_set (overlap sbi s from to) then 1 else 0

-- How many of the pending commands have a block in segment `s`.
unfoldable pub commands_in : Sbi → ℕ → List Cmd → ℕ
commands_in sbi s [] = 0
commands_in sbi s (dc ∷ dcs) =
    (if is_prep dc.state then touches sbi s dc.lstart (dc.lstart + dc.len) else 0)
    + commands_in sbi s dcs

touches-split :
    (sbi : Sbi) (g s cur to : ℕ)
    → first_block sbi g ≤ cur
    → cur < first_block sbi (g + 1)
    → cur < to
    → touches sbi s cur to
      ≡ (if g == s then 1 else 0) + touches sbi s (min to (first_block sbi (g + 1))) to
touches-split sbi g s cur to l u h =
    let split = overlap-split sbi g s cur to l u h in
    elim (Bool-cases (g == s)) [
      | inl same ↦ let e : g ≡ s = ground arith in rw (same, ← e) (ground arith)
      | inr other ↦
          let same : overlap sbi s cur to ≡ overlap sbi s (min to (first_block sbi (g + 1))) to =
            omega (arith, rw other at split) in
          rw (other, same) (omega arith)
    ]

cmds-update :
    (hints : ℕ → SegHint) (g s piece enq : ℕ)
    → (hints s).nr_cmds + (if g == s then 1 else 0) < 2 ^ 32
    → (update hints g (add_piece piece enq (hints g)) s).nr_cmds
      ≡ (hints s).nr_cmds + (if g == s then 1 else 0)
cmds-update hints g s piece enq small = elim (Bool-cases (g == s)) [
  | inl same ↦ let e : g ≡ s = ground arith in rw (same, e) (ground arith)
  | inr other ↦ rw other (omega arith)
]

module _ (sbi : Sbi) {n : ℕ} (fits : FitsBlocks sbi n) where
  add_cmd-cmds_round :
      (enq to f cur g : ℕ) (hints : ℕ → SegHint) (s : ℕ)
      → g < n
      → first_block sbi g ≤ cur
      → cur < first_block sbi (g + 1)
      → cur < to
      → to ≤ first_block sbi n
      → (hints s).nr_cmds + touches sbi s cur to < 2 ^ 32
      → ((next : ℕ → SegHint)
          → (next s).nr_cmds + touches sbi s (min to (first_block sbi (g + 1))) to < 2 ^ 32
          → (add_cmd sbi enq to f (min to (first_block sbi (g + 1))) next s).nr_cmds
            ≡ (next s).nr_cmds + touches sbi s (min to (first_block sbi (g + 1))) to)
      → (add_cmd sbi enq to (suc f) cur hints s).nr_cmds ≡ (hints s).nr_cmds + touches sbi s cur to
  add_cmd-cmds_round enq to f cur g hints s h lo hi going top small ih =
      let stop = min to (first_block sbi (g + 1)) in
      let split = touches-split sbi g s cur to lo hi going in
      let cmds = cmds-update hints g s (stop - cur) enq (omega arith) in
      rw (add_cmd-step sbi fits enq to f cur g hints h lo hi going top) (
        ih (update hints g (add_piece (stop - cur) enq (hints g))) (rw cmds (omega arith))
        ∙ rw cmds (omega arith))

  add_cmd-cmds :
      (enq to f cur : ℕ) (hints : ℕ → SegHint) (s : ℕ)
      → to ≤ cur + f
      → first_block sbi 0 ≤ cur
      → to ≤ first_block sbi n
      → (hints s).nr_cmds + touches sbi s cur to < 2 ^ 32
      → (add_cmd sbi enq to f cur hints s).nr_cmds ≡ (hints s).nr_cmds + touches sbi s cur to
  unfolding add_cmd
  add_cmd-cmds enq to zero cur hints s e l u small = ground arith
  add_cmd-cmds enq to (suc f) cur hints s e l u small = elim (Bool-cases (ltb cur to)) [
    | inr done ↦ rw done (ground arith)
    | inl going ↦
        let (g, h, lo, hi) = segment_around sbi fits cur l (ground arith) in
        add_cmd-cmds_round enq to f cur g hints s h lo hi (ground arith) u small (λ next small'.
          add_cmd-cmds enq to f (min to (first_block sbi (g + 1))) next s (ground arith)
            (ground arith) u small')
  ]

  commands_in-zero :
      (s lo : ℕ) (dcs : List Cmd)
      → AreDisjoint lo dcs
      → first_block sbi (s + 1) ≤ lo
      → commands_in sbi s dcs ≡ 0
  unfolding commands_in
  commands_in-zero s lo [] d h = refl
  commands_in-zero s lo (dc ∷ dcs) d h =
      let rest = commands_in-zero s (dc.lstart + dc.len) dcs d.3 (omega (arith, d.0)) in
      let none_here : overlap sbi s dc.lstart (dc.lstart + dc.len) ≡ 0 = omega (arith, d.0) in
      rw (rest, none_here) (ground arith)

  scan_one-cmds :
      (gs ge : ℕ) (dc : Cmd) (hints : ℕ → SegHint) (s : ℕ)
      → dc.lstart + dc.len < 2 ^ 32
      → ge ≤ n
      → gs ≤ s
      → s < ge
      → (hints s).nr_cmds + touches sbi s dc.lstart (dc.lstart + dc.len) < 2 ^ 32
      → (add_cmd sbi dc.enq_jiffies
          (min (add32 dc.lstart dc.len) (first_block sbi ge))
          (min (add32 dc.lstart dc.len) (first_block sbi ge) - max dc.lstart (first_block sbi gs))
          (max dc.lstart (first_block sbi gs))
          hints
          s).nr_cmds
        ≡ (hints s).nr_cmds + touches sbi s dc.lstart (dc.lstart + dc.len)
  scan_one-cmds gs ge dc hints s wrap top l u small =
      let ends : add32 dc.lstart dc.len ≡ dc.lstart + dc.len = omega arith in
      let to = min (dc.lstart + dc.len) (first_block sbi ge) in
      let from = max dc.lstart (first_block sbi gs) in
      let low = first_mono sbi gs s l in
      let high = first_mono sbi (s + 1) ge (omega arith) in
      let same : overlap sbi s from to ≡ overlap sbi s dc.lstart (dc.lstart + dc.len) =
        omega arith in
      rw ends (
        add_cmd-cmds dc.enq_jiffies to (to - from) from hints s (omega arith)
          (omega (arith, first_mono sbi 0 gs (omega arith)))
          (omega (arith, first_mono sbi ge n top)) (rw same small)
        ∙ rw same refl)

  pub scan_cmds-commands_in :
      (gs ge lo : ℕ) (dcs : List Cmd) (hints : ℕ → SegHint) (s : ℕ)
      → AreDisjoint lo dcs
      → ge ≤ n
      → gs ≤ s
      → s < ge
      → (hints s).nr_cmds + commands_in sbi s dcs < 2 ^ 32
      → (scan_cmds sbi (first_block sbi gs) (first_block sbi ge) dcs hints s).nr_cmds
        ≡ (hints s).nr_cmds + commands_in sbi s dcs
  unfolding scan_cmds commands_in
  scan_cmds-commands_in gs ge lo [] hints s d top l u small = omega arith
  scan_cmds-commands_in gs ge lo (dc ∷ dcs) hints s d top l u small =
      elim (Bool-cases (ltb dc.lstart (first_block sbi ge))) [
        | inr behind ↦
            let after : first_block sbi ge ≤ dc.lstart = ground arith in
            let empty =
              commands_in-zero s dc.lstart (dc ∷ dcs) (omega arith, d.1, d.2, d.3)
                (omega (arith, first_mono sbi (s + 1) ge (omega arith))) in
            rw (behind, empty) (omega arith)
        | inl before ↦ elim (Bool-cases (is_prep dc.state)) [
          | inl pending ↦
              let one =
                scan_one-cmds gs ge dc hints s d.2 top l u (omega (arith, rw pending at small)) in
              rw (before, pending)
                (scan_cmds-commands_in gs ge (dc.lstart + dc.len) dcs _ s d.3 top l u
                    (rw one (omega (arith, rw pending at small)))
                  ∙ rw one (omega arith))
          | inr issued ↦
              rw (before, issued)
                (scan_cmds-commands_in gs ge (dc.lstart + dc.len) dcs hints s d.3 top l u
                    (omega (arith, rw issued at small))
                  ∙ omega arith)
        ]
      ]

pub commands_in-le :
    (sbi : Sbi) (s : ℕ) (dcs : List Cmd) → commands_in sbi s dcs ≤ pending_in sbi s dcs
unfolding commands_in pending_in
commands_in-le sbi s [] = omega arith
commands_in-le sbi s (dc ∷ dcs) =
    let rest = commands_in-le sbi s dcs in
    elim (Bool-cases (is_prep dc.state)) [
      | inl pending ↦ rw pending (ground arith)
      | inr issued ↦ rw issued (omega arith)
    ]

pub commands_in-drop_ended :
    (sbi : Sbi) (s blk lo : ℕ) (dcs : List Cmd)
    → AreDisjoint lo dcs
    → blk ≤ first_block sbi s
    → commands_in sbi s (drop_ended blk dcs) ≡ commands_in sbi s dcs
unfolding drop_ended commands_in
commands_in-drop_ended sbi s blk lo [] d h = refl
commands_in-drop_ended sbi s blk lo (dc ∷ dcs) d h = elim (Bool-cases (ends_by blk dc)) [
  | inl ended ↦
      let none_here : overlap sbi s dc.lstart (dc.lstart + dc.len) ≡ 0 = ground (arith, d.2) in
      rw (ended, none_here)
        (commands_in-drop_ended sbi s blk (dc.lstart + dc.len) dcs d.3 h ∙ ground arith)
  | inr open_ ↦ rw open_ refl
]
