-- ===== src/Gc/Scan/Stuck.antt =====
-- Where the limit of the second pass is no whole number of units, the pass for WCE targets does not
-- end.
use native.Mathlib.Nat.{mul-div_cancel}
use redisc.Base.{
  ℕ, zero, suc, ◌+◌, ◌*◌, ◌/◌, ◌^◌, ◌≤◌, ◌<◌, ◌≡◌, refl, true, false, none, arith, leb, add32,
}
use redisc.Swod.Lookup.{GcType}
use redisc.Gc.{View, VictimPolicy}
use redisc.Gc.Scan.{Scan, may_choose, visit, next_segno, scan}
use redisc.Gc.Scan.Bits.{find_next_bit-behind}

add_one : (q u : ℕ) → (q + 1) * u ≡ q * u + u
add_one q u = grind arith

module _ (v : View) (gc_type : GcType) (p : VictimPolicy) (last_victim q : ℕ)
    (some_unit : 0 < p.ofs_unit) where
  -- The scan stands behind the last whole unit, which it may not choose, in front of the limit.
  pub record IsStuck (s : Scan) : Type 0 where
    pub whole : s.last_segment / p.ofs_unit ≡ q
    pub part : q * p.ofs_unit < s.last_segment
    pub small : s.last_segment + p.ofs_unit < 2 ^ 32
    pub behind : q ≤ s.offset / p.ofs_unit
    pub budget : s.nsearched < p.max_search
    pub refused : may_choose v gc_type p true s.state (q * p.ofs_unit) ≡ false

  stuck_segno : (s : Scan) → IsStuck s → next_segno v gc_type p true last_victim s ≡ q * p.ofs_unit
  stuck_segno s h =
      rw (h.whole, find_next_bit-behind p.dirty_bitmap q (s.offset / p.ofs_unit) h.behind)
        (omega (arith, h.part, h.small))

  -- The round leaves all as it is, but for the offset.
  stuck_visit :
      (s : Scan)
      → IsStuck s
      → visit v gc_type p true (q * p.ofs_unit) s ≡ record s { offset = (q + 1) * p.ofs_unit }
  unfolding visit
  stuck_visit s h =
      let next : add32 (q * p.ofs_unit) p.ofs_unit ≡ (q + 1) * p.ofs_unit =
        omega (arith, add_one q p.ofs_unit, h.part, h.small) in
      rw (h.refused, next, visit) refl

  -- Where a limit of the scan is no whole number of search units, and the scan for WCE targets
  -- stands behind the last whole unit before it, with search budget left and a segment there that
  -- it may not choose, it does not end, however much fuel it gets.
  pub scan-eq-none :
      (fuel : ℕ) (s : Scan) → IsStuck s → scan v gc_type p true last_victim fuel s ≡ none
  unfolding scan
  scan-eq-none zero s h = refl
  scan-eq-none (suc fuel) s h =
      let inside : leb s.last_segment (q * p.ofs_unit) ≡ false = ground (arith, h.part) in
      let budget : leb p.max_search s.nsearched ≡ false = ground (arith, h.budget) in
      rw (stuck_segno s h, inside, stuck_visit s h, budget, scan)
        (scan-eq-none fuel (record s { offset = (q + 1) * p.ofs_unit })
          (record {
            whole = h.whole;
            part = h.part;
            small = h.small;
            behind = rw (mul-div_cancel (q + 1) some_unit) (omega arith);
            budget = h.budget;
            refused = h.refused;
          }))
