-- ===== src/Gc/Scan/Ends.antt =====
-- Where every limit is a whole number of units, the scan ends, and chooses only what it may.
use native.Mathlib.Nat.{mul-div_cancel, mod-lt}
use redisc.Base.{
  ℕ, zero, suc, ◌+◌, ◌-◌, ◌*◌, ◌%◌, ◌^◌, ◌≤◌, ◌<◌, ◌≡◌, refl, sym, ap, ◌∙◌, inl, inr, Bool,
  Bool-cases, true, false, not, ◌&&◌, Option, some, none, arith, ltb, leb, is_set, if◌then◌else◌,
  mul32,
}
use redisc.Swod.Lookup.{GcType}
use redisc.Gc.{View, GcState, VictimPolicy, CostMode}
use redisc.Gc.Scan.{
  find_next_bit, Scan, set_last_victim, may_choose, visit, next_last_victim, next_segno, scan,
}
use redisc.Gc.Scan.Bits.{IsNext, find_next_bit-IsNext}
use redisc.Gc.Scan.Units.{mul-le_of_le, mul-lt_of_lt, set_of_self, is_set-units, one_more}
use redisc.Gc.Scan.Visit.{Same, Same-trans, Visited, may_choose-Same, visit-Visited}

-- The rounds that are left, with `l` the units of the next victim.
abbrev pub rounds : ℕ → ℕ → ℕ → ℕ
rounds k j l = (k - j) + (if is_set l then l + 1 else 0)

module _ (v : View) (gc_type : GcType) (p : VictimPolicy) (target : Bool) (last_victim : ℕ)
    (st : GcState) (units : ℕ) (some_unit : 0 < p.ofs_unit)
    (small : (units + 1) * p.ofs_unit < 2 ^ 32)
    (total : mul32 v.main_secs v.segs_per_sec ≡ units * p.ofs_unit) (first : ℕ)
    (first_within : first ≤ units) (first_units : last_victim ≡ first * p.ofs_unit) where
  -- A unit with its bit set, which passes the tests.
  abbrev pub Chosen : Option ℕ → Type 0
  Chosen none = Unit
  Chosen (some segno) =
      (w : ℕ) × (segno ≡ w * p.ofs_unit)
      × (p.dirty_bitmap w ≡ true)
      × (may_choose v gc_type p target st segno ≡ true)

  -- The scan stands at unit `j` of `k`, and goes on up to `l` from the start.
  pub record IsAt (k j l : ℕ) (s : Scan) : Type 0 where
    pub last : s.last_segment ≡ k * p.ofs_unit
    pub offset : s.offset ≡ j * p.ofs_unit
    pub next : s.state.last_victim p.gc_mode ≡ l * p.ofs_unit
    pub within : k ≤ units
    pub next_within : l ≤ units
    pub same : Same st s.state
    pub chosen : Chosen s.min_segno

  module _ (k j l : ℕ) (s : Scan) (at : IsAt k j l s) where
    unit_no : ℕ
    unit_no = find_next_bit p.dirty_bitmap k j

    unit_no-IsNext : IsNext p.dirty_bitmap k j unit_no
    unfolding unit_no
    unit_no-IsNext = find_next_bit-IsNext p.dirty_bitmap k j

    next_segno-eq : next_segno v gc_type p target last_victim s ≡ unit_no * p.ofs_unit
    unfolding unit_no
    next_segno-eq =
        let n = find_next_bit-IsNext p.dirty_bitmap k j in
        let u = find_next_bit p.dirty_bitmap k j in
        rw (at.last, at.offset, mul-div_cancel k some_unit, mul-div_cancel j some_unit)
          (omega
            (arith, mul-le_of_le u units p.ofs_unit (omega (arith, n.upper, at.within)), small))

    at_end : leb s.last_segment (next_segno v gc_type p target last_victim s) ≡ true → unit_no ≡ k
    at_end h = elim (Bool-cases (ltb unit_no k)) [
      | inl before ↦ absurd (
          ground (
            arith,
            next_segno-eq,
            at.last,
            mul-lt_of_lt unit_no k p.ofs_unit (ground arith),
            some_unit,
          ))
      | inr end ↦ ground (arith, unit_no-IsNext.upper)
    ]

    unit_no-lt :
        leb s.last_segment (next_segno v gc_type p target last_victim s) ≡ false → unit_no < k
    unit_no-lt h = elim (Bool-cases (ltb unit_no k)) [
      | inl before ↦ ground arith
      | inr end ↦
          let e : unit_no ≡ k = ground (arith, unit_no-IsNext.upper) in
          absurd (ground (arith, next_segno-eq, at.last, ap (λ (u : ℕ). u * p.ofs_unit) e))
    ]

    is_dirty : unit_no < k → p.dirty_bitmap unit_no ≡ true
    is_dirty h = elim unit_no-IsNext.found [ inl e ↦ absurd (omega (arith, e)) | inr b ↦ b ]

    visited : Scan
    visited = visit v gc_type p target (next_segno v gc_type p target last_victim s) s

    visited-Chosen :
        unit_no < k
        → Visited v gc_type p target (next_segno v gc_type p target last_victim s) s visited
        → Chosen visited.min_segno
    visited-Chosen h r = elim r.choice [
      | inl e ↦ rw e at.chosen
      | inr (may, e) ↦ rw e (
        unit_no,
        next_segno-eq,
        is_dirty h,
        sym (may_choose-Same v gc_type p target st s.state _ at.same) ∙ may,
      )
    ]

    before_end :
        leb s.last_segment (next_segno v gc_type p target last_victim s) ≡ false
        → IsAt k (unit_no + 1) l visited × (j ≤ unit_no) × (unit_no < k)
    unfolding visited
    before_end h =
        let lt = unit_no-lt h in
        let r = visit-Visited v gc_type p target (next_segno v gc_type p target last_victim s) s in
        let fits = mul-lt_of_lt unit_no k p.ofs_unit lt in
        let top = mul-le_of_le k units p.ofs_unit at.within in
        let next : (unit_no + 1) * p.ofs_unit ≡ unit_no * p.ofs_unit + p.ofs_unit = grind arith in
        let all : (units + 1) * p.ofs_unit ≡ units * p.ofs_unit + p.ofs_unit = grind arith in
        (
          record {
            last = r.last_segment ∙ at.last;
            offset = r.offset ∙ omega (arith, next_segno-eq, next, fits, top, all, small);
            next = ap (λ (f : CostMode → ℕ). f p.gc_mode) r.last ∙ at.next;
            within = at.within;
            next_within = at.next_within;
            same = Same-trans at.same r.same;
            chosen = visited-Chosen lt r;
          },
          unit_no-IsNext.lower lt,
          lt,
        )

  -- The scan starts over, up to `l`.
  over_again :
      (k j l : ℕ) (s : Scan)
      → IsAt k j l s
      → IsAt l 0 0 (record s {
        last_segment = s.state.last_victim p.gc_mode;
        offset = 0;
        state = set_last_victim p.gc_mode 0 s.state;
      })
  over_again k j l s at = record {
    last = at.next;
    offset = omega arith;
    next = set_of_self p.gc_mode s.state.last_victim 0 ∙ omega arith;
    within = at.next_within;
    next_within = omega arith;
    same =
        Same-trans at.same
          (record { cur = refl; marks = refl; dcc = refl; next_bg = refl; next_fg = refl });
    chosen = at.chosen;
  }

  -- Where the scan has ended.
  pub record Ended (s : Scan) : Type 0 where
    pub k : ℕ
    pub l : ℕ
    pub last : s.last_segment ≡ k * p.ofs_unit
    pub next : s.state.last_victim p.gc_mode ≡ l * p.ofs_unit
    pub within : k ≤ units
    pub next_within : l ≤ units
    pub same : Same st s.state
    pub chosen : Chosen s.min_segno

  -- Where the next scan is to begin is a whole number of units, too.
  next_units :
      (segno : ℕ) (s : Scan) (w : ℕ)
      → w < units
      → segno ≡ w * p.ofs_unit
      → (n : ℕ) × (next_last_victim v gc_type p target last_victim segno s ≡ n * p.ofs_unit)
        × (n ≤ units)
  next_units segno s w h e =
      let again = not (is_set (s.state.last_victim p.gc_mode)) && leb segno last_victim in
      elim (Bool-cases again) [
        | inl behind ↦ (
          (first + 1) % units,
          rw (behind, total)
              (one_more units p.ofs_unit small some_unit first last_victim first_within first_units
                h),
          omega (arith, mod-lt (first + 1) {m = units} (omega arith)),
        )
        | inr ahead ↦ (
          (w + 1) % units,
          rw (ahead, total) (one_more units p.ofs_unit small some_unit w segno (omega arith) e h),
          omega (arith, mod-lt (w + 1) {m = units} (omega arith)),
        )
      ]

  pub scan-Ended :
      (fuel k j l : ℕ) (s : Scan)
      → IsAt k j l s
      → rounds k j l < fuel
      → (s' : Scan) × (scan v gc_type p target last_victim fuel s ≡ some s') × Ended s'
  unfolding scan unit_no visited
  scan-Ended zero k j l s at h = absurd (omega arith)
  scan-Ended (suc fuel) k j l s at h =
      let segno = next_segno v gc_type p target last_victim s in
      elim (Bool-cases (leb s.last_segment segno)) [
        | inl end ↦ elim (Bool-cases (is_set (s.state.last_victim p.gc_mode))) [
          | inl again ↦
              rw (end, again, scan)
                (scan-Ended fuel l 0 0 _ (over_again k j l s at)
                  (ground (arith, is_set-units l p.ofs_unit (ap is_set (sym at.next) ∙ again), h)))
          | inr stop ↦
              rw (end, stop, scan)
                (
                  s,
                  refl,
                  record {
                    k = k;
                    l = l;
                    last = at.last;
                    next = at.next;
                    within = at.within;
                    next_within = at.next_within;
                    same = at.same;
                    chosen = at.chosen;
                  },
                )
        ]
        | inr more ↦
            let (at', lower, upper) = before_end k j l s at more in
            elim (Bool-cases (leb p.max_search (visit v gc_type p target segno s).nsearched)) [
              | inl spent ↦
                  let s' = visit v gc_type p target segno s in
                  let (n, e, small_n) =
                    next_units segno s' (unit_no k j l s at) (omega (arith, upper, at.within))
                      (next_segno-eq k j l s at) in
                  rw (more, spent, scan)
                    (
                      _,
                      refl,
                      record {
                        k = k;
                        l = n;
                        last = at'.last;
                        next = set_of_self p.gc_mode s'.state.last_victim _ ∙ e;
                        within = at.within;
                        next_within = small_n;
                        same = Same-trans at'.same (record {
                          cur = refl;
                          marks = refl;
                          dcc = refl;
                          next_bg = refl;
                          next_fg = refl;
                        });
                        chosen = at'.chosen;
                      },
                    )
              | inr left ↦
                  rw (more, left, scan)
                    (scan-Ended fuel k (unit_no k j l s at + 1) l _ at'
                      (ground (arith, lower, upper, h)))
            ]
      ]
