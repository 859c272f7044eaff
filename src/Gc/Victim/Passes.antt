-- ===== src/Gc/Victim/Passes.antt =====
-- Each pass of get_victim_by_default ends.
use native.Mathlib.Nat.{mul-div_cancel}
use redisc.Base.{
  ℕ, ◌+◌, ◌*◌, ◌/◌, ◌^◌, ◌≤◌, ◌<◌, ◌≡◌, ◌⊎◌, refl, sym, ap, subst, ◌∙◌, inl, inr, Bool, Bool-cases,
  Option-cases, true, false, ◌&&◌, Option, some, none, arith, is_set, if◌then◌else◌, mul32,
}
use redisc.Swod.Lookup.{GcType}
use redisc.Gc.{
  View, GcState, VictimPolicy, AllocMode, CostMode, is_lfs, is_fg, is_large_section, sec_of,
  sec_usage_check, select_policy, is_small_log,
}
use redisc.Gc.Scan.{Scan, may_choose, scan}
use redisc.Gc.Scan.Units.{add_one}
use redisc.Gc.Scan.Ends.{Chosen, Ended, scan-Ended}
use redisc.Gc.Victim.Marks.{Kept, unchanged, IsFree, IsMarked, zero_add, check_bg_victims-IsMarked}
use redisc.Gc.Victim.{
  enodata, PassEnd, out, picked, nothing, check_bg_victims, takes, segno_or, first_scan, scan_pass,
  pass, end_of_scan, next_victim,
}

and_false : (b : Bool) → (b && false) ≡ false
and_false true = refl
and_false false = refl

module _ (fuel : ℕ) (v : View) (gc_type : GcType) (type : ℕ) (alloc_mode : AllocMode) (units : ℕ)
    (some_segs : 0 < v.segs_per_sec) where
  abbrev pub policy : GcState → VictimPolicy
  policy st = select_policy v st gc_type type alloc_mode

  -- The limits are whole numbers of units, of which the main area has `units`; and no segment is set
  -- as the next victim.
  pub record IsWhole (st : GcState) : Type 0 where
    pub total : v.main_secs * v.segs_per_sec ≡ units * (policy st).ofs_unit
    pub small : (units + 1) * (policy st).ofs_unit < 2 ^ 32
    pub some_unit : 0 < (policy st).ofs_unit
    pub last : ℕ
    pub last_units : st.last_victim (policy st).gc_mode ≡ last * (policy st).ofs_unit
    pub last_within : last ≤ units
    pub no_next_bg : st.next_victim_bg ≡ none
    pub no_next_fg : st.next_victim_fg ≡ none

  -- A segment whose section is not in use, and which the background GC has marked or whose unit has
  -- its dirty bit set.
  abbrev pub IsEligible : GcState → ℕ → Type 0
  IsEligible st segno =
      (sec_usage_check v st (sec_of v segno) ≡ false)
      × ((st.victim_secmap (sec_of v segno) ≡ true)
          ⊎ ((policy st).dirty_bitmap (segno / (policy st).ofs_unit) ≡ true))

  abbrev pub IsPass : GcState → PassEnd → Type 0
  IsPass st (out c) = c ≡ record { ret = enodata; result = none; state = st }
  IsPass st (picked segno result st') =
      IsEligible st segno × (result ≡ mul32 (segno / (policy st).ofs_unit) (policy st).ofs_unit)
  IsPass st (nothing last_segment st') =
      (st'.cur_victim_sec ≡ st.cur_victim_sec)
      × IsWhole st'
      × ((secno : ℕ) → st'.victim_secmap secno ≡ true → st.victim_secmap secno ≡ true)
      × (k : ℕ) × (last_segment ≡ k * (policy st).ofs_unit)
      × (k ≤ units)

  abbrev pub Ends : GcState → Option PassEnd → Type 0
  Ends st r = (e : PassEnd) × (r ≡ some e) × IsPass st e

  no_next :
      (st : GcState) (target : Bool)
      → IsWhole st
      → next_victim v st gc_type (policy st) target ≡ none
  no_next st target w = elim (Bool-cases (is_large_section v && is_lfs (policy st).alloc_mode)) [
    | inl large ↦ rw (large, w.no_next_bg, w.no_next_fg, and_false (is_fg gc_type)) refl
    | inr small ↦ rw small refl
  ]

  pub total32 :
      (st : GcState) → IsWhole st → mul32 v.main_secs v.segs_per_sec ≡ units * (policy st).ofs_unit
  total32 st w = omega (arith, w.total, w.small, add_one units (policy st).ofs_unit)

  not_in_use :
      (target : Bool) (st st' : GcState) (segno : ℕ)
      → Kept st st'
      → may_choose v gc_type (policy st) target st' segno ≡ true
      → sec_usage_check v st (sec_of v segno) ≡ false
  unfolding may_choose
  not_in_use target st st' segno kept may = rw (sym kept.cur) (ground arith)

  pub IsWhole-after :
      (st st' : GcState)
      → IsWhole st
      → (l : ℕ) → st'.last_victim (policy st).gc_mode ≡ l * (policy st).ofs_unit
      → l ≤ units
      → st'.next_victim_bg ≡ none
      → st'.next_victim_fg ≡ none
      → IsWhole st'
  unfolding select_policy
  IsWhole-after st st' w l e h bg fg = record {
    total = w.total;
    small = w.small;
    some_unit = w.some_unit;
    last = l;
    last_units = e;
    last_within = h;
    no_next_bg = bg;
    no_next_fg = fg;
  }

  taken-IsFree :
      (st st' : GcState) (target : Bool) (o : Option ℕ)
      → takes st' (policy st) target o ≡ true
      → IsFree v st o
      → IsEligible st (segno_or 0 o)
  taken-IsFree st st' target none e f = absurd (ground arith)
  taken-IsFree st st' target (some segno) e f = (f.0, inl f.1)

  chosen_bit :
      (st : GcState) (g : ℕ)
      → IsWhole st
      → (n : ℕ) → g ≡ n * (policy st).ofs_unit
      → (policy st).dirty_bitmap n ≡ true
      → (policy st).dirty_bitmap (g / (policy st).ofs_unit) ≡ true
  chosen_bit st g w n e bit =
      ap (policy st).dirty_bitmap
        (ap (λ (x : ℕ). x / (policy st).ofs_unit) e ∙ mul-div_cancel n w.some_unit)
      ∙ bit

  -- The end of the scan.
  of_scan-Ends :
      (target : Bool) (st st' : GcState) (s : Scan) (w : IsWhole st)
      → Kept st st'
      → Ended v gc_type
          (policy st)
          target
          (st.last_victim (policy st).gc_mode)
          st'
          units
          w.some_unit
          w.small
          (total32 st w)
          w.last
          w.last_within
          w.last_units
          s
      → Ends st (end_of_scan (policy st) (some s))
  of_scan-Ends target st st' s w kept ended = elim (Option-cases s.min_segno) [
    | inl none_found ↦ rw none_found (
      _,
      refl,
      (
        ended.same.cur ∙ kept.cur,
        IsWhole-after st s.state w ended.l ended.next ended.next_within
            (ended.same.next_bg ∙ kept.next_bg ∙ w.no_next_bg)
            (ended.same.next_fg ∙ kept.next_fg ∙ w.no_next_fg),
        λ secno h. kept.marks secno (ap (λ (f : ℕ → Bool). f secno) (sym ended.same.marks) ∙ h),
        ended.k,
        ended.last,
        ended.within,
      ),
    )
    | inr (g, found_g) ↦
        let chosen : Chosen v gc_type (policy st) target (st.last_victim (policy st).gc_mode) st'
            units w.some_unit w.small (total32 st w) w.last w.last_within w.last_units (some g) =
          subst
            (Chosen v gc_type (policy st) target (st.last_victim (policy st).gc_mode) st' units
              w.some_unit w.small (total32 st w) w.last w.last_within w.last_units)
            found_g ended.chosen in
        rw found_g (
          _,
          refl,
          (
            (
              not_in_use target st st' g kept chosen.3,
              inr (chosen_bit st g w chosen.0 chosen.1 chosen.2),
            ),
            refl,
          ),
        )
  ]

  starts : (st : GcState) → IsWhole st → (j : ℕ) × ((policy st).offset ≡ j * (policy st).ofs_unit)
  unfolding select_policy
  starts st w = elim (Bool-cases (v.noheap && is_small_log type)) [
    | inl small_first ↦ (0, rw small_first (omega arith))
    | inr last_first ↦ (w.last, rw last_first w.last_units)
  ]

  scan_on-Ends :
      (target : Bool) (last_segment k : ℕ) (st st' : GcState)
      → IsWhole st
      → Kept st st'
      → last_segment ≡ k * (policy st).ofs_unit
      → k ≤ units
      → 2 * units + 1 < fuel
      → Ends st (
          end_of_scan (policy st) (
            scan v gc_type
              (policy st)
              target
              (st.last_victim (policy st).gc_mode)
              fuel
              (first_scan v (policy st) last_segment st')))
  scan_on-Ends target last_segment k st st' w kept e h f =
      let p = policy st in
      let start = starts st w in
      let (s', ran, ended) =
        scan-Ended v gc_type p target (st.last_victim p.gc_mode) st' units w.some_unit w.small
          (total32 st w) w.last w.last_within w.last_units fuel k start.0 w.last
          (first_scan v p last_segment st')
          (record {
            last = e;
            offset = start.1;
            next = ap (λ (g : CostMode → ℕ). g p.gc_mode) kept.last ∙ w.last_units;
            within = h;
            next_within = w.last_within;
            same = record { cur = refl; marks = refl; dcc = refl; next_bg = refl; next_fg = refl };
            chosen = tt;
          })
          (ground (arith, w.last_within)) in
      rw ran (of_scan-Ends target st st' s' w kept ended)

  scan_pass-Ends :
      (target : Bool) (last_segment k : ℕ) (st : GcState)
      → IsWhole st
      → last_segment ≡ k * (policy st).ofs_unit
      → k ≤ units
      → 2 * units + 1 < fuel
      → Ends st (scan_pass fuel v gc_type type alloc_mode (policy st) target last_segment st)
  scan_pass-Ends target last_segment k st w e h f =
      let p = policy st in
      let m =
        if is_lfs p.alloc_mode && is_fg gc_type
        then check_bg_victims v st v.main_secs 0
        else (none, st) in
      let marked : IsMarked v st m = elim (Bool-cases (is_lfs p.alloc_mode && is_fg gc_type)) [
        | inl fg ↦ rw fg (
            check_bg_victims-IsMarked v st v.main_secs 0 some_segs (
              omega (
                arith,
                zero_add v.main_secs v.segs_per_sec,
                w.total,
                w.small,
                add_one units p.ofs_unit,
              )))
        | inr other ↦ rw other (unchanged st, tt)
      ] in
      elim (Bool-cases (takes m.1 p target m.0)) [
        | inl taken ↦ rw (taken) (_, refl, (taken-IsFree st m.1 target m.0 taken marked.1, refl))
        | inr scan_on ↦ rw (scan_on) (scan_on-Ends target last_segment k st m.1 w marked.0 e h f)
      ]

  pub pass-Ends :
      (target : Bool) (last_segment k : ℕ) (st : GcState)
      → IsWhole st
      → last_segment ≡ k * (policy st).ofs_unit
      → k ≤ units
      → 2 * units + 1 < fuel
      → Ends st (pass fuel v gc_type type alloc_mode target last_segment st none)
  unfolding pass
  pass-Ends target last_segment k st w e h f = elim (Bool-cases (is_set (policy st).max_search)) [
    | inl some_search ↦
        rw (some_search, no_next st target w, pass)
          (scan_pass-Ends target last_segment k st w e h f)
    | inr no_search ↦ rw (no_search, pass) (_, refl, refl)
  ]
