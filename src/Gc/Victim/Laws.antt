-- ===== src/Gc/Victim/Laws.antt =====
-- get_victim_by_default ends, and a victim that it searches for is in no section in use, and dirty or
-- marked.
use redisc.Base.{
  ℕ, ◌+◌, ◌*◌, ◌/◌, ◌<◌, ◌≡◌, ◌⊎◌, refl, sym, ap, ◌∙◌, inl, inr, Bool-cases, true, false, ◌&&◌,
  Option, some, none, arith, mul32,
}
use redisc.Swod.Lookup.{GcType, wce_enabled, has_wce_target}
use redisc.Gc.{View, GcState, AllocMode, is_lfs, is_gc_at, sec_of, select_policy}
use redisc.Gc.Victim.Passes.{policy, IsWhole, IsEligible, IsPass, IsWhole-after, total32, pass-Ends}
use redisc.Gc.Victim.{
  ok, enodata, Selection, PassEnd, out, picked, nothing, conclude, conclude_target, get_victim,
  with_swod, count_fallback,
}

module _ (fuel : ℕ) (v : View) (gc_type : GcType) (type : ℕ) (alloc_mode : AllocMode) (units : ℕ)
    (some_segs : 0 < v.segs_per_sec) where
  -- No victim, or one that is eligible, at the start of its unit.
  abbrev pub IsVictim : GcState → Selection → Type 0
  IsVictim st c =
      ((c.ret ≡ enodata) × (c.result ≡ none))
      ⊎ ((segno : ℕ) × (c.ret ≡ ok)
          × (c.result
              ≡ some (
                  mul32
                    (segno / (policy fuel v gc_type type alloc_mode units some_segs st).ofs_unit)
                    (policy fuel v gc_type type alloc_mode units some_segs st).ofs_unit))
          × IsEligible fuel v gc_type type alloc_mode units some_segs st segno)

  abbrev Victim : GcState → Option Selection → Type 0
  Victim st r = (c : Selection) × (r ≡ some c) × IsVictim st c

  conclude-Victim :
      (st : GcState) (e : PassEnd)
      → IsPass fuel v gc_type type alloc_mode units some_segs st e
      → Victim st (conclude fuel v gc_type type alloc_mode (some e))
  conclude-Victim st (out c) h = (c, refl, inl (rw h refl, rw h refl))
  conclude-Victim st (picked segno result st') h = (_, refl, inr (segno, refl, ap some h.1, h.0))
  conclude-Victim st (nothing last_segment st') h = (_, refl, inl (refl, refl))

  fallback-Victim :
      (st st' : GcState)
      → st'.cur_victim_sec ≡ st.cur_victim_sec
      → ((secno : ℕ) → st'.victim_secmap secno ≡ true → st.victim_secmap secno ≡ true)
      → (c : Selection) → IsVictim st' c
      → IsVictim st c
  unfolding select_policy
  fallback-Victim st st' e m c (inl n) = inl n
  fallback-Victim st st' e m c (inr (segno, r, res, (free, bit))) = inr (
    segno,
    r,
    res,
    (
      rw (sym e) free,
      elim bit [ inl marked ↦ inl (m (sec_of v segno) marked) | inr is_dirty ↦ inr is_dirty ],
    ),
  )

  conclude_target-Victim :
      (st : GcState) (e : PassEnd)
      → 2 * units + 1 < fuel
      → IsPass fuel v gc_type type alloc_mode units some_segs st e
      → Victim st (conclude_target fuel v gc_type type alloc_mode (some e))
  unfolding select_policy
  conclude_target-Victim st (out c) f h = (c, refl, inl (rw h refl, rw h refl))
  conclude_target-Victim st (picked segno result st') f h =
      (_, refl, inr (segno, refl, ap some h.1, h.0))
  conclude_target-Victim st (nothing last_segment st') f h =
      let st2 =
        with_swod fuel v gc_type type alloc_mode (count_fallback fuel v gc_type type alloc_mode)
          st' in
      let w = h.1 in
      let w2 =
        IsWhole-after fuel v gc_type type alloc_mode units some_segs st' st2 w w.last w.last_units
          w.last_within w.no_next_bg w.no_next_fg in
      let (e, ran, ends) =
        pass-Ends fuel v gc_type type alloc_mode units some_segs false last_segment h.3 st2 w2 h.4
          h.5 f in
      let (c, got, victim) = conclude-Victim st2 e ends in
      (
        c,
        ap (conclude fuel v gc_type type alloc_mode) ran ∙ got,
        fallback-Victim st st2 h.0 h.2 c victim,
      )

  -- Where the main area and the last victim are whole numbers of the search unit, no segment is set
  -- as the next victim and the policy is not by age, get_victim_by_default, asked for no segment in
  -- particular, ends after at most two rounds a unit and one more in each pass, with the target
  -- pass or without: it returns -ENODATA with no segment, or 0 with the start of the unit of a
  -- segment whose section is not in use, and which is dirty in the policy bitmap or was marked by
  -- the background GC.
  pub get_victim-IsVictim :
      (st : GcState)
      → IsWhole fuel v gc_type type alloc_mode units some_segs st
      → is_gc_at (policy fuel v gc_type type alloc_mode units some_segs st).gc_mode ≡ false
      → 2 * units + 1 < fuel
      → (c : Selection) × (get_victim fuel v gc_type type alloc_mode st none ≡ some c)
        × IsVictim st c
  unfolding get_victim
  get_victim-IsVictim st w no_at f =
      let last_segment = mul32 v.main_secs v.segs_per_sec in
      let target = is_lfs alloc_mode && wce_enabled st.dcc gc_type && has_wce_target st.dcc in
      elim (Bool-cases target) [
        | inl wce ↦
            let (e, ran, ends) =
              pass-Ends fuel v gc_type type alloc_mode units some_segs true last_segment units st w
                (total32 fuel v gc_type type alloc_mode units some_segs st w) (omega arith) f in
            rw (wce, ran, get_victim) (conclude_target-Victim st e f ends)
        | inr stock ↦
            let (e, ran, ends) =
              pass-Ends fuel v gc_type type alloc_mode units some_segs false last_segment units st w
                (total32 fuel v gc_type type alloc_mode units some_segs st w) (omega arith) f in
            rw (stock, ran, get_victim) (conclude-Victim st e ends)
      ]
