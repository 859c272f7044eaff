-- ===== src/Gc/Victim.antt =====
-- get_victim_by_default: the two passes, what comes before the scan and after it.
pub mod Marks
pub mod Passes
pub mod Laws
use redisc.Base.{
  ℕ, zero, suc, ◌+◌, ◌-◌, ◌*◌, ◌/◌, ◌%◌, ◌^◌, Bool, true, false, not, ◌&&◌, ◌||◌, Option, some,
  none, ltb, leb, ◌==◌, is_set, if◌then◌else◌, mul32, inc64, update,
}
use redisc.Swod.State.{Dcc, Ctrl}
use redisc.Swod.Lookup.{GcType, bg_gc, fg_gc, wce_match, wce_enabled, has_wce_target}
use redisc.Gc.{
  View, GcState, VictimPolicy, AllocMode, CostMode, is_lfs, is_fg, is_large_section, sec_of,
  sec_usage_check, select_policy, get_max_cost, get_valid_blocks,
}
use redisc.Gc.Scan.{Scan, scan}

-- What the function returns: 0, -ENODATA or -EBUSY.
pub data Ret : Type 0 where
  ok enodata ebusy : Ret

-- The return value, `*result`, and the state.
pub record Selection : Type 0 where
  pub ret : Ret
  pub result : Option ℕ
  pub state : GcState

-- How a pass ends: at `out`, with p.min_segno and `*result`, or with no segment, in which case
-- `last_segment` is as the scan has left it.
pub data PassEnd : Type 0 where
  out : Selection → PassEnd
  picked : ℕ → ℕ → GcState → PassEnd
  nothing : ℕ → GcState → PassEnd

-- `check_bg_victims`, with the sections that are left.
unfoldable pub check_bg_victims : View → GcState → ℕ → ℕ → Option ℕ × GcState
check_bg_victims v st zero secno = (none, st)
check_bg_victims v st (suc n) secno =
    let rest = check_bg_victims v st n (secno + 1) in
    if st.victim_secmap secno && not (sec_usage_check v st secno)
    then (
      some (mul32 secno v.segs_per_sec),
      record st { victim_secmap = update st.victim_secmap secno false },
    )
    else rest

-- A segment that the target pass may take, or any segment in the other pass.
abbrev pub may_take : GcState → VictimPolicy → Bool → ℕ → Bool
may_take st p target segno = not target || wce_match st.dcc segno p.ofs_unit

abbrev pub takes : GcState → VictimPolicy → Bool → Option ℕ → Bool
takes st p target none = false
takes st p target (some segno) = may_take st p target segno

abbrev pub segno_or : ℕ → Option ℕ → ℕ
segno_or old none = old
segno_or old (some segno) = segno

-- The segments that are set as the next victims, on large sections.
abbrev pub next_victim : View → GcState → GcType → VictimPolicy → Bool → Option (ℕ × GcState)
next_victim v st gc_type p target =
    if not (is_large_section v && is_lfs p.alloc_mode)
    then none
    else if takes st p target st.next_victim_bg
    then some (segno_or 0 st.next_victim_bg, record st { next_victim_bg = none })
    else if is_fg gc_type && takes st p target st.next_victim_fg
    then some (segno_or 0 st.next_victim_fg, record st { next_victim_fg = none })
    else none

-- got_it.
abbrev got_it : VictimPolicy → ℕ → GcState → PassEnd
got_it p segno st = picked segno (mul32 (segno / p.ofs_unit) p.ofs_unit) st

abbrev pub end_of_scan : VictimPolicy → Option Scan → Option PassEnd
end_of_scan p none = none
end_of_scan p (some s) =
    some (elim s.min_segno [ none ↦ nothing s.last_segment s.state | some g ↦ got_it p g s.state ])

abbrev pub first_scan : View → VictimPolicy → ℕ → GcState → Scan
first_scan v p last_segment st = record {
  offset = p.offset;
  last_segment = last_segment;
  nsearched = 0;
  min_segno = none;
  min_cost = get_max_cost v p;
  state = st;
}

module _ (fuel : ℕ) (v : View) (gc_type : GcType) (type : ℕ) (alloc_mode : AllocMode) where
  abbrev pub scan_pass : VictimPolicy → Bool → ℕ → GcState → Option PassEnd
  scan_pass p target last_segment st =
      let last_victim = st.last_victim p.gc_mode in
      let (bg, st') =
        if is_lfs p.alloc_mode && is_fg gc_type
        then check_bg_victims v st v.main_secs 0
        else (none, st) in
      if takes st' p target bg
      then some (got_it p (segno_or 0 bg) st')
      else end_of_scan p
          (scan v gc_type p target last_victim fuel (first_scan v p last_segment st'))

  abbrev pub after_next : VictimPolicy → Bool → ℕ → GcState → Option (ℕ × GcState) → Option PassEnd
  after_next p target last_segment st none = scan_pass p target last_segment st
  after_next p target last_segment st (some (segno, st')) = some (picked segno segno st')

  -- The segment that the caller asks for.
  abbrev asked_victim : GcState → ℕ → Selection
  asked_victim st segno =
      if not (is_set (get_valid_blocks v segno false))
      then record { ret = enodata; result = some segno; state = st }
      else if sec_usage_check v st (sec_of v segno)
      then record { ret = ebusy; result = some segno; state = st }
      else record { ret = ok; result = some segno; state = st }

  -- From `retry` on.
  unfoldable pub pass : Bool → ℕ → GcState → Option ℕ → Option PassEnd
  pass target last_segment st (some segno) = some (out (asked_victim st segno))
  pass target last_segment st none =
      let p = select_policy v st gc_type type alloc_mode in
      if not (is_set p.max_search)
      then some (out (record { ret = enodata; result = none; state = st }))
      else after_next p target last_segment st (next_victim v st gc_type p target)

  abbrev pub with_swod : (Ctrl → Ctrl) → GcState → GcState
  with_swod f st = record st {
    dcc = record (st.dcc) { swod = elim st.dcc.swod [ none ↦ none | some sw ↦ some (f sw) ] };
  }

  abbrev pub count_fallback : Ctrl → Ctrl
  count_fallback sw = record sw {
    stats = record (sw.stats) { gc_fallback_cnt = inc64 sw.stats.gc_fallback_cnt };
  }

  abbrev count_pick : GcType → Ctrl → Ctrl
  count_pick bg_gc sw = record sw {
    stats = record (sw.stats) { gc_pick_bg_cnt = inc64 sw.stats.gc_pick_bg_cnt };
  }
  count_pick fg_gc sw = record sw {
    stats = record (sw.stats) { gc_pick_fg_cnt = inc64 sw.stats.gc_pick_fg_cnt };
  }

  -- `swod_wce_account_pick` and the marks of the victim's section.
  abbrev mark_victim : Bool → ℕ → GcState → GcState
  mark_victim target segno st =
      let st' = if target then with_swod (count_pick gc_type) st else st in
      let secno = sec_of v segno in
      if not (is_lfs alloc_mode)
      then st'
      else if is_fg gc_type
      then record st' { cur_victim_sec = secno }
      else record st' { victim_secmap = update st'.victim_secmap secno true }

  abbrev pub found_victim : Bool → ℕ → ℕ → GcState → Selection
  found_victim target segno result st = record {
    ret = ok;
    result = some result;
    state = mark_victim target segno st;
  }

  abbrev pub not_found : GcState → Selection
  not_found st = record { ret = enodata; result = none; state = st }

  -- The end of the stock pass.
  abbrev pub conclude : Option PassEnd → Option Selection
  conclude none = none
  conclude (some (out c)) = some c
  conclude (some (picked segno result st)) = some (found_victim false segno result st)
  conclude (some (nothing last_segment st)) = some (not_found st)

  -- The end of the target pass: the stock pass follows where it has found_victim nothing, with the
  -- `last_segment` that the scan has left.
  abbrev pub conclude_target : Option PassEnd → Option Selection
  conclude_target none = none
  conclude_target (some (out c)) = some c
  conclude_target (some (picked segno result st)) = some (found_victim true segno result st)
  conclude_target (some (nothing last_segment st)) =
      conclude (pass false last_segment (with_swod count_fallback st) none)

  -- `get_victim_by_default`.
  unfoldable pub get_victim : GcState → Option ℕ → Option Selection
  get_victim st result =
      let last_segment = mul32 v.main_secs v.segs_per_sec in
      if is_lfs alloc_mode && wce_enabled st.dcc gc_type && has_wce_target st.dcc
      then conclude_target (pass true last_segment st result)
      else conclude (pass false last_segment st result)
