-- ===== src/Gc/Scan.antt =====
-- The loop of get_victim_by_default over the dirty bitmap.
pub mod Bits
pub mod Units
pub mod Visit
pub mod Ends
pub mod Stuck
use redisc.Base.{
  ℕ, zero, suc, ◌+◌, ◌-◌, ◌*◌, ◌/◌, ◌%◌, ◌^◌, Bool, true, false, not, ◌&&◌, ◌||◌, Option, some,
  none, ltb, leb, ◌==◌, is_set, if◌then◌else◌, add32, mul32, update,
}
use redisc.Swod.Lookup.{GcType, bg_gc, fg_gc, wce_match}
use redisc.Gc.{
  View, GcState, VictimPolicy, AllocMode, CostMode, gc_cb, gc_greedy, gc_at, is_lfs, is_fg, sec_of,
  get_ckpt_valid_blocks, sec_usage_check, get_gc_cost, Cost,
}

next_bit : (ℕ → Bool) → ℕ → ℕ → ℕ
next_bit bits zero u = u
next_bit bits (suc n) u = let rest = next_bit bits n (u + 1) in if bits u then u else rest

-- `find_next_bit`: the first bit that is set from `start` on, or `size`.
unfoldable pub find_next_bit : (ℕ → Bool) → ℕ → ℕ → ℕ
unfolding next_bit
find_next_bit bits size start = if leb size start then size else next_bit bits (size - start) start

-- The variables of the loop.
pub record Scan : Type 0 where
  pub offset : ℕ
  pub last_segment : ℕ
  pub nsearched : ℕ
  pub min_segno : Option ℕ
  pub min_cost : ℕ
  pub state : GcState

-- sm->last_victim[p.gc_mode] = x.
abbrev pub set_of : CostMode → (CostMode → ℕ) → ℕ → CostMode → ℕ
set_of gc_cb f x gc_cb = x
set_of gc_cb f x gc_greedy = f gc_greedy
set_of gc_cb f x gc_at = f gc_at
set_of gc_greedy f x gc_greedy = x
set_of gc_greedy f x gc_cb = f gc_cb
set_of gc_greedy f x gc_at = f gc_at
set_of gc_at f x gc_at = x
set_of gc_at f x gc_cb = f gc_cb
set_of gc_at f x gc_greedy = f gc_greedy

abbrev pub set_last_victim : CostMode → ℕ → GcState → GcState
set_last_victim mode x st = record st { last_victim = set_of mode st.last_victim x }

module _ (v : View) (gc_type : GcType) (p : VictimPolicy) (target : Bool) where
  -- What lets the loop look at the segment: the tests up to that of the WCE target.
  unfoldable pub may_choose : GcState → ℕ → Bool
  may_choose st segno =
      let secno = sec_of v segno in
      not (sec_usage_check v st secno)
      && not (
          v.cp_disabled
          && (if is_lfs p.alloc_mode
              then is_set (get_ckpt_valid_blocks v segno)
              else not (v.has_free_slot segno)))
      && not (not (is_fg gc_type) && st.victim_secmap secno)
      && (not target || wce_match st.dcc segno p.ofs_unit)

  -- The cost of a candidate, and the lowest so far.
  unfoldable pub weigh : ℕ → Scan → Scan
  unfolding get_gc_cost
  weigh segno s =
      let c = get_gc_cost v s.state p segno in
      let lower = ltb c.cost s.min_cost in
      record s {
        min_segno = if lower then some segno else s.min_segno;
        min_cost = if lower then c.cost else s.min_cost;
        state = record (s.state) { min_mtime = c.min_mtime; max_mtime = c.max_mtime };
      }

  -- From the candidate to `next`.
  unfoldable pub visit : ℕ → Scan → Scan
  unfolding may_choose weigh
  visit segno s =
      let s' = record s {
        offset = add32 segno p.ofs_unit;
        nsearched = if target then s.nsearched else add32 s.nsearched 1;
      } in
      if may_choose s.state segno
      then weigh segno
          (record s' { nsearched = if target then add32 s'.nsearched 1 else s'.nsearched })
      else s'

module _ (v : View) (gc_type : GcType) (p : VictimPolicy) (target : Bool) (last_victim : ℕ) where
  -- Where the next scan is to begin.
  abbrev pub next_last_victim : ℕ → Scan → ℕ
  next_last_victim segno s =
      (if not (is_set (s.state.last_victim p.gc_mode)) && leb segno last_victim
        then add32 last_victim p.ofs_unit
        else add32 segno p.ofs_unit)
      % mul32 v.main_secs v.segs_per_sec

  abbrev pub next_segno : Scan → ℕ
  next_segno s =
      mul32 (find_next_bit p.dirty_bitmap (s.last_segment / p.ofs_unit) (s.offset / p.ofs_unit))
        p.ofs_unit

  -- The loop ends with the budget, or behind the last segment for the second time.
  unfoldable pub scan : ℕ → Scan → Option Scan
  unfolding visit
  scan zero s = none
  scan (suc fuel) s =
      let segno = next_segno s in
      let before = s.state.last_victim p.gc_mode in
      let s' = visit v gc_type p target segno s in
      let wrapped = scan fuel (record s {
        last_segment = before;
        offset = 0;
        state = set_last_victim p.gc_mode 0 s.state;
      }) in
      let rest = scan fuel s' in
      if leb s.last_segment segno
      then (if is_set before then wrapped else some s)
      else if leb p.max_search s'.nsearched
      then some
          (record s' { state = set_last_victim p.gc_mode (next_last_victim segno s') s'.state })
      else rest
