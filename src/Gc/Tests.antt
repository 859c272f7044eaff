-- ===== src/Gc/Tests.antt =====
-- Victims on a small main area.
use redisc.Base.{ℕ, ◌≡◌, refl, true, false, Option, some, none, arith, ◌==◌, fill}
use redisc.Swod.State.{gc_normal, Dcc}
use redisc.Swod.Lookup.{fg_gc, wce_match, wce_enabled, has_wce_target}
use redisc.Swod.Hold.{install_candidate}
use redisc.Swod.Tests.{one_held}
use redisc.Gc.{
  View, GcState, VictimPolicy, lfs, gc_greedy, select_policy, get_gc_cost, get_max_cost,
}
use redisc.Gc.Scan.{Scan, may_choose, weigh, visit, scan, find_next_bit}
use redisc.Gc.Scan.Stuck.{IsStuck, scan-eq-none}
use redisc.Gc.Victim.{Selection, get_victim, check_bg_victims, pass}
use redisc.Gc.Victim.Passes.{IsWhole}
use redisc.Gc.Victim.Laws.{IsVictim, get_victim-IsVictim}

-- Eight segments, of which the sixth is dirty.
abbrev area : ℕ → View
area segs_per_sec = record {
  gc_mode = gc_normal;
  atgc_enabled = false;
  noheap = false;
  cp_disabled = false;
  main_secs = 8;
  segs_per_sec = segs_per_sec;
  blocks_per_seg = 512;
  log_blocks_per_seg = 9;
  max_victim_search = 4096;
  dirty_segmap = λ type segno. segno == 6;
  nr_dirty = λ type. 1;
  dirty_secmap = λ secno. secno == 6;
  seg_valid_blocks = λ segno. 100;
  sec_valid_blocks = λ secno. 100;
  ckpt_valid_blocks = λ segno. 100;
  has_free_slot = λ segno. true;
  is_cursec = λ secno. secno == 0;
  mtime = λ segno. 10;
  usable_segs_in_sec = λ segno. segs_per_sec;
}

-- The first group is held, and all knobs are on.
abbrev knobs : Dcc
knobs = record one_held {
  tun = record (one_held.tun) {
    swod_enable = 1;
    swod_completion_enable = 1;
    swod_gc_bg_enable = 1;
    swod_gc_fg_enable = 1;
  };
}

abbrev idle : Dcc → GcState
idle d = record {
  last_victim = λ mode. 4;
  cur_victim_sec = 0xffff_ffff;
  victim_secmap = λ secno. false;
  next_victim_bg = none;
  next_victim_fg = none;
  min_mtime = 0;
  max_mtime = 100;
  dcc = d;
}

wce_on : wce_enabled knobs fg_gc ≡ true
unfolding wce_enabled
wce_on = refl

has_target : has_wce_target knobs ≡ true
unfolding has_wce_target install_candidate
has_target = refl

idle-IsWhole : IsWhole 40 (area 1) fg_gc 0 lfs 8 (omega arith) (idle knobs)
unfolding select_policy
idle-IsWhole = record {
  total = omega arith;
  small = omega arith;
  some_unit = omega arith;
  last = 4;
  last_units = refl;
  last_within = omega arith;
  no_next_bg = refl;
  no_next_fg = refl;
}

get_victim-IsVictim_example :
    (c : Selection) × (get_victim 40 (area 1) fg_gc 0 lfs (idle knobs) none ≡ some c)
    × IsVictim 40 (area 1) fg_gc 0 lfs 8 (omega arith) (idle knobs) c
unfolding select_policy
get_victim-IsVictim_example =
    get_victim-IsVictim 40 (area 1) fg_gc 0 lfs 8 (omega arith) (idle knobs) idle-IsWhole refl
      (omega arith)

result_of : Option Selection → Option ℕ
result_of none = none
result_of (some c) = c.result

-- Without SWOD, the dirty segment is found behind the last victim.
stock_finds :
    result_of (get_victim 40 (area 1) fg_gc 0 lfs (idle (record knobs { swod = none })) none)
    ≡ some 6
unfolding result_of get_victim pass scan find_next_bit visit may_choose weigh get_gc_cost
    select_policy get_max_cost check_bg_victims wce_enabled has_wce_target wce_match
    install_candidate
stock_finds = refl

-- After a target pass that finds nothing, the stock pass ends at the last victim, and misses it.
fallback_misses : result_of (get_victim 40 (area 1) fg_gc 0 lfs (idle knobs) none) ≡ none
unfolding result_of get_victim pass scan find_next_bit visit may_choose weigh get_gc_cost
    select_policy get_max_cost check_bg_victims wce_enabled has_wce_target wce_match
    install_candidate fill
fallback_misses = refl

-- Sections of two segments, and a last victim that a search for single segments has left.
abbrev greedy : VictimPolicy
greedy = record {
  alloc_mode = lfs;
  gc_mode = gc_greedy;
  dirty_bitmap = λ secno. secno == 6;
  max_search = 1;
  offset = 0;
  ofs_unit = 2;
}

abbrev second_pass : Scan
second_pass = record {
  offset = 12;
  last_segment = 13;
  nsearched = 0;
  min_segno = none;
  min_cost = 2048;
  state = record (idle knobs) { last_victim = λ mode. 0 };
}

-- A last victim at an odd segment: the search for a target has not ended after 60 rounds.
still_searches :
    get_victim 60 (area 2) fg_gc 0 lfs (record (idle knobs) { last_victim = λ mode. 13 }) none
    ≡ none
unfolding get_victim pass scan find_next_bit visit may_choose weigh get_gc_cost select_policy
    get_max_cost check_bg_victims wce_enabled has_wce_target wce_match install_candidate fill
still_searches = refl

-- At an even one, it ends with the segment.
even_last_ends :
    result_of
      (get_victim 60 (area 2) fg_gc 0 lfs (record (idle knobs) { last_victim = λ mode. 0 }) none)
    ≡ some 12
unfolding result_of get_victim pass scan find_next_bit visit may_choose weigh get_gc_cost
    select_policy get_max_cost check_bg_victims wce_enabled has_wce_target wce_match
    install_candidate fill
even_last_ends = refl

second_pass-IsStuck : IsStuck (area 2) fg_gc greedy 13 6 (omega arith) second_pass
unfolding may_choose wce_match install_candidate
second_pass-IsStuck = record {
  whole = refl;
  part = omega arith;
  small = omega arith;
  behind = omega arith;
  budget = omega arith;
  refused = refl;
}

scan-eq-none_example : scan (area 2) fg_gc greedy true 13 1000 second_pass ≡ none
scan-eq-none_example =
    scan-eq-none (area 2) fg_gc greedy 13 6 (omega arith) 1000 second_pass second_pass-IsStuck
