-- ===== src/Swod/Init/Laws.antt =====
-- `f2fs_swod_init`: the new control block, over zeroed memory and over any.
use redisc.Base.{
  ℕ, ◌+◌, ◌-◌, ◌/◌, ◌%◌, ◌≤◌, ◌<◌, ◌^◌, ◌≡◌, refl, sym, ap, add32, sub32, ◌↔◌, Bool, true, false,
  Option, some, none, arith, count, count-pos, count-eq-zero, inl, inr, Bool-cases, ◌||◌,
}
use redisc.Swod.State.{SegHint, GroupHint, Ctrl, Tunables, Sbi, Dcc, max_win_segs}
use redisc.Swod.Geometry.Laws.{IsLaidOut, gid_of-lt, default_win_segs_bounds}
use redisc.Swod.Geometry.{gid_of}
use redisc.Swod.Group.{idle_hint}
use redisc.Swod.Lookup.{is_some}
use redisc.Swod.Inv.{Inv, hint_held, hint_parked, hint_eligible}
use redisc.Swod.Init.{Memory, base_defaults, init_win_segs, fresh_ctrl, init, no_error}

init_win_segs_bounds :
    (sbi : Sbi) (queue : Option ℕ) (x : ℕ)
    → (0 < init_win_segs sbi queue x) × (init_win_segs sbi queue x ≤ max_win_segs)
init_win_segs_bounds sbi queue x = ground (
  arith,
  default_win_segs_bounds queue ((2 ^ (sbi.log_blocksize + sbi.log_blocks_per_seg)) % 2 ^ 64),
)

-- `DIV_ROUND_UP` in 32 bits.
div_round_up :
    (n w : ℕ) → 0 < w → w ≤ max_win_segs → n < 2 ^ 31 → sub32 (add32 n w) 1 / w ≡ (n + w - 1) / w
div_round_up n w p q small = ap (λ k. k / w) (omega arith)

fresh-layout :
    (sbi : Sbi) (queue : Option ℕ) (t : Tunables) (segs : ℕ → SegHint) (groups : ℕ → GroupHint)
    (h p w : ℕ → Bool)
    → sbi.main_segments < 2 ^ 31
    → IsLaidOut (fresh_ctrl sbi (base_defaults sbi queue t) segs groups h p w)
fresh-layout sbi queue t segs groups h p w small =
    let b = init_win_segs_bounds sbi queue t.swod_win_segs in
    record {
      win_pos = b.0;
      win_small = b.1;
      main_small = small;
      groups =
          div_round_up sbi.main_segments (init_win_segs sbi queue t.swod_win_segs) b.0 b.1 small;
    }

pub fresh-Inv :
    (sbi : Sbi) (queue : Option ℕ) (t : Tunables) (segs : ℕ → SegHint)
    → sbi.main_segments < 2 ^ 31
    → Inv (
        fresh_ctrl sbi
          (base_defaults sbi queue t)
          segs
          (λ _. idle_hint 0)
          (λ _. false)
          (λ _. false)
          (λ _. false))
fresh-Inv sbi queue t segs small = record {
  layout = fresh-layout sbi queue t segs _ _ _ _ small;
  held_count = sym (count-eq-zero hint_held _ _ (λ i l. refl));
  parked_count = sym (count-eq-zero hint_parked _ _ (λ i l. refl));
  wce_count = sym (count-eq-zero hint_eligible _ _ (λ i l. refl));
  hints = λ gid l. record { window = λ e. cc; eligible = λ e. cc };
  hold_bits = λ s l. refl;
  park_bits = λ s l. refl;
  wce_bits = λ s l. refl;
}

-- Memory that reads as no window: no group of the main area is held, parked or eligible, and no main
-- segment has a bit set.
pub record IsBlank (sw : Ctrl) (groups : ℕ → GroupHint) (hold park wce : ℕ → Bool) : Type 0 where
  pub groups_idle :
      (gid : ℕ)
      → gid < sw.nr_groups
      → (hint_held (groups gid) || hint_parked (groups gid) || hint_eligible (groups gid)) ≡ false
  pub bits_clear : (s : ℕ) → s < sw.nr_main_segs → (hold s || park s || wce s) ≡ false

not_counted :
    (p : GroupHint → Bool) (n : ℕ) (groups : ℕ → GroupHint) (gid : ℕ)
    → 0 ≡ count p n groups
    → gid < n
    → p (groups gid) ≡ false
not_counted p n groups gid e l = elim (Bool-cases (p (groups gid))) [
  | inl marked ↦ absurd (omega (arith, e, count-pos p n groups gid l marked))
  | inr clear ↦ clear
]

module _ (sbi : Sbi) (queue : Option ℕ) (t : Tunables) (segs : ℕ → SegHint) (groups : ℕ → GroupHint)
    (hold park wce : ℕ → Bool) (small : sbi.main_segments < 2 ^ 31) where
  abbrev over : Ctrl
  over = fresh_ctrl sbi (base_defaults sbi queue t) segs groups hold park wce

  layout : IsLaidOut over
  layout = fresh-layout sbi queue t segs groups hold park wce small

  IsBlank-Inv : IsBlank over groups hold park wce → Inv over
  IsBlank-Inv b = record {
    layout = layout;
    held_count = sym (count-eq-zero hint_held _ groups (λ i l. ground (arith, b.groups_idle i l)));
    parked_count =
        sym (count-eq-zero hint_parked _ groups (λ i l. ground (arith, b.groups_idle i l)));
    wce_count =
        sym (count-eq-zero hint_eligible _ groups (λ i l. ground (arith, b.groups_idle i l)));
    hints = λ gid l.
        let idle = b.groups_idle gid l in
        record { window = λ e. absurd (ground arith); eligible = λ e. absurd (ground arith) };
    hold_bits = λ s l.
        let idle = b.groups_idle (gid_of over s) (gid_of-lt layout s l) in
        ground (arith, b.bits_clear s l);
    park_bits = λ s l.
        let idle = b.groups_idle (gid_of over s) (gid_of-lt layout s l) in
        ground (arith, b.bits_clear s l);
    wce_bits = λ s l.
        let idle = b.groups_idle (gid_of over s) (gid_of-lt layout s l) in
        ground (arith, b.bits_clear s l);
  }

  Inv-idle :
      Inv over
      → (gid : ℕ) → gid < over.nr_groups
      → (hint_held (groups gid) || hint_parked (groups gid) || hint_eligible (groups gid)) ≡ false
  Inv-idle v gid l =
      rw
        (
          not_counted hint_held over.nr_groups groups gid v.held_count l,
          not_counted hint_parked over.nr_groups groups gid v.parked_count l,
          not_counted hint_eligible over.nr_groups groups gid v.wce_count l,
        )
        refl

  Inv-IsBlank : Inv over → IsBlank over groups hold park wce
  Inv-IsBlank v = record {
    groups_idle = Inv-idle v;
    bits_clear = λ s l.
        let idle = Inv-idle v (gid_of over s) (gid_of-lt layout s l) in
        ground (arith, v.hold_bits s l, v.park_bits s l, v.wce_bits s l);
  }

-- The memory is handed out as it is.
abbrev pub handed : (ℕ → SegHint) → (ℕ → GroupHint) → (ℕ → Bool) → (ℕ → Bool) → (ℕ → Bool) → Memory
handed segs groups hold park wce = record {
  ctrl_ok = true;
  seg_mem = record { kmalloc = some segs; kvzalloc = true };
  grp_mem = record { kmalloc = some groups; kvzalloc = true };
  hold_mem = record { kmalloc = some hold; kvzalloc = true };
  park_mem = record { kmalloc = some park; kvzalloc = true };
  wce_mem = record { kmalloc = some wce; kvzalloc = true };
}

-- Where SWOD has no control block, fewer than 2^31 main segments, and f2fs_kmalloc hands out all
-- five arrays, whatever the memory contains, f2fs_swod_init succeeds, and the new control block
-- satisfies the invariant exactly if that memory happens to read as no window: no group is held,
-- parked or eligible for completion, and no main segment has a bit set in a bitmap.
pub init-Inv_iff :
    (sbi : Sbi) (queue : Option ℕ) (segs : ℕ → SegHint) (groups : ℕ → GroupHint)
    (hold park wce : ℕ → Bool) (d : Dcc)
    → sbi.main_segments < 2 ^ 31
    → d.swod ≡ none
    → let r = init sbi queue (handed segs groups hold park wce) d in
      (r.0 ≡ no_error)
      × ((sw : Ctrl) × (r.1.swod ≡ some sw) × (Inv sw ↔ IsBlank sw groups hold park wce))
unfolding init
init-Inv_iff sbi queue segs groups hold park wce d small e = rw e (
  refl,
  (
    over sbi queue d.tun segs groups hold park wce small,
    refl,
    (
      Inv-IsBlank sbi queue d.tun segs groups hold park wce small,
      IsBlank-Inv sbi queue d.tun segs groups hold park wce small,
    ),
  ),
)

-- The kernel clears the hints and the bitmaps, and the segment hints hold anything.
abbrev pub zeroing : (ℕ → SegHint) → Memory
zeroing segs = record {
  ctrl_ok = true;
  seg_mem = record { kmalloc = some segs; kvzalloc = true };
  grp_mem = record { kmalloc = none; kvzalloc = true };
  hold_mem = record { kmalloc = none; kvzalloc = true };
  park_mem = record { kmalloc = none; kvzalloc = true };
  wce_mem = record { kmalloc = none; kvzalloc = true };
}

-- Where SWOD has no control block, fewer than 2^31 main segments, and the group hints and the
-- bitmaps come from the zeroing allocator, f2fs_swod_init succeeds and leaves a control block that
-- satisfies the invariant.
pub init-Inv :
    (sbi : Sbi) (queue : Option ℕ) (segs : ℕ → SegHint) (d : Dcc)
    → sbi.main_segments < 2 ^ 31
    → d.swod ≡ none
    → ((init sbi queue (zeroing segs) d).0 ≡ no_error)
      × ((sw : Ctrl) × ((init sbi queue (zeroing segs) d).1.swod ≡ some sw) × Inv sw)
unfolding init
init-Inv sbi queue segs d small e = rw e (
  refl,
  (
    fresh_ctrl sbi (base_defaults sbi queue d.tun) segs (λ _. idle_hint 0) (λ _. false) (λ _. false)
        (λ _. false),
    refl,
    fresh-Inv sbi queue d.tun segs small,
  ),
)

-- f2fs_swod_init reports success exactly if there is a control block afterwards, whatever the
-- allocators return.
pub init-no_error_iff :
    (sbi : Sbi) (queue : Option ℕ) (m : Memory) (d : Dcc)
    → ((init sbi queue m d).0 ≡ no_error) ↔ (is_some (init sbi queue m d).1.swod ≡ true)
unfolding init
init-no_error_iff sbi queue m d = ground arith
