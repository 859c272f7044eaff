-- ===== src/Swod/Inv/Replace.antt =====
-- One group's hint is replaced, and the counters and bitmaps follow.
use redisc.Base.{
  ℕ, ◌+◌, ◌*◌, ◌<◌, ◌≡◌, inl, inr, Bool, ◌&&◌, arith, ◌==◌, if◌then◌else◌, update, bit, count,
  count-update, in_range, Bool-cases, Option,
}
use redisc.Swod.State.{Ctrl, GroupHint, SegHint, Stats}
use redisc.Swod.Geometry.{gid_of, group_nsegs}
use redisc.Swod.Geometry.Laws.{IsLaidOut}
use redisc.Swod.Inv.{Inv, IsConsistent, hint_held, hint_parked, hint_eligible, mark}

-- The fields that the invariant does not speak of.
abbrev pub framed : Ctrl → (ℕ → SegHint) → Stats → ℕ → ℕ → Option ℕ → Ctrl
framed sw hints st next running pending = record sw {
  seg_hint = hints;
  stats = st;
  eval_next_gid = next;
  eval_running = running;
  work_pending = pending;
}

pub frame-Inv :
    {sw : Ctrl}
    → Inv sw
    → (hints : ℕ → SegHint) (st : Stats) (next running : ℕ) (pending : Option ℕ)
    → Inv (framed sw hints st next running pending)
unfolding group_nsegs
frame-Inv v hints st next running pending = record {
  layout = record {
    win_pos = v.layout.win_pos;
    win_small = v.layout.win_small;
    main_small = v.layout.main_small;
    groups = v.layout.groups;
  };
  held_count = v.held_count;
  parked_count = v.parked_count;
  wce_count = v.wce_count;
  hints = v.hints;
  hold_bits = v.hold_bits;
  park_bits = v.park_bits;
  wce_bits = v.wce_bits;
}

-- What a bitmap must be once the group's window is that of `g`.
abbrev pub remark : (GroupHint → Bool) → Ctrl → ℕ → GroupHint → (ℕ → Bool) → ℕ → Bool
remark p sw gid g map s =
    if gid_of sw s == gid
    then p g && in_range (gid * sw.win_segs + g.hold_off) g.hold_len s
    else map s

-- The state with one hint replaced.
pub record Change : Type 0 where
  pub hint : GroupHint
  pub nr_held : ℕ
  pub nr_parked : ℕ
  pub nr_wce : ℕ
  pub hold_map : ℕ → Bool
  pub park_map : ℕ → Bool
  pub wce_map : ℕ → Bool
  pub new_stats : Stats

abbrev pub changed : Ctrl → ℕ → Change → Ctrl
changed sw gid c = record sw {
  nr_held_groups = c.nr_held;
  nr_parked_groups = c.nr_parked;
  nr_wce_groups = c.nr_wce;
  grp_hint = update sw.grp_hint gid c.hint;
  hold_segmap = c.hold_map;
  park_segmap = c.park_map;
  wce_segmap = c.wce_map;
  stats = c.new_stats;
}

pub record Follows (sw : Ctrl) (gid : ℕ) (c : Change) : Type 0 where
  pub consistent : IsConsistent (group_nsegs sw gid) c.hint
  pub held_follows :
      c.nr_held + bit (hint_held (sw.grp_hint gid)) ≡ sw.nr_held_groups + bit (hint_held c.hint)
  pub parked_follows :
      c.nr_parked + bit (hint_parked (sw.grp_hint gid))
      ≡ sw.nr_parked_groups + bit (hint_parked c.hint)
  pub wce_follows :
      c.nr_wce + bit (hint_eligible (sw.grp_hint gid))
      ≡ sw.nr_wce_groups + bit (hint_eligible c.hint)
  pub hold_follows :
      (s : ℕ) → s < sw.nr_main_segs → c.hold_map s ≡ remark hint_held sw gid c.hint sw.hold_segmap s
  pub park_follows :
      (s : ℕ)
      → s < sw.nr_main_segs
      → c.park_map s ≡ remark hint_parked sw gid c.hint sw.park_segmap s
  pub wce_follows_bits :
      (s : ℕ)
      → s < sw.nr_main_segs
      → c.wce_map s ≡ remark hint_eligible sw gid c.hint sw.wce_segmap s

module _ {sw : Ctrl} {gid : ℕ} {c : Change} (v : Inv sw) (h : gid < sw.nr_groups)
    (f : Follows sw gid c) where
  changed-layout : IsLaidOut (changed sw gid c)
  changed-layout = record {
    win_pos = v.layout.win_pos;
    win_small = v.layout.win_small;
    main_small = v.layout.main_small;
    groups = v.layout.groups;
  }

  changed-count :
      (p : GroupHint → Bool) (n n' : ℕ)
      → n ≡ count p sw.nr_groups sw.grp_hint
      → n' + bit (p (sw.grp_hint gid)) ≡ n + bit (p c.hint)
      → n' ≡ count p sw.nr_groups (update sw.grp_hint gid c.hint)
  changed-count p n n' e e' = omega (arith, count-update p sw.nr_groups sw.grp_hint gid c.hint h)

  changed-bits :
      (p : GroupHint → Bool) (map map' : ℕ → Bool) (s : ℕ)
      → map s ≡ mark p sw s
      → map' s ≡ remark p sw gid c.hint map s
      → map' s ≡ mark p (changed sw gid c) s
  changed-bits p map map' s e e' = elim (Bool-cases (gid_of sw s == gid)) [
    | inl same ↦ ground arith
    | inr other ↦ ground arith
  ]

  changed-hints :
      (i : ℕ)
      → i < sw.nr_groups
      → IsConsistent (group_nsegs (changed sw gid c) i) (update sw.grp_hint gid c.hint i)
  unfolding group_nsegs
  changed-hints i l = elim (Bool-cases (gid == i)) [
    | inl same ↦ ground (arith, f.consistent)
    | inr other ↦ ground (arith, v.hints i l)
  ]

  pub changed-Inv : Inv (changed sw gid c)
  changed-Inv = record {
    layout = changed-layout;
    held_count = changed-count hint_held _ c.nr_held v.held_count f.held_follows;
    parked_count = changed-count hint_parked _ c.nr_parked v.parked_count f.parked_follows;
    wce_count = changed-count hint_eligible _ c.nr_wce v.wce_count f.wce_follows;
    hints = changed-hints;
    hold_bits = λ s l.
        changed-bits hint_held sw.hold_segmap c.hold_map s (v.hold_bits s l) (f.hold_follows s l);
    park_bits = λ s l.
        changed-bits hint_parked sw.park_segmap c.park_map s (v.park_bits s l) (f.park_follows s l);
    wce_bits = λ s l.
        changed-bits hint_eligible sw.wce_segmap c.wce_map s (v.wce_bits s l)
          (f.wce_follows_bits s l);
  }
