-- ===== src/Swod/Issue/Delays.antt =====
-- Delays: the windows that a command of the discard thread has to wait for.
use redisc.Base.{
  ℕ, zero, suc, ◌+◌, ◌≤◌, ◌<◌, ◌≡◌, refl, inl, inr, Bool, true, false, not, Bool-cases, arith,
  time_after_eq, add32,
}
use redisc.Swod.State.{Ctrl, Stats, Sbi, Tunables, short_hold, group_is_active, group_deadline}
use redisc.Swod.Hold.{window_ready, segs_ready}
use redisc.Swod.Issue.{
  Visit, stop, go, and_then, visit_group, visit_groups, misses, overlaps_little, is_bypass,
  is_waiting, held_first, held_last, overlap_ratio_bp,
}

-- Group `gid` has a window that has not run out and is not complete, that shares a segment with
-- the range from `seg0` to `seg1`, and, if it is a short hold, covers enough of that range.
pub record Delays (sbi : Sbi) (t : Tunables) (now seg0 seg1 : ℕ) (sw : Ctrl) (gid : ℕ)
    : Type 0 where
  pub waits : is_waiting now (sw.grp_hint gid) ≡ true
  pub incomplete : window_ready sbi gid sw ≡ false
  pub overlaps : (held_first sw gid ≤ seg1) × (seg0 ≤ held_last sw gid)
  pub enough :
      (sw.grp_hint gid).action ≡ short_hold
      → t.swod_overlap_skip_ratio_bp ≤ overlap_ratio_bp sw gid seg0 seg1

segs_ready-stats :
    (sbi : Sbi) (sw : Ctrl) (st : Stats) (n segno : ℕ)
    → segs_ready sbi (record sw { stats = st }) n segno ≡ segs_ready sbi sw n segno
unfolding segs_ready
segs_ready-stats sbi sw st zero segno = refl
segs_ready-stats sbi sw st (suc n) segno = rw (segs_ready-stats sbi sw st n (add32 segno 1))

module _ (sbi : Sbi) (t : Tunables) (now seg0 seg1 : ℕ) where
  abbrev pub StopsAt : ℕ → ℕ → Visit → Type 0
  StopsAt lo hi (go saw sw) = Unit
  StopsAt lo hi (stop sw) = (gid : ℕ) × (lo ≤ gid) × (gid < hi) × Delays sbi t now seg0 seg1 sw gid

  ready-stats :
      (gid : ℕ) (sw : Ctrl) (st : Stats)
      → window_ready sbi gid sw ≡ false
      → window_ready sbi gid (record sw { stats = st }) ≡ false
  unfolding window_ready
  ready-stats gid sw st e = rw (segs_ready-stats sbi sw st) e

  visit_group-StopsAt :
      (gid : ℕ) (saw : Bool) (sw : Ctrl)
      → StopsAt gid (gid + 1) (visit_group sbi t now seg0 seg1 gid saw sw)
  unfolding visit_group
  visit_group-StopsAt gid saw sw = elim (Bool-cases (not (group_is_active (sw.grp_hint gid)))) [
    | inl idle ↦ rw idle tt
    | inr active ↦ elim (Bool-cases (time_after_eq now (group_deadline (sw.grp_hint gid)))) [
      | inl over ↦ rw (active, over) tt
      | inr early ↦ elim (Bool-cases (window_ready sbi gid sw)) [
        | inl ready ↦ rw (active, early, ready) tt
        | inr open_ ↦ elim (Bool-cases (misses sw gid seg0 seg1)) [
          | inl miss ↦ rw (active, early, open_, miss) tt
          | inr hit ↦ elim (Bool-cases (overlaps_little t sw gid seg0 seg1)) [
            | inl little ↦ rw (active, early, open_, hit, little) tt
            | inr much ↦ elim (Bool-cases (is_bypass (sw.grp_hint gid).action)) [
              | inl by ↦ rw (active, early, open_, hit, much, by) tt
              | inr holds ↦
                  rw (active, early, open_, hit, much, holds)
                    (
                      gid,
                      omega arith,
                      omega arith,
                      record {
                        waits = ground arith;
                        incomplete = ready-stats gid sw _ open_;
                        overlaps = ground arith;
                        enough = λ e. ground arith;
                      },
                    )
            ]
          ]
        ]
      ]
    ]
  ]

  StopsAt-weaken :
      (lo lo' hi hi' : ℕ) (r : Visit) → lo ≤ lo' → hi' ≤ hi → StopsAt lo' hi' r → StopsAt lo hi r
  StopsAt-weaken lo lo' hi hi' (go saw sw) p q k = tt
  StopsAt-weaken lo lo' hi hi' (stop sw) p q (gid, l, h, d) = (gid, omega arith, omega arith, d)

  and_then-StopsAt :
      (lo hi : ℕ) (r : Visit) (rest : Bool → Ctrl → Visit)
      → StopsAt lo hi r
      → ((saw : Bool) (sw : Ctrl) → StopsAt lo hi (rest saw sw))
      → StopsAt lo hi (and_then r rest)
  and_then-StopsAt lo hi (stop sw) rest k k' = k
  and_then-StopsAt lo hi (go saw sw) rest k k' = k' saw sw

  pub visit_groups-StopsAt :
      (n gid : ℕ) (saw : Bool) (sw : Ctrl)
      → StopsAt gid (gid + n) (visit_groups sbi t now seg0 seg1 n gid saw sw)
  unfolding visit_groups
  visit_groups-StopsAt zero gid saw sw = tt
  visit_groups-StopsAt (suc n) gid saw sw =
      and_then-StopsAt gid (gid + suc n) _ _
        (StopsAt-weaken gid gid (gid + suc n) (gid + 1) _ (omega arith) (omega arith)
          (visit_group-StopsAt gid saw sw))
        (λ saw' sw'.
          StopsAt-weaken gid (gid + 1) (gid + suc n) (gid + 1 + n) _ (omega arith) (omega arith)
            (visit_groups-StopsAt n (gid + 1) saw' sw'))
