-- ===== src/Discard/Policy/Laws.antt =====
-- The start of a round of the discard thread, where discards press.
use redisc.Base.{◌≡◌, refl, inl, inr, true, false, not, ◌||◌, Bool-cases, some}
use redisc.Swod.State.{Sbi, Dcc, Ctrl, pressure}
use redisc.Swod.Policy.{enabled_ctrl, discard_cache_fits}
use redisc.Swod.Worker.{release_from, release_all}
use redisc.Swod.Worker.Release.{IsReleased, release_all-IsReleased}
use redisc.Swod.Inv.{Inv}
use redisc.Discard.Policy.{Policy, is_urgent_high, is_over_utilized, begin_round}

released :
    (sbi : Sbi) (d : Dcc) (sw : Ctrl)
    → enabled_ctrl d ≡ some sw
    → Inv sw
    → (sw' : Ctrl) × ((release_all sbi pressure d).swod ≡ some sw') × IsReleased sw'
unfolding release_all
released sbi d sw on v = (
  release_from sbi pressure sw.nr_groups 0 sw,
  rw (on, release_all) refl,
  release_all-IsReleased sbi pressure sw v,
)

-- Where SWOD is enabled, its invariant holds and the garbage collector is not in its high urgent
-- mode, a round of the discard thread that finds the discard cache over its share of memory, or
-- more than 80 percent of the blocks in use, runs with a policy of granularity 1, and begins by
-- releasing every window.
pub begin_round-IsReleased :
    (sbi : Sbi) (old : Policy) (d : Dcc) (sw : Ctrl)
    → enabled_ctrl d ≡ some sw
    → Inv sw
    → is_urgent_high sbi.gc_mode ≡ false
    → (not (discard_cache_fits sbi d.tun) || is_over_utilized sbi) ≡ true
    → let (p, d') = begin_round sbi old d in
      (p.granularity ≡ 1) × ((sw' : Ctrl) × (d'.swod ≡ some sw') × IsReleased sw')
unfolding begin_round
begin_round-IsReleased sbi old d sw on v calm pressed =
    elim (Bool-cases (discard_cache_fits sbi d.tun)) [
      | inr tight ↦ rw (calm, tight, begin_round) (refl, released sbi d sw on v)
      | inl fits ↦
          let over : is_over_utilized sbi ≡ true = rw fits at pressed in
          rw (calm, fits, over, begin_round) (refl, released sbi d sw on v)
    ]
