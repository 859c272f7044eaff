-- ===== src/Swod/FragIpu/Laws.antt =====
-- Which blocks `f2fs_swod_should_frag_ipu` picks.
use redisc.Base.{ℕ, ◌<◌, ◌≡◌, true, false}
use redisc.Swod.State.{Ctrl, Dcc, Sbi}
use redisc.Swod.Inv.{Inv, mark, hint_held}
use redisc.Swod.FragIpu.{Heat, is_fragment, is_old}

-- The segment is in the main area, in no held window, fragmented and old, and not hot where hot
-- files are left alone.
pub record IsLoneFragment (sbi : Sbi) (heat : Heat) (segno : ℕ) (d : Dcc) (sw : Ctrl) : Type 0 where
  pub in_main : segno < sw.nr_main_segs
  pub not_held : mark hint_held sw segno ≡ false
  pub fragmented : is_fragment d.tun (sw.seg_hint segno) ≡ true
  pub old : is_old sbi d.tun heat (sw.seg_hint segno) ≡ true
