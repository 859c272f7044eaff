-- ===== src/Discard/Range/Split.antt =====
-- The lookup of the command that holds a block or stands in front of it, as a split of the commands.
use redisc.Base.{ℕ, ◌+◌, ◌≤◌, ◌≡◌, refl, inl, inr, Bool-cases, List, [], ◌∷◌, arith, leb}
use redisc.Discard.{DiscardCmd}
use redisc.Discard.Order.{AreSound, AreSoundBefore, AreSoundBefore-weaken, rejoin}
use redisc.Discard.Range.{lookup_ret}
use redisc.Discard.Range.Fill.{reach}

abbrev pub StartsBy : ℕ → List DiscardCmd → Type 0
StartsBy ofs [] = Unit
StartsBy ofs (prev ∷ before) = prev.lstart ≤ ofs

-- The lookup splits the commands at the block.
pub record IsSplit (base : ℕ → ℕ) (ofs : ℕ) (all : List DiscardCmd)
    (r : List DiscardCmd × List DiscardCmd) : Type 0 where
  pub same : rejoin r.0 r.1 ≡ all
  pub starts : StartsBy ofs r.0
  pub before : AreSoundBefore base (reach ofs r.0) r.0
  pub after : AreSound base (reach ofs r.0) r.1

reach-AreSoundBefore :
    (base : ℕ → ℕ) (ofs lo : ℕ) (before : List DiscardCmd)
    → AreSoundBefore base lo before
    → AreSoundBefore base (reach ofs before) before
reach-AreSoundBefore base ofs lo [] b = tt
reach-AreSoundBefore base ofs lo (prev ∷ before) b = (omega arith, b.1, b.2)

reach-le :
    (base : ℕ → ℕ) (ofs lo hi : ℕ) (before : List DiscardCmd)
    → AreSoundBefore base lo before
    → ofs ≤ hi
    → lo ≤ hi
    → reach ofs before ≤ hi
reach-le base ofs lo hi [] b p q = p
reach-le base ofs lo hi (prev ∷ before) b p q = omega (arith, b.0)

pub lookup_ret-IsSplit :
    (base : ℕ → ℕ) (ofs lo : ℕ) (before cmds : List DiscardCmd)
    → StartsBy ofs before
    → AreSoundBefore base lo before
    → AreSound base lo cmds
    → IsSplit base ofs (rejoin before cmds) (lookup_ret ofs before cmds)
unfolding lookup_ret rejoin
lookup_ret-IsSplit base ofs lo before [] s b a = record {
  same = refl;
  starts = s;
  before = reach-AreSoundBefore base ofs lo before b;
  after = tt;
}
lookup_ret-IsSplit base ofs lo before (dc ∷ cmds) s b a = elim (Bool-cases (leb dc.lstart ofs)) [
  | inl by ↦
      rw (by, lookup_ret)
        (lookup_ret-IsSplit base ofs (dc.lstart + dc.len) (dc ∷ before) cmds (ground arith)
          (omega arith, a.1, AreSoundBefore-weaken base lo dc.lstart before a.0 b) a.2)
  | inr behind ↦
      rw (behind, lookup_ret)
        (record {
          same = refl;
          starts = s;
          before = reach-AreSoundBefore base ofs lo before b;
          after = (reach-le base ofs lo dc.lstart before b (ground arith) a.0, a.1, a.2);
        })
]
