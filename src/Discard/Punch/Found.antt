-- ===== src/Discard/Punch/Found.antt =====
-- The lookups in the ordered commands: the command that holds a block, and the place of a new one.
use redisc.Base.{
  ℕ, ◌+◌, ◌≤◌, ◌<◌, ◌≡◌, refl, ◌∙◌, inl, inr, true, false, Bool-cases, Option, some, none, List, [],
  ◌∷◌, arith, ltb, leb, add32,
}
use redisc.Discard.{DiscardCmd, insert_cmd}
use redisc.Discard.Order.{
  IsSound, AreSound, AreSoundBefore, AreSoundBefore-weaken, covers, rejoin, rejoin-covers,
  AreSound-covers-false, AreSoundBefore-covers-false,
}
use redisc.Discard.Punch.{Position, lookup_rb_tree}

-- The command of the position is the one of the tree that holds the block.
pub record Holds (base : ℕ → ℕ) (root : List DiscardCmd) (blk : ℕ) (at : Position) : Type 0 where
  pub same : rejoin at.before (at.dc ∷ at.after) ≡ root
  pub before : AreSoundBefore base at.dc.lstart at.before
  pub sound : IsSound base at.dc
  pub after : AreSound base (at.dc.lstart + at.dc.len) at.after
  pub lower : at.dc.lstart ≤ blk
  pub upper : blk < at.dc.lstart + at.dc.len

abbrev pub Finds : (ℕ → ℕ) → List DiscardCmd → ℕ → Option Position → Type 0
Finds base root blk none = covers root blk ≡ false
Finds base root blk (some at) = Holds base root blk at

pub lookup_rb_tree-Finds :
    (base : ℕ → ℕ) (blk lo : ℕ) (before cmds : List DiscardCmd)
    → AreSoundBefore base lo before
    → AreSound base lo cmds
    → lo ≤ blk
    → Finds base (rejoin before cmds) blk (lookup_rb_tree blk before cmds)
unfolding lookup_rb_tree covers rejoin
lookup_rb_tree-Finds base blk lo before [] b a h =
    ground (arith, rejoin-covers before [] blk, AreSoundBefore-covers-false base lo before blk b h)
lookup_rb_tree-Finds base blk lo before (dc ∷ cmds) b a h = elim (Bool-cases (ltb blk dc.lstart)) [
  | inl early ↦
      rw (early, lookup_rb_tree)
        (ground (
          arith,
          rejoin-covers before (dc ∷ cmds) blk,
          AreSoundBefore-covers-false base lo before blk b h,
          AreSound-covers-false base (dc.lstart + dc.len) cmds blk a.2,
        ))
  | inr late ↦ elim (Bool-cases (leb (add32 dc.lstart dc.len) blk)) [
    | inl past ↦
        rw (late, past, lookup_rb_tree)
          (lookup_rb_tree-Finds base blk (dc.lstart + dc.len) (dc ∷ before) cmds
            (omega arith, a.1, AreSoundBefore-weaken base lo dc.lstart before a.0 b) a.2
            (ground (arith, a.1.small)))
    | inr here ↦
        rw (late, here, lookup_rb_tree)
          (record {
            same = refl;
            before = AreSoundBefore-weaken base lo dc.lstart before a.0 b;
            sound = a.1;
            after = a.2;
            lower = ground arith;
            upper = ground (arith, a.1.small);
          })
  ]
]

-- A new command goes behind the commands that start in front of it.
pub insert_cmd-rejoin :
    (base : ℕ → ℕ) (new : DiscardCmd) (hi : ℕ) (before rest : List DiscardCmd)
    → AreSoundBefore base hi before
    → hi ≤ new.lstart
    → insert_cmd new (rejoin before rest) ≡ rejoin before (insert_cmd new rest)
unfolding insert_cmd rejoin
insert_cmd-rejoin base new hi [] rest b h = refl
insert_cmd-rejoin base new hi (dc ∷ before) rest b h =
    let later : ltb new.lstart dc.lstart ≡ false = ground arith in
    insert_cmd-rejoin base new dc.lstart before (dc ∷ rest) b.2 (omega (arith, b.0))
    ∙ rw (later, insert_cmd) refl

pub insert_cmd-front :
    (base : ℕ → ℕ) (new : DiscardCmd) (lo : ℕ) (rest : List DiscardCmd)
    → AreSound base lo rest
    → new.lstart < lo
    → insert_cmd new rest ≡ new ∷ rest
unfolding insert_cmd
insert_cmd-front base new lo [] a h = refl
insert_cmd-front base new lo (dc ∷ rest) a h =
    let sooner : ltb new.lstart dc.lstart ≡ true = ground arith in rw (sooner, insert_cmd) refl
