-- ===== src/Discard/Punch/Cases.antt =====
-- The punch of a block from a pending command, case by case.
use redisc.Base.{
  ℕ, suc, ◌+◌, ◌-◌, ◌^◌, ◌<◌, ◌≡◌, refl, ◌∙◌, inl, inr, true, false, not, ◌&&◌, Bool-cases, List,
  [], ◌∷◌, ◌++◌, arith, ltb, ◌==◌, is_set, add32, sub32,
}
use redisc.Swod.State.{Sbi}
use redisc.Swod.Issue.{CmdState, d_prep, d_partial, d_submit, d_done, is_prep}
use redisc.Swod.Hints.{create_cmd}
use redisc.Discard.{
  DiscardCmd, Totals, Control, is_done, create_discard_cmd, insert_cmd, insert_discard_tree,
  add_undiscard, sub_undiscard,
}
use redisc.Discard.Order.{
  IsSound, AreSound, AreSound-weaken, in_range, covers, pending, total_len, length, Counts,
  Counts-eq, rejoin,
}
use redisc.Discard.Range.Fill.{fresh-IsSound}
use redisc.Discard.Range.Tally.{fresh-Counts}
use redisc.Discard.Punch.{Position, left_part, right_info, without_first, punch_discard_cmd}
use redisc.Discard.Punch.Found.{Holds, insert_cmd-rejoin, insert_cmd-front}

-- What stands in place of the command once the block is out.
pub record IsPunch (base : ℕ → ℕ) (at : Position) (t : Totals) (blk : ℕ) (r : Control)
    : Type 0 where
  pub here : List DiscardCmd
  pub root : r.root ≡ rejoin at.before (here ++ at.after)
  pub sound : AreSound base at.dc.lstart (here ++ at.after)
  pub covered :
      (b : ℕ)
      → covers here b ≡ (in_range at.dc.lstart (at.dc.lstart + at.dc.len) b && not (b == blk))
  pub pended : (b : ℕ) → pending here b ≡ covers here b
  pub counted :
      (blks cmds : ℕ)
      → Counts t (at.dc.len + blks) (suc cmds)
      → Counts r.totals (total_len here + blks) (length here + cmds)

not_done : (s : CmdState) → is_prep s ≡ true → is_done s ≡ false
not_done d_prep e = refl
not_done d_partial e = refl
not_done d_submit e = refl
not_done d_done e = absurd cc

module _ (sbi : Sbi) (base : ℕ → ℕ) (root : List DiscardCmd) (blk : ℕ) (t : Totals)
    (before : List DiscardCmd) (dc : DiscardCmd) (after : List DiscardCmd) where
  abbrev at : Position
  at = record { before = before; dc = dc; after = after }

  module _ (h : Holds base root blk at) (prep : is_prep dc.state ≡ true) where
    whole : (dc.len == 1) ≡ true → IsPunch base at t blk (punch_discard_cmd sbi at blk t)
    unfolding punch_discard_cmd covers pending total_len
    whole one =
        let idle : is_set dc.bio_ref ≡ false = ground (arith, h.sound.idle prep) in
        rw (not_done dc.state prep, one, idle, punch_discard_cmd)
          (record {
            here = [];
            root = refl;
            sound = AreSound-weaken base _ _ after (omega arith) h.after;
            covered = λ b. ground (arith, h.lower, h.upper);
            pended = λ b. ground arith;
            counted = λ blks cmds c. record {
              undiscard = ground (arith, c.undiscard);
              cmd_cnt = ground (arith, c.cmd_cnt);
            };
          })

    more_than_one : (dc.len == 1) ≡ false → 1 < dc.len
    more_than_one two = ground (arith, h.sound.filled)

    left-IsSound : dc.lstart < blk → IsSound base (left_part dc blk)
    left-IsSound front = record {
      filled = ground (arith, h.sound.small, h.upper);
      small = ground (arith, h.sound.small, h.upper);
      mapped = h.sound.mapped;
      idle = h.sound.idle;
      filed = λ p. refl;
    }

    cut_off :
        (dc.len == 1) ≡ false
        → ltb dc.lstart blk ≡ true
        → ltb blk (sub32 (add32 dc.lstart dc.len) 1) ≡ false
        → IsPunch base at t blk (punch_discard_cmd sbi at blk t)
    unfolding punch_discard_cmd covers pending total_len
    cut_off two front last =
        rw (not_done dc.state prep, two, front, last, punch_discard_cmd)
          (record {
            here = left_part dc blk ∷ [];
            root = refl;
            sound = (
              omega arith,
              left-IsSound (ground arith),
              AreSound-weaken base _ _ after (ground (arith, h.sound.small, h.upper)) h.after,
            );
            covered = λ b. ground (arith, h.lower, h.upper, h.sound.small);
            pended = λ b. ground arith;
            counted = λ blks cmds c. record {
              undiscard = ground (arith, c.undiscard, h.upper, h.sound.small);
              cmd_cnt = ground (arith, c.cmd_cnt);
            };
          })

    rest-IsSound : 1 < dc.len → IsSound base (without_first dc)
    rest-IsSound two = record {
      filled = ground (arith, h.sound.small);
      small = ground (arith, h.sound.small);
      mapped = ground (arith, h.sound.small, h.sound.mapped);
      idle = h.sound.idle;
      filed = λ p. refl;
    }

    first_out :
        (dc.len == 1) ≡ false
        → ltb dc.lstart blk ≡ false
        → ltb blk (sub32 (add32 dc.lstart dc.len) 1) ≡ true
        → IsPunch base at t blk (punch_discard_cmd sbi at blk t)
    unfolding punch_discard_cmd covers pending total_len
    first_out two front behind =
        rw (not_done dc.state prep, two, front, behind, punch_discard_cmd)
          (record {
            here = without_first dc ∷ [];
            root = refl;
            sound = (
              ground (arith, h.sound.small),
              rest-IsSound (more_than_one two),
              AreSound-weaken base _ _ after (ground (arith, h.sound.small, more_than_one two))
                  h.after,
            );
            covered = λ b. ground (arith, h.lower, h.upper, h.sound.small);
            pended = λ b. ground arith;
            counted = λ blks cmds c. record {
              undiscard = ground (arith, c.undiscard, h.upper, h.sound.small);
              cmd_cnt = ground (arith, c.cmd_cnt);
            };
          })

    right_small : (right_info dc blk).lstart + (right_info dc blk).len < 2 ^ 32
    right_small = ground (arith, h.sound.small, h.lower, h.upper)

    -- The command is split, and its second part is new.
    module _ (front : ltb dc.lstart blk ≡ true)
        (behind : ltb blk (sub32 (add32 dc.lstart dc.len) 1) ≡ true) where
      abbrev cut : Totals
      cut = add_undiscard (sub32 blk dc.lstart) (sub_undiscard dc.len t)

      abbrev right : DiscardCmd
      right = (create_discard_cmd sbi dc.bdev (right_info dc blk) cut).0

      right-lstart : right.lstart ≡ blk + 1
      unfolding create_discard_cmd create_cmd
      right-lstart = ground (arith, h.sound.small, h.upper)

      insert-between :
          insert_cmd right (rejoin before (left_part dc blk ∷ after))
          ≡ rejoin before (left_part dc blk ∷ right ∷ after)
      unfolding insert_cmd
      insert-between =
          let later : ltb right.lstart dc.lstart ≡ false = ground (arith, right-lstart, h.lower) in
          let sooner : right.lstart < dc.lstart + dc.len =
            ground (arith, right-lstart, h.sound.small) in
          insert_cmd-rejoin base right dc.lstart before (left_part dc blk ∷ after) h.before
            (omega (arith, right-lstart, h.lower))
          ∙ rw
              (
                later,
                insert_cmd,
                insert_cmd-front base right (dc.lstart + dc.len) after h.after sooner,
              )
              refl

      right-len : right.len ≡ dc.lstart + dc.len - (blk + 1)
      unfolding create_discard_cmd create_cmd
      right-len = ground (arith, h.sound.small, h.upper)

      right-is_prep : is_prep right.state ≡ true
      unfolding create_discard_cmd create_cmd
      right-is_prep = refl

      right-IsSound : IsSound base right
      right-IsSound =
          fresh-IsSound sbi base dc.bdev 0 (right_info dc blk) cut right_small
            (ground (arith, h.sound.small, h.upper))
            (λ p. ground (arith, h.sound.small, h.upper, h.sound.mapped))

      split_in_two-AreSound : AreSound base dc.lstart (left_part dc blk ∷ right ∷ after)
      split_in_two-AreSound = (
        omega arith,
        left-IsSound (ground arith),
        (
          ground (arith, right-lstart, h.sound.small),
          right-IsSound,
          AreSound-weaken base _ _ after (ground (arith, right-lstart, right-len, h.sound.small))
              h.after,
        ),
      )

      split_in_two-Counts :
          (blks cmds : ℕ)
          → Counts t (dc.len + blks) (suc cmds)
          → Counts
              (create_discard_cmd sbi dc.bdev (right_info dc blk) cut).1
              (sub32 blk dc.lstart + (right.len + blks))
              (suc (suc cmds))
      split_in_two-Counts blks cmds c =
          fresh-Counts sbi base dc.bdev 0 (right_info dc blk) cut right_small
            (sub32 blk dc.lstart + blks) (suc cmds) _ _
            (ground (arith, right-len, h.sound.small, h.upper)) (ground arith)
            (record {
              undiscard = ground (arith, c.undiscard, h.upper, h.sound.small);
              cmd_cnt = c.cmd_cnt;
            })

      split_in_two : (dc.len == 1) ≡ false → IsPunch base at t blk (punch_discard_cmd sbi at blk t)
      unfolding punch_discard_cmd covers pending total_len insert_discard_tree
      split_in_two two =
          rw (not_done dc.state prep, two, front, behind, punch_discard_cmd)
            (record {
              here = left_part dc blk ∷ right ∷ [];
              root = insert-between;
              sound = split_in_two-AreSound;
              covered =
                  λ b. ground (arith, h.lower, h.upper, h.sound.small, right-lstart, right-len);
              pended = λ b. ground (arith, right-is_prep);
              counted = λ blks cmds c.
                  Counts-eq _ (ground arith) (ground arith) (split_in_two-Counts blks cmds c);
            })

    pub punch_discard_cmd-IsPunch : IsPunch base at t blk (punch_discard_cmd sbi at blk t)
    punch_discard_cmd-IsPunch = elim (Bool-cases (dc.len == 1)) [
      | inl one ↦ whole one
      | inr two ↦ elim (Bool-cases (ltb dc.lstart blk)) [
        | inl front ↦ elim (Bool-cases (ltb blk (sub32 (add32 dc.lstart dc.len) 1))) [
          | inl behind ↦ split_in_two front behind two
          | inr last ↦ cut_off two front last
        ]
        | inr first ↦
            first_out two first (ground (arith, h.lower, h.sound.small, more_than_one two))
      ]
    ]
