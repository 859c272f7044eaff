-- ===== src/Discard/Range/Tally.antt =====
-- One round of `__update_discard_tree_range` against the two counters.
use redisc.Base.{ℕ, suc, ◌+◌, ◌^◌, ◌<◌, ◌≡◌, refl, ap, Option, some, none, List, ◌∷◌, arith, add32}
use redisc.Swod.State.{Sbi, Ctrl, Dcc}
use redisc.Swod.Worker.{with_ctrl_in}
use redisc.Swod.Policy.{enabled_ctrl}
use redisc.Swod.Hints.{create_cmd}
use redisc.Discard.{DiscardInfo, DiscardCmd, Totals, create_discard_cmd}
use redisc.Discard.Order.{AreSoundBefore, total_len, length, Counts}
use redisc.Discard.Range.{push}
use redisc.Discard.Range.Cases.{
  FitsNext, Filled, unchanged, merged_both, merged_back, merged_front, attached, fresh, grown-len,
}

pub with_ctrl_in-tun :
    (d : Dcc) (f : Ctrl → Ctrl) (o : Option Ctrl) → (with_ctrl_in d f o).tun ≡ d.tun
with_ctrl_in-tun d f none = refl
with_ctrl_in-tun d f (some sw) = refl

create_cmd-cnt :
    (sbi : Sbi) (lstart len : ℕ) (d : Dcc)
    → (create_cmd sbi lstart len d).1.discard_cmd_cnt ≡ add32 d.discard_cmd_cnt 1
unfolding create_cmd
create_cmd-cnt sbi lstart len d =
    ap (λ t. add32 t.discard_cmd_cnt 1) (with_ctrl_in-tun d _ (enabled_ctrl d))

module _ (sbi : Sbi) (base : ℕ → ℕ) (bdev max_len : ℕ) (di : DiscardInfo) (t : Totals)
    (small : di.lstart + di.len < 2 ^ 32) where
  pub fresh-Counts :
      (blks cmds blks' cmds' : ℕ)
      → blks' ≡ di.len + blks
      → cmds' ≡ 1 + cmds
      → Counts t blks cmds
      → Counts (fresh sbi bdev max_len di t).1 blks' cmds'
  unfolding create_discard_cmd
  fresh-Counts blks cmds blks' cmds' p q c = record {
    undiscard = ground (arith, c.undiscard);
    cmd_cnt = ground (arith, c.cmd_cnt, create_cmd-cnt sbi di.lstart di.len t.dcc);
  }

  -- The counters follow the commands.
  pub Filled-Counts :
      {before : List DiscardCmd} {next : Option DiscardCmd} {r : List DiscardCmd} {t' : Totals}
      → Filled sbi bdev max_len di t before next r t'
      → AreSoundBefore base di.lstart before
      → FitsNext base (di.lstart + di.len) next
      → (blks cmds : ℕ)
      → Counts t (total_len (push next before) + blks) (length (push next before) + cmds)
      → Counts t' (total_len r + blks) (length r + cmds)
  unfolding create_discard_cmd create_cmd total_len
  Filled-Counts {next = none} (unchanged e) b n blks cmds c = c
  Filled-Counts {next = some next} (unchanged e) b n blks cmds c = c
  Filled-Counts {before = prev ∷ before} {next = some next} (merged_both e p q d d' i i') b n blks
        cmds c =
      record {
        undiscard = ground (arith, grown-len di prev p small, n.1.small, c.undiscard);
        cmd_cnt = ground (arith, c.cmd_cnt);
      }
  Filled-Counts {next = none} (merged_back {prev = prev} e p d i) b n blks cmds c = record {
    undiscard = ground (arith, grown-len di prev p small, c.undiscard);
    cmd_cnt = c.cmd_cnt;
  }
  Filled-Counts {next = some next} (merged_back {prev = prev} e p d i) b n blks cmds c = record {
    undiscard = ground (arith, grown-len di prev p small, c.undiscard);
    cmd_cnt = c.cmd_cnt;
  }
  Filled-Counts (merged_front e q d i) b n blks cmds c = record {
    undiscard = ground (arith, n.1.small, c.undiscard);
    cmd_cnt = c.cmd_cnt;
  }
  Filled-Counts {before = before} {next = none} (attached e) b n blks cmds c =
      fresh-Counts (total_len before + blks) (length before + cmds) _ _ (omega arith) (omega arith)
        c
  Filled-Counts {before = before} {next = some next} (attached e) b n blks cmds c =
      fresh-Counts (next.len + total_len before + blks) (suc (length before) + cmds) _ _
        (omega arith) (omega arith) c

  -- The round adds as many blocks as the gap has.
  pub Filled-total_len :
      {before : List DiscardCmd} {next : Option DiscardCmd} {r : List DiscardCmd} {t' : Totals}
      → Filled sbi bdev max_len di t before next r t'
      → AreSoundBefore base di.lstart before
      → FitsNext base (di.lstart + di.len) next
      → total_len r ≡ total_len (push next before) + di.len
  unfolding create_discard_cmd create_cmd total_len
  Filled-total_len (unchanged e) b n = omega arith
  Filled-total_len (merged_both {prev = prev} e p q d d' i i') b n =
      ground (arith, grown-len di prev p small, n.1.small)
  Filled-total_len {next = none} (merged_back {prev = prev} e p d i) b n =
      ground (arith, grown-len di prev p small)
  Filled-total_len {next = some next} (merged_back {prev = prev} e p d i) b n =
      ground (arith, grown-len di prev p small)
  Filled-total_len (merged_front e q d i) b n = ground (arith, n.1.small)
  Filled-total_len {next = none} (attached e) b n = omega arith
  Filled-total_len {next = some next} (attached e) b n = omega arith
