-- ===== src/Discard/Range/Laws.antt =====
-- `__update_discard_tree_range` against the set of blocks that the commands cover.
use redisc.Base.{
  ℕ, ◌+◌, ◌^◌, ◌≤◌, ◌<◌, ◌≡◌, refl, sym, ap, ◌∙◌, not, ◌&&◌, ◌||◌, Option, List, [], ◌∷◌, arith,
}
use redisc.Swod.State.{Sbi}
use redisc.Discard.{DiscardCmd, Control}
use redisc.Discard.Order.{
  AreSoundBefore, in_range, covers, pending, rejoin-pending, AreSoundBefore-covers-false, total_len,
  length, Counts-eq, IsValid, rejoin, rejoin-covers, rejoin-total_len, rejoin-length,
}
use redisc.Discard.Range.{first_gap, head, lookup_ret, update_discard_tree_range}
use redisc.Discard.Range.Fill.{reach}
use redisc.Discard.Range.Split.{StartsBy, IsSplit, lookup_ret-IsSplit}
use redisc.Discard.Range.Gaps.{StartsAt}
use redisc.Discard.Range.Rounds.{IsUpdate, fill_from-IsUpdate}

-- From `ofs` to where the first part ends, its last command covers.
reach-covers :
    (before after : List DiscardCmd) (all : List DiscardCmd) (ofs to : ℕ) (blk : ℕ)
    → StartsBy ofs before
    → rejoin before after ≡ all
    → (covers all blk || in_range (reach ofs before) to blk)
      ≡ (covers all blk || in_range ofs to blk)
unfolding covers
reach-covers [] after all ofs to blk s e = refl
reach-covers (prev ∷ before) after all ofs to blk s e =
    let q = rejoin-covers (prev ∷ before) after blk in rw (sym e) (ground arith)

-- The same for the blocks that become pending: the first part covers none behind its end.
reach-pending :
    (base : ℕ → ℕ) (before after all : List DiscardCmd) (ofs to blk : ℕ)
    → StartsBy ofs before
    → AreSoundBefore base (reach ofs before) before
    → rejoin before after ≡ all
    → (pending all blk || (in_range (reach ofs before) to blk && not (covers after blk)))
      ≡ (pending all blk || (in_range ofs to blk && not (covers all blk)))
unfolding covers
reach-pending base [] after all ofs to blk s b e =
    rw (sym e) (ground (arith, rejoin-covers [] after blk))
reach-pending base (prev ∷ before) after all ofs to blk s b e =
    let q = rejoin-covers (prev ∷ before) after blk in
    let l = AreSoundBefore-covers-false base (reach ofs (prev ∷ before)) (prev ∷ before) blk b in
    rw (sym e) (ground arith)

module _ (sbi : Sbi) (base : ℕ → ℕ) (max_len bdev lstart start len : ℕ)
    (small : lstart + len < 2 ^ 32) (mapped : start + base bdev ≡ lstart) (c : Control) where
  abbrev updated : Control
  updated = update_discard_tree_range sbi max_len bdev lstart start len c

  parts : IsValid base c → IsSplit base lstart c.root (lookup_ret lstart [] c.root)
  unfolding rejoin
  parts v = lookup_ret-IsSplit base lstart 0 [] c.root tt tt v.sound

  starts_at :
      (before : List DiscardCmd) (next : Option DiscardCmd)
      → StartsAt base bdev lstart start len before next (first_gap lstart start len next)
  starts_at [] next = refl
  starts_at (prev ∷ before) next = tt

  abbrev first_part : List DiscardCmd
  first_part = (lookup_ret lstart [] c.root).0

  abbrev second_part : List DiscardCmd
  second_part = (lookup_ret lstart [] c.root).1

  update :
      IsValid base c
      → IsUpdate base lstart len c.totals first_part second_part (updated.root, updated.totals)
  unfolding update_discard_tree_range
  update v =
      let p = parts v in
      fill_from-IsUpdate sbi base bdev max_len lstart start len small mapped second_part first_part
        _ c.totals (starts_at first_part (head second_part)) p.before p.after

  update_discard_tree_range-covers :
      IsValid base c
      → (blk : ℕ)
      → covers updated.root blk ≡ (covers c.root blk || in_range lstart (lstart + len) blk)
  unfolding update_discard_tree_range
  update_discard_tree_range-covers v blk =
      let p = parts v in
      (update v).covered blk
      ∙ ap (λ here. here || in_range (reach lstart first_part) (lstart + len) blk)
          (sym (rejoin-covers first_part second_part blk) ∙ ap (λ root. covers root blk) p.same)
      ∙ reach-covers first_part second_part c.root lstart (lstart + len) blk p.starts p.same

  update_discard_tree_range-IsValid : IsValid base c → IsValid base updated
  unfolding update_discard_tree_range
  update_discard_tree_range-IsValid v =
      let p = parts v in
      let u = update v in
      record {
        sound = u.sound;
        counted = u.counted (
            Counts-eq c.totals (ap total_len (sym p.same) ∙ rejoin-total_len first_part second_part)
              (ap length (sym p.same) ∙ rejoin-length first_part second_part) v.counted);
      }

  update_discard_tree_range-pending :
      IsValid base c
      → (blk : ℕ)
      → pending updated.root blk
        ≡ (pending c.root blk || (in_range lstart (lstart + len) blk && not (covers c.root blk)))
  unfolding update_discard_tree_range
  update_discard_tree_range-pending v blk =
      let p = parts v in
      (update v).pended blk
      ∙ ap
          (λ here.
            here
            || (in_range (reach lstart first_part) (lstart + len) blk
                && not (covers second_part blk)))
          (sym (rejoin-pending first_part second_part blk) ∙ ap (λ root. pending root blk) p.same)
      ∙ reach-pending base first_part second_part c.root lstart (lstart + len) blk p.starts p.before
          p.same

  pub update_discard_tree_range-total_len :
      IsValid base c → total_len c.root ≤ total_len updated.root
  unfolding update_discard_tree_range
  update_discard_tree_range-total_len v =
      let p = parts v in
      omega (
        arith,
        (update v).grows,
        ap total_len (sym p.same) ∙ rejoin-total_len first_part second_part,
      )

  -- Where the range does not wrap and the address on the device is the logical address less the
  -- first block of the device, from a valid state (the commands are in order, not empty, do not
  -- overlap, keep their device address and their pending list, and the two counters agree with
  -- them) __update_discard_tree_range ends in a valid state, whose commands cover the blocks that
  -- they covered and those of the range, and of which those are pending that were and those of the
  -- range that no command covered.
  pub update_discard_tree_range-refines :
      IsValid base c
      → IsValid base updated
        × ((blk : ℕ)
            → (covers updated.root blk ≡ (covers c.root blk || in_range lstart (lstart + len) blk))
              × (pending updated.root blk ≡ (
                  pending c.root blk
                  || (in_range lstart (lstart + len) blk && not (covers c.root blk)))))
  update_discard_tree_range-refines v = (
    update_discard_tree_range-IsValid v,
    λ blk. (update_discard_tree_range-covers v blk, update_discard_tree_range-pending v blk),
  )
