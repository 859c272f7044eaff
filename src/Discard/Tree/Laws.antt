-- ===== src/Discard/Tree/Laws.antt =====
-- The lookups in the tree against those in the ordered commands.
use redisc.Base.{
  ℕ, ◌+◌, ◌<◌, ◌≡◌, refl, sym, ap, inl, inr, true, false, Bool-cases, Option, some, none, List, [],
  ◌∷◌, ◌++◌, arith, ltb, leb, add32,
}
use mathlib.Core.List.{append-nil, append_assoc}
use redisc.Discard.{DiscardCmd, insert_cmd}
use redisc.Discard.Order.{covers-append, AreSound, covers, rejoin}
use redisc.Discard.Range.{head, lookup_ret}
use redisc.Discard.Punch.{Position, lookup_rb_tree}
use redisc.Discard.Tree.Lists.{
  StartBehind, AreSound-append, lookup_ret-append, lookup_rb_tree-append, lookup_ret-behind,
  AreSound-StartBehind, lookup_rb_tree-behind, lookup_rb_tree-past, lookup_rb_tree-here,
  insert_cmd-left, insert_cmd-right, AreSound-left,
}
use redisc.Discard.Tree.{
  RbTree, leaf, node, in_order, Parent, at_root, left_of, right_of, lookup_rb_tree_slow,
  lookup_from, lookup_rb_tree_ret, insert_rb_tree,
}

-- The parent is the neighbour on its side.
abbrev IsParent : (ℕ → ℕ) → ℕ → Parent → List DiscardCmd → List DiscardCmd → Type 0
IsParent base ofs at_root prevs nexts = (prevs ≡ []) × (nexts ≡ [])
IsParent base ofs (left_of re) prevs nexts = head nexts ≡ some re
IsParent base ofs (right_of re) prevs nexts = (head prevs ≡ some re) × (re.lstart < ofs)

abbrev pub or_else : Option DiscardCmd → Option DiscardCmd → Option DiscardCmd
or_else (some dc) other = some dc
or_else none other = other

lookup_from-lookup_ret :
    (base : ℕ → ℕ) (ofs lo : ℕ) (t : RbTree) (parent : Parent) (prevs nexts : List DiscardCmd)
    → AreSound base lo (in_order t ++ nexts)
    → StartBehind ofs nexts
    → IsParent base ofs parent prevs nexts
    → let n = lookup_from ofs t parent prevs nexts in
      let s = lookup_ret ofs prevs (in_order t ++ nexts) in
      (or_else n.entry n.prev_entry ≡ head s.0) × (n.next_entry ≡ head s.1)
unfolding lookup_from in_order
lookup_from-lookup_ret base ofs lo leaf at_root prevs nexts a s p =
    rw (lookup_ret-behind ofs prevs nexts s, p.0, p.1) (refl, refl)
lookup_from-lookup_ret base ofs lo leaf (left_of re) prevs nexts a s p =
    rw (lookup_ret-behind ofs prevs nexts s) (refl, sym p)
lookup_from-lookup_ret base ofs lo leaf (right_of re) prevs nexts a s p =
    let behind : ltb re.lstart ofs ≡ true = ground (arith, p.1) in
    rw (lookup_ret-behind ofs prevs nexts s, behind) (sym p.0, refl)
lookup_from-lookup_ret base ofs lo (node l re r) parent prevs nexts a s p =
    let rest = in_order r ++ nexts in
    let a' = rw (append_assoc (in_order l) (re ∷ in_order r) nexts) at a in
    let (q, sound, after) = AreSound-append base lo (in_order l) re rest a' in
    rw (append_assoc (in_order l) (re ∷ in_order r) nexts) (elim (Bool-cases (ltb ofs re.lstart)) [
      | inl front ↦
          rw (front, lookup_from)
            (lookup_from-lookup_ret base ofs lo l (left_of re) prevs (re ∷ rest) a' (ground arith)
              refl)
      | inr late ↦
          let skip = lookup_ret-append base lo ofs prevs (in_order l) re rest a' (ground arith) in
          elim (Bool-cases (leb (add32 re.lstart re.len) ofs)) [
            | inl past ↦
                let in_front : re.lstart < ofs = ground (arith, sound.small, sound.filled) in
                rw (late, past, skip, lookup_from)
                  (lookup_from-lookup_ret base ofs (re.lstart + re.len) r (right_of re)
                    (re ∷ rejoin (in_order l) prevs) nexts after s (refl, in_front))
            | inr here ↦
                let behind =
                  AreSound-StartBehind base (re.lstart + re.len) ofs rest after
                    (ground (arith, sound.small)) in
                rw
                  (
                    late,
                    here,
                    skip,
                    lookup_ret-behind ofs (re ∷ rejoin (in_order l) prevs) rest behind,
                    lookup_from,
                  )
                  (refl, refl)
          ]
    ])

abbrev pub dc_of : Option Position → Option DiscardCmd
dc_of none = none
dc_of (some at) = some at.dc

lookup_rb_tree_slow-lookup_rb_tree :
    (base : ℕ → ℕ) (ofs lo : ℕ) (t : RbTree) (prevs nexts : List DiscardCmd)
    → AreSound base lo (in_order t ++ nexts)
    → StartBehind ofs nexts
    → lookup_rb_tree_slow ofs t ≡ dc_of (lookup_rb_tree ofs prevs (in_order t ++ nexts))
unfolding lookup_rb_tree_slow in_order
lookup_rb_tree_slow-lookup_rb_tree base ofs lo leaf prevs nexts a s =
    rw (lookup_rb_tree-behind ofs prevs nexts s) refl
lookup_rb_tree_slow-lookup_rb_tree base ofs lo (node l re r) prevs nexts a s =
    let rest = in_order r ++ nexts in
    let a' = rw (append_assoc (in_order l) (re ∷ in_order r) nexts) at a in
    let (q, sound, after) = AreSound-append base lo (in_order l) re rest a' in
    rw (append_assoc (in_order l) (re ∷ in_order r) nexts) (elim (Bool-cases (ltb ofs re.lstart)) [
      | inl front ↦
          rw (front, lookup_rb_tree_slow)
            (lookup_rb_tree_slow-lookup_rb_tree base ofs lo l prevs (re ∷ rest) a' (ground arith))
      | inr late ↦
          let skip =
            lookup_rb_tree-append base lo ofs prevs (in_order l) re rest a' (ground arith) in
          elim (Bool-cases (leb (add32 re.lstart re.len) ofs)) [
            | inl past ↦
                rw
                  (
                    late,
                    past,
                    skip,
                    lookup_rb_tree-past ofs (rejoin (in_order l) prevs) re rest late past,
                    lookup_rb_tree_slow,
                  )
                  (lookup_rb_tree_slow-lookup_rb_tree base ofs (re.lstart + re.len) r
                    (re ∷ rejoin (in_order l) prevs) nexts after s)
            | inr here ↦
                rw
                  (
                    late,
                    here,
                    skip,
                    lookup_rb_tree-here ofs (rejoin (in_order l) prevs) re rest late here,
                    lookup_rb_tree_slow,
                  )
                  refl
          ]
    ])

insert_rb_tree-insert_cmd :
    (base : ℕ → ℕ) (lo : ℕ) (new : DiscardCmd) (t : RbTree)
    → AreSound base lo (in_order t)
    → covers (in_order t) new.lstart ≡ false
    → in_order (insert_rb_tree new t) ≡ insert_cmd new (in_order t)
unfolding insert_rb_tree in_order covers insert_cmd
insert_rb_tree-insert_cmd base lo new leaf a free = refl
insert_rb_tree-insert_cmd base lo new (node l re r) a free =
    let (q, sound, after) = AreSound-append base lo (in_order l) re (in_order r) a in
    let c = covers-append (in_order l) (re ∷ in_order r) new.lstart in
    let free_left : covers (in_order l) new.lstart ≡ false = ground arith in
    let free_right : covers (in_order r) new.lstart ≡ false = ground arith in
    elim (Bool-cases (ltb new.lstart re.lstart)) [
      | inl front ↦
          rw
            (front, insert_cmd-left new (in_order l) re (in_order r) (ground arith), insert_rb_tree)
            (ap (λ dcs. dcs ++ (re ∷ in_order r))
              (insert_rb_tree-insert_cmd base lo new l (AreSound-left base lo (in_order l) _ a)
                free_left))
      | inr late ↦
          let past : leb (add32 re.lstart re.len) new.lstart ≡ true = ground (arith, sound.small) in
          rw
            (
              late,
              past,
              insert_cmd-right base lo new (in_order l) re (in_order r) a (ground arith),
              insert_rb_tree,
            )
            (ap (λ dcs. in_order l ++ (re ∷ dcs))
              (insert_rb_tree-insert_cmd base (re.lstart + re.len) new r after free_right))
    ]

-- In a tree of discard commands that stand in order, are not empty, do not overlap and do not wrap,
-- the descents of extent_cache.c agree with the ordered list: f2fs_lookup_rb_tree finds the command
-- that the list has for the block or none; f2fs_lookup_rb_tree_ret gives, as the entry or else the
-- previous one, and as the next one, the two commands between which the list is split; and a new
-- command whose start no command covers, linked where f2fs_lookup_rb_tree_for_insert ends, stands
-- where the list puts it.
pub RbTree-lookups :
    (base : ℕ → ℕ) (root : RbTree) (ofs : ℕ) (new : DiscardCmd)
    → AreSound base 0 (in_order root)
    → covers (in_order root) new.lstart ≡ false
    → let n = lookup_rb_tree_ret ofs root in
      let s = lookup_ret ofs [] (in_order root) in
      (lookup_rb_tree_slow ofs root ≡ dc_of (lookup_rb_tree ofs [] (in_order root)))
      × (or_else n.entry n.prev_entry ≡ head s.0)
      × (n.next_entry ≡ head s.1)
      × (in_order (insert_rb_tree new root) ≡ insert_cmd new (in_order root))
unfolding lookup_rb_tree_ret
RbTree-lookups base root ofs new a free =
    let a' : AreSound base 0 (in_order root ++ []) = rw (append-nil (in_order root)) a in
    let slow =
      rw (append-nil (in_order root)) at
        (lookup_rb_tree_slow-lookup_rb_tree base ofs 0 root [] [] a' tt) in
    let ret =
      rw (append-nil (in_order root)) at
        (lookup_from-lookup_ret base ofs 0 root at_root [] [] a' tt (refl, refl)) in
    (slow, ret.0, ret.1, insert_rb_tree-insert_cmd base 0 new root a free)
