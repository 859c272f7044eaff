-- ===== src/Swod/Rebuild/Search.antt =====
-- `swod_rb_lower_bound` against the commands in their order.
use redisc.Base.{
  ℕ, ◌+◌, ◌≤◌, ◌<◌, ◌^◌, ◌≡◌, refl, sym, ap, ◌∙◌, inl, inr, true, false, Bool-cases, List, [], ◌∷◌,
  ◌++◌, arith, if◌then◌else◌,
}
use mathlib.Core.List.{append-nil, append_assoc}
use redisc.Swod.Issue.{Cmd}
use redisc.Swod.Rebuild.{CmdTree, leaf, node, in_order, ends_by, lower_bound, lower_bound_before}

-- The commands from the first that does not end by `blk` on.
unfoldable pub drop_ended : ℕ → List Cmd → List Cmd
drop_ended blk [] = []
drop_ended blk (dc ∷ dcs) =
    let rest = drop_ended blk dcs in if ends_by blk dc then rest else dc ∷ dcs

-- The commands are not empty, stand in the order of their blocks, do not overlap and do not wrap.
abbrev pub AreDisjoint : ℕ → List Cmd → Type 0
AreDisjoint lo [] = Unit
AreDisjoint lo (dc ∷ dcs) =
    (lo ≤ dc.lstart)
    × (0 < dc.len)
    × (dc.lstart + dc.len < 2 ^ 32)
    × AreDisjoint (dc.lstart + dc.len) dcs

disjoint-suffix :
    (lo : ℕ) (xs ys : List Cmd) → AreDisjoint lo (xs ++ ys) → (lo' : ℕ) × AreDisjoint lo' ys
disjoint-suffix lo [] ys d = (lo, d)
disjoint-suffix lo (x ∷ xs) ys d = disjoint-suffix (x.lstart + x.len) xs ys d.3

disjoint-le :
    (lo : ℕ) (xs : List Cmd) (dc : Cmd) (ys : List Cmd)
    → AreDisjoint lo (xs ++ (dc ∷ ys))
    → (lo ≤ dc.lstart) × (0 < dc.len) × (dc.lstart + dc.len < 2 ^ 32)
disjoint-le lo [] dc ys d = (d.0, d.1, d.2)
disjoint-le lo (x ∷ xs) dc ys d =
    let (a, b, c) = disjoint-le (x.lstart + x.len) xs dc ys d.3 in (omega arith, b, c)

-- In front of a command that ends by `blk`, all do.
drop_ended-append :
    (blk lo : ℕ) (xs : List Cmd) (dc : Cmd) (ys : List Cmd)
    → AreDisjoint lo (xs ++ (dc ∷ ys))
    → ends_by blk dc ≡ true
    → drop_ended blk (xs ++ (dc ∷ ys)) ≡ drop_ended blk ys
unfolding drop_ended
drop_ended-append blk lo [] dc ys d e = rw e
drop_ended-append blk lo (x ∷ xs) dc ys d e =
    let (a, b, c) = disjoint-le (x.lstart + x.len) xs dc ys d.3 in
    let ended : ends_by blk x ≡ true = ground arith in
    rw ended (drop_ended-append blk (x.lstart + x.len) xs dc ys d.3 e)

drop_ended-stays :
    (blk : ℕ) (dc : Cmd) (dcs : List Cmd)
    → ends_by blk dc ≡ false
    → drop_ended blk (dc ∷ dcs) ≡ dc ∷ dcs
unfolding drop_ended
drop_ended-stays blk dc dcs e = rw e

drop_ended-nil : (blk : ℕ) → [] ≡ drop_ended blk []
unfolding drop_ended
drop_ended-nil blk = refl

lower_bound_before_lem :
    (blk : ℕ) (t : CmdTree) (lo : ℕ) (best rest : List Cmd)
    → AreDisjoint lo (in_order t ++ rest)
    → best ≡ drop_ended blk rest
    → lower_bound_before blk t best rest ≡ drop_ended blk (in_order t ++ rest)
unfolding lower_bound_before in_order
lower_bound_before_lem blk leaf lo best rest d e = e
lower_bound_before_lem blk (node l dc r) lo best rest d e =
    let d' = rw (append_assoc (in_order l) (dc ∷ in_order r) rest) at d in
    rw (append_assoc (in_order l) (dc ∷ in_order r) rest) (elim (Bool-cases (ends_by blk dc)) [
      | inl ended ↦
          let (lo', s) = disjoint-suffix lo (in_order l) (dc ∷ (in_order r ++ rest)) d' in
          rw ended (
            lower_bound_before_lem blk r (dc.lstart + dc.len) best rest s.3 e
            ∙ sym (drop_ended-append blk lo (in_order l) dc (in_order r ++ rest) d' ended))
      | inr open_ ↦ rw open_ (
          lower_bound_before_lem blk l lo (dc ∷ (in_order r ++ rest)) (dc ∷ (in_order r ++ rest)) d'
            (sym (drop_ended-stays blk dc (in_order r ++ rest) open_)))
    ])

-- In a tree of non-empty commands that stand in order, do not overlap and do not wrap,
-- swod_rb_lower_bound with rb_next goes through exactly the commands from the first that does not
-- end by the block.
pub lower_bound_lem :
    (root : CmdTree) (blk : ℕ)
    → AreDisjoint 0 (in_order root)
    → lower_bound root blk ≡ drop_ended blk (in_order root)
unfolding lower_bound
lower_bound_lem root blk d =
    lower_bound_before_lem blk root 0 [] [] (rw (append-nil (in_order root)) d) (drop_ended-nil blk)
    ∙ ap (drop_ended blk) (append-nil (in_order root))
