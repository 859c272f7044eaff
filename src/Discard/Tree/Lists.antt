-- ===== src/Discard/Tree/Lists.antt =====
-- The lookups in the ordered commands, across two parts of them.
use redisc.Base.{
  ℕ, ◌+◌, ◌≤◌, ◌<◌, ◌≡◌, refl, ap, inl, inr, true, false, Bool-cases, some, none, List, [], ◌∷◌,
  ◌++◌, arith, ltb, leb, add32,
}
use redisc.Discard.{DiscardCmd, insert_cmd}
use redisc.Discard.Order.{IsSound, AreSound, rejoin}
use redisc.Discard.Range.{lookup_ret}
use redisc.Discard.Punch.{lookup_rb_tree}

-- The commands behind a list of sound ones are sound, and the list ends in front of them.
pub AreSound-append :
    (base : ℕ → ℕ) (lo : ℕ) (xs : List DiscardCmd) (y : DiscardCmd) (ys : List DiscardCmd)
    → AreSound base lo (xs ++ (y ∷ ys))
    → (lo ≤ y.lstart) × IsSound base y × AreSound base (y.lstart + y.len) ys
AreSound-append base lo [] y ys a = (a.0, a.1, a.2)
AreSound-append base lo (x ∷ xs) y ys a =
    let (p, q, r) = AreSound-append base (x.lstart + x.len) xs y ys a.2 in
    (omega (arith, a.0), q, r)

-- The commands in front of one that starts by the block are passed over.
pub lookup_ret-append :
    (base : ℕ → ℕ) (lo ofs : ℕ) (before xs : List DiscardCmd) (y : DiscardCmd)
    (ys : List DiscardCmd)
    → AreSound base lo (xs ++ (y ∷ ys))
    → y.lstart ≤ ofs
    → lookup_ret ofs before (xs ++ (y ∷ ys)) ≡ lookup_ret ofs (y ∷ rejoin xs before) ys
unfolding lookup_ret rejoin
lookup_ret-append base lo ofs before [] y ys a h =
    let by : leb y.lstart ofs ≡ true = ground arith in rw (by, lookup_ret) refl
lookup_ret-append base lo ofs before (x ∷ xs) y ys a h =
    let (p, q, r) = AreSound-append base (x.lstart + x.len) xs y ys a.2 in
    let by : leb x.lstart ofs ≡ true = ground arith in
    rw (by, lookup_ret) (lookup_ret-append base (x.lstart + x.len) ofs (x ∷ before) xs y ys a.2 h)

pub lookup_rb_tree-append :
    (base : ℕ → ℕ) (lo ofs : ℕ) (before xs : List DiscardCmd) (y : DiscardCmd)
    (ys : List DiscardCmd)
    → AreSound base lo (xs ++ (y ∷ ys))
    → y.lstart ≤ ofs
    → lookup_rb_tree ofs before (xs ++ (y ∷ ys)) ≡ lookup_rb_tree ofs (rejoin xs before) (y ∷ ys)
unfolding lookup_rb_tree rejoin
lookup_rb_tree-append base lo ofs before [] y ys a h = refl
lookup_rb_tree-append base lo ofs before (x ∷ xs) y ys a h =
    let (p, q, r) = AreSound-append base (x.lstart + x.len) xs y ys a.2 in
    let late : ltb ofs x.lstart ≡ false = ground arith in
    let past : leb (add32 x.lstart x.len) ofs ≡ true = ground (arith, a.1.small) in
    rw (late, past, lookup_rb_tree)
      (lookup_rb_tree-append base (x.lstart + x.len) ofs (x ∷ before) xs y ys a.2 h)

-- The commands start behind the block.
abbrev pub StartBehind : ℕ → List DiscardCmd → Type 0
StartBehind ofs [] = Unit
StartBehind ofs (dc ∷ dcs) = ofs < dc.lstart

pub lookup_ret-behind :
    (ofs : ℕ) (before after : List DiscardCmd)
    → StartBehind ofs after
    → lookup_ret ofs before after ≡ (before, after)
unfolding lookup_ret
lookup_ret-behind ofs before [] h = refl
lookup_ret-behind ofs before (dc ∷ after) h =
    let behind : leb dc.lstart ofs ≡ false = ground arith in rw (behind, lookup_ret) refl

pub AreSound-StartBehind :
    (base : ℕ → ℕ) (lo ofs : ℕ) (dcs : List DiscardCmd)
    → AreSound base lo dcs
    → ofs < lo
    → StartBehind ofs dcs
AreSound-StartBehind base lo ofs [] a h = tt
AreSound-StartBehind base lo ofs (dc ∷ dcs) a h = omega (arith, a.0)

pub lookup_rb_tree-behind :
    (ofs : ℕ) (before after : List DiscardCmd)
    → StartBehind ofs after
    → lookup_rb_tree ofs before after ≡ none
unfolding lookup_rb_tree
lookup_rb_tree-behind ofs before [] h = refl
lookup_rb_tree-behind ofs before (dc ∷ after) h =
    let early : ltb ofs dc.lstart ≡ true = ground arith in rw (early, lookup_rb_tree) refl

pub lookup_rb_tree-past :
    (ofs : ℕ) (before : List DiscardCmd) (re : DiscardCmd) (rest : List DiscardCmd)
    → ltb ofs re.lstart ≡ false
    → leb (add32 re.lstart re.len) ofs ≡ true
    → lookup_rb_tree ofs before (re ∷ rest) ≡ lookup_rb_tree ofs (re ∷ before) rest
unfolding lookup_rb_tree
lookup_rb_tree-past ofs before re rest late past = rw (late, past, lookup_rb_tree) refl

pub lookup_rb_tree-here :
    (ofs : ℕ) (before : List DiscardCmd) (re : DiscardCmd) (rest : List DiscardCmd)
    → ltb ofs re.lstart ≡ false
    → leb (add32 re.lstart re.len) ofs ≡ false
    → lookup_rb_tree ofs before (re ∷ rest)
      ≡ some (record { before = before; dc = re; after = rest })
unfolding lookup_rb_tree
lookup_rb_tree-here ofs before re rest late here = rw (late, here, lookup_rb_tree) refl

-- A new command goes in front of one that starts behind it, or behind one that starts in front.
pub insert_cmd-left :
    (new : DiscardCmd) (xs : List DiscardCmd) (y : DiscardCmd) (ys : List DiscardCmd)
    → new.lstart < y.lstart
    → insert_cmd new (xs ++ (y ∷ ys)) ≡ insert_cmd new xs ++ (y ∷ ys)
unfolding insert_cmd
insert_cmd-left new [] y ys h =
    let sooner : ltb new.lstart y.lstart ≡ true = ground arith in rw (sooner, insert_cmd) refl
insert_cmd-left new (x ∷ xs) y ys h = elim (Bool-cases (ltb new.lstart x.lstart)) [
  | inl sooner ↦ rw (sooner, insert_cmd) refl
  | inr later ↦ rw (later, insert_cmd) (ap (λ rest. x ∷ rest) (insert_cmd-left new xs y ys h))
]

pub insert_cmd-right :
    (base : ℕ → ℕ) (lo : ℕ) (new : DiscardCmd) (xs : List DiscardCmd) (y : DiscardCmd)
    (ys : List DiscardCmd)
    → AreSound base lo (xs ++ (y ∷ ys))
    → y.lstart ≤ new.lstart
    → insert_cmd new (xs ++ (y ∷ ys)) ≡ xs ++ (y ∷ insert_cmd new ys)
unfolding insert_cmd
insert_cmd-right base lo new [] y ys a h =
    let later : ltb new.lstart y.lstart ≡ false = ground arith in rw (later, insert_cmd) refl
insert_cmd-right base lo new (x ∷ xs) y ys a h =
    let (p, q, r) = AreSound-append base (x.lstart + x.len) xs y ys a.2 in
    let later : ltb new.lstart x.lstart ≡ false = ground arith in
    rw (later, insert_cmd)
      (ap (λ rest. x ∷ rest) (insert_cmd-right base (x.lstart + x.len) new xs y ys a.2 h))

pub AreSound-left :
    (base : ℕ → ℕ) (lo : ℕ) (xs ys : List DiscardCmd)
    → AreSound base lo (xs ++ ys)
    → AreSound base lo xs
AreSound-left base lo [] ys a = tt
AreSound-left base lo (x ∷ xs) ys a = (a.0, a.1, AreSound-left base (x.lstart + x.len) xs ys a.2)
