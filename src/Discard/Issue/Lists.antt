-- ===== src/Discard/Issue/Lists.antt =====
-- Which commands of a tree are left in the pending lists.
use redisc.Base.{
  ℕ, ◌+◌, ◌≤◌, ◌<◌, ◌≡◌, refl, ap, ◌∙◌, inl, inr, Bool, Bool-cases, true, false, not, ◌&&◌, ◌||◌,
  List, [], ◌∷◌, arith, leb, ◌==◌,
}
use redisc.Swod.Issue.{is_prep}
use redisc.Discard.{DiscardCmd, plist_idx, max_plist_num}
use redisc.Discard.Order.{IsSound, AreSound, AreSoundBefore, rejoin, covers}
use redisc.Discard.Issue.{is_on, starts_in}

-- Does some command pass the test?
unfoldable pub some_cmd : (DiscardCmd → Bool) → List DiscardCmd → Bool
some_cmd f [] = false
some_cmd f (dc ∷ dcs) = f dc || some_cmd f dcs

unfoldable pub mem : ℕ → List ℕ → Bool
mem x [] = false
mem x (y ∷ ys) = (x == y) || mem x ys

pub rejoin-some_cmd :
    (f : DiscardCmd → Bool) (before after : List DiscardCmd)
    → some_cmd f (rejoin before after) ≡ (some_cmd f before || some_cmd f after)
unfolding rejoin some_cmd
rejoin-some_cmd f [] after = refl
rejoin-some_cmd f (dc ∷ before) after = ground (arith, rejoin-some_cmd f before (dc ∷ after))

-- What passes one test passes one of two others.
pub some_cmd-either :
    (f g h : DiscardCmd → Bool) (dcs : List DiscardCmd)
    → ((dc : DiscardCmd) → (f dc && not (g dc || h dc)) ≡ false)
    → some_cmd g dcs ≡ false
    → some_cmd h dcs ≡ false
    → some_cmd f dcs ≡ false
unfolding some_cmd
some_cmd-either f g h [] e a b = refl
some_cmd-either f g h (dc ∷ dcs) e a b =
    ground (arith, e dc, some_cmd-either f g h dcs e (ground arith) (ground arith))

abbrev pub starts_at : ℕ → DiscardCmd → Bool
starts_at p dc = dc.lstart == p

pub before-starts_at :
    (base : ℕ → ℕ) (hi p : ℕ) (before : List DiscardCmd)
    → AreSoundBefore base hi before
    → hi ≤ p
    → some_cmd (starts_at p) before ≡ false
unfolding some_cmd
before-starts_at base hi p [] b h = refl
before-starts_at base hi p (dc ∷ before) b h =
    ground
      (arith, b.0, b.1.filled, before-starts_at base dc.lstart p before b.2 (omega (arith, b.0)))

pub after-starts_at :
    (base : ℕ → ℕ) (lo p : ℕ) (after : List DiscardCmd)
    → AreSound base lo after
    → p < lo
    → some_cmd (starts_at p) after ≡ false
unfolding some_cmd
after-starts_at base lo p [] a h = refl
after-starts_at base lo p (dc ∷ after) a h =
    ground
      (arith, a.0, after-starts_at base (dc.lstart + dc.len) p after a.2 (omega (arith, a.0, h)))

pub covers-starts_at :
    (base : ℕ → ℕ) (lo p : ℕ) (dcs : List DiscardCmd)
    → AreSound base lo dcs
    → covers dcs p ≡ false
    → some_cmd (starts_at p) dcs ≡ false
unfolding some_cmd covers
covers-starts_at base lo p [] a h = refl
covers-starts_at base lo p (dc ∷ dcs) a h =
    ground (arith, a.1.filled, covers-starts_at base (dc.lstart + dc.len) p dcs a.2 (ground arith))

-- The pending commands of the lists from `k` on.
abbrev pub is_listed : ℕ → DiscardCmd → Bool
is_listed k dc = is_prep dc.state && leb k (plist_idx dc.len)

-- Those whose starts are not among the given ones.
abbrev pub is_missed : ℕ → List ℕ → DiscardCmd → Bool
is_missed k starts dc = is_listed k dc && not (mem dc.lstart starts)

pub none-listed :
    (base : ℕ → ℕ) (lo : ℕ) (dcs : List DiscardCmd)
    → AreSound base lo dcs
    → some_cmd (is_listed max_plist_num) dcs ≡ false
unfolding some_cmd
none-listed base lo [] a = refl
none-listed base lo (dc ∷ dcs) a =
    ground (arith, a.1.filled, a.1.small, none-listed base (dc.lstart + dc.len) dcs a.2)

starts_in-tail :
    (k : ℕ) (dc : DiscardCmd) (dcs : List DiscardCmd) (x : ℕ)
    → mem x (starts_in k dcs) ≡ true
    → mem x (starts_in k (dc ∷ dcs)) ≡ true
unfolding starts_in mem
starts_in-tail k dc dcs x e = elim (Bool-cases (is_on k dc.list)) [
  | inl on ↦ rw (on, starts_in) (ground arith)
  | inr off ↦ rw (off, starts_in) e
]

starts_in-head :
    (k : ℕ) (dc : DiscardCmd) (dcs : List DiscardCmd)
    → is_on k dc.list ≡ true
    → mem dc.lstart (starts_in k (dc ∷ dcs)) ≡ true
unfolding starts_in mem
starts_in-head k dc dcs on = rw (on, starts_in) (ground arith)

filed-is_on :
    (base : ℕ → ℕ) (k : ℕ) (dc : DiscardCmd)
    → IsSound base dc
    → is_prep dc.state ≡ true
    → is_on k dc.list ≡ (k == plist_idx dc.len)
filed-is_on base k dc s prep = ap (is_on k) (s.filed prep)

head-not_missed :
    (base : ℕ → ℕ) (k : ℕ) (dc : DiscardCmd) (dcs : List DiscardCmd) (starts : List ℕ)
    → IsSound base dc
    → ((x : ℕ) → mem x (starts_in k (dc ∷ dcs)) ≡ true → mem x starts ≡ true)
    → is_listed (k + 1) dc ≡ false
    → is_missed k starts dc ≡ false
head-not_missed base k dc dcs starts s m h = elim (Bool-cases (is_prep dc.state)) [
  | inl prep ↦ elim (Bool-cases (k == plist_idx dc.len)) [
    | inl same ↦
        let given : mem dc.lstart starts ≡ true =
          m dc.lstart (starts_in-head k dc dcs (filed-is_on base k dc s prep ∙ same)) in
        ground (arith, given)
    | inr other ↦ ground arith
  ]
  | inr past ↦ rw (past) refl
]

-- Before the loop over list `k`, its commands are all that is left of the lists from it on.
pub starts_in-missed :
    (base : ℕ → ℕ) (k lo : ℕ) (dcs : List DiscardCmd) (starts : List ℕ)
    → AreSound base lo dcs
    → ((x : ℕ) → mem x (starts_in k dcs) ≡ true → mem x starts ≡ true)
    → some_cmd (is_listed (k + 1)) dcs ≡ false
    → some_cmd (is_missed k starts) dcs ≡ false
unfolding some_cmd
starts_in-missed base k lo [] starts a m h = refl
starts_in-missed base k lo (dc ∷ dcs) starts a m h =
    let rest =
      starts_in-missed base k (dc.lstart + dc.len) dcs starts a.2
        (λ x e. m x (starts_in-tail k dc dcs x e)) (ground arith) in
    let head = head-not_missed base k dc dcs starts a.1 m (ground arith) in rw (head) rest
