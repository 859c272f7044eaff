-- ===== src/Discard/Order.antt =====
-- The well-formed trees of discard commands, and the set of blocks that the commands cover.
use redisc.Base.{
  ℕ, suc, ◌+◌, ◌%◌, ◌^◌, ◌≤◌, ◌<◌, ◌≡◌, refl, Bool, true, false, ◌&&◌, ◌||◌, List, [], ◌∷◌, ◌++◌,
  arith, ltb, leb,
}
use redisc.Swod.Issue.{is_prep}
use redisc.Discard.{DiscardCmd, Totals, Control, plist_idx, pend_list}

-- A command is not empty and does not wrap; its address on its device is its logical address less
-- the first block of the device; while it is pending, no bio is out for it, and it stands in the
-- pending list of its length.
pub record IsSound (base : ℕ → ℕ) (dc : DiscardCmd) : Type 0 where
  pub filled : 0 < dc.len
  pub small : dc.lstart + dc.len < 2 ^ 32
  pub mapped : dc.start + base dc.bdev ≡ dc.lstart
  pub idle : is_prep dc.state ≡ true → dc.bio_ref ≡ 0
  pub filed : is_prep dc.state ≡ true → dc.list ≡ pend_list (plist_idx dc.len)

-- Sound commands from `lo` on, in order and without an overlap.
abbrev pub AreSound : (ℕ → ℕ) → ℕ → List DiscardCmd → Type 0
AreSound base lo [] = Unit
AreSound base lo (dc ∷ dcs) =
    (lo ≤ dc.lstart) × IsSound base dc × AreSound base (dc.lstart + dc.len) dcs

-- The same up to `hi`, the nearest command first.
abbrev pub AreSoundBefore : (ℕ → ℕ) → ℕ → List DiscardCmd → Type 0
AreSoundBefore base hi [] = Unit
AreSoundBefore base hi (dc ∷ dcs) =
    (dc.lstart + dc.len ≤ hi) × IsSound base dc × AreSoundBefore base dc.lstart dcs

abbrev pub in_range : ℕ → ℕ → ℕ → Bool
in_range lo hi blk = leb lo blk && ltb blk hi

-- Does some command cover the block?
unfoldable pub covers : List DiscardCmd → ℕ → Bool
covers [] blk = false
covers (dc ∷ dcs) blk = in_range dc.lstart (dc.lstart + dc.len) blk || covers dcs blk

-- Does some pending command cover it?
unfoldable pub pending : List DiscardCmd → ℕ → Bool
pending [] blk = false
pending (dc ∷ dcs) blk =
    (is_prep dc.state && in_range dc.lstart (dc.lstart + dc.len) blk) || pending dcs blk

pub pending-covers :
    (dcs : List DiscardCmd) (blk : ℕ) → pending dcs blk ≡ true → covers dcs blk ≡ true
unfolding pending covers
pending-covers [] blk e = e
pending-covers (dc ∷ dcs) blk e = ground (arith, pending-covers dcs blk)

unfoldable pub total_len : List DiscardCmd → ℕ
total_len [] = 0
total_len (dc ∷ dcs) = dc.len + total_len dcs

abbrev pub length {ℓ} : {A : Type ℓ} → List A → ℕ
length [] = 0
length (x ∷ xs) = suc (length xs)

pub AreSound-covers-false :
    (base : ℕ → ℕ) (lo : ℕ) (dcs : List DiscardCmd) (blk : ℕ)
    → AreSound base lo dcs
    → blk < lo
    → covers dcs blk ≡ false
unfolding covers
AreSound-covers-false base lo [] blk a h = refl
AreSound-covers-false base lo (dc ∷ dcs) blk a h =
    ground (arith, AreSound-covers-false base (dc.lstart + dc.len) dcs blk a.2 (omega (arith, a.0)))

pub AreSoundBefore-covers-false :
    (base : ℕ → ℕ) (hi : ℕ) (dcs : List DiscardCmd) (blk : ℕ)
    → AreSoundBefore base hi dcs
    → hi ≤ blk
    → covers dcs blk ≡ false
unfolding covers
AreSoundBefore-covers-false base hi [] blk b h = refl
AreSoundBefore-covers-false base hi (dc ∷ dcs) blk b h =
    ground (arith, AreSoundBefore-covers-false base dc.lstart dcs blk b.2 (omega (arith, b.0)))

pub covers-append :
    (xs ys : List DiscardCmd) (blk : ℕ) → covers (xs ++ ys) blk ≡ (covers xs blk || covers ys blk)
unfolding covers
covers-append [] ys blk = refl
covers-append (x ∷ xs) ys blk = ground (arith, covers-append xs ys blk)

-- The commands of the first list in reverse, then those of the second.
unfoldable pub rejoin : List DiscardCmd → List DiscardCmd → List DiscardCmd
rejoin [] after = after
rejoin (dc ∷ before) after = rejoin before (dc ∷ after)

pub AreSound-weaken :
    (base : ℕ → ℕ) (lo mid : ℕ) (dcs : List DiscardCmd)
    → lo ≤ mid
    → AreSound base mid dcs
    → AreSound base lo dcs
AreSound-weaken base lo mid [] h a = tt
AreSound-weaken base lo mid (dc ∷ dcs) h a = (omega (arith, a.0), a.1, a.2)

pub AreSoundBefore-weaken :
    (base : ℕ → ℕ) (mid hi : ℕ) (dcs : List DiscardCmd)
    → mid ≤ hi
    → AreSoundBefore base mid dcs
    → AreSoundBefore base hi dcs
AreSoundBefore-weaken base mid hi [] h b = tt
AreSoundBefore-weaken base mid hi (dc ∷ dcs) h b = (omega (arith, b.0), b.1, b.2)

pub rejoin-AreSound :
    (base : ℕ → ℕ) (mid : ℕ) (before after : List DiscardCmd)
    → AreSoundBefore base mid before
    → AreSound base mid after
    → AreSound base 0 (rejoin before after)
unfolding rejoin
rejoin-AreSound base mid [] after b a = AreSound-weaken base 0 mid after (omega arith) a
rejoin-AreSound base mid (dc ∷ before) after b a =
    rejoin-AreSound base dc.lstart before (dc ∷ after) b.2
      (omega arith, b.1, AreSound-weaken base _ mid after b.0 a)

pub rejoin-covers :
    (before after : List DiscardCmd) (blk : ℕ)
    → covers (rejoin before after) blk ≡ (covers before blk || covers after blk)
unfolding rejoin covers
rejoin-covers [] after blk = refl
rejoin-covers (dc ∷ before) after blk = ground (arith, rejoin-covers before (dc ∷ after) blk)

pub rejoin-pending :
    (before after : List DiscardCmd) (blk : ℕ)
    → pending (rejoin before after) blk ≡ (pending before blk || pending after blk)
unfolding rejoin pending
rejoin-pending [] after blk = refl
rejoin-pending (dc ∷ before) after blk = ground (arith, rejoin-pending before (dc ∷ after) blk)

pub rejoin-total_len :
    (before after : List DiscardCmd)
    → total_len (rejoin before after) ≡ total_len before + total_len after
unfolding rejoin total_len
rejoin-total_len [] after = omega arith
rejoin-total_len (dc ∷ before) after = omega (arith, rejoin-total_len before (dc ∷ after))

pub rejoin-length :
    (before after : List DiscardCmd) → length (rejoin before after) ≡ length before + length after
unfolding rejoin
rejoin-length [] after = omega arith
rejoin-length (dc ∷ before) after = omega (arith, rejoin-length before (dc ∷ after))

-- The counters agree with a number of blocks and a number of commands.
pub record Counts (t : Totals) (blks cmds : ℕ) : Type 0 where
  pub undiscard : t.undiscard_blks ≡ blks % 2 ^ 32
  pub cmd_cnt : t.dcc.discard_cmd_cnt ≡ cmds % 2 ^ 32

pub Counts-eq :
    (t : Totals) {blks blks' cmds cmds' : ℕ}
    → blks ≡ blks'
    → cmds ≡ cmds'
    → Counts t blks cmds
    → Counts t blks' cmds'
Counts-eq t p q c = record { undiscard = cc; cmd_cnt = cc }

-- The state between the calls.
pub record IsValid (base : ℕ → ℕ) (c : Control) : Type 0 where
  pub sound : AreSound base 0 c.root
  pub counted : Counts c.totals (total_len c.root) (length c.root)
