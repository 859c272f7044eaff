-- ===== src/Swod/Inv/Stays.antt =====
-- What an operation promises that may change any window: invariant and layout.
use redisc.Base.{ℕ, refl}
use redisc.Swod.State.{Ctrl, Stats}
use redisc.Swod.Inv.{Inv}
use redisc.Swod.Inv.Replace.{frame-Inv}
use redisc.Swod.Inv.Release.{Keeps, Keeps-weaken}

-- The invariant and the layout are kept.
abbrev pub Stays : Ctrl → Ctrl → Type 0
Stays = Keeps (λ _. ⊥)

pub Stays-refl : {sw : Ctrl} → Inv sw → Stays sw sw
Stays-refl v = record {
  inv = v;
  same_groups = refl;
  same_win = refl;
  same_main = refl;
  same_hint = λ _ e. absurd e;
}

pub Stays-trans : {a b c : Ctrl} → Stays a b → Stays b c → Stays a c
Stays-trans k l = record {
  inv = l.inv;
  same_groups = rw (l.same_groups) (k.same_groups);
  same_win = rw (l.same_win) (k.same_win);
  same_main = rw (l.same_main) (k.same_main);
  same_hint = λ _ e. absurd e;
}

pub Keeps-Stays : {free : ℕ → Type 0} {sw sw' : Ctrl} → Keeps free sw sw' → Stays sw sw'
Keeps-Stays k = Keeps-weaken (λ _ e. absurd e) k

pub stats-Stays : {sw : Ctrl} → Inv sw → (st : Stats) → Stays sw (record sw { stats = st })
stats-Stays v st = record {
  inv = frame-Inv v _ st _ _ _;
  same_groups = refl;
  same_win = refl;
  same_main = refl;
  same_hint = λ _ e. absurd e;
}
