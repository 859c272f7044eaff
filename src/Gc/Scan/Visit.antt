-- ===== src/Gc/Scan/Visit.antt =====
-- What one round of the scan changes.
use redisc.Base.{ℕ, ◌≡◌, ◌⊎◌, refl, ◌∙◌, inl, inr, Bool, Bool-cases, true, some, ltb, add32}
use redisc.Swod.Lookup.{GcType}
use redisc.Gc.{View, GcState, VictimPolicy, get_gc_cost}
use redisc.Gc.Scan.{Scan, may_choose, weigh, visit}

-- The marks that the tests of a candidate read.
pub record Same (st st' : GcState) : Type 0 where
  pub cur : st'.cur_victim_sec ≡ st.cur_victim_sec
  pub marks : st'.victim_secmap ≡ st.victim_secmap
  pub dcc : st'.dcc ≡ st.dcc
  pub next_bg : st'.next_victim_bg ≡ st.next_victim_bg
  pub next_fg : st'.next_victim_fg ≡ st.next_victim_fg

pub Same-trans : {s t u : GcState} → Same s t → Same t u → Same s u
Same-trans a b = record {
  cur = b.cur ∙ a.cur;
  marks = b.marks ∙ a.marks;
  dcc = b.dcc ∙ a.dcc;
  next_bg = b.next_bg ∙ a.next_bg;
  next_fg = b.next_fg ∙ a.next_fg;
}

module _ (v : View) (gc_type : GcType) (p : VictimPolicy) (target : Bool) where
  pub may_choose-Same :
      (st st' : GcState) (segno : ℕ)
      → Same st st'
      → may_choose v gc_type p target st' segno ≡ may_choose v gc_type p target st segno
  unfolding may_choose
  may_choose-Same st st' segno e = rw (e.cur, e.marks, e.dcc) refl

  pub record Visited (segno : ℕ) (s s' : Scan) : Type 0 where
    pub offset : s'.offset ≡ add32 segno p.ofs_unit
    pub last_segment : s'.last_segment ≡ s.last_segment
    pub last : s'.state.last_victim ≡ s.state.last_victim
    pub same : Same s.state s'.state
    pub choice :
        (s'.min_segno ≡ s.min_segno)
        ⊎ ((may_choose v gc_type p target s.state segno ≡ true) × (s'.min_segno ≡ some segno))

  pub visit-Visited : (segno : ℕ) (s : Scan) → Visited segno s (visit v gc_type p target segno s)
  unfolding visit weigh get_gc_cost
  visit-Visited segno s = elim (Bool-cases (may_choose v gc_type p target s.state segno)) [
    | inl may ↦
        rw (may, visit)
          (record {
            offset = refl;
            last_segment = refl;
            last = refl;
            same = record { cur = refl; marks = refl; dcc = refl; next_bg = refl; next_fg = refl };
            choice = elim (Bool-cases (ltb (get_gc_cost v s.state p segno).cost s.min_cost)) [
              | inl lower ↦ inr (may, rw lower refl)
              | inr higher ↦ inl (rw higher refl)
            ];
          })
    | inr may_not ↦
        rw (may_not, visit)
          (record {
            offset = refl;
            last_segment = refl;
            last = refl;
            same = record { cur = refl; marks = refl; dcc = refl; next_bg = refl; next_fg = refl };
            choice = inl refl;
          })
  ]
