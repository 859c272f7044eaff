-- ===== src/Gc/Victim/Marks.antt =====
-- The sections that the background GC has marked, check_bg_victims.
use native.Mathlib.Nat.{mul-div_cancel}
use redisc.Base.{
  ℕ, zero, suc, ◌+◌, ◌*◌, ◌^◌, ◌<◌, ◌≡◌, refl, inl, inr, Bool, Bool-cases, true, false, not, ◌&&◌,
  Option, some, none, arith, ◌==◌, if◌then◌else◌, mul32, update,
}
use redisc.Gc.{View, GcState, sec_of, sec_usage_check}
use redisc.Gc.Scan.Units.{mul-le_of_le}
use redisc.Gc.Victim.{check_bg_victims}

-- What the passes rely on and the marks of the background GC do not change.
pub record Kept (st st' : GcState) : Type 0 where
  pub last : st'.last_victim ≡ st.last_victim
  pub cur : st'.cur_victim_sec ≡ st.cur_victim_sec
  pub next_bg : st'.next_victim_bg ≡ st.next_victim_bg
  pub next_fg : st'.next_victim_fg ≡ st.next_victim_fg
  pub marks : (secno : ℕ) → st'.victim_secmap secno ≡ true → st.victim_secmap secno ≡ true

pub unchanged : (st : GcState) → Kept st st
unchanged st = record {
  last = refl;
  cur = refl;
  next_bg = refl;
  next_fg = refl;
  marks = λ secno h. h;
}

-- A segment of a section that the background GC has marked and that is not in use, or none.
abbrev pub IsFree : View → GcState → Option ℕ → Type 0
IsFree v st none = Unit
IsFree v st (some segno) =
    (sec_usage_check v st (sec_of v segno) ≡ false) × (st.victim_secmap (sec_of v segno) ≡ true)

abbrev pub IsMarked : View → GcState → Option ℕ × GcState → Type 0
IsMarked v st (o, st') = Kept st st' × IsFree v st o

pub zero_add : (n u : ℕ) → (0 + n) * u ≡ n * u
zero_add n u = grind arith

add_suc : (a n : ℕ) → a + 1 + n ≡ a + suc n
add_suc a n = omega arith

not_cleared : (here b : Bool) → (if here then false else b) ≡ true → b ≡ true
not_cleared here b h = ground arith

cleared-Kept :
    (st : GcState) (secno : ℕ)
    → Kept st (record st { victim_secmap = update st.victim_secmap secno false })
cleared-Kept st secno = record {
  last = refl;
  cur = refl;
  next_bg = refl;
  next_fg = refl;
  marks = λ i. not_cleared (secno == i) (st.victim_secmap i);
}

pub check_bg_victims-IsMarked :
    (v : View) (st : GcState) (n secno : ℕ)
    → 0 < v.segs_per_sec
    → (secno + n) * v.segs_per_sec < 2 ^ 32
    → IsMarked v st (check_bg_victims v st n secno)
unfolding check_bg_victims
check_bg_victims-IsMarked v st zero secno some_segs small = (unchanged st, tt)
check_bg_victims-IsMarked v st (suc n) secno some_segs small =
    elim (Bool-cases (st.victim_secmap secno && not (sec_usage_check v st secno))) [
      | inl hit ↦
          let whole : mul32 secno v.segs_per_sec ≡ secno * v.segs_per_sec =
            omega (arith, mul-le_of_le secno (secno + suc n) v.segs_per_sec (omega arith)) in
          rw (hit, whole, check_bg_victims)
            (
              cleared-Kept st secno,
              rw (mul-div_cancel secno some_segs) (ground (arith, hit), ground (arith, hit)),
            )
      | inr miss ↦
          rw (miss, check_bg_victims)
            (check_bg_victims-IsMarked v st n (secno + 1) some_segs (rw (add_suc secno n) small))
    ]
