-- ===== src/Discard/Policy.antt =====
-- `__init_discard_policy`, and how `issue_discard_thread` begins and ends a round.
pub mod Laws
use redisc.Base.{ℕ, ◌^◌, Bool, true, false, not, ◌&&◌, ◌||◌, ltb, ◌==◌, is_set, if◌then◌else◌}
use redisc.Swod.State.{
  Sbi, Dcc, Tunables, GcMode, gc_normal, gc_idle_cb, gc_idle_greedy, gc_idle_at, gc_urgent_high,
  gc_urgent_low, DpolicyType, dpolicy_bg, dpolicy_force, dpolicy_fstrim, dpolicy_umount, pressure,
}
use redisc.Swod.Policy.{utilization, discard_cache_fits}
use redisc.Swod.Worker.{release_all}
use redisc.Discard.{max_plist_num}
use redisc.Discard.Submit.{Limits}

-- `struct discard_policy`.
pub record Policy : Type 0 where
  pub limits : Limits
  pub open limits use *
  pub min_interval : ℕ
  pub mid_interval : ℕ
  pub max_interval : ℕ
  pub io_aware_gran : ℕ
  pub io_aware : Bool
  pub sync : Bool
  pub ordered : Bool
  pub timeout : Bool
  pub granularity : ℕ

abbrev def_min_discard_issue_time : ℕ
def_min_discard_issue_time = 50

abbrev def_mid_discard_issue_time : ℕ
def_mid_discard_issue_time = 500

abbrev def_max_discard_issue_time : ℕ
def_max_discard_issue_time = 60_000

-- utilization(sbi) > DEF_DISCARD_URGENT_UTIL, on an `int`.
abbrev pub is_over_utilized : Sbi → Bool
is_over_utilized sbi = ltb 80 (utilization sbi) && ltb (utilization sbi) (2 ^ 31)

-- The part that all types share, over what stands in the structure before.
abbrev common_policy : Policy → DpolicyType → ℕ → Policy
common_policy old type granularity = record old {
  limits = record { policy_type = type; max_requests = 8 };
  sync = true;
  ordered = false;
  granularity = granularity;
  io_aware_gran = max_plist_num;
  timeout = false;
}

abbrev with_intervals : Policy → Policy
with_intervals p = record p {
  min_interval = def_min_discard_issue_time;
  mid_interval = def_mid_discard_issue_time;
  max_interval = def_max_discard_issue_time;
}

abbrev background : Sbi → Dcc → Policy → Policy
background sbi d p =
    let bg = record (with_intervals p) { io_aware = true; sync = false; ordered = true } in
    if is_over_utilized sbi
    then record bg {
      granularity = 1;
      max_interval =
          if is_set d.discard_cmd_cnt
          then def_min_discard_issue_time
          else def_max_discard_issue_time;
    }
    else bg

-- `__init_discard_policy`.
unfoldable pub init_discard_policy : Sbi → Dcc → Policy → DpolicyType → ℕ → Policy
init_discard_policy sbi d old dpolicy_bg granularity =
    background sbi d (common_policy old dpolicy_bg granularity)
init_discard_policy sbi d old dpolicy_force granularity =
    record (with_intervals (common_policy old dpolicy_force granularity)) { io_aware = false }
init_discard_policy sbi d old dpolicy_fstrim granularity =
    record (common_policy old dpolicy_fstrim granularity) { io_aware = false }
init_discard_policy sbi d old dpolicy_umount granularity =
    record (common_policy old dpolicy_umount granularity) {
      io_aware = false;
      granularity = 1;
      timeout = true;
    }

abbrev pub is_urgent_high : GcMode → Bool
is_urgent_high gc_urgent_high = true
is_urgent_high gc_normal = false
is_urgent_high gc_idle_cb = false
is_urgent_high gc_idle_greedy = false
is_urgent_high gc_idle_at = false
is_urgent_high gc_urgent_low = false

abbrev is_bg : DpolicyType → Bool
is_bg dpolicy_bg = true
is_bg dpolicy_force = false
is_bg dpolicy_fstrim = false
is_bg dpolicy_umount = false

-- The policy of a round of `issue_discard_thread`.
unfoldable pub round_policy : Sbi → Dcc → Policy → Policy
unfolding init_discard_policy
round_policy sbi d old =
    if is_urgent_high sbi.gc_mode || not (discard_cache_fits sbi d.tun)
    then init_discard_policy sbi d old dpolicy_force 1
    else init_discard_policy sbi d old dpolicy_bg d.discard_granularity

-- The start of a round: the policy, and the release of the windows under pressure.
unfoldable pub begin_round : Sbi → Policy → Dcc → Policy × Dcc
unfolding round_policy release_all
begin_round sbi old d =
    let p = round_policy sbi d old in
    (
      p,
      if (not (is_bg p.policy_type) || (p.granularity == 1)) && not (is_urgent_high sbi.gc_mode)
          then release_all sbi pressure d
          else d,
    )

-- What `__issue_discard_cmd` returns: the number of bios, or -1.
pub data Issued : Type 0 where
  bios : ℕ → Issued
  interrupted : Issued

-- `wait_ms` at the end of a round; `time_to_wait` is f2fs_time_to_wait(sbi, DISCARD_TIME).
unfoldable pub end_round : Policy → ℕ → Issued → ℕ
end_round p time_to_wait (bios n) = if is_set n then p.min_interval else p.max_interval
end_round p time_to_wait interrupted = if is_set time_to_wait then time_to_wait else p.mid_interval
