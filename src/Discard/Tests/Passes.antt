-- ===== src/Discard/Tests/Passes.antt =====
-- Passes of `__issue_discard_cmd_orderly` over the three commands.
use redisc.Base.{ℕ, ◌≡◌, refl, Bool, true, false, List, arith}
use redisc.Swod.State.{dpolicy_bg}
use redisc.Swod.Tests.{fs}
use redisc.Discard.{DiscardCmd}
use redisc.Discard.Tests.{
  device_base, start_state, start_state-IsValid, small_bios, small_bios-TakesAll,
}
use redisc.Discard.Order.{rejoin}
use redisc.Discard.Punch.{lookup_rb_tree}
use redisc.Discard.Submit.{submit_discard_cmd}
use redisc.Discard.Policy.{Policy, Issued, bios, interrupted}
use redisc.Discard.Orderly.{Pass, issue_discard_cmd_orderly}
use redisc.Discard.Issue.{Clock, issue_discard_cmd}
use redisc.Discard.Issue.Laws.{IsPass, issue_discard_cmd-IsPass}
use redisc.Discard.Orderly.Quiet.{Passed}
use redisc.Discard.Orderly.Laws.{issue_discard_cmd_orderly-Passed}

abbrev ordered_policy : Policy
ordered_policy = record {
  limits = record { policy_type = dpolicy_bg; max_requests = 8 };
  min_interval = 50;
  mid_interval = 500;
  max_interval = 60_000;
  io_aware_gran = 512;
  io_aware = true;
  sync = false;
  ordered = true;
  timeout = false;
  granularity = 16;
}

abbrev quiet_disk : DiscardCmd → Bool
quiet_disk dc = true

abbrev pass_from_102 : Pass × Issued
pass_from_102 = issue_discard_cmd_orderly fs small_bios ordered_policy quiet_disk 102 start_state

issue_discard_cmd_orderly-Passed_example : Passed device_base 8 102 start_state pass_from_102.0
issue_discard_cmd_orderly-Passed_example =
    issue_discard_cmd_orderly-Passed fs device_base small_bios small_bios-TakesAll refl
      ordered_policy (omega arith) (omega arith) quiet_disk 102 start_state start_state-IsValid

-- The command that holds block 102 takes two bios, the next one a third.
sends_three_bios : pass_from_102.1 ≡ bios 3
unfolding issue_discard_cmd_orderly submit_discard_cmd
sends_three_bios = refl

starts_over : pass_from_102.0.next_pos ≡ 0
unfolding issue_discard_cmd_orderly submit_discard_cmd
starts_over = refl

-- On a disk that is not idle, the pass ends at the first command.
gives_way :
    (issue_discard_cmd_orderly fs small_bios ordered_policy (λ dc. false) 102 start_state).1
    ≡ interrupted
unfolding issue_discard_cmd_orderly submit_discard_cmd
gives_way = refl

-- A pass over the pending lists, each in the order of the blocks.
abbrev forced_policy : Policy
forced_policy = record ordered_policy { ordered = false; io_aware = false; granularity = 1 }

abbrev quiet_clock : Clock
quiet_clock = record { over_list = λ i. false; over = λ dc. false; is_idle = λ dc. true }

abbrev same_order : ℕ → List ℕ → List ℕ
same_order i starts = starts

abbrev forced_pass : Pass × Issued
forced_pass = issue_discard_cmd fs small_bios forced_policy quiet_clock same_order 0 start_state

issue_discard_cmd-IsPass_example : IsPass device_base forced_policy 0 start_state forced_pass.0
issue_discard_cmd-IsPass_example =
    issue_discard_cmd-IsPass fs device_base small_bios small_bios-TakesAll refl forced_policy
      (omega arith) refl quiet_clock same_order (λ k starts x e. e) 0 start_state (omega arith)
      start_state-IsValid

sends_all_lists : forced_pass.1 ≡ bios 3
unfolding issue_discard_cmd submit_discard_cmd lookup_rb_tree rejoin
sends_all_lists = refl
