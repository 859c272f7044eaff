-- ===== src/Discard/Tests.antt =====
-- The discard commands on the small file system: runs, and the theorems at concrete states.
pub mod Lookups
pub mod Passes
use redisc.Base.{
  ℕ, ◌+◌, ◌-◌, ◌*◌, ◌%◌, ◌^◌, ◌<◌, ◌≡◌, refl, min, true, false, not, ◌&&◌, ◌||◌, List, [], ◌∷◌,
  arith, some, ◌==◌,
}
use redisc.Swod.Issue.{CmdState, d_prep, d_submit}
use redisc.Swod.Tests.{fs, one_held, held_ctrl, held_ctrl-Inv}
use redisc.Swod.Hints.{create_cmd}
use redisc.Discard.{insert_cmd, DiscardCmd, Place, pend_list, wait_list, plist_idx, Control}
use redisc.Discard.Order.{AreSound, IsValid, in_range, covers, pending, total_len, rejoin}
use redisc.Discard.Range.{head, lookup_ret, update_discard_tree_range}
use redisc.Discard.Range.Laws.{update_discard_tree_range-refines}
use redisc.Swod.State.{Sbi, Ctrl, dpolicy_bg, gc_normal}
use redisc.Discard.Queue.{Devices, queue_discard_cmd}
use redisc.Discard.Queue.Laws.{queue_discard_cmd-refines}
use redisc.Discard.Submit.{Block, Limits, submit_discard_cmd}
use redisc.Discard.Submit.Bios.{TakesAll}
use redisc.Discard.Submit.Laws.{submit_discard_cmd-refines}
use redisc.Discard.Tree.{
  RbTree, leaf, node, in_order, lookup_rb_tree_slow, lookup_rb_tree_ret, insert_rb_tree,
}
use redisc.Discard.Tree.Laws.{RbTree-lookups, dc_of, or_else}
use redisc.Discard.Policy.{Policy, is_over_utilized, begin_round}
use redisc.Discard.Policy.Laws.{begin_round-IsReleased}
use redisc.Swod.Policy.{utilization, discard_cache_fits}
use redisc.Swod.Worker.Release.{IsReleased}
use redisc.Discard.Punch.Found.{Holds}
use redisc.Discard.Punch.{Position, lookup_rb_tree, wait_discard_bio}
use redisc.Discard.Punch.Laws.{wait_discard_bio-refines}

abbrev pub command : ℕ → ℕ → CmdState → Place → DiscardCmd
command lstart len state list = record {
  di = record { lstart = lstart; len = len; start = lstart };
  list = list;
  bdev = 0;
  ref = 0;
  state = state;
  queued = 0;
  error = 0;
  bio_ref = 0;
  enq_jiffies = 1000;
  swod_skip = 0;
}

abbrev pub waiting : ℕ → ℕ → DiscardCmd
waiting lstart len = command lstart len d_prep (pend_list (plist_idx len))

-- Two pending commands with a gap of two blocks, and one that has been submitted.
abbrev pub three : List DiscardCmd
three = waiting 100 4 ∷ waiting 106 2 ∷ command 120 8 d_submit wait_list ∷ []

abbrev pub queue : List DiscardCmd → ℕ → ℕ → Control
queue root blks cmds = record {
  root = root;
  totals = record {
    dcc = record one_held { tun = record (one_held.tun) { discard_cmd_cnt = cmds } };
    undiscard_blks = blks;
    issued_discard = 0;
    queued_discard = 0;
    discard_back_only_merge_cnt = 0;
    discard_front_only_merge_cnt = 0;
    discard_both_merge_cnt = 0;
  };
}

abbrev pub start_state : Control
start_state = queue three 14 3

-- The gap joins both commands, and the blocks from 118 on become a command.
fills_gap :
    (update_discard_tree_range fs 64 0 104 104 2 start_state).root
    ≡ waiting 100 8 ∷ command 120 8 d_submit wait_list ∷ []
unfolding update_discard_tree_range rejoin
fills_gap = refl

pub device_base : ℕ → ℕ
device_base bdev = 0

same_address : (lstart : ℕ) → lstart + device_base 0 ≡ lstart
unfolding device_base
same_address lstart = omega arith

pub three-AreSound : AreSound device_base 0 three
unfolding device_base
three-AreSound = (
  omega arith,
  record {
    filled = omega arith;
    small = omega arith;
    mapped = refl;
    idle = λ p. refl;
    filed = λ p. refl;
  },
  (
    omega arith,
    record {
      filled = omega arith;
      small = omega arith;
      mapped = refl;
      idle = λ p. refl;
      filed = λ p. refl;
    },
    (
      omega arith,
      record {
        filled = omega arith;
        small = omega arith;
        mapped = refl;
        idle = λ p. refl;
        filed = λ p. absurd cc;
      },
      tt,
    ),
  ),
)

pub start_state-IsValid : IsValid device_base start_state
unfolding total_len
start_state-IsValid = record {
  sound = three-AreSound;
  counted = record { undiscard = refl; cmd_cnt = refl };
}

update_discard_tree_range-refines_example :
    let c' = update_discard_tree_range fs 64 0 104 104 2 start_state in
    IsValid device_base c'
    × ((blk : ℕ)
        → (covers c'.root blk ≡ (covers three blk || in_range 104 106 blk))
          × (pending c'.root blk
              ≡ (pending three blk || (in_range 104 106 blk && not (covers three blk)))))
update_discard_tree_range-refines_example =
    update_discard_tree_range-refines fs device_base 64 0 104 104 2 (omega arith) (same_address 104)
      start_state start_state-IsValid

-- The punched command is split.
splits :
    (wait_discard_bio fs 102 start_state).0.root
    ≡ waiting 100 2 ∷ waiting 103 1 ∷ waiting 106 2 ∷ command 120 8 d_submit wait_list ∷ []
unfolding wait_discard_bio rejoin create_cmd
splits = refl

wait_discard_bio-refines_example :
    let (c', waits) = wait_discard_bio fs 102 start_state in
    IsValid device_base c'
    × ((b : ℕ)
        → (covers c'.root b ≡ (covers three b && (waits || not (b == 102))))
          × (pending c'.root b ≡ (pending three b && (waits || not (b == 102)))))
wait_discard_bio-refines_example =
    wait_discard_bio-refines fs device_base 102 start_state start_state-IsValid

-- A submitted command is waited for.
waits_for_submitted : (wait_discard_bio fs 121 start_state).1 ≡ true
unfolding wait_discard_bio
waits_for_submitted = refl

abbrev one_device : Devices
one_device = record {
  bdev_support_discard = λ bdev. true;
  multi_device = false;
  target_device_index = λ blk. 0;
  start_blk = λ devi. 0;
  max_discard_blocks = λ bdev. 64;
}

queued_small : total_len (queue_discard_cmd fs one_device 0 104 2 (start_state, 7)).0.root < 2 ^ 32
unfolding queue_discard_cmd total_len rejoin
queued_small = omega arith

queue_discard_cmd-refines_example :
    let (c', gen') = queue_discard_cmd fs one_device 0 104 2 (start_state, 7) in
    IsValid device_base c'
    × (gen' ≡ (7 + (total_len c'.root - total_len three)) % 2 ^ 64)
    × ((blk : ℕ)
        → (covers c'.root blk ≡ (covers three blk || in_range 104 106 blk))
          × (pending c'.root blk
              ≡ (pending three blk || (in_range 104 106 blk && not (covers three blk)))))
queue_discard_cmd-refines_example =
    queue_discard_cmd-refines fs device_base one_device 0 104 2 start_state 7 refl (omega arith)
      (same_address 104) start_state-IsValid queued_small (omega arith)

abbrev first_at : Position
first_at = record {
  before = [];
  dc = waiting 100 4;
  after = waiting 106 2 ∷ command 120 8 d_submit wait_list ∷ [];
}

first_at-Holds : Holds device_base three 100 first_at
unfolding rejoin
first_at-Holds = record {
  same = refl;
  before = tt;
  sound = three-AreSound.1;
  after = three-AreSound.2;
  lower = omega arith;
  upper = omega arith;
}

-- Bios of at most three blocks, and one request.
abbrev pub small_bios : Block
small_bios = record {
  need_fsck = false;
  max_discard_blocks = 3;
  inject = λ n. false;
  issue_err = λ start len. 0;
}

pub small_bios-TakesAll : TakesAll small_bios
small_bios-TakesAll = record {
  not_injected = λ n. refl;
  no_error = λ start len. refl;
  some_blocks = omega arith;
}

abbrev pub one_request : Limits
one_request = record { policy_type = dpolicy_bg; max_requests = 1 }

submit_discard_cmd-refines_example :
    let r = submit_discard_cmd fs small_bios one_request first_at 0 start_state.totals in
    (r.err ≡ 0)
    × IsValid device_base r.control
    × ((b : ℕ)
        → (covers r.control.root b ≡ covers three b)
          × (pending r.control.root b
              ≡ (pending three b && not (in_range 100 (100 + min 4 ((1 - 0) * 3)) b))))
submit_discard_cmd-refines_example =
    submit_discard_cmd-refines fs device_base small_bios small_bios-TakesAll refl one_request
      (omega arith) start_state start_state-IsValid 100 first_at first_at-Holds refl 0 (omega arith)

-- Three blocks are sent, and the fourth becomes a command of its own.
sends_three :
    (submit_discard_cmd fs small_bios one_request first_at 0 start_state.totals).issued ≡ 1
unfolding submit_discard_cmd
sends_three = refl

leaves_one :
    pending
      (submit_discard_cmd fs small_bios one_request first_at 0 start_state.totals).control.root
      103
    ≡ true
unfolding submit_discard_cmd rejoin pending create_cmd
leaves_one = refl

-- The block layer refuses the first bio: the fourth block is in no command, and the counter still
-- counts it.
abbrev refusing : Block
refusing = record small_bios { issue_err = λ start len. 5 }

abbrev after_refusal : Control
after_refusal = (submit_discard_cmd fs refusing one_request first_at 0 start_state.totals).control

loses_one : covers after_refusal.root 103 ≡ false
unfolding submit_discard_cmd rejoin covers
loses_one = refl

still_counted : (after_refusal.totals.undiscard_blks ≡ 14) × (total_len after_refusal.root ≡ 13)
unfolding submit_discard_cmd rejoin total_len
still_counted = (refl, refl)
