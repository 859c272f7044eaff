-- ===== src/Discard/Queue.antt =====
-- `__queue_discard_cmd`.
pub mod Laws
use redisc.Base.{ℕ, Bool, not, Option, some, none, ltb, if◌then◌else◌, add32, sub32, add64, sub64}
use redisc.Swod.State.{Sbi}
use redisc.Discard.{Totals, Control}
use redisc.Discard.Range.{update_discard_tree_range}

-- What the function asks of the devices: `bdev_support_discard` is f2fs_bdev_support_discard for
-- the device that it is given, `multi_device` is f2fs_is_multi_device, `target_device_index` is
-- f2fs_target_device_index, `start_blk` is FDEV(devi).start_blk, and `max_discard_blocks` is the
-- limit of the device's queue in blocks.
pub record Devices : Type 0 where
  pub bdev_support_discard : ℕ → Bool
  pub multi_device : Bool
  pub target_device_index : ℕ → ℕ
  pub start_blk : ℕ → ℕ
  pub max_discard_blocks : ℕ → ℕ

-- The block's address on its device.
abbrev pub device_block : Devices → ℕ → ℕ
device_block dev blkstart =
    if dev.multi_device
    then sub32 blkstart (dev.start_blk (dev.target_device_index blkstart))
    else blkstart

-- With the counter `queue_gen_blks_total` beside the control block.
unfoldable pub queue_discard_cmd : Sbi → Devices → ℕ → ℕ → ℕ → Control × ℕ → Control × ℕ
unfolding update_discard_tree_range
queue_discard_cmd sbi dev bdev blkstart blklen (c, gen) =
    let c' =
      update_discard_tree_range sbi (dev.max_discard_blocks bdev) bdev blkstart
        (device_block dev blkstart) blklen c in
    let before = c.totals.undiscard_blks in
    let after = c'.totals.undiscard_blks in
    if not (dev.bdev_support_discard bdev)
    then (c, gen)
    else (c', if ltb before after then add64 gen (sub64 after before) else gen)
