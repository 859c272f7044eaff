-- ===== src/Discard/Queue/Laws.antt =====
-- `__queue_discard_cmd` on a valid state.
use redisc.Base.{
  ℕ, ◌+◌, ◌-◌, ◌%◌, ◌^◌, ◌≤◌, ◌<◌, ◌≡◌, true, not, ◌&&◌, ◌||◌, arith, ltb, add64, sub64,
  if◌then◌else◌,
}
use redisc.Swod.State.{Sbi}
use redisc.Discard.{Control}
use redisc.Discard.Order.{IsValid, in_range, covers, pending, total_len}
use redisc.Discard.Range.Laws.{
  update_discard_tree_range-refines, update_discard_tree_range-total_len,
}
use redisc.Discard.Queue.{Devices, device_block, queue_discard_cmd}

-- The counter takes what `undiscard_blks` has grown by.
count_grown :
    (gen before after old new : ℕ)
    → before ≡ old % 2 ^ 32
    → after ≡ new % 2 ^ 32
    → old ≤ new
    → new < 2 ^ 32
    → gen < 2 ^ 64
    → (if ltb before after then add64 gen (sub64 after before) else gen)
      ≡ (gen + (new - old)) % 2 ^ 64
count_grown gen before after old new p q le small g = ground arith

-- Where the device supports discard, the range does not wrap, its address on the device is the
-- logical one less the first block of the device, and the pending blocks and the counter fit in
-- their words, __queue_discard_cmd ends from a valid state in a valid one that covers the range as
-- well, with the blocks of the range pending that no command covered before, and adds to
-- queue_gen_blks_total the number of blocks by which the commands have grown.
pub queue_discard_cmd-refines :
    (sbi : Sbi) (base : ℕ → ℕ) (dev : Devices) (bdev blkstart blklen : ℕ) (c : Control) (gen : ℕ)
    → dev.bdev_support_discard bdev ≡ true
    → blkstart + blklen < 2 ^ 32
    → device_block dev blkstart + base bdev ≡ blkstart
    → IsValid base c
    → let (c', gen') = queue_discard_cmd sbi dev bdev blkstart blklen (c, gen) in
      total_len c'.root < 2 ^ 32
      → gen < 2 ^ 64
      → IsValid base c'
        × (gen' ≡ (gen + (total_len c'.root - total_len c.root)) % 2 ^ 64)
        × ((blk : ℕ)
            → (covers c'.root blk
                ≡ (covers c.root blk || in_range blkstart (blkstart + blklen) blk))
              × (pending c'.root blk ≡ (
                  pending c.root blk
                  || (in_range blkstart (blkstart + blklen) blk && not (covers c.root blk)))))
unfolding queue_discard_cmd
queue_discard_cmd-refines sbi base dev bdev blkstart blklen c gen s small m v fits g =
    let (valid, blocks) =
      update_discard_tree_range-refines sbi base (dev.max_discard_blocks bdev) bdev blkstart
        (device_block dev blkstart) blklen small m c v in
    let more =
      update_discard_tree_range-total_len sbi base (dev.max_discard_blocks bdev) bdev blkstart
        (device_block dev blkstart) blklen small m c v in
    let fits' = rw (s, queue_discard_cmd) at fits in
    rw (s, queue_discard_cmd)
      (
        valid,
        count_grown gen _ _ _ _ v.counted.undiscard valid.counted.undiscard more fits' g,
        blocks,
      )
