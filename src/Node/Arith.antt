-- ===== src/Node/Arith.antt =====
-- The bounds on the numbers of addresses, and the products that they bound.
use redisc.Base.{ℕ, ◌+◌, ◌*◌, ◌/◌, ◌≤◌, ◌<◌, ◌≡◌, arith}
use native.Mathlib.Nat.{div-eq_of_lt, div-eq_of_lt-le}
use redisc.Node.{Layout, first_bidx, start_bidx_of_node}

-- Blocks of 4096 bytes have room for 1018 addresses or node numbers.
pub record IsLayout (l : Layout) : Type 0 where
  pub inode_small : l.addrs_per_inode ≤ 1018
  pub some_addrs : 0 < l.addrs_per_block
  pub addrs_small : l.addrs_per_block ≤ 1018
  pub some_nids : 0 < l.nids_per_block
  pub nids_small : l.nids_per_block ≤ 1018

mul_le : (a b c d : ℕ) → a ≤ c → b ≤ d → a * b ≤ c * d
mul_le a b c d p q = grind arith

module _ (l : Layout) (ok : IsLayout l) where
  -- Inside the tree, the product does not wrap.
  pub first_block-eq :
      (bidx : ℕ)
      → bidx < 1_040_000
      → first_bidx l bidx ≡ bidx * l.addrs_per_block + l.addrs_per_inode
  first_block-eq bidx h =
      omega (arith, ok, mul_le bidx l.addrs_per_block 1_040_000 1018 (omega arith) ok.addrs_small)

  pub row_small :
      (i j : ℕ)
      → i < l.nids_per_block
      → j < l.nids_per_block
      → i * (l.nids_per_block + 1) + j < 1_037_342
  row_small i j p q =
      omega (
        arith,
        ok,
        mul_le i (l.nids_per_block + 1) 1017 1019 (omega (arith, ok)) (omega (arith, ok)),
      )

  -- The nodes of each kind.
  pub start_bidx-direct :
      (i : ℕ) → i < 2 → start_bidx_of_node l (i + 1) ≡ i * l.addrs_per_block + l.addrs_per_inode
  unfolding start_bidx_of_node
  start_bidx-direct i h = ground (arith, first_block-eq i (omega arith))

  pub start_bidx-ind1 :
      (i : ℕ)
      → i < l.nids_per_block
      → start_bidx_of_node l (i + 4) ≡ (i + 2) * l.addrs_per_block + l.addrs_per_inode
  unfolding start_bidx_of_node
  start_bidx-ind1 i h = ground (
    arith,
    ok.nids_small,
    div-eq_of_lt {n = i} {m = l.nids_per_block + 1} (omega arith),
    first_block-eq (i + 2) (omega (arith, ok)),
  )

  pub start_bidx-ind2 :
      (i : ℕ)
      → i < l.nids_per_block
      → start_bidx_of_node l (5 + l.nids_per_block + i)
        ≡ (l.nids_per_block + i + 2) * l.addrs_per_block + l.addrs_per_inode
  unfolding start_bidx_of_node
  start_bidx-ind2 i h =
      let n = l.nids_per_block in
      ground (
        arith,
        ok.nids_small,
        div-eq_of_lt-le {k = 1} (n + 1) {m = n + i + 1} (omega arith) (omega arith),
        first_block-eq (n + i + 2) (omega (arith, ok)),
      )

  pub start_bidx-dind :
      (i j : ℕ)
      → i < l.nids_per_block
      → j < l.nids_per_block
      → start_bidx_of_node l (7 + l.nids_per_block * 2 + i * (l.nids_per_block + 1) + j)
        ≡ (2 + l.nids_per_block * 2 + i * l.nids_per_block + j) * l.addrs_per_block
          + l.addrs_per_inode
  unfolding start_bidx_of_node
  start_bidx-dind i j p q =
      let n = l.nids_per_block in
      let small = row_small i j p q in
      let row : i * (n + 1) ≡ i * n + i = grind arith in
      let dec : (i * (n + 1) + j) / (n + 1) ≡ i = grind arith in
      ground (
        arith,
        ok.nids_small,
        small,
        row,
        dec,
        first_block-eq (2 + n * 2 + i * n + j) (omega (arith, ok, small, row)),
      )
