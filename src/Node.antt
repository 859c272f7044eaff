-- ===== src/Node.antt =====
-- Where a block of a file stands in its tree of node blocks: get_node_path in
-- node.c, IS_DNODE in node.h, f2fs_start_bidx_of_node in gc.c, and the
-- numbers of addresses in f2fs.h.
pub mod Arith
pub mod Laws
pub mod Tests
use redisc.Base.{
  ℕ, zero, suc, ◌+◌, ◌-◌, ◌*◌, ◌/◌, ◌%◌, ◌^◌, Bool, true, false, not, ◌&&◌, ◌||◌, Option, some,
  none, List, [], ◌∷◌, ltb, leb, ◌==◌, is_set, if◌then◌else◌, u32, add32, sub32, mul32,
}

-- What the functions read of an inode; `nids_per_block` is NIDS_PER_BLOCK, and the last five are the
-- constants NODE_DIR1_BLOCK .. NODE_DIND_BLOCK.
pub record Layout : Type 0 where
  pub addrs_per_inode : ℕ
  pub addrs_per_block : ℕ
  pub nids_per_block : ℕ
  pub dir1_block : ℕ
  pub dir2_block : ℕ
  pub ind1_block : ℕ
  pub ind2_block : ℕ
  pub dind_block : ℕ

-- `level`, with `offset` and `noffset` up to it.
pub record NodePath : Type 0 where
  pub level : ℕ
  pub offset : List ℕ
  pub noffset : List ℕ

-- The element of an array, and 0 behind what the function has written.
abbrev pub get_or : List ℕ → ℕ → ℕ
get_or [] i = 0
get_or (x ∷ xs) zero = x
get_or (x ∷ xs) (suc i) = get_or xs i

abbrev pub indirect_blks : Layout → ℕ
indirect_blks l = l.addrs_per_block * l.nids_per_block

abbrev pub dindirect_blks : Layout → ℕ
dindirect_blks l = indirect_blks l * l.nids_per_block

-- Through a direct node, an indirect one, and the double indirect one.
abbrev pub direct_path : ℕ → ℕ → ℕ → NodePath
direct_path slot ofs block = record {
  level = 1;
  offset = slot ∷ block ∷ [];
  noffset = 0 ∷ ofs ∷ [];
}

abbrev pub indirect_path : Layout → ℕ → ℕ → ℕ → NodePath
indirect_path l slot ofs block =
    let i = block / l.addrs_per_block in
    record {
      level = 2;
      offset = slot ∷ i ∷ (block % l.addrs_per_block) ∷ [];
      noffset = 0 ∷ u32 ofs ∷ u32 (ofs + 1 + i) ∷ [];
    }

abbrev pub dindirect_path : Layout → ℕ → NodePath
dindirect_path l block =
    let n = l.nids_per_block in
    let i = block / indirect_blks l in
    let j = block / l.addrs_per_block % n in
    record {
      level = 3;
      offset = l.dind_block ∷ i ∷ j ∷ (block % l.addrs_per_block) ∷ [];
      noffset =
          0
          ∷ u32 (5 + n * 2)
          ∷ u32 (6 + n * 2 + i * (n + 1))
          ∷ u32 (7 + n * 2 + i * (n + 1) + j)
          ∷ [];
    }

-- `get_node_path`; `none` is -E2BIG.
unfoldable pub get_node_path : Layout → ℕ → Option NodePath
get_node_path l block =
    let direct_blks = l.addrs_per_block in
    let in_dir1 = block - l.addrs_per_inode in
    let in_dir2 = in_dir1 - direct_blks in
    let in_ind1 = in_dir2 - direct_blks in
    let in_ind2 = in_ind1 - indirect_blks l in
    let in_dind = in_ind2 - indirect_blks l in
    if ltb block l.addrs_per_inode
    then some (record { level = 0; offset = block ∷ []; noffset = 0 ∷ [] })
    else if ltb in_dir1 direct_blks
    then some (direct_path l.dir1_block 1 in_dir1)
    else if ltb in_dir2 direct_blks
    then some (direct_path l.dir2_block 2 in_dir2)
    else if ltb in_ind1 (indirect_blks l)
    then some (indirect_path l l.ind1_block 3 in_ind1)
    else if ltb in_ind2 (indirect_blks l)
    then some (indirect_path l l.ind2_block (4 + l.nids_per_block) in_ind2)
    else if ltb in_dind (dindirect_blks l)
    then some (dindirect_path l in_dind)
    else none

abbrev pub first_bidx : Layout → ℕ → ℕ
first_bidx l bidx = add32 (mul32 bidx l.addrs_per_block) l.addrs_per_inode

-- `f2fs_start_bidx_of_node`.
unfoldable pub start_bidx_of_node : Layout → ℕ → ℕ
start_bidx_of_node l node_ofs =
    let n = l.nids_per_block in
    let indirect = u32 (2 * n + 4) in
    let dec = sub32 node_ofs 4 / (n + 1) in
    let dec' = sub32 (sub32 node_ofs indirect) 3 / (n + 1) in
    if not (is_set node_ofs)
    then 0
    else if leb node_ofs 2
    then first_bidx l (node_ofs - 1)
    else if leb node_ofs indirect
    then first_bidx l (sub32 (sub32 node_ofs 2) dec)
    else first_bidx l (sub32 (sub32 node_ofs 5) dec')

-- `IS_DNODE` for the offset of a node; `xattr_node_offset` is XATTR_NODE_OFFSET.
unfoldable pub is_dnode : Layout → ℕ → ℕ → Bool
is_dnode l xattr_node_offset ofs =
    let n = l.nids_per_block in
    if ofs == xattr_node_offset
    then true
    else if (ofs == 3) || (ofs == 4 + n) || (ofs == 5 + 2 * n)
    then false
    else if leb (6 + 2 * n) ofs
    then is_set ((ofs - (6 + 2 * n)) % (n + 1))
    else true
