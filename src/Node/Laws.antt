-- ===== src/Node/Laws.antt =====
-- The path of a block leads to the block: get_node_path against f2fs_start_bidx_of_node and IS_DNODE.
use native.Mathlib.Nat.{
  div-div-eq-div-mul, div-lt_iff_lt-mul, div-add-mod', mod-lt, mul-add-mod_self_right, mod-eq_of_lt,
}
use redisc.Base.{
  ℕ, zero, suc, ◌+◌, ◌-◌, ◌*◌, ◌/◌, ◌%◌, ◌^◌, ◌≤◌, ◌<◌, ◌≡◌, subst, refl, ◌∙◌, true, false, ◌&&◌,
  inl, inr, Bool-cases, Option, none, some, [], ◌∷◌, ltb, u32, arith,
}
use redisc.Node.{
  Layout, NodePath, get_or, indirect_blks, dindirect_blks, direct_path, indirect_path,
  dindirect_path, get_node_path, start_bidx_of_node, is_dnode,
}
use redisc.Node.Arith.{
  IsLayout, row_small, start_bidx-direct, start_bidx-ind1, start_bidx-ind2, start_bidx-dind,
}

-- The number of blocks that the tree of an inode has room for.
abbrev pub max_blocks : Layout → ℕ
max_blocks l = l.addrs_per_inode + 2 * l.addrs_per_block + 2 * indirect_blks l + dindirect_blks l

-- The last node of the path is a direct node (or the inode), in which the last offset is the block's;
-- the nodes between it and the inode are not.
pub record Leads (l : Layout) (xattr_ofs block : ℕ) (p : NodePath) : Type 0 where
  pub start : start_bidx_of_node l (get_or p.noffset p.level) + get_or p.offset p.level ≡ block
  pub last : is_dnode l xattr_ofs (get_or p.noffset p.level) ≡ true
  pub above :
      (n : ℕ) → (ltb 0 n && ltb n p.level && is_dnode l xattr_ofs (get_or p.noffset n)) ≡ false

abbrev pub LeadsTo : Layout → ℕ → ℕ → Option NodePath → Type 0
LeadsTo l xattr_ofs block none = max_blocks l ≤ block
LeadsTo l xattr_ofs block (some p) = (block < max_blocks l) × Leads l xattr_ofs block p

-- A number below a product, as a quotient and a remainder.
div_parts : (b a n : ℕ) → 0 < a → b < a * n → (b / a < n) × (b / a * a + b % a ≡ b) × (b % a < a)
div_parts b a n p h = grind arith

mul_pos : (a b : ℕ) → 0 < a → 0 < b → 0 < a * b
mul_pos a b p q = grind arith

row-mod : (i j n : ℕ) → j ≤ n → (i * (n + 1) + j) % (n + 1) ≡ j
row-mod i j n h = mul-add-mod_self_right i (n + 1) j ∙ mod-eq_of_lt (omega arith)

module _ (l : Layout) (xattr_ofs : ℕ) where
  abbrev Inner : ℕ → Type 0
  Inner a = is_dnode l xattr_ofs a ≡ false

  above_two :
      (a b n : ℕ)
      → Inner a
      → (ltb 0 n && ltb n 2 && is_dnode l xattr_ofs (get_or (0 ∷ a ∷ b ∷ []) n)) ≡ false
  above_two a b zero h = refl
  above_two a b (suc zero) h = ground arith
  above_two a b (suc (suc n)) h = ground arith

  above_three :
      (a b c n : ℕ)
      → Inner a
      → Inner b
      → (ltb 0 n && ltb n 3 && is_dnode l xattr_ofs (get_or (0 ∷ a ∷ b ∷ c ∷ []) n)) ≡ false
  above_three a b c zero h k = refl
  above_three a b c (suc zero) h k = ground arith
  above_three a b c (suc (suc zero)) h k = ground arith
  above_three a b c (suc (suc (suc n))) h k = ground arith

module _ (l : Layout) (ok : IsLayout l) (xattr_ofs : ℕ) (far : 2 ^ 28 ≤ xattr_ofs) where
  inode-Leads :
      (block : ℕ)
      → Leads l xattr_ofs block (record { level = 0; offset = block ∷ []; noffset = 0 ∷ [] })
  unfolding start_bidx_of_node is_dnode
  inode-Leads block = record { start = omega arith; last = ground arith; above = λ n. ground arith }

  direct-Leads :
      (slot i b : ℕ)
      → i < 2
      → Leads l xattr_ofs
          (l.addrs_per_inode + i * l.addrs_per_block + b)
          (direct_path slot (i + 1) b)
  unfolding is_dnode
  direct-Leads slot i b h = record {
    start = omega (arith, start_bidx-direct l ok i h);
    last = ground arith;
    above = λ n. ground arith;
  }

  ind1-Leads :
      (b : ℕ)
      → b < indirect_blks l
      → Leads l xattr_ofs
          (l.addrs_per_inode + 2 * l.addrs_per_block + b)
          (indirect_path l l.ind1_block 3 b)
  unfolding is_dnode
  ind1-Leads b h =
      let a = l.addrs_per_block in
      let i = b / a in
      let p = div_parts b a l.nids_per_block ok.some_addrs h in
      let ofs : u32 (3 + 1 + i) ≡ i + 4 = omega (arith, ok, p) in
      let two : (i + 2) * a ≡ i * a + 2 * a = grind arith in
      record {
        start = rw ofs (omega (arith, start_bidx-ind1 l ok i p.0, p.1, two));
        last = rw ofs (ground (arith, ok.nids_small, p.0));
        above = λ n. above_two l xattr_ofs 3 (u32 (3 + 1 + i)) n (ground arith);
      }

  ind2-Leads :
      (b : ℕ)
      → b < indirect_blks l
      → Leads l xattr_ofs
          (l.addrs_per_inode + 2 * l.addrs_per_block + indirect_blks l + b)
          (indirect_path l l.ind2_block (4 + l.nids_per_block) b)
  unfolding is_dnode
  ind2-Leads b h =
      let a = l.addrs_per_block in
      let n = l.nids_per_block in
      let i = b / a in
      let p = div_parts b a n ok.some_addrs h in
      let ofs : u32 (4 + n + 1 + i) ≡ 5 + n + i = omega (arith, ok, p) in
      let two : (n + i + 2) * a ≡ a * n + i * a + 2 * a = grind arith in
      record {
        start = rw ofs (omega (arith, start_bidx-ind2 l ok i p.0, p.1, two));
        last = rw ofs (ground (arith, ok.nids_small, p.0));
        above = λ k.
            above_two l xattr_ofs (u32 (4 + n)) (u32 (4 + n + 1 + i)) k
              (ground (arith, ok.nids_small));
      }

  -- The indices through the double indirect node.
  dind_parts :
      (b : ℕ)
      → b < dindirect_blks l
      → let i = b / indirect_blks l in
        let j = b / l.addrs_per_block % l.nids_per_block in
        (i < l.nids_per_block)
        × (j < l.nids_per_block)
        × (i * l.nids_per_block + j ≡ b / l.addrs_per_block)
        × (b / l.addrs_per_block * l.addrs_per_block + b % l.addrs_per_block ≡ b)
  dind_parts b h =
      let a = l.addrs_per_block in
      let n = l.nids_per_block in
      let k = b / a in
      let some_block : 0 < a * n = mul_pos a n ok.some_addrs ok.some_nids in
      let small : k < n * n = (div-lt_iff_lt-mul ok.some_addrs).1 (grind arith) in
      let kn : k / n ≡ b / (a * n) = div-div-eq-div-mul b a n in
      (
        (div-lt_iff_lt-mul some_block).1 (grind arith),
        mod-lt k ok.some_nids,
        rw (← kn) (div-add-mod' k n),
        div-add-mod' b a,
      )

  dind-Leads :
      (b : ℕ)
      → b < dindirect_blks l
      → Leads l xattr_ofs
          (l.addrs_per_inode + 2 * l.addrs_per_block + 2 * indirect_blks l + b)
          (dindirect_path l b)
  unfolding is_dnode
  dind-Leads b h =
      let n = l.nids_per_block in
      let i = b / indirect_blks l in
      let j = b / l.addrs_per_block % n in
      let p = dind_parts b h in
      let small = row_small l ok i j p.0 p.1 in
      let own : u32 (5 + n * 2) ≡ 5 + n * 2 = omega (arith, ok) in
      let row : u32 (6 + n * 2 + i * (n + 1)) ≡ 6 + n * 2 + i * (n + 1) =
        omega (arith, ok, small) in
      let ofs : u32 (7 + n * 2 + i * (n + 1) + j) ≡ 7 + n * 2 + i * (n + 1) + j =
        omega (arith, ok, small) in
      let blocks : (2 + n * 2 + i * n + j) * l.addrs_per_block
          ≡ 2 * l.addrs_per_block + 2 * indirect_blks l + (i * n + j) * l.addrs_per_block =
        grind arith in
      let below : (i * n + j) * l.addrs_per_block + b % l.addrs_per_block ≡ b = rw (p.2) (p.3) in
      record {
        start = rw ofs (omega (arith, start_bidx-dind l ok i j p.0 p.1, blocks, below));
        last =
            rw ofs (ground (arith, ok.nids_small, small, row-mod i (j + 1) n (omega (arith, p.1))));
        above = λ k.
            above_three l xattr_ofs (u32 (5 + n * 2)) (u32 (6 + n * 2 + i * (n + 1)))
              (u32 (7 + n * 2 + i * (n + 1) + j)) k (rw own (ground (arith, ok.nids_small)))
              (rw row (ground (arith, ok.nids_small, small, row-mod i 0 n (omega arith))));
      }

  leads_to :
      (b block : ℕ) (p : NodePath)
      → b ≡ block
      → block < max_blocks l
      → Leads l xattr_ofs b p
      → LeadsTo l xattr_ofs block (some p)
  leads_to b block p e h lead = (h, subst (λ x. Leads l xattr_ofs x p) e lead)

  -- In a layout within the bounds of f2fs, and with the offset of the xattr node beyond the tree,
  -- get_node_path fails for a block exactly if it is not below the number of blocks of a file;
  -- otherwise f2fs_start_bidx_of_node of the last node of the path, with the last offset, gives the
  -- block back, the last node is a direct one for IS_DNODE, and the nodes between it and the inode
  -- are not.
  pub get_node_path-LeadsTo : (block : ℕ) → LeadsTo l xattr_ofs block (get_node_path l block)
  unfolding get_node_path
  get_node_path-LeadsTo block =
      let d = l.addrs_per_inode in
      let a = l.addrs_per_block in
      let in_dir1 = block - d in
      let in_dir2 = in_dir1 - a in
      let in_ind1 = in_dir2 - a in
      let in_ind2 = in_ind1 - indirect_blks l in
      let in_dind = in_ind2 - indirect_blks l in
      elim (Bool-cases (ltb block d)) [
        | inl inode ↦
            rw (inode, get_node_path)
              (leads_to block block _ refl (ground arith) (inode-Leads block))
        | inr behind0 ↦ elim (Bool-cases (ltb in_dir1 a)) [
          | inl dir1 ↦
              rw (behind0, dir1, get_node_path)
                (leads_to (d + 0 * a + in_dir1) block _ (ground arith) (ground arith)
                  (direct-Leads l.dir1_block 0 in_dir1 (omega arith)))
          | inr behind1 ↦ elim (Bool-cases (ltb in_dir2 a)) [
            | inl dir2 ↦
                rw (behind0, behind1, dir2, get_node_path)
                  (leads_to (d + 1 * a + in_dir2) block _ (ground arith) (ground arith)
                    (direct-Leads l.dir2_block 1 in_dir2 (omega arith)))
            | inr behind2 ↦ elim (Bool-cases (ltb in_ind1 (indirect_blks l))) [
              | inl ind1 ↦
                  rw (behind0, behind1, behind2, ind1, get_node_path)
                    (leads_to (d + 2 * a + in_ind1) block _ (ground arith) (ground arith)
                      (ind1-Leads in_ind1 (ground arith)))
              | inr behind3 ↦ elim (Bool-cases (ltb in_ind2 (indirect_blks l))) [
                | inl ind2 ↦
                    rw (behind0, behind1, behind2, behind3, ind2, get_node_path)
                      (leads_to (d + 2 * a + indirect_blks l + in_ind2) block _ (ground arith)
                        (ground arith) (ind2-Leads in_ind2 (ground arith)))
                | inr behind4 ↦ elim (Bool-cases (ltb in_dind (dindirect_blks l))) [
                  | inl dind ↦
                      rw (behind0, behind1, behind2, behind3, behind4, dind, get_node_path)
                        (leads_to (d + 2 * a + 2 * indirect_blks l + in_dind) block _ (ground arith)
                          (ground arith) (dind-Leads in_dind (ground arith)))
                  | inr behind ↦
                      rw (behind0, behind1, behind2, behind3, behind4, behind, get_node_path)
                        (ground arith)
                ]
              ]
            ]
          ]
        ]
      ]
