-- ===== src/Node/Tests.antt =====
-- Paths in an inode of the usual size.
use redisc.Base.{◌≡◌, ◌^◌, ◌-◌, refl, some, [], ◌∷◌, arith}
use redisc.Node.{Layout, get_node_path, start_bidx_of_node}
use redisc.Node.Arith.{IsLayout}
use redisc.Node.Laws.{LeadsTo, get_node_path-LeadsTo}

abbrev pub usual : Layout
usual = record {
  addrs_per_inode = 923;
  addrs_per_block = 1018;
  nids_per_block = 1018;
  dir1_block = 924;
  dir2_block = 925;
  ind1_block = 926;
  ind2_block = 927;
  dind_block = 928;
}

pub usual-IsLayout : IsLayout usual
usual-IsLayout = record {
  inode_small = omega arith;
  some_addrs = omega arith;
  addrs_small = omega arith;
  some_nids = omega arith;
  nids_small = omega arith;
}

-- A block behind the two indirect nodes: 923 + 2 * 1018 + 2 * 1018 * 1018 + 1018 * 1020 + 5.
get_node_path-LeadsTo_example : LeadsTo usual (2 ^ 29 - 1) 3_113_972 (get_node_path usual 3_113_972)
get_node_path-LeadsTo_example =
    get_node_path-LeadsTo usual usual-IsLayout (2 ^ 29 - 1) (omega arith) 3_113_972

third_level :
    get_node_path usual 3_113_972
    ≡ some
        (record { level = 3; offset = 928 ∷ 1 ∷ 2 ∷ 5 ∷ []; noffset = 0 ∷ 2041 ∷ 3061 ∷ 3064 ∷ [] })
unfolding get_node_path
third_level = refl

starts : start_bidx_of_node usual 3064 ≡ 3_113_967
unfolding start_bidx_of_node
starts = refl
