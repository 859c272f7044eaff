-- ===== src/Swod/Search.antt =====
-- The search of `swod_eval_group_locked` over a group's windows, with `swod_build_window_feat`.
pub mod Bounds
pub mod Pieces
use redisc.Base.{
  ℕ, zero, suc, ◌+◌, ◌-◌, ◌*◌, ◌/◌, ◌^◌, min, Bool, true, false, not, ◌&&◌, ◌||◌, Option, some,
  none, ltb, leb, ◌==◌, is_set, if◌then◌else◌, u16, u32, u64, add32, sub32, sub16, time_before,
}
use redisc.Swod.State.{short_hold, completion_hold, GroupHint, Ctrl, Tunables, Sbi, is_held, bp_one}
use redisc.Swod.Policy.{score_formation}
use redisc.Swod.Group.{older}
use redisc.Swod.Hold.{Candidate}

-- The sums of `swod_build_window_feat`.
pub record Sums : Type 0 where
  pub q : ℕ
  pub l : ℕ
  pub ncmds : ℕ
  pub pend : ℕ

unfoldable pub sum_window : Sbi → Ctrl → ℕ → ℕ → Sums → Sums
sum_window sbi sw zero segno acc = acc
sum_window sbi sw (suc n) segno acc = sum_window sbi sw n (add32 segno 1) (record {
  q = add32 acc.q (sw.seg_hint segno).pend_blks;
  l = add32 acc.l (sbi.valid_blocks segno);
  ncmds = add32 acc.ncmds (sw.seg_hint segno).nr_cmds;
  pend = add32 acc.pend (sw.seg_hint segno).pend_blks;
})

pub record Features : Type 0 where
  pub qbp : ℕ
  pub lbp : ℕ
  pub ncmds : ℕ
  pub avg_piece : ℕ
  pub pend_blks : ℕ

-- `min_t(u16, 0xFFFF, x)` converts `x` to 16 bits before it compares.
abbrev pub avg_piece_of : ℕ → ℕ → ℕ
avg_piece_of pend ncmds = if is_set ncmds then min 0xffff (u16 (pend * bp_one / ncmds)) else 0

abbrev pub features_of : ℕ → Sums → Features
features_of cap s = record {
  qbp = if is_set cap then u16 (s.q * bp_one / cap) else 0;
  lbp = if is_set cap then u16 (s.l * bp_one / cap) else 0;
  ncmds = u16 (min s.ncmds 0xffff);
  avg_piece = avg_piece_of s.pend s.ncmds;
  pend_blks = s.pend;
}

-- `swod_build_window_feat`.
unfoldable pub build_window_feat : Sbi → Ctrl → ℕ → ℕ → ℕ → Features
unfolding sum_window
build_window_feat sbi sw first off len =
    features_of (len * sbi.blocks_per_seg)
      (sum_window sbi sw len (add32 first off) (record { q = 0; l = 0; ncmds = 0; pend = 0 }))

-- `qbp` and `lbp` of the search loop are declared and read, and never assigned: a parameter says
-- what is read at an offset and a length.
pub record Stale : Type 0 where
  pub qbp_at : ℕ → ℕ → ℕ
  pub lbp_at : ℕ → ℕ → ℕ

-- The variables `best_short_*` or `best_complete_*`; `score` is that of the short search alone.
pub record Best : Type 0 where
  pub found : Bool
  pub score : ℕ
  pub off : ℕ
  pub len : ℕ
  pub qbp : ℕ
  pub lbp : ℕ
  pub ncmds : ℕ
  pub avg_piece : ℕ
  pub pend_blks : ℕ
  pub oldest : ℕ

abbrev pub no_best : Best
no_best = record {
  found = false;
  score = 0;
  off = 0;
  len = 0;
  qbp = 0;
  lbp = 2 ^ 32 - 1;
  ncmds = 0;
  avg_piece = 0;
  pend_blks = 0;
  oldest = 0;
}

-- What one round of the inner loop has computed.
pub record Round : Type 0 where
  pub at_off : ℕ
  pub at_len : ℕ
  pub r_qbp : ℕ
  pub r_lbp : ℕ
  pub feat : Features
  pub cur_oldest : ℕ

abbrev best_of : Round → ℕ → Best
best_of r score = record {
  found = true;
  score = score;
  off = r.at_off;
  len = r.at_len;
  qbp = u32 r.r_qbp;
  lbp = u32 r.r_lbp;
  ncmds = r.feat.ncmds;
  avg_piece = r.feat.avg_piece;
  pend_blks = r.feat.pend_blks;
  oldest = r.cur_oldest;
}

-- The score of a round, with the growth against the group's last snapshot where it is held.
abbrev round_score : Tunables → GroupHint → Round → ℕ
round_score t g r =
    let grows = is_held g.state && is_set g.hold_len in
    score_formation t r.feat.avg_piece (if grows then sub16 r.r_qbp g.last_qbp else 0)
      (if grows then sub16 r.feat.ncmds g.last_nr_cmds else 0)

abbrev pub fragmented : Tunables → Features → Bool
fragmented t f =
    leb t.swod_frag_min_cmds f.ncmds
    && leb f.avg_piece t.swod_frag_max_avg_piece_blks
    && leb t.swod_frag_min_pend_blks f.pend_blks

abbrev shorter : Best → Round → ℕ → Bool
shorter b r score =
    not b.found
    || ltb b.score score
    || (score == b.score && ltb r.at_len b.len)
    || (score == b.score && r.at_len == b.len && ltb r.r_lbp b.lbp)

unfoldable pub try_short : Tunables → GroupHint → Round → Best → Best
try_short t g r b =
    let score = round_score t g r in
    if fragmented t r.feat && leb 100 score && shorter b r score then best_of r score else b

abbrev more_complete : Best → Round → Bool
more_complete b r =
    not b.found
    || ltb b.len r.at_len
    || (r.at_len == b.len && ltb r.r_lbp b.lbp)
    || (r.at_len == b.len
        && r.r_lbp == b.lbp
        && (not (is_set b.oldest) || time_before r.cur_oldest b.oldest))

unfoldable pub try_complete : Tunables → Round → Best → Best
try_complete t r b =
    if leb t.swod_wce_qcov_thr_bp r.r_qbp && leb r.r_lbp t.swod_wce_lres_thr_bp && more_complete b r
    then best_of r 0
    else b

-- `qpref[k]`, the pending blocks of the first `k` segments of the group.
unfoldable pub pend_prefix : Ctrl → ℕ → ℕ → ℕ
pend_prefix sw first zero = 0
pend_prefix sw first (suc k) =
    add32 (pend_prefix sw first k) (sw.seg_hint (add32 first k)).pend_blks

pub record Found : Type 0 where
  pub short : Best
  pub complete : Best

module _ (sbi : Sbi) (t : Tunables) (stale : Stale) (sw : Ctrl) (gid first n max_len : ℕ) where
  abbrev round : ℕ → ℕ → ℕ → Round
  round off len oldest = record {
    at_off = off;
    at_len = len;
    r_qbp = stale.qbp_at off len;
    r_lbp = stale.lbp_at off len;
    feat = build_window_feat sbi sw first off len;
    cur_oldest = oldest;
  }

  -- The body of the inner loop.
  unfoldable pub try_window : ℕ → ℕ → ℕ → Found → Found
  try_window off len oldest f =
      let q = sub32 (pend_prefix sw first (off + len)) (pend_prefix sw first off) in
      if q == len * sbi.blocks_per_seg
      then f
      else if ltb t.swod_lres_thr_bp (stale.lbp_at off len)
      then f
      else record {
        short = try_short t (sw.grp_hint gid) (round off len oldest) f.short;
        complete = try_complete t (round off len oldest) f.complete;
      }

  -- for (len = 1; len <= max_this_len; len++), with the rounds that are left.
  unfoldable pub scan_lens : ℕ → ℕ → ℕ → ℕ → Found → Found
  scan_lens zero off len oldest f = f
  scan_lens (suc k) off len oldest f =
      let endi = off + len - 1 in
      let oldest' = older oldest (sw.seg_hint (add32 first endi)).oldest_jiffies in
      scan_lens k off (len + 1) oldest' (try_window off len oldest' f)

  -- for (off = 0; off < n; off++), with the rounds that are left.
  unfoldable pub scan_offs : ℕ → ℕ → Found → Found
  scan_offs zero off f = f
  scan_offs (suc k) off f = scan_offs k (off + 1) (scan_lens (min max_len (n - off)) off 1 0 f)

  unfoldable pub search_windows : Found
  search_windows = scan_offs n 0 (record { short = no_best; complete = no_best })
