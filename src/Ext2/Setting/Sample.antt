-- ===== src/Ext2/Setting/Sample.antt =====
-- An allocator and a drive to run `set` and what stands on it.
use dvida_oxide.Prelude.{
  ℕ, ◌+◌, ◌*◌, ◌^◌, ◌≤◌, ◌<◌, inl, refl, true, if◌then◌else◌, ltb, le→ltb, some, none, List, [],
  ◌∷◌, replicate, length-replicate, arith,
}
use dvida_oxide.Ext2.{Res, done}
use dvida_oxide.Ext2.Allocator.{AllocatedBlock}
use dvida_oxide.Ext2.Setting.{Disk, SetState}
use dvida_oxide.Ext2.Setting.Pointers.{get_or-zeros, number_at-zeros}
use dvida_oxide.Ext2.Setting.Tree.{Level, Content}
use dvida_oxide.Ext2.Setting.Settled.{Allocates, Settled}

-- An allocator that gives one block after the other.
abbrev pub allocate : ℕ → ℕ → ℕ → Res (List AllocatedBlock) × ℕ
allocate group n s = (
  done (
      record { addr = s * 1024; block_global_idx = s; block_relatve_idx = s; gr_number = group }
      ∷ []),
  s + 1,
)

abbrev pub Free : ℕ → ℕ → Type 0
Free s n = s ≤ n

abbrev pub Room : ℕ → ℕ → Type 0
Room s m = (0 < s) × (s + m ≤ 2 ^ 32)

pub allocate-Allocates : Allocates ℕ allocate Free Room
allocate-Allocates = record {
  less = λ s m r. let (p, q) = r in (p, omega (arith, q));
  gives = λ group s m r.
      let (p, q) = r in
      (
        record { addr = s * 1024; block_global_idx = s; block_relatve_idx = s; gr_number = group },
        s + 1,
        refl,
        omega arith,
        (λ e. omega (arith, p, e)),
        omega (arith, q),
        (λ n h. (omega (arith, h), (λ e. omega (arith, h, e)))),
        (omega arith, omega (arith, q)),
      );
}

-- A drive of zeros, whose blocks are free from 100 on.
unfoldable pub level : Level
level n = if ltb n 100 then 0 else 4

unfoldable pub content : Content
content n = replicate 1024 0

abbrev pub disk : Disk
disk = record { drive = λ n. some (replicate 1024 0); writable = λ n. true }

abbrev pub fresh : ℕ → ℕ → SetState ℕ
fresh blocks_limit i = record {
  it = record {
    blocks = replicate 15 0;
    group_number = 0;
    block_size = 1024;
    cur_ind_buf = none;
    cur_ind_buf_block_idx = 0;
    cur_double_ind_buf = none;
    cur_double_ind_buf_block_idx = 0;
    cur_triple_ind_buf = none;
    cur_triple_ind_buf_block_idx = 0;
    blocks_limit = blocks_limit;
    cur_idx = i;
    cur_block_idx = 0;
  };
  disk = disk;
  allocator = 100;
  allocated_blocks = [];
}

pub fresh-Settled : (blocks_limit i : ℕ) → Settled Free level content (fresh blocks_limit i)
unfolding level content
fresh-Settled blocks_limit i = record {
  tree = record {
    whole = λ n. length-replicate {A = ℕ} 1024 0;
    points = λ n k o h lt m. inl (number_at-zeros 1024 (o * 4));
  };
  answers = λ n. refl;
  writable = λ n. refl;
  size = refl;
  fifteen = refl;
  ind = refl;
  double = refl;
  triple = refl;
  at_root = tt;
  roots = λ j h. inl (get_or-zeros 15 j);
  null_block = refl;
  free_blocks = λ n h. rw (le→ltb n 100 h) refl;
}
