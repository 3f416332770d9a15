-- ===== src/Ext2/Setting/Tests.antt =====
-- Runs of `set`, and its theorems at concrete inputs.
use dvida_oxide.Prelude.{ℕ, ◌≡◌, inr, refl, [], ◌∷◌, replicate, arith}
use dvida_oxide.Ext2.Setting.{
  SetState, set_block, set_direct, set_single, set_triple, handle_block_in_blocks_array,
  allocate_one, first_of, clear_block, write_block, first_ind, first_triple, read_block,
  handle_set_double_indirect_block, fill_triple, handle_set_indirect_block, load_double,
  fill_double, handle_set_block, load_ind, fill_ind,
}
use dvida_oxide.Ext2.Setting.Sample.{
  Free, Room, allocate, allocate-Allocates, level, content, fresh, fresh-Settled,
}
use dvida_oxide.Ext2.Setting.Storing.{Stores, set_block-Stores}
use dvida_oxide.Ext2.Setting.Reading.{ReadsBack, set_block-get}

abbrev start : ℕ → SetState ℕ
start i = fresh 100000 i

-- The first block behind the triple indirect block takes four blocks.
triple_runs : (set_block allocate (start 65804)).1.allocator ≡ 104
unfolding set_block set_triple handle_block_in_blocks_array allocate_one first_of clear_block
    write_block first_triple read_block handle_set_double_indirect_block fill_triple
    handle_set_indirect_block load_double fill_double handle_set_block load_ind fill_ind
triple_runs = refl

-- An index of the single indirect block takes two blocks.
single_runs : (set_block allocate (start 20)).1.it.cur_block_idx ≡ 101
unfolding set_block set_single handle_block_in_blocks_array allocate_one first_of clear_block
    write_block first_ind read_block handle_set_block load_ind fill_ind
single_runs = refl

direct_runs : (set_block allocate (start 5)).1.it.blocks ≡ 0 ∷ 0 ∷ 0 ∷ 0 ∷ 0 ∷ 100 ∷ replicate 9 0
unfolding set_block set_direct allocate_one first_of
direct_runs = refl

set_block-Stores_example :
    Stores Free Room 0 level content (start 65804) (set_block allocate (start 65804))
set_block-Stores_example =
    set_block-Stores Free Room allocate allocate-Allocates level content (start 65804) 0
      (fresh-Settled 100000 65804) (omega arith) (omega arith, omega arith)

set_block-get_example : ReadsBack [] (set_block allocate (start 300))
set_block-get_example =
    set_block-get Free Room allocate allocate-Allocates level content (start 300) 0 []
      (fresh-Settled 100000 300) (inr (omega arith)) (omega arith) (omega arith, omega arith)
