-- ===== src/Ext2/Directory/Finding.antt =====
-- kernel/src/drivers/fs/ext2/open.rs: the search by name over the blocks of a directory.
use dvida_oxide.Prelude.{
  ℕ, zero, suc, ◌+◌, ◌*◌, ◌≤◌, ◌<◌, ◌≡◌, ◌≢◌, Bool, true, false, Option, none, List, [], ◌++◌,
  length,
}
use dvida_oxide.Ext2.{Res, done, Bytes}
use dvida_oxide.Ext2.Blocks.Tree.{Coherent, Answers}
use dvida_oxide.Ext2.Blocks.Reading.{file_block}
use dvida_oxide.Ext2.Setting.{Disk, SetState}
use dvida_oxide.Ext2.Entries.{DirEntry}
use dvida_oxide.Ext2.Entries.Tiles.{Tiled}
use dvida_oxide.Ext2.Entries.Search.{lookup}
use dvida_oxide.Ext2.Directory.{find_loop}
use dvida_oxide.Ext2.Directory.Rounds.{go_on}

-- What stands in the entries of so many blocks, from a block on.
unfoldable pub listed : (ℕ → List DirEntry) → ℕ → ℕ → List DirEntry
listed listing zero idx = []
listed listing (suc count) idx = listing idx ++ listed listing count (idx + 1)

-- A search that ends with a result.
pub record Answered {ℓ} {S : Type ℓ} (found : Option ℕ) (out : Res (Option ℕ) × SetState S)
    : Type ℓ where
  pub after : SetState S
  pub returns : out ≡ (done found, after)

module _ {ℓ} {S : Type ℓ} (disk : Disk) (content : ℕ → Bytes) (D : Answers disk.drive content)
    (blocks : List ℕ) (fifteen : length blocks ≡ 15) (name : Bytes) (limit : ℕ) (few : limit ≤ 13)
    (listing : ℕ → List DirEntry)
    (tiled : (idx : ℕ)
      → idx < limit
      → (file_block content blocks idx ≢ 0)
        × Tiled (content (file_block content blocks idx)) 0 (listing idx)) where
  -- Before a round of the loop.
  record AtBlock (st : SetState S) : Type ℓ where
    coherent : Coherent content st.it
    block_size : st.it.block_size ≡ 1024
    same_blocks : st.it.blocks ≡ blocks
    same_limit : st.it.blocks_limit ≡ limit
    same_disk : st.disk ≡ disk

  -- A round on a block: what the search of the block says, or the blocks behind it.
  record Round (rest : ℕ) (fuel : ℕ) (buf : Bytes) (st : SetState S) : Type ℓ where
    after : SetState S
    is_terminated : Bool
    remaining : ℕ
    next_buf : Bytes
    goes :
        find_loop 1024 name false false (suc fuel) (suc rest * 1024) buf st
        ≡ go_on name
            (lookup name (listing st.it.cur_idx))
            is_terminated
            fuel
            remaining
            next_buf
            after
    ends : is_terminated ≡ true → remaining ≡ 0
    all_read : lookup name (listing st.it.cur_idx) ≡ none → remaining ≡ rest * 1024
    at_next : AtBlock after
    cur_idx : after.it.cur_idx ≡ st.it.cur_idx + 1
