-- ===== src/Ext2/Files/Writing/Block.antt =====
-- One round of a write: a block from `set`, and the input in it.
use dvida_oxide.Prelude.{
  ℕ, suc, ◌+◌, ◌-◌, ◌<◌, ◌≡◌, ◌≢◌, ◌⊎◌, inl, inr, refl, ap, sym, subst, true, Bool-cases, ◌==◌,
  ==_refl, ne→==, some, ◌*◌, length, replicate, if◌then◌else◌, arith,
}
use dvida_oxide.Ext2.{done, Bytes, ◌then◌}
use dvida_oxide.Ext2.Blocks.Tree.{number_at}
use dvida_oxide.Ext2.Blocks.Reading.{file_block}
use dvida_oxide.Ext2.Setting.{SetState, written}
use dvida_oxide.Ext2.Setting.Tree.{Level, Content}
use dvida_oxide.Ext2.Setting.Settled.{
  Held-keep, Settled, written-answers, read_block-done, write_block-done,
}
use dvida_oxide.Ext2.Setting.Kept.{file_block-kept}
use dvida_oxide.Ext2.Files.Writing.{
  Patch, WriteState, write_till_next_block_from, write_till_next_block,
}

-- A block of data is written.
module _ {ℓ} {S : Type ℓ} (Free : S → ℕ → Type 0) (level : Level) (c : Content) (st : SetState S)
    (s : Settled Free level c st) (block : ℕ) (holds_data : level block ≡ 0) (buf : Bytes)
    (whole : length buf ≡ 1024) where
  abbrev pub content_with : Content
  content_with n = if n == block then buf else c n

  pub content_with_self : content_with block ≡ buf
  content_with_self = rw (==_refl block) refl

  pub content_with_other : (n : ℕ) → n ≢ block → content_with n ≡ c n
  content_with_other n h = rw (ne→== n block h) refl

  above : (n k : ℕ) → level n ≡ suc k → content_with n ≡ c n
  above n k h = content_with_other n (λ e. omega (arith, h, holds_data, ap level e))

  kept : (k n : ℕ) → level n ≡ suc k → (content_with n ≡ c n) × (level n ≡ suc k)
  kept k n h = (above n k h, h)

  pub data_written-Settled :
      Settled Free level content_with (record st { disk = written st.disk block buf })
  data_written-Settled = record {
    tree = record {
      whole = λ n. elim (Bool-cases (n == block)) [
        | inl e ↦ rw e whole
        | inr e ↦ rw e (s.tree.whole n)
      ];
      points = λ n k o h low inside.
          subst (λ b. (number_at b (o * 4) ≡ 0) ⊎ (level (number_at b (o * 4)) ≡ k))
            (sym (above n k h)) (s.tree.points n k o h low inside);
    };
    answers =
        written-answers st.disk block buf c content_with s.answers content_with_self
          content_with_other;
    writable = s.writable;
    size = s.size;
    fifteen = s.fifteen;
    ind = Held-keep level c level content_with 1 _ _ (kept 0 _) s.ind;
    double = Held-keep level c level content_with 2 _ _ (kept 1 _) s.double;
    triple = Held-keep level c level content_with 3 _ _ (kept 2 _) s.triple;
    at_root = s.at_root;
    roots = s.roots;
    null_block = s.null_block;
    free_blocks = s.free_blocks;
  }

  pub file_block-content_with :
      (j : ℕ)
      → j < 16843020
      → file_block c st.it.blocks j ≢ 0
      → file_block content_with st.it.blocks j ≡ file_block c st.it.blocks j
  file_block-content_with j small h =
      file_block-kept level c level content_with s.tree
        (λ n k o at low inside there. ap (λ b. number_at b (o * 4)) (above n k at)) st.it.blocks
        st.it.blocks s.roots (λ i there. refl) j small h

-- The buffer that a round starts from.
abbrev pub start_buf : ℕ → Bytes → Bytes
start_buf offset old = if offset == 0 then replicate 1024 0 else old

module _ {ℓ} {S : Type ℓ} where
  abbrev pub patch_of : Bytes → WriteState S → Patch
  patch_of buf w = record { buf = buf; i_size = w.i_size; ctx = w.ctx; progress = w.progress }

  abbrev pub after_patch : Patch → ℕ → WriteState S → WriteState S
  after_patch p block w = record w {
    st = record w.st { disk = written w.st.disk block p.buf };
    i_size = p.i_size;
    ctx = p.ctx;
    progress = record p.progress { block_idx = p.progress.block_idx + 1; offset = 0 };
  }

  pub write_till_next_block-done :
      (input old : Bytes) (block : ℕ) (w : WriteState S)
      → w.st.disk.drive block ≡ some old
      → w.st.disk.writable block ≡ true
      → write_till_next_block 1024 input block w ≡ (
        done tt,
        after_patch
            (write_till_next_block_from input
              (1024 - w.progress.offset)
              w.progress.offset
              (patch_of (start_buf w.progress.offset old) w))
            block
            w,
      )
  unfolding write_till_next_block
  write_till_next_block-done input old block w answers writable =
      elim (Bool-cases (w.progress.offset == 0)) [
        | inl e ↦ rw e (rw (write_block-done _ block w.st writable) refl)
        | inr e ↦ rw e (
            rw (read_block-done block old w.st answers)
              (rw (write_block-done _ block w.st writable) refl))
      ]
