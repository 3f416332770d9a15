-- ===== src/Ext2/Blocks/Levels.antt =====
-- The levels of the tree of indirect blocks, and the block that `get` reads.
use dvida_oxide.Prelude.{
  ℕ, ◌+◌, ◌<◌, ◌%◌, ◌≡◌, ◌≢◌, ne→==, eq→==, ==→eq, refl, ◌∙◌, sym, ap, get_or, inl, inr, Bool-cases,
  ◌==◌, if◌then◌else◌,
}
use dvida_oxide.Ext2.{done, panic, ◌then◌, unwrap, Bytes, u32_at, Drive}
use dvida_oxide.Ext2.Blocks.{
  InodeBlockIterator, block_of, zeros, handle_ind_block, handle_double_ind_block,
  first_triple_ind_buf,
}
use dvida_oxide.Ext2.Blocks.Tree.{
  number_at, pointer, bytes_of, Coherent, Keeps-refl, Reads, Reads-then, Reads-unwrap, Answers,
  in_block, handle_block-Reads, first_ind_buf-Reads, switch_ind_buf-Reads,
  first_double_ind_buf-Reads, switch_double_ind_buf-Reads, first_triple_ind_buf-Reads,
}

module _ (drive : Drive) (content : ℕ → Bytes) (D : Answers drive content) where
  -- One level, with no block.
  pub missing-Reads :
      (buf : Bytes) (offset n : ℕ) (it : InodeBlockIterator)
      → Coherent content it
      → n ≡ 0
      → Reads content it
          (bytes_of content buf (pointer content n offset))
          (handle_ind_block drive buf offset n it)
  unfolding handle_ind_block
  missing-Reads buf offset n it C zero_block =
      rw (eq→== n 0 zero_block, handle_ind_block)
        (record { after = it; returns = refl; keeps = Keeps-refl it; coherent = C })

  -- One level: the block that a pointer of the indirect block names.
  pub handle_ind_block-Reads :
      (buf : Bytes) (offset n : ℕ) (it : InodeBlockIterator)
      → Coherent content it
      → offset + 3 < 1024
      → offset % 4 ≡ 0
      → Reads content it
          (bytes_of content buf (pointer content n offset))
          (handle_ind_block drive buf offset n it)
  unfolding handle_ind_block
  handle_ind_block-Reads buf offset n it C inside aligned = elim (Bool-cases (n == 0)) [
    | inl e ↦ missing-Reads buf offset n it C (==→eq n 0 e)
    | inr e ↦
        let (b, R, holds) = first_ind_buf-Reads drive content D it.cur_ind_buf it C refl in
        let S = switch_ind_buf-Reads drive content D n b R.after R.coherent holds in
        let m = number_at (content n) offset in
        rw (e, handle_ind_block)
          (Reads-then content it b _ _ _ R (
            Reads-then content R.after (content n) _ _ _ S (
              Reads-unwrap content S.after m _ _ _
                (in_block drive content D n offset inside aligned)
                (handle_block-Reads drive content D buf m S.after S.coherent))))
  ]

  -- Two levels.
  pub handle_double_ind_block-Reads :
      (buf : Bytes) (offset2 offset n : ℕ) (it : InodeBlockIterator)
      → Coherent content it
      → offset2 + 3 < 1024
      → offset2 % 4 ≡ 0
      → offset + 3 < 1024
      → offset % 4 ≡ 0
      → Reads content it
          (bytes_of content buf (pointer content (pointer content n offset2) offset))
          (handle_double_ind_block drive buf offset2 offset n it)
  unfolding handle_double_ind_block
  handle_double_ind_block-Reads buf offset2 offset n it C inside2 aligned2 inside aligned =
      elim (Bool-cases (n == 0)) [
        | inl e ↦
            rw (e, handle_double_ind_block)
              (record { after = it; returns = refl; keeps = Keeps-refl it; coherent = C })
        | inr e ↦
            let (b, R, holds) =
              first_double_ind_buf-Reads drive content D it.cur_double_ind_buf it C refl in
            let S = switch_double_ind_buf-Reads drive content D n b R.after R.coherent holds in
            let m = number_at (content n) offset2 in
            rw (e, handle_double_ind_block)
              (Reads-then content it b _ _ _ R (
                Reads-then content R.after (content n) _ _ _ S (
                  Reads-unwrap content S.after m _ _ _
                    (in_block drive content D n offset2 inside2 aligned2)
                    (handle_ind_block-Reads buf offset m S.after S.coherent inside aligned))))
      ]

  -- Three levels, from the pointer of the inode.
  pub triple-Reads :
      (buf : Bytes) (offset3 offset2 offset : ℕ) (it : InodeBlockIterator) (n : ℕ)
      → Coherent content it
      → n ≡ block_of it 14
      → offset3 + 3 < 1024
      → offset3 % 4 ≡ 0
      → offset2 + 3 < 1024
      → offset2 % 4 ≡ 0
      → offset + 3 < 1024
      → offset % 4 ≡ 0
      → Reads content it
          (bytes_of content buf
            (pointer content (pointer content (pointer content n offset3) offset2) offset))
          (if n == 0
            then (done (zeros buf), it)
            else (first_triple_ind_buf drive it.cur_triple_ind_buf it then λ triple_ind_buf it1.
                unwrap (u32_at triple_ind_buf offset3) it1 then λ double_ind_block_idx it2.
                handle_double_ind_block drive buf offset2 offset double_ind_block_idx it2))
  triple-Reads buf offset3 offset2 offset it n C named inside3 aligned3 inside2 aligned2 inside
        aligned =
      elim (Bool-cases (n == 0)) [
        | inl e ↦ rw e (record { after = it; returns = refl; keeps = Keeps-refl it; coherent = C })
        | inr nonzero ↦
            let (b, R, holds) =
              first_triple_ind_buf-Reads drive content D it.cur_triple_ind_buf it C refl in
            let same : b ≡ content n =
              R.coherent.triple b holds
              ∙ ap (λ l. content (get_or l 14 0)) R.keeps.blocks
              ∙ ap content (sym named) in
            let m = number_at (content n) offset3 in
            rw nonzero (
              Reads-then content it b _ _ _ R (
                Reads-unwrap content R.after m _ _ _
                  (ap (λ t. u32_at t offset3) same
                    ∙ in_block drive content D n offset3 inside3 aligned3)
                  (handle_double_ind_block-Reads buf offset2 offset m R.after R.coherent inside2
                    aligned2 inside aligned)))
      ]

  -- One level, where the pointer does not stand at a multiple of four.
  pub handle_ind_block-panic :
      (buf : Bytes) (offset n : ℕ) (it : InodeBlockIterator)
      → Coherent content it
      → n ≢ 0
      → offset % 4 ≢ 0
      → (handle_ind_block drive buf offset n it).0 ≡ panic
  unfolding handle_ind_block
  handle_ind_block-panic buf offset n it C nonzero askew =
      let (b, R, holds) = first_ind_buf-Reads drive content D it.cur_ind_buf it C refl in
      let S = switch_ind_buf-Reads drive content D n b R.after R.coherent holds in
      rw (ne→== n 0 nonzero, R.returns, S.returns, ne→== (offset % 4) 0 askew, handle_ind_block)
        refl
