-- ===== src/Ext2/Files/Writing/Patching.antt =====
-- The bytes of one block that a write changes.
use dvida_oxide.Prelude.{
  ℕ, zero, suc, ◌+◌, ◌≤◌, ◌<◌, ◌≡◌, ◌⊎◌, inl, inr, refl, ap, ◌∙◌, Bool-cases, leb, leb→le, leb→gt,
  max, length, get_or, length-set, get_or-set_self, get_or-set_ne, arith,
}
use native.Mathlib.Nat.{mod-eq_of_lt}
use dvida_oxide.Ext2.{Bytes, as_u32}
use dvida_oxide.Ext2.Files.Writing.{Patch, patch_byte, grow, write_till_next_block_from}

-- So many bytes of the input went to the buffer, from byte `i` on, and the file ends behind them at least;
-- where the block is not filled, one byte further.
pub record Patches (input : Bytes) (rounds i : ℕ) (p p' : Patch) : Type 0 where
  pub count : ℕ
  pub at_most : count ≤ rounds
  pub whole : length p'.buf ≡ length p.buf
  pub inside :
      (t : ℕ) → t < count → get_or p'.buf (i + t) 0 ≡ get_or input (p.progress.bytes_written + t) 0
  pub outside : (j : ℕ) → (j < i) ⊎ (i + count ≤ j) → get_or p'.buf j 0 ≡ get_or p.buf j 0
  pub head : p'.ctx.head ≡ p.ctx.head + count
  pub written : p'.progress.bytes_written ≡ p.progress.bytes_written + count
  pub in_input : p.progress.bytes_written + count ≤ length input
  pub size :
      ((count ≡ rounds) × (p'.i_size ≡ max p.i_size (p.ctx.head + count)))
      ⊎ ((count < rounds)
          × (p.progress.bytes_written + count ≡ length input)
          × (p'.i_size ≡ max p.i_size (p.ctx.head + count + 1)))

module _ (input : Bytes) where
  grow-max :
      (p : Patch)
      → p.ctx.head ≤ p.i_size
      → p.i_size < 4294967295
      → (grow p).i_size ≡ max p.i_size (p.ctx.head + 1)
  grow-max p h small =
      let head : as_u32 p.ctx.head ≡ p.ctx.head =
        mod-eq_of_lt {n = p.ctx.head} {m = 4294967296} (omega arith) in
      let next : as_u32 (p.i_size + 1) ≡ p.i_size + 1 =
        mod-eq_of_lt {n = p.i_size + 1} {m = 4294967296} (omega arith) in
      elim (Bool-cases (leb p.i_size (as_u32 p.ctx.head))) [
        | inl e ↦ rw e (omega (arith, next, head, leb→le _ _ e))
        | inr e ↦ rw e (omega (arith, head, leb→gt _ _ e))
      ]

  -- A byte, and those behind it.
  one_more :
      (rounds i : ℕ) (p p' : Patch)
      → i < length p.buf
      → p.progress.bytes_written < length input
      → (grow p).i_size ≡ max p.i_size (p.ctx.head + 1)
      → Patches input rounds
          (i + 1)
          (patch_byte i (get_or input p.progress.bytes_written 0) (grow p))
          p'
      → Patches input (suc rounds) i p p'
  one_more rounds i p p' fits more grown R =
      let bw : ℕ = p.progress.bytes_written in
      record {
        count = suc R.count;
        at_most = omega (arith, R.at_most);
        whole = R.whole ∙ length-set p.buf i (get_or input bw 0);
        inside = inside;
        outside = λ j h. R.outside j (apart j h) ∙ get_or-set_ne p.buf i j _ 0 (λ e. differ j h e);
        head = omega (arith, R.head);
        written = omega (arith, R.written);
        in_input = omega (arith, R.in_input);
        size = elim R.size [
          | inl (all, size) ↦ inl (ap suc all, omega (arith, size, grown))
          | inr (some_left, full, size) ↦
              inr (omega (arith, some_left), omega (arith, full), omega (arith, size, grown))
        ];
      }
    where
      apart : (j : ℕ) → (j < i) ⊎ (i + suc R.count ≤ j) → (j < i + 1) ⊎ (i + 1 + R.count ≤ j)
      apart j (inl h) = inl (omega arith)
      apart j (inr h) = inr (omega arith)

      differ : (j : ℕ) → (j < i) ⊎ (i + suc R.count ≤ j) → i ≡ j → ⊥
      differ j (inl h) e = omega arith
      differ j (inr h) e = omega arith

      inside :
          (t : ℕ)
          → t < suc R.count
          → get_or p'.buf (i + t) 0 ≡ get_or input (p.progress.bytes_written + t) 0
      inside zero h =
          ap (λ k. get_or p'.buf k 0) (omega arith)
          ∙ R.outside i (inl (omega arith))
          ∙ get_or-set_self p.buf i (get_or input p.progress.bytes_written 0) 0 fits
          ∙ ap (λ k. get_or input k 0) (omega arith)
      inside (suc t) h =
          ap (λ k. get_or p'.buf k 0) (omega arith)
          ∙ R.inside t (omega arith)
          ∙ ap (λ k. get_or input k 0) (omega arith)

  pub write_till_next_block_from-Patches :
      (rounds i : ℕ) (p : Patch)
      → i + rounds ≤ length p.buf
      → p.progress.bytes_written ≤ length input
      → p.ctx.head ≤ p.i_size
      → p.i_size + rounds < 4294967295
      → Patches input rounds i p (write_till_next_block_from input rounds i p)
  unfolding write_till_next_block_from
  write_till_next_block_from-Patches zero i p fits in_input h small = record {
    count = 0;
    at_most = omega arith;
    whole = refl;
    inside = λ t k. absurd (omega arith);
    outside = λ j k. refl;
    head = omega arith;
    written = omega arith;
    in_input = omega arith;
    size = inl (refl, omega arith);
  }
  write_till_next_block_from-Patches (suc rounds) i p fits in_input h small =
      let grown = grow-max p h (omega arith) in
      elim (Bool-cases (leb (length input) p.progress.bytes_written)) [
        | inl e ↦ rw e (record {
          count = 0;
          at_most = omega arith;
          whole = refl;
          inside = λ t k. absurd (omega arith);
          outside = λ j k. refl;
          head = omega arith;
          written = omega arith;
          in_input = omega arith;
          size = inr (omega arith, omega (arith, leb→le _ _ e), omega (arith, grown));
        })
        | inr e ↦ rw e (
            one_more rounds i p _ (omega arith) (leb→gt _ _ e) grown (
              write_till_next_block_from-Patches rounds (i + 1)
                (patch_byte i (get_or input p.progress.bytes_written 0) (grow p))
                (omega (arith, length-set p.buf i (get_or input p.progress.bytes_written 0)))
                (omega (arith, leb→gt _ _ e)) (omega (arith, grown)) (omega (arith, grown))))
      ]
