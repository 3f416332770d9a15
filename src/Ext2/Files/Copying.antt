-- ===== src/Ext2/Files/Copying.antt =====
-- The bytes of one block that a read copies.
use dvida_oxide.Prelude.{
  ℕ, zero, suc, ◌+◌, ◌^◌, ◌≤◌, ◌<◌, ◌≡◌, ◌⊎◌, inl, inr, refl, ap, ◌∙◌, Bool-cases, leb, leb→le,
  leb→gt, length, get_or, set, length-set, get_or-set_self, get_or-set_ne, arith,
}
use native.Mathlib.Nat.{mod-eq_of_lt}
use dvida_oxide.Ext2.{Bytes, as_u32}
use dvida_oxide.Ext2.Files.{Reading, read_byte, read_till_next_block_from}

-- The bytes of `buf` from byte `i` on, `rounds` at most, went to the target.
pub record Copies (i_size rounds i : ℕ) (buf : Bytes) (s s' : Reading) : Type 0 where
  pub count : ℕ
  pub at_most : count ≤ rounds
  pub whole : length s'.target ≡ length s.target
  pub inside :
      (t : ℕ) → t < count → get_or s'.target (s.progress.bytes_written + t) 0 ≡ get_or buf (i + t) 0
  pub outside :
      (j : ℕ)
      → (j < s.progress.bytes_written) ⊎ (s.progress.bytes_written + count ≤ j)
      → get_or s'.target j 0 ≡ get_or s.target j 0
  pub head : s'.ctx.head ≡ s.ctx.head + count
  pub written : s'.progress.bytes_written ≡ s.progress.bytes_written + count
  pub in_file : s.ctx.head + count ≤ i_size
  pub in_target : s.progress.bytes_written + count ≤ length s.target
  pub ends :
      ((count ≡ rounds) × (s'.progress.offset ≡ 0))
      ⊎ ((s'.ctx.head ≡ i_size) ⊎ (s'.progress.bytes_written ≡ length s.target))

module _ (i_size : ℕ) (word : i_size < 2 ^ 32) (buf : Bytes) where
  stops :
      (rounds i : ℕ) (s : Reading)
      → s.ctx.head ≤ i_size
      → s.progress.bytes_written ≤ length s.target
      → (s.ctx.head ≡ i_size) ⊎ (s.progress.bytes_written ≡ length s.target)
      → Copies i_size rounds i buf s s
  stops rounds i s in_file in_target why = record {
    count = 0;
    at_most = omega arith;
    whole = refl;
    inside = λ t h. absurd (omega arith);
    outside = λ j h. refl;
    head = omega arith;
    written = omega arith;
    in_file = omega arith;
    in_target = omega arith;
    ends = inr why;
  }

  one_more :
      (rounds i : ℕ) (s s' : Reading)
      → s.progress.bytes_written < length s.target
      → Copies i_size rounds (i + 1) buf (read_byte (get_or buf i 0) s) s'
      → Copies i_size (suc rounds) i buf s s'
  one_more rounds i s s' room R =
      let bw : ℕ = s.progress.bytes_written in
      let same : length (set s.target bw (get_or buf i 0)) ≡ length s.target =
        length-set s.target bw (get_or buf i 0) in
      record {
        count = suc R.count;
        at_most = omega (arith, R.at_most);
        whole = R.whole ∙ same;
        inside = λ t h. inside t h;
        outside =
            λ j h. R.outside j (apart j h) ∙ get_or-set_ne s.target bw j _ 0 (λ e. differ j h e);
        head = omega (arith, R.head);
        written = omega (arith, R.written);
        in_file = omega (arith, R.in_file);
        in_target = omega (arith, R.in_target, same);
        ends = elim R.ends [
          | inl (all, zero_offset) ↦ inl (ap suc all, zero_offset)
          | inr (inl at_end) ↦ inr (inl at_end)
          | inr (inr full) ↦ inr (inr (full ∙ same))
        ];
      }
    where
      apart :
          (j : ℕ)
          → (j < s.progress.bytes_written) ⊎ (s.progress.bytes_written + suc R.count ≤ j)
          → (j < s.progress.bytes_written + 1) ⊎ (s.progress.bytes_written + 1 + R.count ≤ j)
      apart j (inl h) = inl (omega arith)
      apart j (inr h) = inr (omega arith)

      differ :
          (j : ℕ)
          → (j < s.progress.bytes_written) ⊎ (s.progress.bytes_written + suc R.count ≤ j)
          → s.progress.bytes_written ≡ j
          → ⊥
      differ j (inl h) e = omega arith
      differ j (inr h) e = omega arith

      inside :
          (t : ℕ)
          → t < suc R.count
          → get_or s'.target (s.progress.bytes_written + t) 0 ≡ get_or buf (i + t) 0
      inside zero h =
          ap (λ k. get_or s'.target k 0) (omega arith)
          ∙ R.outside s.progress.bytes_written (inl (omega arith))
          ∙ get_or-set_self s.target s.progress.bytes_written (get_or buf i 0) 0 room
          ∙ ap (λ k. get_or buf k 0) (omega arith)
      inside (suc t) h =
          ap (λ k. get_or s'.target k 0) (omega arith)
          ∙ R.inside t (omega arith)
          ∙ ap (λ k. get_or buf k 0) (omega arith)

  pub read_till_next_block_from-Copies :
      (rounds i : ℕ) (s : Reading)
      → s.ctx.head ≤ i_size
      → s.progress.bytes_written ≤ length s.target
      → Copies i_size rounds i buf s (read_till_next_block_from i_size rounds i buf s)
  unfolding read_till_next_block_from
  read_till_next_block_from-Copies zero i s in_file in_target = record {
    count = 0;
    at_most = omega arith;
    whole = refl;
    inside = λ t h. absurd (omega arith);
    outside = λ j h. refl;
    head = omega arith;
    written = omega arith;
    in_file = omega arith;
    in_target = omega arith;
    ends = inl (refl, refl);
  }
  read_till_next_block_from-Copies (suc rounds) i s in_file in_target =
      let small : as_u32 s.ctx.head ≡ s.ctx.head =
        mod-eq_of_lt {n = s.ctx.head} {m = 4294967296} (omega arith) in
      elim (Bool-cases (leb i_size (as_u32 s.ctx.head))) [
        | inl e ↦ rw e (stops _ i s in_file in_target (inl (omega (arith, small, leb→le _ _ e))))
        | inr e ↦ elim (Bool-cases (leb (length s.target) s.progress.bytes_written)) [
          | inl f ↦ rw (e, f) (stops _ i s in_file in_target (inr (omega (arith, leb→le _ _ f))))
          | inr f ↦
              rw (e, f)
                (one_more rounds i s _ (leb→gt _ _ f) (
                  read_till_next_block_from-Copies rounds (i + 1) (read_byte (get_or buf i 0) s)
                    (omega (arith, small, leb→gt _ _ e))
                    (omega (
                      arith,
                      leb→gt _ _ f,
                      length-set s.target s.progress.bytes_written (get_or buf i 0),
                    ))))
        ]
      ]
