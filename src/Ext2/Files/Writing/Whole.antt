-- ===== src/Ext2/Files/Writing/Whole.antt =====
-- A write as a whole.
use dvida_oxide.Prelude.{
  ℕ, zero, suc, ◌+◌, ◌-◌, ◌*◌, ◌%◌, ◌≤◌, ◌<◌, ◌≡◌, ◌≢◌, ◌⊎◌, inl, inr, refl, ◌∙◌, le→ltb, List,
  length, max, arith,
}
use native.Mathlib.Decide.{dec_lt}
use dvida_oxide.Ext2.{Res, done, Bytes}
use dvida_oxide.Ext2.Allocator.{AllocatedBlock}
use dvida_oxide.Ext2.Setting.Tree.{Level, Content}
use dvida_oxide.Ext2.Setting.Settled.{Allocates, Settled}
use dvida_oxide.Ext2.Files.Writing.{WriteState, write_loop}
use dvida_oxide.Ext2.Files.Writing.Rounds.{round}

-- Four blocks for each round.
unfoldable pub four_each : ℕ → ℕ
four_each zero = 0
four_each (suc n) = suc (suc (suc (suc (four_each n))))

-- The size of a file of `size` bytes after `left` bytes are written at `head`, the first of them at an
-- offset in its block: one more than needed, unless the write ends at the end of a block.
abbrev pub SizeAfter : ℕ → ℕ → ℕ → ℕ → ℕ → Type 0
SizeAfter size head offset left after =
    (((offset + left) % 1024 ≡ 0) × (after ≡ max size (head + left)))
    ⊎ (((offset + left) % 1024 ≢ 0) × (after ≡ max size (head + left + 1)))

module _ {ℓ} {S : Type ℓ} (Free : S → ℕ → Type 0) (Room : S → ℕ → Type 0)
    (allocate : ℕ → ℕ → S → Res (List AllocatedBlock) × S) (A : Allocates S allocate Free Room)
    (input : Bytes) where
  abbrev left : WriteState S → ℕ
  left w = length input - w.progress.bytes_written

  pub stopped :
      (fuel : ℕ) (w : WriteState S)
      → 0 < fuel
      → length input ≤ w.progress.bytes_written
      → write_loop allocate 1024 fuel input w ≡ (done tt, w)
  unfolding write_loop
  stopped zero w h all = absurd (omega arith)
  stopped (suc fuel) w h all = rw (le→ltb w.progress.bytes_written (length input) all) refl

  pub record Ends (w : WriteState S) (out : Res (Unit {0}) × WriteState S) : Type ℓ where
    pub level' : Level
    pub content' : Content
    pub after : WriteState S
    pub returns : out ≡ (done tt, after)
    pub settled : Settled Free level' content' after.st
    pub all : after.progress.bytes_written ≡ length input
    pub head : after.ctx.head ≡ w.ctx.head + left w
    pub size : SizeAfter w.i_size w.ctx.head w.progress.offset (left w) after.i_size

  pub write_loop-Ends :
      (rounds fuel : ℕ) (level : Level) (c : Content) (w : WriteState S)
      → Settled Free level c w.st
      → w.st.it.cur_idx + rounds ≤ 16843020
      → Room w.st.allocator (four_each rounds)
      → w.progress.offset < 1024
      → w.progress.bytes_written ≤ length input
      → w.ctx.head ≤ w.i_size
      → w.i_size < 4294966271
      → w.ctx.head + left w < 4294966270
      → w.progress.offset + left w ≤ rounds * 1024
      → rounds < fuel
      → (0 < left w) ⊎ (w.progress.offset ≡ 0)
      → Ends w (write_loop allocate 1024 fuel input w)
  unfolding four_each
  write_loop-Ends rounds zero level c w settled idx room inside in_input in_file small low enough
        fueled some_left =
      absurd (omega arith)
  write_loop-Ends zero (suc fuel) level c w settled idx room inside in_input in_file small low
        enough fueled some_left =
      record {
        level' = level;
        content' = c;
        after = w;
        returns = stopped (suc fuel) w (omega arith) (omega arith);
        settled = settled;
        all = omega arith;
        head = omega arith;
        size = inl (omega arith, omega arith);
      }
  write_loop-Ends (suc rounds) (suc fuel) level c w settled idx room inside in_input in_file small
        low enough fueled some_left =
      elim (dec_lt w.progress.bytes_written (length input)) [
        | no full ↦ record {
          level' = level;
          content' = c;
          after = w;
          returns = stopped (suc fuel) w (omega arith) (omega arith);
          settled = settled;
          all = omega arith;
          head = omega arith;
          size = elim some_left [
            | inl more ↦ absurd (omega arith)
            | inr at_start ↦ inl (omega arith, omega arith)
          ];
        }
        | yes more ↦
            let R =
              round Free Room allocate A input (four_each rounds) level c w settled (omega arith)
                room inside more in_file small in
            let P = R.patches in
            let n : ℕ = P.count in
            let moved : R.after.ctx.head ≡ w.ctx.head + n = R.head ∙ P.head in
            let wrote : R.after.progress.bytes_written ≡ w.progress.bytes_written + n =
              R.written ∙ P.written in
            let grown : ((n ≡ 1024 - w.progress.offset)
                  × (R.after.i_size ≡ max w.i_size (w.ctx.head + n)))
                ⊎ ((n < 1024 - w.progress.offset)
                    × (w.progress.bytes_written + n ≡ length input)
                    × (R.after.i_size ≡ max w.i_size (w.ctx.head + n + 1))) =
              elim P.size [
                | inl (all, s) ↦ inl (all, R.size ∙ s)
                | inr (some, all, s) ↦ inr (some, all, R.size ∙ s)
              ] in
            let E =
              write_loop-Ends rounds fuel R.level' R.content' R.after R.settled
                (omega (arith, R.cur_idx)) R.room (omega (arith, R.offset))
                (omega (arith, wrote, P.in_input))
                (elim grown [
                  | inl (all, s) ↦ omega (arith, s, moved)
                  | inr (some, all, s) ↦ omega (arith, s, moved)
                ])
                (elim grown [
                  | inl (all, s) ↦ omega (arith, s, P.in_input)
                  | inr (some, all, s) ↦ omega (arith, s, all)
                ])
                (omega (arith, moved, wrote, P.in_input))
                (elim grown [
                  | inl (all, s) ↦ omega (arith, wrote, all, R.offset, P.in_input)
                  | inr (some, all, s) ↦ omega (arith, wrote, all, R.offset)
                ])
                (omega arith) (inr R.offset) in
            record {
              level' = E.level';
              content' = E.content';
              after = E.after;
              returns = R.goes fuel ∙ E.returns;
              settled = E.settled;
              all = E.all;
              head = omega (arith, E.head, moved, wrote, P.in_input);
              size = elim grown [
                | inl (all, s) ↦ elim E.size [
                  | inl (m, t) ↦ inl (
                    omega (arith, m, all, wrote, R.offset, P.in_input),
                    omega (arith, t, s, moved, wrote, P.in_input),
                  )
                  | inr (m, t) ↦ inr (
                    (λ e. m (omega (arith, e, all, wrote, R.offset, P.in_input))),
                    omega (arith, t, s, moved, wrote, P.in_input),
                  )
                ]
                | inr (some, all, s) ↦ elim E.size [
                  | inl (m, t) ↦ inr (
                    (λ e. omega (arith, e, all, some, more)),
                    omega (arith, t, s, moved, wrote, all),
                  )
                  | inr (m, t) ↦ absurd (m (omega (arith, all, wrote, R.offset)))
                ]
              ];
            }
      ]
