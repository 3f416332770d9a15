-- ===== src/Ext2/Directory/Rounds.antt =====
-- A round of the search of a directory, and the search of two lists one after the other.
use dvida_oxide.Prelude.{
  ℕ, suc, ◌≡◌, inl, inr, refl, ap, sym, ◌∙◌, Bool, true, false, Bool-cases, Option, none, some,
  List, [], ◌∷◌, ◌++◌, if◌then◌else◌,
}
use dvida_oxide.Ext2.{Res, done, Bytes, ◌then◌}
use dvida_oxide.Ext2.Blocks.{InodeBlockIterator, next}
use dvida_oxide.Ext2.Setting.{SetState, with_it, write_block}
use dvida_oxide.Ext2.Entries.{DirEntry, block_start, find_entry_by_name_in_block}
use dvida_oxide.Ext2.Entries.Search.{matches, lookup}
use dvida_oxide.Ext2.Directory.{find_loop}

pub lookup-append_none :
    (name : Bytes) (xs ys : List DirEntry)
    → lookup name xs ≡ none
    → lookup name (xs ++ ys) ≡ lookup name ys
unfolding lookup
lookup-append_none name [] ys h = refl
lookup-append_none name (e ∷ xs) ys h = elim (Bool-cases (matches name e)) [
  | inl here ↦ absurd (cc (h, ap (λ b. if b then some e.inode else lookup name xs) here))
  | inr other ↦ rw other (
      lookup-append_none name xs ys
        (sym (ap (λ b. if b then some e.inode else lookup name xs) other) ∙ h))
]

pub lookup-append_some :
    (name : Bytes) (xs ys : List DirEntry) (i : ℕ)
    → lookup name xs ≡ some i
    → lookup name (xs ++ ys) ≡ some i
unfolding lookup
lookup-append_some name [] ys i h = absurd (cc h)
lookup-append_some name (e ∷ xs) ys i h = elim (Bool-cases (matches name e)) [
  | inl here ↦ rw here (sym (ap (λ b. if b then some e.inode else lookup name xs) here) ∙ h)
  | inr other ↦ rw other (
      lookup-append_some name xs ys i
        (sym (ap (λ b. if b then some e.inode else lookup name xs) other) ∙ h))
]

-- A round of the loop by what the iterator and the search of the block return.
module _ {ℓ} {S : Type ℓ} (name : Bytes) where
  pub go_on : Option ℕ → Bool → ℕ → ℕ → Bytes → SetState S → Res (Option ℕ) × SetState S
  go_on found is_terminated fuel remaining buf st = elim is_terminated [
    | true ↦ (done found, st)
    | false ↦ elim found [
      | some inode ↦ (done (some inode), st)
      | none ↦ find_loop 1024 name false false fuel remaining buf st
    ]
  ]

  pub find_loop-go_on :
      (fuel before remaining block_idx : ℕ) (buf b : Bytes) (st : SetState S)
      (it : InodeBlockIterator) (found : Option ℕ) (is_terminated : Bool)
      → next st.disk.drive buf st.it
        ≡ (done (record { buf = b; is_terminated = false; block_idx = block_idx }), it)
      → find_entry_by_name_in_block
          (λ b s. write_block b block_idx s)
          1024
          name
          false
          false
          1024
          (block_start before b)
          (with_it it st)
        ≡ (done (found, is_terminated, b), (remaining, with_it it st))
      → find_loop 1024 name false false (suc fuel) before buf st
        ≡ go_on found is_terminated fuel remaining b (with_it it st)
  unfolding find_loop go_on
  find_loop-go_on fuel before remaining block_idx buf b st it found is_terminated N G =
      rw (N, find_loop)
        (ap
          (λ (d : Res (Option ℕ × Bool × Bytes) × (ℕ × SetState S)). (d.0, d.1.1) then λ res st2.
            elim res.1 [
              | true ↦ (done res.0, st2)
              | false ↦ elim res.0 [
                | some inode ↦ (done (some inode), st2)
                | none ↦ find_loop 1024 name false false fuel d.1.0 res.2 st2
              ]
            ])
          G)

  pub go_on-some :
      (i : ℕ) (is_terminated : Bool) (fuel remaining : ℕ) (buf : Bytes) (st : SetState S)
      → go_on (some i) is_terminated fuel remaining buf st ≡ (done (some i), st)
  unfolding go_on
  go_on-some i true fuel remaining buf st = refl
  go_on-some i false fuel remaining buf st = refl

  pub go_on-none :
      (fuel remaining : ℕ) (buf : Bytes) (st : SetState S)
      → go_on none false fuel remaining buf st
        ≡ find_loop 1024 name false false fuel remaining buf st
  unfolding go_on
  go_on-none fuel remaining buf st = refl

  pub go_on-over :
      (found : Option ℕ) (fuel remaining : ℕ) (buf : Bytes) (st : SetState S)
      → go_on found true fuel remaining buf st ≡ (done found, st)
  unfolding go_on
  go_on-over found fuel remaining buf st = refl
