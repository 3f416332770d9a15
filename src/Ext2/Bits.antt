-- ===== src/Ext2/Bits.antt =====
-- kernel/src/crypto/iterators.rs: the iterator over the bits of a slice of bytes.
pub mod Laws
mod Tests
use package.dvida_oxide.Prelude.{
  ℕ, zero, suc, ◌+◌, ◌*◌, ◌^◌, Option, none, some, List, [], ◌∷◌, length, get_or, bit_and, leb,
  ◌==◌, if◌then◌else◌,
}
use package.dvida_oxide.Ext2.{Bytes}

pub data Bit : Type 0 where
  bit_zero : Bit
  bit_one : Bit

pub record BitIterator : Type 0 where
  pub num : Bytes
  pub idx : ℕ
  pub bit_idx : ℕ

pub new : Bytes → BitIterator
new num = record { num = num; idx = 0; bit_idx = 0 }

-- Bytes have eight bits.
pub next : BitIterator → Option Bit × BitIterator
next it =
    let res = bit_and (get_or it.num it.idx 0) (2 ^ it.bit_idx) in
    let bit = if res == 0 then bit_zero else bit_one in
    let moved = record it { bit_idx = it.bit_idx + 1 } in
    let moved' : BitIterator =
      if leb 8 moved.bit_idx then record moved { bit_idx = 0; idx = it.idx + 1 } else moved in
    if leb (length it.num) it.idx then (none, it) else (some bit, moved')

-- A `for` loop over the iterator, as the list of what it yields.
pub collect : ℕ → BitIterator → List Bit
unfolding next
collect zero it = []
collect (suc fuel) it =
    let (item, it') = next it in
    let rest = collect fuel it' in elim item [ none ↦ [] | some bit ↦ bit ∷ rest ]

pub bits : Bytes → List Bit
unfolding collect new
bits num = collect (length num * 8 + 1) (new num)
