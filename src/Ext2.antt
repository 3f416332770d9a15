-- ===== src/Ext2.antt =====
-- kernel/src/drivers/fs/ext2: what the parts of the file system share. An operation returns a value,
-- an error of the drive or of the allocator, or panics, with the state it leaves.
pub mod Blocks
pub mod Bits
pub mod Allocator
pub mod Managers
pub mod Setting
pub mod Files
pub mod Entries
pub mod Directory
pub mod Inodes
use package.dvida_oxide.Prelude.{
  ℕ, ◌+◌, ◌*◌, ◌^◌, ◌%◌, ◌==◌, if◌then◌else◌, Bool, Option, none, some, List, get_elem?,
}
use package.dvida_oxide.Serialize.{DvSerErr, DvDeErr}
use package.dvida_oxide.Prelude.Results.{◌>>=◌}

-- The errors of the file system's own.
pub data HalFsIoErr : Type 0 where
  is_directory : HalFsIoErr
  not_a_directory : HalFsIoErr
  corrupted : HalFsIoErr
  serialization_err : DvSerErr → HalFsIoErr
  deserialization_err : DvDeErr → HalFsIoErr

pub data Res {ℓ} (A : Type ℓ) : Type ℓ where
  done : A → Res A
  refused : HalFsIoErr → Res A
  io_error : Res A
  no_space_left : Res A
  panic : Res A

infixl 5 ◌then◌
abbrev pub ◌then◌ {ℓ κ} : {A B : Type ℓ} {S : Type κ} → Res A × S → (A → S → Res B × S) → Res B × S
(done a, s) then f = f a s
(refused e, s) then f = (refused e, s)
(io_error, s) then f = (io_error, s)
(no_space_left, s) then f = (no_space_left, s)
(panic, s) then f = (panic, s)

-- What the code expects of a value that is there: a panic without one.
abbrev pub unwrap {ℓ κ} : {A : Type ℓ} {S : Type κ} → Option A → S → Res A × S
unwrap none s = (panic, s)
unwrap (some a) s = (done a, s)

abbrev pub Bytes : Type 0
Bytes = List ℕ

-- `as u32`
abbrev pub as_u32 : ℕ → ℕ
as_u32 n = n % 2 ^ 32

-- The little-endian number in the four bytes from an offset on; none where the slice panics out of
-- bounds, and where `bytemuck` panics on an address that is not a multiple of four. A buffer starts at
-- an address that is one.
abbrev pub u32_at : Bytes → ℕ → Option ℕ
u32_at buf offset =
    let number = get_elem? buf offset >>= λ a. get_elem? buf (offset + 1) >>= λ b.
    get_elem? buf (offset + 2) >>= λ c.
    get_elem? buf (offset + 3) >>= λ d. some (a + 256 * b + 65536 * c + 16777216 * d) in
    if offset % 4 == 0 then number else none

-- The drive by blocks: their bytes, or an error.
abbrev pub Drive : Type 0
Drive = ℕ → Option Bytes
