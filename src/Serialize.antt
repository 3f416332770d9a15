-- ===== src/Serialize.antt =====
-- dvida_serialize/src/lib.rs and numbers.rs: numbers and arrays of numbers as bytes. A number of a
-- signed or a floating type stands for its bits, as an unsigned number of the same size.
pub mod RoundTrip
mod Tests
use package.dvida_oxide.Prelude.{
  ℕ, zero, suc, ◌+◌, ◌*◌, ◌/◌, ◌%◌, ltb, Bool, if◌then◌else◌, List, [], ◌∷◌, ◌++◌, length, take,
  drop, reverse,
}

pub data Endianness : Type 0 where
  little : Endianness
  big : Endianness
  na : Endianness

pub data DvSerErr : Type 0 where
  buffer_too_small : DvSerErr
  bad_string_length : ℕ → ℕ → DvSerErr

pub data DvDeErr : Type 0 where
  wrong_buffer_size : DvDeErr

pub data Result {ℓ κ} (E : Type κ) (A : Type ℓ) : Type (ℓ ⊔ κ) where
  ok : A → Result E A
  err : E → Result E A

abbrev pub Bytes : Type 0
Bytes = List ℕ

-- `to_le_bytes` and `from_le_bytes` of a number of so many bytes.
unfoldable pub to_le_bytes : ℕ → ℕ → Bytes
to_le_bytes zero n = []
to_le_bytes (suc size) n = n % 256 ∷ to_le_bytes size (n / 256)

unfoldable pub from_le_bytes : Bytes → ℕ
from_le_bytes [] = 0
from_le_bytes (b ∷ bs) = b + 256 * from_le_bytes bs

unfoldable pub to_bytes : Endianness → ℕ → ℕ → Bytes
to_bytes little size n = to_le_bytes size n
to_bytes na size n = to_le_bytes size n
to_bytes big size n = reverse (to_le_bytes size n)

unfoldable pub from_bytes : Endianness → Bytes → ℕ
from_bytes little bs = from_le_bytes bs
from_bytes na bs = from_le_bytes bs
from_bytes big bs = from_le_bytes (reverse bs)

-- With the bytes written and the target after it; on an error nothing is written.
unfoldable pub serialize : Endianness → ℕ → ℕ → Bytes → Result DvSerErr (ℕ × Bytes)
serialize endianness size n target =
    if ltb (length target) size
    then err buffer_too_small
    else ok (size, to_bytes endianness size n ++ drop size target)

unfoldable pub deserialize : Endianness → ℕ → Bytes → Result DvDeErr (ℕ × ℕ)
deserialize endianness size input =
    if ltb (length input) size
    then err wrong_buffer_size
    else ok (from_bytes endianness (take size input), size)

-- The loop over the elements, from an offset on; each sees a slice of its own size.
pub serialize_elems : Endianness → ℕ → List ℕ → ℕ → Bytes → Result DvSerErr Bytes
serialize_elems endianness elem_size [] offset target = ok target
serialize_elems endianness elem_size (n ∷ ns) offset target =
    elim (serialize endianness elem_size n (take elem_size (drop offset target))) [
      | err e ↦ err e
      | ok (written, slice) ↦
          serialize_elems endianness elem_size ns (offset + elem_size)
            (take offset target ++ (slice ++ drop (offset + elem_size) target))
    ]

pub serialize_array : Endianness → ℕ → List ℕ → Bytes → Result DvSerErr (ℕ × Bytes)
serialize_array endianness elem_size ns target =
    let total_size = elem_size * length ns in
    let written : Result DvSerErr (ℕ × Bytes) =
      elim (serialize_elems endianness elem_size ns 0 target) [
        | err e ↦ err e
        | ok after ↦ ok (total_size, after)
      ] in
    if ltb (length target) total_size then err buffer_too_small else written

pub deserialize_elems : Endianness → ℕ → ℕ → ℕ → Bytes → Result DvDeErr (List ℕ)
deserialize_elems endianness elem_size zero offset input = ok []
deserialize_elems endianness elem_size (suc count) offset input =
    elim (deserialize endianness elem_size (take elem_size (drop offset input))) [
      | err e ↦ err e
      | ok (n, read) ↦
          elim (deserialize_elems endianness elem_size count (offset + elem_size) input) [
            | err e ↦ err e
            | ok ns ↦ ok (n ∷ ns)
          ]
    ]

pub deserialize_array : Endianness → ℕ → ℕ → Bytes → Result DvDeErr (List ℕ × ℕ)
deserialize_array endianness elem_size count input =
    let total_size = elem_size * count in
    let read : Result DvDeErr (List ℕ × ℕ) =
      elim (deserialize_elems endianness elem_size count 0 input) [
        | err e ↦ err e
        | ok ns ↦ ok (ns, total_size)
      ] in
    if ltb (length input) total_size then err wrong_buffer_size else read
