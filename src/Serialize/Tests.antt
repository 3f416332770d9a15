-- ===== src/Serialize/Tests.antt =====
-- Two numbers of two bytes, in a target of six.
use dvida_oxide.Prelude.{◌≡◌, refl, [], ◌∷◌, ◌++◌, drop, arith}
use dvida_oxide.Serialize.{
  Bytes, big, little, ok, err, buffer_too_small, wrong_buffer_size, serialize_array,
  serialize_elems, serialize, to_bytes, to_le_bytes, deserialize_array, deserialize,
}
use dvida_oxide.Serialize.RoundTrip.{encode, deserialize_array-serialize_array}

abbrev target : Bytes
target = 9 ∷ 9 ∷ 9 ∷ 9 ∷ 9 ∷ 9 ∷ []

big_endian : serialize_array big 2 (0x102 ∷ 0x304 ∷ []) target ≡ ok (4, 1 ∷ 2 ∷ 3 ∷ 4 ∷ 9 ∷ 9 ∷ [])
unfolding serialize_array serialize_elems serialize to_bytes to_le_bytes
big_endian = refl

no_room :
    (serialize_array little 4 (1 ∷ 2 ∷ []) target ≡ err buffer_too_small)
    × (deserialize little 8 target ≡ err wrong_buffer_size)
unfolding serialize_array deserialize
no_room = (refl, refl)

deserialize_array-serialize_array_example :
    (after : Bytes) × (serialize_array big 2 (0x102 ∷ 0x304 ∷ []) target ≡ ok (4, after))
    × (after ≡ encode big 2 (0x102 ∷ 0x304 ∷ []) ++ drop 4 target)
    × (deserialize_array big 2 2 after ≡ ok (0x102 ∷ 0x304 ∷ [], 4))
deserialize_array-serialize_array_example =
    deserialize_array-serialize_array big 2 (0x102 ∷ 0x304 ∷ []) target
      (omega arith, (omega arith, tt)) (omega arith)
