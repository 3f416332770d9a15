-- ===== src/Ext2/Directory/Tests.antt =====
-- The search of a directory at concrete inputs.
use dvida_oxide.Prelude.{ℕ, ◌≡◌, refl, true, some, List, [], ◌∷◌, replicate}
use dvida_oxide.Ext2.Setting.{Disk}
use dvida_oxide.Ext2.Files.{Inode}
use dvida_oxide.Ext2.Entries.{same_bytes}
use dvida_oxide.Ext2.Entries.Decoding.{chars}
use dvida_oxide.Ext2.Entries.Search.{lookup}
use dvida_oxide.Ext2.Entries.Sample.{bytes, entries}
use dvida_oxide.Ext2.Directory.Finding.{listed}

-- Every block of the drive is the same.
abbrev disk : Disk
disk = record { drive = λ n. some bytes; writable = λ n. true }

abbrev blocks : List ℕ
blocks = 21 ∷ 22 ∷ replicate 13 0

abbrev directory : Inode
directory = record { i_mode = 0x4000; i_size = 2048; i_blocks = 4; i_block = blocks }

ab_found : lookup (97 ∷ 98 ∷ []) (listed (λ n. entries) 2 0) ≡ some 12
unfolding lookup listed same_bytes chars
ab_found = refl
