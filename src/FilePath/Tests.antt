-- ===== src/FilePath/Tests.antt =====
-- Runs of the path operations, and their theorems at concrete inputs.
use dvida_oxide.Prelude.{◌≡◌, refl, [], ◌∷◌, All, some}
use dvida_oxide.FilePath.{
  Bytes, FilePath, components, iterate, next, next_back, normalize, file_name, parent, extension,
}
use dvida_oxide.FilePath.Words.{words}
use dvida_oxide.FilePath.Iterate.{iterate-components}
use dvida_oxide.FilePath.Resolve.{IsNormal, stays, resolve}
use dvida_oxide.FilePath.Normal.{iterate-normalize}

-- `/usr/./local/../bin//a.c`
abbrev path : FilePath
path = record {
  raw =
      b'/' ∷ b'u' ∷ b's' ∷ b'r' ∷ b'/' ∷ b'.' ∷ b'/' ∷ b'l' ∷ b'/' ∷ b'.' ∷ b'.' ∷ b'/' ∷ b'b'
      ∷ b'/' ∷ b'/' ∷ b'a' ∷ b'.' ∷ b'c' ∷ [];
}

abbrev relative : Bytes
relative = b'x' ∷ b'/' ∷ b'y' ∷ []

normalize_runs :
    normalize path
    ≡ record { raw = b'/' ∷ b'u' ∷ b's' ∷ b'r' ∷ b'/' ∷ b'b' ∷ b'/' ∷ b'a' ∷ b'.' ∷ b'c' ∷ [] }
unfolding normalize iterate components next
normalize_runs = refl

file_name_runs : file_name path ≡ some (b'a' ∷ b'.' ∷ b'c' ∷ [])
unfolding file_name next_back components
file_name_runs = refl

extension_runs : extension path ≡ some (b'c' ∷ [])
unfolding extension next_back components
extension_runs = refl

-- The parent cuts at the last slash only.
parent_runs :
    parent path
    ≡ some (record {
      raw =
          b'/' ∷ b'u' ∷ b's' ∷ b'r' ∷ b'/' ∷ b'.' ∷ b'/' ∷ b'l' ∷ b'/' ∷ b'.' ∷ b'.' ∷ b'/' ∷ b'b'
          ∷ b'/' ∷ [];
    })
unfolding parent
parent_runs = refl

iterate-components_example :
    iterate (components path)
    ≡ words (
        b'u' ∷ b's' ∷ b'r' ∷ b'/' ∷ b'.' ∷ b'/' ∷ b'l' ∷ b'/' ∷ b'.' ∷ b'.' ∷ b'/' ∷ b'b' ∷ b'/'
        ∷ b'/' ∷ b'a' ∷ b'.' ∷ b'c' ∷ [])
iterate-components_example = iterate-components path

iterate-normalize_example :
    (iterate (components (normalize path)) ≡ resolve (iterate (components path)))
    × All IsNormal (iterate (components (normalize path)))
iterate-normalize_example = iterate-normalize path

-- One `..` takes `b` away, the other `a`, and the first nothing.
resolve_runs :
    resolve (
      (b'.' ∷ b'.' ∷ [])
      ∷ (b'a' ∷ [])
      ∷ (b'b' ∷ [])
      ∷ (b'.' ∷ b'.' ∷ [])
      ∷ (b'.' ∷ [])
      ∷ (b'.' ∷ b'.' ∷ [])
      ∷ (b'c' ∷ [])
      ∷ [])
    ≡ (b'c' ∷ []) ∷ []
unfolding resolve stays
resolve_runs = refl
