-- ===== src/Pool/Held.antt =====
-- The handles that are out, as a list.
use dvida_oxide.Prelude.{
  ℕ, zero, suc, ◌+◌, ◌<◌, ◌≡◌, ap, subst, ◌==◌, if◌then◌else◌, Option, none, some, List, [], ◌∷◌,
  get_or, get_elem?, arith,
}
use dvida_oxide.Pool.{DiskIoBufferPoolHandle}

abbrev pub is_at : ℕ → Option ℕ → ℕ
is_at j none = 0
is_at j (some i) = if i == j then 1 else 0

-- How many of the handles have the buffer.
unfoldable pub count : ℕ → List DiskIoBufferPoolHandle → ℕ
count j [] = 0
count j (h ∷ held) = is_at j h.idx + count j held

-- The list without an element.
unfoldable pub remove {ℓ} : {A : Type ℓ} → List A → ℕ → List A
remove [] n = []
remove (a ∷ rest) zero = rest
remove (a ∷ rest) (suc n) = a ∷ remove rest n

pub count-remove :
    (j n : ℕ) (held : List DiskIoBufferPoolHandle) (h : DiskIoBufferPoolHandle)
    → get_elem? held n ≡ some h
    → count j held ≡ is_at j h.idx + count j (remove held n)
unfolding count remove
count-remove j n [] h e = absurd (cc e)
count-remove j zero (a ∷ held) h e =
    let same : a ≡ h = cc e in ap (λ t. is_at j t.idx + count j held) same
count-remove j (suc n) (a ∷ held) h e = omega (arith, count-remove j n held h e)

-- A handle with an index has the buffer of that index.
abbrev pub Backed : List ℕ → Option ℕ → ℕ → Type 0
Backed buffers none inner = Unit
Backed buffers (some i) inner = (i < 64) × (inner ≡ get_or buffers i 0)

unfoldable pub AllBacked : List ℕ → List DiskIoBufferPoolHandle → Type 0
AllBacked buffers [] = Unit
AllBacked buffers (h ∷ held) = Backed buffers h.idx h.inner × AllBacked buffers held

pub AllBacked-at :
    (buffers : List ℕ) (held : List DiskIoBufferPoolHandle) (n : ℕ) (h : DiskIoBufferPoolHandle)
    → get_elem? held n ≡ some h
    → AllBacked buffers held
    → Backed buffers h.idx h.inner × AllBacked buffers (remove held n)
unfolding AllBacked remove
AllBacked-at buffers [] n h e b = absurd (cc e)
AllBacked-at buffers (a ∷ held) zero h e (b, bs) =
    let same : a ≡ h = cc e in (subst (λ t. Backed buffers t.idx t.inner) same b, bs)
AllBacked-at buffers (a ∷ held) (suc n) h e (b, bs) =
    let (x, xs) = AllBacked-at buffers held n h e bs in (x, (b, xs))
