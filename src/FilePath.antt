-- ===== src/FilePath.antt =====
-- kernel/src/hal/path.rs: absolute paths. A string is the list of its bytes; in UTF-8 no byte of a
-- longer character is that of `/` or `.`, so searches for these work on bytes.
pub mod Words
pub mod Iterate
pub mod Resolve
pub mod Normal
mod Tests
use package.dvida_oxide.Prelude.{
  ℕ, zero, suc, ◌+◌, ◌-◌, Bool, true, false, not, ◌&&◌, ◌||◌, Option, none, some, List, [], ◌∷◌,
  ◌++◌, reverse, length, take, drop, ltb, ◌==◌, if◌then◌else◌,
}
use package.dvida_oxide.Prelude.Results.{◌>>=◌}

abbrev pub Bytes : Type 0
Bytes = List ℕ

abbrev pub slash : ℕ
slash = b'/'

abbrev pub dot : ℕ
dot = b'.'

abbrev pub is_empty : Bytes → Bool
is_empty [] = true
is_empty (c ∷ cs) = false

abbrev pub bytes_eq : Bytes → Bytes → Bool
bytes_eq [] [] = true
bytes_eq [] (d ∷ ds) = false
bytes_eq (c ∷ cs) [] = false
bytes_eq (c ∷ cs) (d ∷ ds) = c == d && bytes_eq cs ds

-- `starts_with` and `ends_with` of one character.
abbrev pub starts_with : ℕ → Bytes → Bool
starts_with c [] = false
starts_with c (d ∷ ds) = d == c

abbrev pub ends_with : ℕ → Bytes → Bool
ends_with c [] = false
ends_with c (d ∷ []) = d == c
ends_with c (d ∷ e ∷ es) = ends_with c (e ∷ es)

-- `find` and `rfind` of a character.
abbrev pub find : ℕ → Bytes → Option ℕ
find c [] = none
find c (d ∷ ds) = if d == c then some 0 else (find c ds >>= λ i. some (i + 1))

abbrev pub rfind : ℕ → Bytes → Option ℕ
rfind c [] = none
rfind c (d ∷ ds) = elim (rfind c ds) [
  | some i ↦ some (i + 1)
  | none ↦ if d == c then some 0 else none
]

abbrev pub trim_end_matches : ℕ → Bytes → Bytes
trim_end_matches c [] = []
trim_end_matches c (d ∷ ds) = elim (trim_end_matches c ds) [
  | [] ↦ if d == c then [] else d ∷ []
  | e ∷ es ↦ d ∷ e ∷ es
]

-- `&s[a..b]`, for bounds in order and inside.
abbrev pub slice : Bytes → ℕ → ℕ → Bytes
slice s a b = take (b - a) (drop a s)

pub record FilePath : Type 0 where
  pub raw : Bytes

pub new : Bytes → Option FilePath
new path = if starts_with slash path then some (record { raw = path }) else none

pub new_appended : Bytes → FilePath
new_appended path =
    if starts_with slash path then record { raw = path } else record { raw = slash ∷ path }

pub record Components : Type 0 where
  pub path : Bytes
  pub front : ℕ
  pub back : ℕ

pub components : FilePath → Components
components p = record { path = p.raw; front = 1; back = length p.raw }

abbrev pub remaining : Components → Bytes
remaining c = slice c.path c.front c.back

-- The loop of `next`. Every round that goes on moves `front` up, so `back - front` rounds are
-- enough; without fuel the test fails too.
next_loop : ℕ → Components → Option Bytes × Components
next_loop zero c = (none, c)
next_loop (suc fuel) c =
    let found = λ (pos : ℕ).
      let component = take pos (remaining c) in
      let c' = record c { front = c.front + (pos + 1) } in
      let rest = next_loop fuel c' in if is_empty component then rest else (some component, c') in
    let last = record c { front = c.back } in
    let end = if is_empty (remaining c) then (none, last) else (some (remaining c), last) in
    if ltb c.front c.back
    then (elim (find slash (remaining c)) [ some pos ↦ found pos | none ↦ end ])
    else (none, c)

pub next : Components → Option Bytes × Components
unfolding next_loop
next c = next_loop (c.back - c.front) c

-- The loop of `next_back`, which moves `back` down.
next_back_loop : ℕ → Components → Option Bytes × Components
next_back_loop zero c = (none, c)
next_back_loop (suc fuel) c =
    let found = λ (pos : ℕ).
      let component = drop (pos + 1) (remaining c) in
      let c' = record c { back = c.front + pos } in
      let rest = next_back_loop fuel c' in
      if is_empty component then rest else (some component, c') in
    let last = record c { back = c.front } in
    let end = if is_empty (remaining c) then (none, last) else (some (remaining c), last) in
    if ltb c.front c.back
    then (elim (rfind slash (remaining c)) [ some pos ↦ found pos | none ↦ end ])
    else (none, c)

pub next_back : Components → Option Bytes × Components
unfolding next_back_loop
next_back c = next_back_loop (c.back - c.front) c

-- A `for` loop over the iterator, as the list of what it yields. An item takes at least a byte.
pub collect : ℕ → Components → List Bytes
collect zero c = []
collect (suc fuel) c =
    let (item, c') = next c in
    let rest = collect fuel c' in elim item [ none ↦ [] | some component ↦ component ∷ rest ]

pub iterate : Components → List Bytes
unfolding collect
iterate c = collect (length c.path) c

pub file_name : FilePath → Option Bytes
file_name p = (next_back (components p)).0

pub parent : FilePath → Option FilePath
parent p =
    let trimmed = trim_end_matches slash p.raw in
    let root : FilePath = record { raw = slash ∷ [] } in
    if bytes_eq p.raw (slash ∷ []) then none else (elim (rfind slash trimmed) [
      | some pos ↦ if pos == 0 then some root else some (record { raw = take pos p.raw })
      | none ↦ some root
    ])

pub extension : FilePath → Option Bytes
unfolding file_name
extension p = file_name p >>= λ name. rfind dot name >>= λ pos.
    if pos == 0 || ends_with slash (take pos name) then none else some (drop (pos + 1) name)

-- `Vec::pop`, with the top of the stack at the end.
abbrev pub pop : List Bytes → List Bytes
pop [] = []
pop (x ∷ []) = []
pop (x ∷ y ∷ ys) = x ∷ pop (y ∷ ys)

pub normalize_stack : List Bytes → List Bytes → List Bytes
normalize_stack [] stack = stack
normalize_stack (component ∷ rest) stack = normalize_stack rest (
    if bytes_eq component (dot ∷ [])
    then stack
    else (if bytes_eq component (dot ∷ dot ∷ []) then pop stack else stack ++ (component ∷ [])))

-- The loop that writes the stack, from index `i` on.
pub write_stack : ℕ → List Bytes → Bytes → Bytes
write_stack i [] result = result
write_stack i (component ∷ stack) result =
    write_stack (i + 1) stack ((if ltb 0 i then result ++ (slash ∷ []) else result) ++ component)

pub normalize : FilePath → FilePath
unfolding normalize_stack write_stack
normalize p = record {
  raw = write_stack 0 (normalize_stack (iterate (components p)) []) (slash ∷ []);
}

pub join : FilePath → Bytes → FilePath
join p other =
    if starts_with slash other
    then record { raw = other }
    else record { raw = (if ends_with slash p.raw then p.raw else p.raw ++ (slash ∷ [])) ++ other }
