-- ===== src/Ext2/Allocator/Scan.antt =====
-- What an allocation takes: blocks that are free in their bitmap and new to the set.
use dvida_oxide.Prelude.{
  ℕ, zero, suc, ◌+◌, ◌-◌, ◌≡◌, ◌≢◌, refl, Bool, true, ◌||◌, ==→eq, ==_refl, ◌∙◌, sym, ap, ap₂,
  subst, false, some, List, [], ◌∷◌, ◌++◌, append-nil, append_assoc, length, length-append,
  get_elem?, inl, inr, Bool-cases, ◌==◌, ==→ne, if◌then◌else◌, arith,
}
use dvida_oxide.Ext2.{◌then◌}
use dvida_oxide.Ext2.Bits.{Bit, bit_zero, bit_one}
use dvida_oxide.Ext2.Allocator.{AllocatedBlock, contains, insert, Scanning, scan}

-- `Takes P set new set'`: the blocks of `new`, each with `P`, enter the set one after the other, each
-- with an address that is not in it yet, and make it `set'`.
abbrev pub Takes :
    (AllocatedBlock → Type 0)
    → List AllocatedBlock
    → List AllocatedBlock
    → List AllocatedBlock
    → Type 0
Takes P set [] set' = set' ≡ set
Takes P set (b ∷ new) set' = P b × (contains b.addr set ≡ false) × Takes P (insert b set) new set'

module _ (P : AllocatedBlock → Type 0) where
  pub Takes-append :
      (new more s s' s'' : List AllocatedBlock)
      → Takes P s new s'
      → Takes P s' more s''
      → Takes P s (new ++ more) s''
  Takes-append [] more s s' s'' e U = subst (λ t. Takes P t more s'') e U
  Takes-append (b ∷ new) more s s' s'' (p, fresh, T) U =
      (p, fresh, Takes-append new more (insert b s) s' s'' T U)

pub Takes-map :
    (P Q : AllocatedBlock → Type 0)
    → ((b : AllocatedBlock) → P b → Q b)
    → (new s s' : List AllocatedBlock) → Takes P s new s'
    → Takes Q s new s'
Takes-map P Q f [] s s' e = e
Takes-map P Q f (b ∷ new) s s' (p, fresh, T) = (f b p, fresh, Takes-map P Q f new (insert b s) s' T)

-- What is in the set stays in it, and a block that enters it is in it.
pub contains-insert :
    (addr : ℕ) (b : AllocatedBlock) (s : List AllocatedBlock)
    → contains addr s ≡ true
    → contains addr (insert b s) ≡ true
contains-insert addr b s h = elim (Bool-cases (contains b.addr s)) [
  | inl e ↦ rw e h
  | inr e ↦ rw e (ap (λ q. b.addr == addr || q) h ∙ or-true (b.addr == addr))
]
  where
    or-true : (q : Bool) → (q || true) ≡ true
    or-true true = refl
    or-true false = refl

contains-insert_own :
    (b : AllocatedBlock) (s : List AllocatedBlock) → contains b.addr (insert b s) ≡ true
contains-insert_own b s = elim (Bool-cases (contains b.addr s)) [
  | inl e ↦ rw e e
  | inr e ↦ rw e (ap (λ q. q || contains b.addr s) (==_refl b.addr))
]

pub Takes-contains :
    (P : AllocatedBlock → Type 0) (addr : ℕ) (new s s' : List AllocatedBlock)
    → Takes P s new s'
    → contains addr s ≡ true
    → contains addr s' ≡ true
Takes-contains P addr [] s s' e h = ap (contains addr) e ∙ h
Takes-contains P addr (b ∷ new) s s' (p, fresh, T) h =
    Takes-contains P addr new (insert b s) s' T (contains-insert addr b s h)

-- From `s` to `s'` the blocks `new` are taken.
pub record Grows (P : AllocatedBlock → Type 0) (s s' : Scanning) : Type 0 where
  pub new : List AllocatedBlock
  pub takes : Takes P s.set new s'.set
  pub found : s'.blocks ≡ s.blocks ++ new
  pub count : s'.remaining + length new ≡ s.remaining

pub Grows-refl : (P : AllocatedBlock → Type 0) (s : Scanning) → Grows P s s
Grows-refl P s = record {
  new = [];
  takes = refl;
  found = sym (append-nil s.blocks);
  count = omega arith;
}

pub Grows-trans :
    (P : AllocatedBlock → Type 0) (s s' s'' : Scanning)
    → Grows P s s'
    → Grows P s' s''
    → Grows P s s''
Grows-trans P s s' s'' G H = record {
  new = G.new ++ H.new;
  takes = Takes-append P G.new H.new s.set s'.set s''.set G.takes H.takes;
  found = H.found ∙ ap (λ t. t ++ H.new) G.found ∙ append_assoc s.blocks G.new H.new;
  count = omega (arith, length-append G.new H.new, G.count, H.count);
}

Grows-one :
    (P : AllocatedBlock → Type 0) (b : AllocatedBlock) (s : Scanning)
    → P b
    → (s.remaining == 0) ≡ false
    → contains b.addr s.set ≡ false
    → Grows P s (record {
      remaining = s.remaining - 1;
      set = insert b s.set;
      blocks = s.blocks ++ (b ∷ []);
    })
Grows-one P b s p some_left fresh = record {
  new = b ∷ [];
  takes = (p, fresh, refl);
  found = refl;
  count = omega (arith, ==→ne s.remaining 0 some_left);
}

-- The blocks of the free bits of a bitmap.
abbrev pub IsFreeBit : (ℕ → AllocatedBlock) → List Bit → AllocatedBlock → Type 0
IsFreeBit block whole b = (i : ℕ) × (get_elem? whole i ≡ some bit_zero) × (b ≡ block i)

module _ (block : ℕ → AllocatedBlock) (whole : List Bit) where
  further :
      (idx : ℕ) (bit : Bit) (rest : List Bit)
      → ((k : ℕ) → get_elem? (bit ∷ rest) k ≡ get_elem? whole (idx + k))
      → (k : ℕ) → get_elem? rest k ≡ get_elem? whole (idx + 1 + k)
  further idx bit rest part k =
      let e : idx + 1 + k ≡ idx + suc k = omega arith in part (suc k) ∙ ap (get_elem? whole) (sym e)

  scan-taken :
      (idx : ℕ) (rest : List Bit) (s : Scanning)
      → (s.remaining == 0) ≡ false
      → contains (block idx).addr s.set ≡ false
      → Grows (IsFreeBit block whole) s (
          scan block (idx + 1) rest (record {
            remaining = s.remaining - 1;
            set = insert (block idx) s.set;
            blocks = s.blocks ++ (block idx ∷ []);
          }))
      → Grows (IsFreeBit block whole) s (scan block idx (bit_zero ∷ rest) s)
  unfolding scan
  scan-taken idx rest s more fresh G =
      let skip = scan block (idx + 1) rest s in
      let s1 : Scanning = record {
        remaining = s.remaining - 1;
        set = insert (block idx) s.set;
        blocks = s.blocks ++ (block idx ∷ []);
      } in
      let step : scan block idx (bit_zero ∷ rest) s ≡ scan block (idx + 1) rest s1 =
        ap₂ (λ a b. if a then s else (if b then skip else scan block (idx + 1) rest s1)) more
          fresh in
      subst (Grows (IsFreeBit block whole) s) (sym step) G

  pub scan-Grows :
      (idx : ℕ) (bs : List Bit) (s : Scanning)
      → ((k : ℕ) → get_elem? bs k ≡ get_elem? whole (idx + k))
      → Grows (IsFreeBit block whole) s (scan block idx bs s)
  unfolding scan
  scan-Grows idx [] s part = Grows-refl _ s
  scan-Grows idx (bit_one ∷ rest) s part =
      let skip = scan-Grows (idx + 1) rest s (further idx bit_one rest part) in
      elim (Bool-cases (s.remaining == 0)) [
        | inl e ↦ rw (e, scan) (Grows-refl _ s)
        | inr more ↦ rw (more, scan) skip
      ]
  scan-Grows idx (bit_zero ∷ rest) s part =
      let rest_part = further idx bit_zero rest part in
      let skip = scan-Grows (idx + 1) rest s rest_part in
      let b = block idx in
      let s1 : Scanning = record {
        remaining = s.remaining - 1;
        set = insert b s.set;
        blocks = s.blocks ++ (b ∷ []);
      } in
      let taken = scan-Grows (idx + 1) rest s1 rest_part in
      let here : get_elem? whole idx ≡ some bit_zero =
        let e : idx + 0 ≡ idx = omega arith in ap (get_elem? whole) (sym e) ∙ sym (part 0) in
      elim (Bool-cases (s.remaining == 0)) [
        | inl e ↦ rw (e, scan) (Grows-refl _ s)
        | inr more ↦ elim (Bool-cases (contains b.addr s.set)) [
          | inl old ↦ rw (more, old, scan) skip
          | inr fresh ↦
              let both =
                Grows-trans _ s s1 _
                  (Grows-one (IsFreeBit block whole) b s (idx, here, refl) more fresh) taken in
              scan-taken idx rest s more fresh both
        ]
      ]

  -- A free bit, after which the scan goes on from `s1`, with the block of the bit in the set.
  scan_full_zero :
      (idx : ℕ) (rest : List Bit) (s s1 : Scanning) (k : ℕ)
      → (scan block idx (bit_zero ∷ rest) s).remaining ≢ 0
      → scan block idx (bit_zero ∷ rest) s ≡ scan block (idx + 1) rest s1
      → contains (block idx).addr s1.set ≡ true
      → Grows (IsFreeBit block whole) s1 (scan block (idx + 1) rest s1)
      → ((scan block (idx + 1) rest s1).remaining ≢ 0
          → (j : ℕ) → get_elem? rest j ≡ some bit_zero
          → contains (block (idx + 1 + j)).addr (scan block (idx + 1) rest s1).set ≡ true)
      → get_elem? (bit_zero ∷ rest) k ≡ some bit_zero
      → contains (block (idx + k)).addr (scan block idx (bit_zero ∷ rest) s).set ≡ true
  scan_full_zero idx rest s s1 zero more step here G later h =
      ap (λ t. contains (block (idx + 0)).addr t.set) step
      ∙ ap (λ i. contains (block i).addr (scan block (idx + 1) rest s1).set) {y = idx} (omega arith)
      ∙ Takes-contains _ (block idx).addr G.new s1.set _ G.takes here
  scan_full_zero idx rest s s1 (suc k) more step here G later h =
      ap (λ t. contains (block (idx + suc k)).addr t.set) step
      ∙ ap (λ i. contains (block i).addr (scan block (idx + 1) rest s1).set) {y = idx + 1 + k}
          (omega arith)
      ∙ later (λ q. more (ap (λ t. t.remaining) step ∙ q)) k h

  -- A scan that wants more blocks behind it has taken all that are free.
  pub scan_full :
      (idx : ℕ) (bs : List Bit) (s : Scanning)
      → ((k : ℕ) → get_elem? bs k ≡ get_elem? whole (idx + k))
      → (scan block idx bs s).remaining ≢ 0
      → (k : ℕ) → get_elem? bs k ≡ some bit_zero
      → contains (block (idx + k)).addr (scan block idx bs s).set ≡ true
  unfolding scan
  scan_full idx [] s part more k h = absurd (cc h)
  scan_full idx (bit_one ∷ rest) s part more zero h = absurd (cc h)
  scan_full idx (bit_one ∷ rest) s part more (suc k) h = elim (Bool-cases (s.remaining == 0)) [
    | inl e ↦ absurd (more (rw (e, scan) (==→eq s.remaining 0 e)))
    | inr e ↦
        let step : scan block idx (bit_one ∷ rest) s ≡ scan block (idx + 1) rest s =
          rw (e, scan) refl in
        let there =
          scan_full (idx + 1) rest s (further idx bit_one rest part)
            (λ q. more (ap (λ t. t.remaining) step ∙ q)) k h in
        ap (λ t. contains (block (idx + suc k)).addr t.set) step
        ∙ ap (λ i. contains (block i).addr (scan block (idx + 1) rest s).set) {y = idx + 1 + k}
            (omega arith)
        ∙ there
  ]
  scan_full idx (bit_zero ∷ rest) s part more k h = elim (Bool-cases (s.remaining == 0)) [
    | inl e ↦ absurd (more (rw (e, scan) (==→eq s.remaining 0 e)))
    | inr e ↦ elim (Bool-cases (contains (block idx).addr s.set)) [
      | inl old ↦
          scan_full_zero idx rest s s k more (rw (e, old, scan) refl) old
            (scan-Grows (idx + 1) rest s rest_part)
            (λ q j g. scan_full (idx + 1) rest s rest_part q j g) h
      | inr fresh ↦
          let s1 : Scanning = record {
            remaining = s.remaining - 1;
            set = insert (block idx) s.set;
            blocks = s.blocks ++ (block idx ∷ []);
          } in
          scan_full_zero idx rest s s1 k more (rw (e, fresh, scan) refl)
            (contains-insert_own (block idx) s.set) (scan-Grows (idx + 1) rest s1 rest_part)
            (λ q j g. scan_full (idx + 1) rest s1 rest_part q j g) h
    ]
  ]
    where
      rest_part : (j : ℕ) → get_elem? rest j ≡ get_elem? whole (idx + 1 + j)
      rest_part = further idx bit_zero rest part
