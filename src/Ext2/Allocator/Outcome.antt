-- ===== src/Ext2/Allocator/Outcome.antt =====
-- What `allocate_n_blocks` returns and leaves.
use dvida_oxide.Prelude.{
  ℕ, zero, suc, ◌+◌, ◌-◌, ◌*◌, ◌%◌, ◌^◌, ◌<◌, ◌≡◌, ◌≢◌, ◌⊎◌, refl, sym, ap, ◌∙◌, subst, true,
  Option, none, some, List, [], length, get_elem?, inl, inr, Bool-cases, Option-cases, ltb, ◌==◌,
  ==→eq, ==→ne, ltb→lt, ltb→le, lt→ltb, if◌then◌else◌, arith,
}
use native.Mathlib.Decide.{dec_lt}
use dvida_oxide.Prelude.Results.{some_inj}
use dvida_oxide.Ext2.{Res, done, io_error, no_space_left, ◌then◌, Bytes}
use dvida_oxide.Ext2.Bits.{bit_zero, bits}
use dvida_oxide.Ext2.Bits.Laws.{bit_at, get_elem?-bits}
use dvida_oxide.Ext2.Allocator.{
  AllocatedBlock, Ext2BlockGroup, BlockAllocator, contains, block_at, Scanning, scan, scan_group,
  scan_groups, allocate_n_blocks, keep_set, enough,
}
use dvida_oxide.Ext2.Allocator.Scan.{
  Takes, Takes-map, Takes-contains, Grows, Grows-refl, Grows-trans, IsFreeBit, scan-Grows,
  scan_full,
}

-- The first sector of a group: two sectors are before the first group, which has a block less than the
-- others and its 1024 bytes in front of them.
abbrev pub first_sector : Ext2BlockGroup → ℕ
first_sector group =
    if group.group_number == 0
    then 2
    else 2
      + (group.blocks_per_group - 1) * group.sectors_per_block
      + 2
      + (group.group_number - 1) * group.blocks_per_group * group.sectors_per_block

module _ (get_group : ℕ → Option Ext2BlockGroup) (bitmap : Ext2BlockGroup → Option Bytes)
    (blocks_per_group count exclude : ℕ) where
  -- A block whose bit is 0 in the bitmap that the drive has for its group, one of the groups that are
  -- searched, with its first sector and its numbers.
  pub record IsFreeBlock (b : AllocatedBlock) : Type 0 where
    pub g : ℕ
    pub inside : g < count
    pub not_excluded : g ≢ exclude
    pub group : Ext2BlockGroup
    pub buf : Bytes
    pub described : get_group g ≡ some group
    pub on_drive : bitmap group ≡ some buf
    pub idx : ℕ
    pub in_bitmap : idx < length buf * 8
    pub is_free : bit_at buf idx ≡ bit_zero
    pub addr : b.addr ≡ first_sector group + idx * group.sectors_per_block
    pub block_relatve_idx : b.block_relatve_idx ≡ idx % 2 ^ 32
    pub block_global_idx :
        b.block_global_idx ≡ (g % 2 ^ 32 * blocks_per_group + idx % 2 ^ 32) % 2 ^ 32
    pub gr_number : b.gr_number ≡ g

  -- Every block of the group that is free on the drive is in the set.
  abbrev pub IsTaken : ℕ → List AllocatedBlock → Type 0
  IsTaken g set =
      (group : Ext2BlockGroup) (buf : Bytes) (idx : ℕ)
      → get_group g ≡ some group
      → bitmap group ≡ some buf
      → idx < length buf * 8
      → bit_at buf idx ≡ bit_zero
      → contains (first_sector group + idx * group.sectors_per_block) set ≡ true

  -- The same of the groups below a number, but for the one that is excluded.
  abbrev pub AreTaken : ℕ → List AllocatedBlock → Type 0
  AreTaken below set = (g : ℕ) → g < below → g ≢ exclude → IsTaken g set

  -- The drive fails on a group that is searched, when all before it is taken.
  pub record IsFailure (set : List AllocatedBlock) : Type 0 where
    pub g : ℕ
    pub inside : g < count
    pub not_excluded : g ≢ exclude
    pub fails :
        (get_group g ≡ none)
        ⊎ ((group : Ext2BlockGroup) × (get_group g ≡ some group) × (bitmap group ≡ none))
    pub before : AreTaken g set

  -- All that was wanted is found, or the groups below a number are searched through.
  abbrev Searched : ℕ → Scanning → Type 0
  Searched below s = (s.remaining ≡ 0) ⊎ AreTaken below s.set

  abbrev Scans : ℕ → Scanning → Res (List AllocatedBlock) × Scanning → Type 0
  Scans below s out =
      Grows IsFreeBlock s out.1
      × (((out.0 ≡ done out.1.blocks) × Searched below out.1)
          ⊎ ((out.0 ≡ io_error) × (out.1.remaining ≢ 0) × IsFailure out.1.set))

  free_bit :
      (buf : Bytes) (i : ℕ)
      → get_elem? (bits buf) i ≡ some bit_zero
      → (i < length buf * 8) × (bit_at buf i ≡ bit_zero)
  free_bit buf i h =
      let found : (if ltb i (length buf * 8) then some (bit_at buf i) else none) ≡ some bit_zero =
        sym (get_elem?-bits buf i) ∙ h in
      elim (Bool-cases (ltb i (length buf * 8))) [
        | inl e ↦ (ltb→lt i _ e, some_inj (rw e at found))
        | inr e ↦ absurd (cc (rw e at found))
      ]

  bit_free :
      (buf : Bytes) (i : ℕ)
      → i < length buf * 8
      → bit_at buf i ≡ bit_zero
      → get_elem? (bits buf) i ≡ some bit_zero
  bit_free buf i lt h = get_elem?-bits buf i ∙ rw (lt→ltb i _ lt) (ap some h)

  widen :
      (g : ℕ) (group : Ext2BlockGroup) (buf : Bytes)
      → g < count
      → g ≢ exclude
      → get_group g ≡ some group
      → bitmap group ≡ some buf
      → (b : AllocatedBlock) → IsFreeBit (block_at group g blocks_per_group) (bits buf) b
      → IsFreeBlock b
  unfolding block_at
  widen g group buf lt ne eg eb b (i, free, e) =
      let (inside, is_zero) = free_bit buf i free in
      record {
        g = g;
        inside = lt;
        not_excluded = ne;
        group = group;
        buf = buf;
        described = eg;
        on_drive = eb;
        idx = i;
        in_bitmap = inside;
        is_free = is_zero;
        addr = ap (λ x. x.addr) e;
        block_relatve_idx = ap (λ x. x.block_relatve_idx) e;
        block_global_idx = ap (λ x. x.block_global_idx) e;
        gr_number = ap (λ x. x.gr_number) e;
      }

  Grows-AreTaken :
      (below : ℕ) (s s' : Scanning)
      → Grows IsFreeBlock s s'
      → AreTaken below s.set
      → AreTaken below s'.set
  Grows-AreTaken below s s' G all g lt ne group buf idx eg eb inside is_zero =
      Takes-contains IsFreeBlock _ G.new s.set s'.set G.takes
        (all g lt ne group buf idx eg eb inside is_zero)

  -- The scan of a group takes what is free in it, or as much as is wanted.
  scanned :
      (g : ℕ) (group : Ext2BlockGroup) (buf : Bytes) (s : Scanning)
      → g < count
      → g ≢ exclude
      → get_group g ≡ some group
      → bitmap group ≡ some buf
      → AreTaken g s.set
      → (s' : Scanning) × (scan_group get_group bitmap blocks_per_group g s ≡ (done s'.blocks, s'))
        × Grows IsFreeBlock s s'
        × Searched (g + 1) s'
  unfolding scan_group block_at
  scanned g group buf s lt ne eg eb all =
      let block = block_at group g blocks_per_group in
      let s' : Scanning = scan block 0 (bits buf) s in
      let whole : (k : ℕ) → get_elem? (bits buf) k ≡ get_elem? (bits buf) (0 + k) =
        λ k. let e : 0 + k ≡ k = omega arith in ap (get_elem? (bits buf)) (sym e) in
      let G0 = scan-Grows block (bits buf) 0 (bits buf) s whole in
      let G : Grows IsFreeBlock s s' = record {
        new = G0.new;
        takes =
            Takes-map _ IsFreeBlock (widen g group buf lt ne eg eb) G0.new s.set s'.set G0.takes;
        found = G0.found;
        count = G0.count;
      } in
      (
        s',
        rw (eg, eb, scan_group) refl,
        G,
        elim (Bool-cases (s'.remaining == 0)) [
          | inl e ↦ inl (==→eq s'.remaining 0 e)
          | inr e ↦ inr (λ k below not_excluded group' buf' idx eg' eb' inside is_zero.
              elim (dec_lt k g) [
                | yes earlier ↦
                    Grows-AreTaken g s s' G all k earlier not_excluded group' buf' idx eg' eb'
                      inside is_zero
                | no last ↦
                    let same : g ≡ k = omega arith in
                    let same_group : group ≡ group' = some_inj (sym eg ∙ ap get_group same ∙ eg') in
                    let same_buf : buf ≡ buf' = some_inj (sym eb ∙ ap bitmap same_group ∙ eb') in
                    let free : get_elem? (bits buf) idx ≡ some bit_zero =
                      ap (λ b. get_elem? (bits b) idx) same_buf
                      ∙ bit_free buf' idx inside is_zero in
                    subst
                      (λ gr. contains (first_sector gr + idx * gr.sectors_per_block) s'.set ≡ true)
                      same_group
                      (ap (λ i. contains (first_sector group + i * group.sectors_per_block) s'.set)
                          {x = idx} {y = 0 + idx} (omega arith)
                        ∙ scan_full block (bits buf) 0 (bits buf) s whole (==→ne s'.remaining 0 e)
                            idx free)
              ])
        ],
      )

  scan_groups-Scans :
      (left g : ℕ) (s : Scanning)
      → g + left ≡ count
      → Searched g s
      → Scans count s (scan_groups get_group bitmap left g exclude blocks_per_group s)
  unfolding scan_groups scan_group
  scan_groups-Scans zero g s total before =
      let last : g ≡ count = omega arith in
      (Grows-refl IsFreeBlock s, inl (refl, subst (λ k. Searched k s) last before))
  scan_groups-Scans (suc left) g s total before = elim (Bool-cases (g == exclude)) [
    | inl e ↦
        rw (e, scan_groups)
          (scan_groups-Scans left (g + 1) s (omega arith)
            (past_excluded g s (==→eq g exclude e) before))
    | inr e ↦ elim (Bool-cases (s.remaining == 0)) [
      | inl e' ↦
          rw (e, e', scan_groups)
            (Grows-refl IsFreeBlock s, inl (refl, inl (==→eq s.remaining 0 e')))
      | inr e' ↦
          let all : AreTaken g s.set = elim before [
            | inl none_left ↦ absurd (==→ne s.remaining 0 e' none_left)
            | inr taken ↦ taken
          ] in
          elim (Option-cases (get_group g)) [
            | inl missing ↦
                rw (e, e', missing, scan_group, scan_groups)
                  (failed s g (omega arith) (==→ne g exclude e) (==→ne s.remaining 0 e')
                    (inl missing) all)
            | inr (group, eg) ↦ elim (Option-cases (bitmap group)) [
              | inl missing ↦
                  rw (e, e', eg, missing, scan_group, scan_groups)
                    (failed s g (omega arith) (==→ne g exclude e) (==→ne s.remaining 0 e')
                      (inr (group, eg, missing)) all)
              | inr (buf, eb) ↦
                  let (s', step, G, next) =
                    scanned g group buf s (omega arith) (==→ne g exclude e) eg eb all in
                  let (H, result) = scan_groups-Scans left (g + 1) s' (omega arith) next in
                  rw (e, e', step, scan_groups) (Grows-trans IsFreeBlock s s' _ G H, result)
            ]
          ]
    ]
  ]
    where
      past_excluded : (g : ℕ) (s : Scanning) → g ≡ exclude → Searched g s → Searched (g + 1) s
      past_excluded g s same (inl none_left) = inl none_left
      past_excluded g s same (inr all) = inr (λ k lt ne. all k (omega (arith, same, ne)) ne)

      failed :
          (s : Scanning) (g : ℕ)
          → g < count
          → g ≢ exclude
          → s.remaining ≢ 0
          → (get_group g ≡ none)
            ⊎ ((group : Ext2BlockGroup) × (get_group g ≡ some group) × (bitmap group ≡ none))
          → AreTaken g s.set
          → Scans count s (io_error, s)
      failed s g lt ne more why all = (
        Grows-refl IsFreeBlock s,
        inr (
          refl,
          more,
          record { g = g; inside = lt; not_excluded = ne; fails = why; before = all },
        ),
      )

  -- What a request for `n` blocks returns and leaves: nothing but the set is changed, which gets free
  -- blocks that are new to it, also when the call fails. They are `n` and are returned; or they are
  -- fewer, and every free block of the groups that are searched is in the set; or they are fewer and the
  -- drive fails on a group, and every free block of the groups before it is in the set.
  pub record AllocOutcome (a : BlockAllocator) (n : ℕ)
      (out : Res (List AllocatedBlock) × BlockAllocator) : Type 0 where
    pub new : List AllocatedBlock
    pub takes : Takes IsFreeBlock a.allocated_block_indices new out.1.allocated_block_indices
    pub others : out.1 ≡ record a { allocated_block_indices = out.1.allocated_block_indices }
    pub result :
        ((out.0 ≡ done new) × (length new ≡ n))
        ⊎ (((out.0 ≡ no_space_left)
              × (length new < n)
              × AreTaken count out.1.allocated_block_indices)
            ⊎ ((out.0 ≡ io_error) × (length new < n) × IsFailure out.1.allocated_block_indices))

  abbrev start : ℕ → BlockAllocator → Scanning
  start n a = record { remaining = n; set = a.allocated_block_indices; blocks = [] }

  finish :
      (a : BlockAllocator) (n : ℕ) (out : Res (List AllocatedBlock) × Scanning)
      → Scans count (start n a) out
      → AllocOutcome a n (keep_set get_group bitmap a (out then enough get_group bitmap))
  unfolding keep_set enough
  finish a n (r, s') (G, inr (e, more, why)) = rw e (record {
    new = G.new;
    takes = G.takes;
    others = refl;
    result = inr (inr (refl, omega (arith, G.count, more), why));
  })
  finish a n (r, s') (G, inl (e, searched)) = rw e (elim (Bool-cases (ltb 0 s'.remaining)) [
    | inl more ↦
        let some_left : 0 < s'.remaining = ltb→lt 0 s'.remaining more in
        let all : AreTaken count s'.set = elim searched [
          | inl none_left ↦ absurd (omega (arith, none_left, some_left))
          | inr taken ↦ taken
        ] in
        rw (more, enough)
          (record {
            new = G.new;
            takes = G.takes;
            others = refl;
            result = inr (inl (refl, omega (arith, G.count, some_left), all));
          })
    | inr full ↦
        rw (full, enough)
          (record {
            new = G.new;
            takes = G.takes;
            others = refl;
            result = inl (ap done G.found, omega (arith, G.count, ltb→le 0 s'.remaining full));
          })
  ])

module _ (get_group : ℕ → Option Ext2BlockGroup) (bitmap : Ext2BlockGroup → Option Bytes) where
  -- `allocate_n_blocks` adds to the set blocks that are free in the bitmap of their group, which is not
  -- the excluded one, and have new addresses, and changes nothing else. It returns them, as many as asked
  -- for. Or they are fewer: then there is no space left, and every free block of the groups that are not
  -- excluded is in the set; or the drive fails on a group that is not excluded, and every free block of
  -- such groups before it is in the set.
  pub allocate_n_blocks-AllocOutcome :
      (exclude n : ℕ) (a : BlockAllocator)
      → AllocOutcome get_group bitmap a.blocks_per_group a.block_groups_count exclude a n
          (allocate_n_blocks get_group bitmap exclude n a)
  unfolding allocate_n_blocks
  allocate_n_blocks-AllocOutcome exclude n a =
      finish get_group bitmap a.blocks_per_group a.block_groups_count exclude a n _ (
        scan_groups-Scans get_group bitmap a.blocks_per_group a.block_groups_count exclude
          a.block_groups_count 0
          (record { remaining = n; set = a.allocated_block_indices; blocks = [] }) (omega arith)
          (inr (λ g lt. absurd (omega arith))))
