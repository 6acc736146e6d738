-- ===== src/Iommu/Governing.antt =====
-- `val_iommu_check_governing_iommu` against two searches of flat lists.
use riscv_server_soc_ts.Prelude.{
  ℕ, ◌+◌, ◌*◌, ◌%◌, ◌^◌, ◌≡◌, refl, sym, subst, ap, ◌∙◌, arith, ◌==◌, ◌!=◌, leb, inl, inr,
  Bool-cases, true, false, if◌then◌else◌, Option, none, some, ◌⊎◌, length, List, [], ◌∷◌, ◌++◌, All,
  ≡→==, ==→≡, suc, ◌≤◌, ◌<◌,
}
use riscv_server_soc_ts.Bits.{add32}
use riscv_server_soc_ts.Iommu.{
  IdMap, IommuEntry, device_type_iommu, device_type_root_complex, rid_of_bdf,
  check_governing_iommu_offset, take_idmap, governing_loop, check_governing_iommu,
}
use riscv_server_soc_ts.Iommu.Rid.{bdf_of_rid-rid_of_bdf}
use riscv_server_soc_ts.Pcie.Bdf.{create_bdf_fields}
use riscv_server_soc_ts.Pcie.{bdf_seg, create_bdf}

-- The mappings of the root complexes of a segment, in the order of the table.
unfoldable pub mappings : ℕ → List IommuEntry → List IdMap
mappings segment [] = []
mappings segment (e ∷ es) =
    if e.device_type == device_type_root_complex
    then (if e.pcie_rc_seg == segment
        then e.id_mapping_table ++ mappings segment es
        else mappings segment es)
    else mappings segment es

-- The outcome for the mapping taken.
abbrev pub governed_by : List IommuEntry → ℕ → Option IdMap → ℕ × ℕ
governed_by all old none = (0, old)
governed_by all old (some m) = check_governing_iommu_offset m.destiommu_offset 0 old all

take-append :
    (prid : ℕ) (ms ns : List IdMap)
    → take_idmap prid (ms ++ ns) ≡ (elim (take_idmap prid ms) as (λ _. Option IdMap) [
      | none ↦ take_idmap prid ns
      | some m ↦ some m
    ])
unfolding take_idmap
take-append prid [] ns = refl
take-append prid (m ∷ ms) ns = elim (Bool-cases (leb prid (add32 m.sourceid_base m.numids))) [
  | inl h ↦ rw (h, take_idmap) refl
  | inr h ↦ rw (h, take_idmap) (take-append prid ms ns)
]

loop-take :
    (segment prid old : ℕ) (all entries : List IommuEntry)
    → governing_loop segment prid old all entries
      ≡ governed_by all old (take_idmap prid (mappings segment entries))
unfolding governing_loop mappings take_idmap
loop-take segment prid old all [] = refl
loop-take segment prid old all (e ∷ es) =
    let ih = loop-take segment prid old all es in
    elim (Bool-cases (e.device_type == device_type_root_complex)) [
      | inr device ↦ rw (device, ih) refl
      | inl complex ↦ elim (Bool-cases (e.pcie_rc_seg == segment)) [
        | inr elsewhere ↦ rw (complex, elsewhere, differs _ _ elsewhere, ih) refl
        | inl here ↦
            rw
              (
                complex,
                here,
                same _ _ here,
                take-append prid e.id_mapping_table (mappings segment es),
              )
              (taken (take_idmap prid e.id_mapping_table) _ _ ih)
      ]
    ]
  where
    differs : (a b : ℕ) → a == b ≡ false → a != b ≡ true
    differs a b h = ground arith

    same : (a b : ℕ) → a == b ≡ true → a != b ≡ false
    same a b h = ground arith

    taken :
        (o : Option IdMap) (rest : ℕ × ℕ) (later : Option IdMap)
        → rest ≡ governed_by all old later
        → (elim o as (λ k. ℕ × ℕ) [
          | none ↦ rest
          | some m ↦ check_governing_iommu_offset m.destiommu_offset 0 old all
        ])
          ≡ governed_by all old (elim o as (λ k. Option IdMap) [ none ↦ later | some m ↦ some m ])
    taken none rest later h = h
    taken (some m) rest later h = refl

-- The nested loops are one search of the mappings of the segment, and one lookup.
check_governing_iommu_take :
    (entries : List IommuEntry) (bdf old : ℕ)
    → check_governing_iommu (some entries) bdf old
      ≡ governed_by entries old (take_idmap (rid_of_bdf bdf) (mappings (bdf_seg bdf) entries))
unfolding check_governing_iommu
check_governing_iommu_take entries bdf old =
    loop-take (bdf_seg bdf) (rid_of_bdf bdf) old entries entries

-- An IOMMU with an offset.
abbrev pub HasOffset : ℕ → IommuEntry → Type 0
HasOffset offset e = (e.device_type ≡ device_type_iommu) × (offset ≡ e.iommu_offset)

offset-here :
    (offset i old : ℕ) (e : IommuEntry) (es : List IommuEntry)
    → HasOffset offset e
    → check_governing_iommu_offset offset i old (e ∷ es) ≡ (1, i)
unfolding check_governing_iommu_offset
offset-here offset i old e es (d, o) = rw (≡→== _ _ d, ≡→== _ _ o) refl

offset-later :
    (offset i old : ℕ) (e : IommuEntry) (es : List IommuEntry)
    → ¬ HasOffset offset e
    → check_governing_iommu_offset offset i old (e ∷ es)
      ≡ check_governing_iommu_offset offset (i + 1) old es
unfolding check_governing_iommu_offset
offset-later offset i old e es h = elim (Bool-cases (e.device_type == device_type_iommu)) [
  | inr d ↦ rw d refl
  | inl d ↦ elim (Bool-cases (offset == e.iommu_offset)) [
    | inr o ↦ rw (d, o) refl
    | inl o ↦ absurd (h (==→≡ _ _ d, ==→≡ _ _ o))
  ]
]

has_offset? : (offset : ℕ) (e : IommuEntry) → HasOffset offset e ⊎ (¬ HasOffset offset e)
has_offset? offset e = ground arith

-- The mapping of which the range of ids does not end below the function's id is taken when the
-- ranges before it do end below the id (ids of 16 bits, and no range that wraps around). Its lower
-- end is not looked at.
pub take_idmap_in_range :
    (prid : ℕ) (before after : List IdMap) (m : IdMap)
    → All (λ c. c.sourceid_base + c.numids < prid) before
    → prid ≤ m.sourceid_base + m.numids
    → prid < 2 ^ 16
    → m.sourceid_base + m.numids < 2 ^ 32
    → take_idmap prid (before ++ m ∷ after) ≡ some m
unfolding take_idmap
take_idmap_in_range prid [] after m h le small fits =
    rw (within prid (m.sourceid_base + m.numids) le fits) refl
  where
    within : (p e : ℕ) → p ≤ e → e < 2 ^ 32 → leb p (e % 2 ^ 32) ≡ true
    within p e a b = ground arith
take_idmap_in_range prid (c ∷ cs) after m (low, h) le small fits =
    rw (below prid (c.sourceid_base + c.numids) low small)
      (take_idmap_in_range prid cs after m h le small fits)
  where
    below : (p e : ℕ) → e < p → p < 2 ^ 16 → leb p (e % 2 ^ 32) ≡ false
    below p e a b = ground arith

-- The first mapping of a list of which the range of ids does not end below an id, as sums in 32 bits;
-- the lower end of a range plays no part.
abbrev pub IsTaken : ℕ → List IdMap → Option IdMap → Type 0
IsTaken rid ms none = All (λ c. (c.sourceid_base + c.numids) % 2 ^ 32 < rid) ms
IsTaken rid ms (some m) =
    (before : List IdMap) × (after : List IdMap) × (ms ≡ before ++ m ∷ after)
    × All (λ c. (c.sourceid_base + c.numids) % 2 ^ 32 < rid) before
    × (rid ≤ (m.sourceid_base + m.numids) % 2 ^ 32)

take_idmap-IsTaken : (rid : ℕ) (ms : List IdMap) → IsTaken rid ms (take_idmap rid ms)
unfolding take_idmap
take_idmap-IsTaken rid [] = tt
take_idmap-IsTaken rid (m ∷ ms) = elim (Bool-cases (leb rid (add32 m.sourceid_base m.numids))) [
  | inl h ↦
      let here : rid ≤ (m.sourceid_base + m.numids) % 2 ^ 32 = ground arith in
      rw (h) ([], ms, refl, tt, here)
  | inr h ↦
      let low : (m.sourceid_base + m.numids) % 2 ^ 32 < rid = ground arith in
      rw (h) (further low (take_idmap rid ms) (take_idmap-IsTaken rid ms))
]
  where
    further :
        (m.sourceid_base + m.numids) % 2 ^ 32 < rid
        → (o : Option IdMap) → IsTaken rid ms o
        → IsTaken rid (m ∷ ms) o
    further low none all = (low, all)
    further low (some c) (before, after, e, all, h) =
        (m ∷ before, after, ap (λ (xs : List IdMap). m ∷ xs) e, (low, all), h)

-- The first IOMMU with an offset, or that there is none: `(0, old)`, or `(1, index)`.
abbrev pub IsFirstIommu : ℕ → ℕ → List IommuEntry → ℕ × ℕ → Type 0
IsFirstIommu offset old entries r =
    ((r ≡ (0, old)) × All (λ e. ¬ HasOffset offset e) entries)
    ⊎ ((before : List IommuEntry) × (e : IommuEntry) × (after : List IommuEntry) × (entries
          ≡ before ++ e ∷ after)
        × All (λ c. ¬ HasOffset offset c) before
        × HasOffset offset e
        × (r ≡ (1, length before)))

offset_first :
    (offset i old : ℕ) (entries : List IommuEntry)
    → ((check_governing_iommu_offset offset i old entries ≡ (0, old))
        × All (λ e. ¬ HasOffset offset e) entries)
      ⊎ ((before : List IommuEntry) × (e : IommuEntry) × (after : List IommuEntry) × (entries
            ≡ before ++ e ∷ after)
          × All (λ c. ¬ HasOffset offset c) before
          × HasOffset offset e
          × (check_governing_iommu_offset offset i old entries ≡ (1, i + length before)))
unfolding check_governing_iommu_offset
offset_first offset i old [] = inl (refl, tt)
offset_first offset i old (e ∷ es) = elim (has_offset? offset e) [
  | inl has ↦
      let here : i ≡ i + 0 = omega arith in
      inr ([], e, es, refl, tt, has, offset-here offset i old e es has ∙ one here)
  | inr hasnt ↦ elim (offset_first offset (i + 1) old es) [
    | inl (r, all) ↦ inl (offset-later offset i old e es hasnt ∙ r, (hasnt, all))
    | inr (before, f, after, at, all, has, r) ↦
        let shift : i + 1 + length before ≡ i + suc (length before) = omega arith in
        inr (
          e ∷ before,
          f,
          after,
          ap (λ (xs : List IommuEntry). e ∷ xs) at,
          (hasnt, all),
          has,
          offset-later offset i old e es hasnt ∙ r ∙ one shift,
        )
  ]
]
  where
    one : {a b : ℕ} → a ≡ b → ◌≡◌ {A = ℕ × ℕ} (1, a) (1, b)
    one h = ap (λ (j : ℕ). let p : ℕ × ℕ = (1, j) in p) h

-- The outcome for a function id: no mapping of the segment reaches it; or the first one that does
-- gives the offset of an IOMMU, of which the first with that offset is the result, if there is one.
abbrev pub IsGoverned : ℕ → ℕ → ℕ → List IommuEntry → ℕ × ℕ → Type 0
IsGoverned segment rid old entries r =
    (taken : Option IdMap) × IsTaken rid (mappings segment entries) taken
    × (elim taken as (λ _. Type 0) [
      | none ↦ r ≡ (0, old)
      | some m ↦ IsFirstIommu m.destiommu_offset old entries r
    ])

-- For a function of device below 32 and function below 8, of which the id is bus * 256 + device * 8 +
-- function: among the mappings of the root complexes of its segment, in the order of the table, the
-- first one that does not end below the id is taken, whether or not it begins above it; the result is
-- the index of the first IOMMU with its offset. Without such a mapping or IOMMU the call fails and
-- leaves `*iommu_index`.
pub check_governing_iommu_takes :
    (entries : List IommuEntry) (seg bus dev func old : ℕ)
    → seg < 256
    → bus < 256
    → dev < 32
    → func < 8
    → IsGoverned seg
        (bus * 256 + dev * 8 + func)
        old
        entries
        (check_governing_iommu (some entries) (create_bdf seg bus dev func) old)
check_governing_iommu_takes entries seg bus dev func old hs hb hd hf =
    let bdf = create_bdf seg bus dev func in
    let (s, _, _, _, _) = create_bdf_fields seg bus dev func hs hb (omega arith) (omega arith) in
    let id = (bdf_of_rid-rid_of_bdf seg bus dev func hs hb hd hf).0 in
    let whole =
      check_governing_iommu_take entries bdf old
      ∙ ap (λ (g : ℕ). governed_by entries old (take_idmap (rid_of_bdf bdf) (mappings g entries))) s
      ∙ ap (λ (r : ℕ). governed_by entries old (take_idmap r (mappings seg entries))) id in
    subst (λ r. IsGoverned seg (bus * 256 + dev * 8 + func) old entries r) (sym whole)
      (outcome (take_idmap (bus * 256 + dev * 8 + func) (mappings seg entries))
        (take_idmap-IsTaken _ _))
  where
    outcome :
        (o : Option IdMap)
        → IsTaken (bus * 256 + dev * 8 + func) (mappings seg entries) o
        → IsGoverned seg (bus * 256 + dev * 8 + func) old entries (governed_by entries old o)
    outcome none h = (none, h, refl)
    outcome (some m) h = (some m, h, at_zero (offset_first m.destiommu_offset 0 old entries))
      where
        at_zero :
            ((check_governing_iommu_offset m.destiommu_offset 0 old entries ≡ (0, old))
                × All (λ e. ¬ HasOffset m.destiommu_offset e) entries)
              ⊎ ((before : List IommuEntry) × (e : IommuEntry) × (after : List IommuEntry)
                  × (entries ≡ before ++ e ∷ after)
                  × All (λ c. ¬ HasOffset m.destiommu_offset c) before
                  × HasOffset m.destiommu_offset e
                  × (check_governing_iommu_offset m.destiommu_offset 0 old entries
                      ≡ (1, 0 + length before)))
            → IsFirstIommu m.destiommu_offset old entries
                (check_governing_iommu_offset m.destiommu_offset 0 old entries)
        at_zero (inl none_has) = inl none_has
        at_zero (inr (before, e, after, at, all, has, r)) =
            let plain : 0 + length before ≡ length before = omega arith in
            inr (
              before,
              e,
              after,
              at,
              all,
              has,
              r ∙ ap (λ (j : ℕ). let p : ℕ × ℕ = (1, j) in p) plain,
            )
