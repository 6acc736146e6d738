-- ===== src/MemoryMap/Entry.antt =====
-- The entry of a type by its number: `val_memory_get_entry_index` against a count of the entries.
use riscv_server_soc_ts.Prelude.{
  ℕ, zero, suc, ◌+◌, ◌-◌, ◌≤◌, ◌≡◌, ◌≢◌, ◌⊎◌, inl, inr, arith, refl, sym, subst, ◌==◌, ==→≡, ≡→==,
  ≢→==, Bool-cases, true, false, if◌then◌else◌, some, [], ◌∷◌, ◌++◌, get_elem?, All,
}
use riscv_server_soc_ts.MemoryMap.{
  MemBlock, MemTable, type_last_entry, not_found, entry_index, get_entry_index,
}

-- An entry in front of the last.
abbrev pub IsRegion : MemBlock → Type 0
IsRegion b = b.type ≢ type_last_entry

-- The last entry of a table.
abbrev pub IsEnd : MemBlock → Type 0
IsEnd b = b.type ≡ type_last_entry

abbrev pub take : ℕ → MemTable → MemTable
take zero bs = []
take (suc n) [] = []
take (suc n) (b ∷ bs) = b ∷ take n bs

-- The number of entries of a type.
abbrev pub count : ℕ → MemTable → ℕ
count type [] = 0
count type (b ∷ bs) = if b.type == type then suc (count type bs) else count type bs

-- Entry `k` has the type, and `n` entries before it have it.
pub record IsInstance (type : ℕ) (bs : MemTable) (n k : ℕ) : Type 0 where
  pub block : MemBlock
  pub at : get_elem? bs k ≡ some block
  pub has_type : block.type ≡ type
  pub before : count type (take k bs) ≡ n

module _ (end : MemBlock) (rest : MemTable) (type : ℕ) (ends : IsEnd end) where
  abbrev Found : MemTable → ℕ → ℕ → ℕ → Type 0
  Found bs i n r =
      ((k : ℕ) × IsInstance type bs n k × (r ≡ i + k)) ⊎ ((r ≡ not_found) × (count type bs ≤ n))

  later_same :
      (b : MemBlock) (bs : MemTable) (n k : ℕ)
      → (b.type == type) ≡ true
      → IsInstance type bs n k
      → IsInstance type (b ∷ bs) (suc n) (suc k)
  later_same b bs n k same h = record {
    block = h.block;
    at = h.at;
    has_type = h.has_type;
    before = rw (same) (omega (arith, h.before));
  }

  later_other :
      (b : MemBlock) (bs : MemTable) (n k : ℕ)
      → (b.type == type) ≡ false
      → IsInstance type bs n k
      → IsInstance type (b ∷ bs) n (suc k)
  later_other b bs n k other h = record {
    block = h.block;
    at = h.at;
    has_type = h.has_type;
    before = rw (other) h.before;
  }

  entry_index-Found :
      (bs : MemTable) (i n : ℕ)
      → All IsRegion bs
      → (r : ℕ) × (entry_index (bs ++ end ∷ rest) i type n ≡ some r) × Found bs i n r
  unfolding entry_index
  entry_index-Found [] i n h = (not_found, rw (≡→== _ _ ends) refl, inr (refl, omega arith))
  entry_index-Found (b ∷ bs) i n (region, regions) =
      let goes_on : (b.type == type_last_entry) ≡ false = ≢→== _ _ region in
      elim (Bool-cases (b.type == type)) [
        | inr other ↦
            let (r, e, found) = entry_index-Found bs (i + 1) n regions in
            (
              r,
              rw (goes_on, other) e,
              elim found [
                | inl (k, here, e') ↦ inl (suc k, later_other b bs n k other here, omega arith)
                | inr (e', few) ↦ inr (e', rw (other) few)
              ],
            )
        | inl same ↦
            elim n
              as (λ n.
                (r : ℕ) × (entry_index (b ∷ bs ++ end ∷ rest) i type n ≡ some r)
                × Found (b ∷ bs) i n r) [
                  | zero ↦ (
                    i,
                    rw (goes_on, same) refl,
                    inl (
                      0,
                      record { block = b; at = refl; has_type = ==→≡ _ _ same; before = refl },
                      omega arith,
                    ),
                  )
                  | suc m ↦
                      let (r, e, found) = entry_index-Found bs (i + 1) m regions in
                      let more : (suc m == 0) ≡ false = ≢→== _ _ (omega arith) in
                      let fewer : suc m - 1 ≡ m = omega arith in
                      (
                        r,
                        rw (goes_on, same, more, fewer) e,
                        elim found [
                          | inl (k, here, e') ↦
                              inl (suc k, later_same b bs m k same here, omega arith)
                          | inr (e', few) ↦ inr (e', rw (same) (omega (arith, few)))
                        ],
                      )
                ]
      ]

  -- In a table that ends in the last entry, the search for the instance of a type with a number, from
  -- 0 on, gives the place of an entry of the type with that many of the type before it, or 0xFF and
  -- there are no more entries of the type than the number.
  pub get_entry_index_finds :
      (bs : MemTable) (n : ℕ)
      → All IsRegion bs
      → (r : ℕ) × (get_entry_index (bs ++ end ∷ rest) type n ≡ some r)
        × (IsInstance type bs n r ⊎ ((r ≡ not_found) × (count type bs ≤ n)))
  unfolding get_entry_index
  get_entry_index_finds bs n h =
      let (r, e, found) = entry_index-Found bs 0 n h in
      (
        r,
        e,
        elim found [
          | inl (k, here, e') ↦
              let at : r ≡ k = omega arith in inl (subst (IsInstance type bs n) (sym at) here)
          | inr none_left ↦ inr none_left
        ],
      )
