-- ===== src/MemoryMap/Region.antt =====
-- The region of an address: `val_memory_get_info` against the first region that holds the address.
use riscv_server_soc_ts.Prelude.{
  ℕ, ◌+◌, ◌≤◌, ◌<◌, ◌≡◌, ◌⊎◌, inl, inr, arith, refl, ap, ◌==◌, ≡→==, ≢→==, Bool-cases, true, false,
  some, [], ◌∷◌, ◌++◌, All,
}
use riscv_server_soc_ts.Bits.{u64_mod}
use riscv_server_soc_ts.MemoryMap.{
  MemBlock, MemTable, type_last_entry, type_not_populated, holds, get_info,
}
use riscv_server_soc_ts.MemoryMap.Entry.{IsRegion, IsEnd}

-- The address lies in the region, which does not reach the end of the address space.
abbrev pub Covers : ℕ → MemBlock → Type 0
Covers addr b = (b.phy_addr ≤ addr) × (addr < b.phy_addr + b.size)

abbrev pub Fits : MemBlock → Type 0
Fits b = b.phy_addr + b.size < u64_mod

holds-Covers : (addr : ℕ) (b : MemBlock) → Fits b → holds addr b ≡ true → Covers addr b
holds-Covers addr b fits h = (ground arith, ground arith)

not_holds-Covers : (addr : ℕ) (b : MemBlock) → Fits b → holds addr b ≡ false → ¬ Covers addr b
not_holds-Covers addr b fits h (low, high) = ground arith

-- The first region that holds an address: no region before it holds it.
pub record IsFirstRegion (addr : ℕ) (bs : MemTable) (b : MemBlock) : Type 0 where
  pub before : MemTable
  pub after : MemTable
  pub split : bs ≡ before ++ b ∷ after
  pub others : All (λ c. ¬ Covers addr c) before
  pub covers : Covers addr b

-- In a table that ends in the last entry and whose regions do not reach the end of the address space,
-- the lookup of an address gives the type and the attributes of the first region that holds it, or
-- the type of memory that is not populated when no region holds it.
pub get_info_first :
    (end : MemBlock) (rest bs : MemTable) (addr old : ℕ)
    → IsEnd end
    → All IsRegion bs
    → All Fits bs
    → ((b : MemBlock) × IsFirstRegion addr bs b
        × (get_info (bs ++ end ∷ rest) addr old ≡ some (b.type, b.flags)))
      ⊎ (All (λ c. ¬ Covers addr c) bs
          × (get_info (bs ++ end ∷ rest) addr old ≡ some (type_not_populated, old)))
unfolding get_info
get_info_first end rest [] addr old ends regions fits = inr (tt, rw (≡→== _ _ ends) refl)
get_info_first end rest (b ∷ bs) addr old ends (region, regions) (fit, fits) =
    let goes_on : (b.type == type_last_entry) ≡ false = ≢→== _ _ region in
    elim (Bool-cases (holds addr b)) [
      | inl here ↦
          let first : IsFirstRegion addr (b ∷ bs) b = record {
            before = [];
            after = bs;
            split = refl;
            others = tt;
            covers = holds-Covers addr b fit here;
          } in
          inl (b, first, rw (goes_on, here) refl)
      | inr elsewhere ↦
          let apart = not_holds-Covers addr b fit elsewhere in
          elim (get_info_first end rest bs addr old ends regions fits) [
            | inl (c, first, e) ↦
                let first' : IsFirstRegion addr (b ∷ bs) c = record {
                  before = b ∷ first.before;
                  after = first.after;
                  split = ap (λ (l : MemTable). b ∷ l) first.split;
                  others = (apart, first.others);
                  covers = first.covers;
                } in
                inl (c, first', rw (goes_on, elsewhere) e)
            | inr (none_left, e) ↦ inr ((apart, none_left), rw (goes_on, elsewhere) e)
          ]
    ]
