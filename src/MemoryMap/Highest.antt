-- ===== src/MemoryMap/Highest.antt =====
-- The end of the memory: `val_get_max_memory` on regions in ascending order.
use riscv_server_soc_ts.Prelude.{
  ℕ, ◌+◌, ◌≤◌, ◌<◌, ◌≡◌, ◌⊎◌, inl, inr, arith, refl, sym, ap, ◌∙◌, ltb, ◌==◌, ≡→==, ≢→==, true,
  false, Option, some, [], ◌∷◌, ◌++◌, All, Any,
}
use riscv_server_soc_ts.Bits.{add64}
use riscv_server_soc_ts.MemoryMap.{MemBlock, MemTable, type_last_entry, max_loop, get_max_memory}
use riscv_server_soc_ts.MemoryMap.Entry.{IsRegion, IsEnd}
use riscv_server_soc_ts.MemoryMap.Region.{Fits}

abbrev pub end_of : MemBlock → ℕ
end_of b = b.phy_addr + b.size

-- Every region begins above the end of the one before, the first above `base`.
abbrev pub IsAscending : ℕ → MemTable → Type 0
IsAscending base [] = Unit {0}
IsAscending base (b ∷ bs) = (base < b.phy_addr) × IsAscending (end_of b) bs

abbrev top : ℕ → MemTable → ℕ
top base [] = base
top base (b ∷ bs) = top (end_of b) bs

-- No region ends above `high`, and one ends there or `high` is `base`.
abbrev pub IsHighest : ℕ → ℕ → MemTable → Type 0
IsHighest high base bs =
    All (λ b. end_of b ≤ high) bs × ((high ≡ base) ⊎ Any (λ b. end_of b ≡ high) bs)

max_loop-append :
    (base : ℕ) (bs tail : MemTable)
    → All IsRegion bs
    → All Fits bs
    → IsAscending base bs
    → max_loop (bs ++ tail) base ≡ max_loop tail (top base bs)
unfolding max_loop
max_loop-append base [] tail regions fits up = refl
max_loop-append base (b ∷ bs) tail (region, regions) (fit, fits) (above, up) =
    let goes_on : (b.type == type_last_entry) ≡ false = ≢→== _ _ region in
    let higher : ltb base b.phy_addr ≡ true = ground arith in
    let plain : add64 b.phy_addr b.size ≡ end_of b = omega arith in
    rw (goes_on, higher, plain) (max_loop-append (end_of b) bs tail regions fits up)

base-le-top : (base : ℕ) (bs : MemTable) → IsAscending base bs → base ≤ top base bs
base-le-top base [] up = omega arith
base-le-top base (b ∷ bs) (above, up) = omega (arith, base-le-top (end_of b) bs up)

top-IsHighest : (base : ℕ) (bs : MemTable) → IsAscending base bs → IsHighest (top base bs) base bs
top-IsHighest base [] up = (tt, inl refl)
top-IsHighest base (b ∷ bs) (above, up) =
    let (all, reached) = top-IsHighest (end_of b) bs up in
    (
      (base-le-top (end_of b) bs up, all),
      inr (elim reached [ inl e ↦ inl (sym e) | inr later ↦ inr later ]),
    )

top-append : (a : MemBlock) (base : ℕ) (cs : MemTable) → top base (cs ++ a ∷ []) ≡ end_of a
top-append a base [] = refl
top-append a base (c ∷ cs) = top-append a (end_of c) cs

module _ (end : MemBlock) (rest bs : MemTable) (ends : IsEnd end) where
  at_end : (addr : ℕ) → max_loop (end ∷ rest) addr ≡ some addr
  unfolding max_loop
  at_end addr = rw (≡→== _ _ ends) refl

  adjoined :
      (a b : MemBlock)
      → IsRegion b
      → b.phy_addr ≡ end_of a
      → (addr : ℕ) → addr ≡ end_of a
      → max_loop (b ∷ end ∷ rest) addr ≡ some b.phy_addr
  unfolding max_loop
  adjoined a b region next addr e =
      let goes_on : (b.type == type_last_entry) ≡ false = ≢→== _ _ region in
      let level : ltb addr b.phy_addr ≡ false = ground arith in
      let there : addr ≡ b.phy_addr = omega arith in
      rw (goes_on, level) (at_end addr ∙ ap (λ (v : ℕ). let o : Option ℕ = some v in o) there)

  -- Where the first region begins above address 0, every other one above the end of the one before
  -- it, and none reaches the end of the address space, the result is the highest end of a region, or 0
  -- when there is no region.
  pub get_max_memory-IsHighest :
      All IsRegion bs
      → All Fits bs
      → IsAscending 0 bs
      → (high : ℕ) × (get_max_memory (bs ++ end ∷ rest) ≡ some high) × IsHighest high 0 bs
  unfolding get_max_memory
  get_max_memory-IsHighest regions fits up = (
    top 0 bs,
    max_loop-append 0 bs (end ∷ rest) regions fits up ∙ at_end (top 0 bs),
    top-IsHighest 0 bs up,
  )

  -- Where the last region begins exactly at the end of the one before, and those before it ascend with
  -- gaps, the result is the beginning of the last region and not its end.
  pub get_max_memory_adjacent :
      (a b : MemBlock)
      → All IsRegion (bs ++ a ∷ [])
      → All Fits (bs ++ a ∷ [])
      → IsAscending 0 (bs ++ a ∷ [])
      → IsRegion b
      → b.phy_addr ≡ end_of a
      → get_max_memory ((bs ++ a ∷ []) ++ b ∷ end ∷ rest) ≡ some b.phy_addr
  unfolding get_max_memory
  get_max_memory_adjacent a b regions fits up region next =
      max_loop-append 0 (bs ++ a ∷ []) (b ∷ end ∷ rest) regions fits up
      ∙ adjoined a b region next (top 0 (bs ++ a ∷ [])) (top-append a 0 bs)
