-- ===== src/PageTable/Pages.antt =====
-- The loop of `fill_translation_table` at the last level: one descriptor for each page, and nothing
-- else.
use native.Mathlib.Nat.{
  suc-mul, add-mul-div_right, add-mul-mod_self_right, mod-eq_of_lt, mod-add-div',
}
use riscv_server_soc_ts.Prelude.{
  ℕ, zero, suc, ◌+◌, ◌*◌, ◌/◌, ◌%◌, ◌^◌, ◌≤◌, ◌<◌, ◌≡◌, ◌≢◌, ◌⊎◌, inl, inr, refl, sym, ap, ◌∙◌,
  arith, true, false, ◌==◌, leb, ≡→==, Option, some,
}
use riscv_server_soc_ts.Bits.{add64, u64_mod}
use riscv_server_soc_ts.Bits.Masks.{bit_or-lt, bit_and-lt}
use riscv_server_soc_ts.Bits.Laws.{two_pow_pos}
use riscv_server_soc_ts.PageTable.{PagePal, PgtInfo, TtDescriptor, page_entry, entry_at}
use riscv_server_soc_ts.PageTable.Fill.{
  Granule, block_size_of, table_index, page_descriptor, count_up, fill_loop, fill_translation_table,
  initialised,
}

-- Aligned 64-bit words that behave as memory.
pub record IsPageMemory {S : Type 0} (pal : PagePal S) : Type 0 where
  pub read_back :
      (a value : ℕ) (s : S)
      → a % 8 ≡ 0
      → value < u64_mod
      → pal.read64 a (pal.write64 a value s) ≡ value
  pub read_other :
      (a b value : ℕ) (s : S)
      → a % 8 ≡ 0
      → b % 8 ≡ 0
      → a ≢ b
      → pal.read64 b (pal.write64 a value s) ≡ pal.read64 b s

page_descriptor-lt :
    (page_size output attributes : ℕ)
    → output < u64_mod
    → attributes < u64_mod
    → page_descriptor page_size output attributes < u64_mod
unfolding page_descriptor
page_descriptor-lt page_size output attributes h k =
    bit_or-lt 64 _ attributes (bit_or-lt 64 page_entry _ (omega arith) (bit_and-lt 64 output _ h)) k

-- The number `r` of an address in its table, by the number of its page in all.
pub place : (q r t m : ℕ) → q ≡ r + t * m → r < m → q % m ≡ r
place q r t m e h = ap (λ (x : ℕ). x % m) e ∙ add-mul-mod_self_right r t m ∙ mod-eq_of_lt h

not_past : (a b : ℕ) → b < a → leb a b ≡ false
not_past a b h = ground arith

next_page : (input b : ℕ) → 0 < b → (input + b) / b ≡ input / b + 1
next_page input b h =
    let once : input + b ≡ input + 1 * b = omega arith in rw (once) (add-mul-div_right input 1 h)

module _ {S : Type 0} (pal : PagePal S) (gr : Granule) (memory : IsPageMemory pal)
    (tt : TtDescriptor) (attributes : ℕ) where
  abbrev pub page : ℕ
  page = block_size_of tt

  abbrev pub entries : ℕ
  entries = 2 ^ tt.nbits

  -- The address of entry `r`.
  abbrev pub entry : ℕ → ℕ
  entry r = tt.tt_base + 8 * r

  -- The entries from `r` on describe `n` pages from an output address on.
  abbrev pub Describe : ℕ → ℕ → ℕ → S → Type 0
  Describe n r output s =
      (k : ℕ)
      → k < n
      → pal.read64 (entry (r + k)) s ≡ page_descriptor gr.page_size (output + k * page) attributes

  -- Every aligned word outside those entries is as it was.
  abbrev pub Keeps : ℕ → ℕ → S → S → Type 0
  Keeps n r s s' =
      (a : ℕ) → a % 8 ≡ 0 → (a < entry r) ⊎ (entry (r + n) ≤ a) → pal.read64 a s' ≡ pal.read64 a s

  abbrev pub Filled : ℕ → ℕ → ℕ → S → Option (ℕ × PgtInfo × S) → Type 0
  Filled n r output s result =
      (g' : PgtInfo) × (s' : S) × (result ≡ some (0, g', s'))
      × Describe n r output s'
      × Keeps n r s s'

  -- A table at the last level, aligned and inside the address space, and an attribute word.
  pub record IsLastLevel : Type 0 where
    pub last : tt.level ≡ 3
    pub aligned : tt.tt_base % 8 ≡ 0
    pub inside : tt.tt_base + 8 * entries < u64_mod
    pub word : attributes < u64_mod

  module _ (table : IsLastLevel) where
    -- One page more in front.
    extend :
        (n r output : ℕ) (s : S) (result : Option (ℕ × PgtInfo × S))
        → r < entries
        → r + 1 + n ≤ entries
        → output < u64_mod
        → Filled n
            (r + 1)
            (output + page)
            (pal.write64 (entry r) (page_descriptor gr.page_size output attributes) s)
            result
        → Filled (suc n) r output s result
    extend n r output s result h room small (g', s', e, described, kept) =
        (g', s', e, describes, keeps)
      where
        descriptor : ℕ
        descriptor = page_descriptor gr.page_size output attributes

        at : entry r % 8 ≡ 0
        at = omega (arith, table.aligned)

        describes : Describe (suc n) r output s'
        describes zero lt =
            let here : entry (r + 0) ≡ entry r = omega arith in
            let first : output + 0 * page ≡ output = omega arith in
            let before : entry r < entry (r + 1) = omega arith in
            let bounded = page_descriptor-lt gr.page_size output attributes small table.word in
            rw (here, first)
              (kept (entry r) at (inl before) ∙ memory.read_back (entry r) descriptor s at bounded)
        describes (suc k) lt =
            let here : entry (r + suc k) ≡ entry (r + 1 + k) = omega arith in
            let later : output + suc k * page ≡ output + page + k * page =
              omega (arith, suc-mul k page) in
            rw (here, later) (described k (omega arith))

        keeps : Keeps (suc n) r s s'
        keeps a al (inl below) =
            let apart : entry r ≢ a = λ same. absurd (omega arith) in
            kept a al (inl (omega arith)) ∙ memory.read_other (entry r) a descriptor s at al apart
        keeps a al (inr above) =
            let apart : entry r ≢ a = λ same. absurd (omega arith) in
            kept a al (inr (omega arith)) ∙ memory.read_other (entry r) a descriptor s at al apart

    -- The loop over `n` pages. `input / page` is the number of the first page, `r` its entry.
    fill_loop-Filled :
        (n fuel input output r t : ℕ) (g : PgtInfo) (s : S)
        → n < fuel
        → tt.input_top ≤ input + n * page
        → input + n * page < tt.input_top + page
        → input + n * page < u64_mod
        → output + n * page < u64_mod
        → input / page ≡ r + t * entries
        → r + n ≤ entries
        → Filled n r output s (fill_loop pal gr fuel tt attributes input output g s)
    unfolding fill_loop table_index
    fill_loop-Filled n zero input output r t g s f top near wi wo q room = absurd (omega arith)
    fill_loop-Filled zero (suc fuel) input output r t g s f top near wi wo q room =
        let past : leb tt.input_top input ≡ true = ground arith in
        (g, s, rw (past) refl, (λ k lt. absurd (omega arith)), (λ a al out. refl))
    fill_loop-Filled (suc n) (suc fuel) input output r t g s f top near wi wo q room =
        let size = two_pow_pos tt.size_log2 in
        let more = suc-mul n page in
        let inside : leb tt.input_top input ≡ false = not_past tt.input_top input (omega arith) in
        let last : (tt.level == 3) ≡ true = ≡→== _ _ table.last in
        let index = place (input / page) r t entries q (omega arith) in
        let at : entry_at tt.tt_base r ≡ entry r = omega (arith, table.inside) in
        let next_input : add64 input page ≡ input + page = omega arith in
        let next_output : add64 output page ≡ output + page = omega arith in
        let rest =
          fill_loop-Filled n fuel (input + page) (output + page) (r + 1) t
            (record (count_up pal gr tt g) { offset = 0 })
            (pal.write64 (entry r) (page_descriptor gr.page_size output attributes) s) (omega arith)
            (omega arith) (omega arith) (omega arith) (omega arith)
            (next_page input page size ∙ omega arith) (omega arith) in
        rw (inside, last, index, at, next_input, next_output)
          (extend n r output s _ (omega arith) (omega arith) (omega arith) rest)

    -- At the last level, for a range of addresses of `n` pages that fit into the table, the function
    -- ends with success when the fuel exceeds the number of pages. The entries of the range then
    -- describe the pages one after the other, with the attributes, and every other aligned word of the
    -- memory is as it was.
    pub fill_translation_table_pages :
        (n fuel : ℕ) (g : PgtInfo) (s : S)
        → n < fuel
        → tt.input_top ≤ tt.input_base + n * page
        → tt.input_base + n * page < tt.input_top + page
        → tt.input_base + n * page < u64_mod
        → tt.output_base + n * page < u64_mod
        → table_index tt tt.input_base + n ≤ entries
        → Filled n
            (table_index tt tt.input_base)
            tt.output_base
            s
            (fill_translation_table pal gr fuel tt attributes g s)
    unfolding fill_translation_table table_index
    fill_translation_table_pages n fuel g s f top near wi wo room =
        fill_loop-Filled n fuel tt.input_base tt.output_base (tt.input_base / page % entries)
          (tt.input_base / page / entries) (initialised g) s f top near wi wo
          (sym (mod-add-div' (tt.input_base / page) entries)) room
