-- ===== src/Timer/Places.antt =====
-- The place that `val_platform_timer_get_entry_index` (val/src/acs_timer.c) gives a platform timer.
use native.Mathlib.Nat.{mod-eq_of_lt}
use riscv_server_soc_ts.Prelude.{
  ℕ, ◌+◌, ◌-◌, ◌^◌, ◌≤◌, ◌<◌, ◌≡◌, ◌⊎◌, refl, ap, ◌∙◌, arith, true, false, ltb, Bool-cases, inl,
  inr, some, List, [], ◌∷◌, ◌++◌, length,
}
use riscv_server_soc_ts.Bits.{low_bits, add32}
use riscv_server_soc_ts.Timer.{GtBlock, TimerInfo, entry_loop, platform_timer_get_entry_index}

-- The timers of a list of blocks.
abbrev pub timers : List GtBlock → ℕ
timers [] = 0
timers (b ∷ bs) = b.timer_count + timers bs

-- Timer `timer`, counted from 0 after `block` blocks, is placed at a block and an index: the blocks
-- before hold `timer` less the index, and the index may be the count of the block itself.
pub record Placed (blocks : List GtBlock) (timer : ℕ) (place : ℕ × ℕ) (block : ℕ) : Type 0 where
  pub before : List GtBlock
  pub after : List GtBlock
  pub here : GtBlock
  pub split : blocks ≡ before ++ here ∷ after
  pub number : place.0 ≡ block + length before
  pub index : timer ≡ timers before + place.1
  pub inside : place.1 ≤ here.timer_count
  pub first : (before ≡ []) ⊎ (0 < place.1)

greater : (a b : ℕ) → ltb a b ≡ true → a < b
greater a b h = ground arith

at_most : (a b : ℕ) → ltb a b ≡ false → b ≤ a
at_most a b h = ground arith

some_timer : (bs : List GtBlock) → 0 < timers bs → 0 < length bs
some_timer [] h = absurd (omega arith)
some_timer (b ∷ bs) h = omega arith

entry_loop-Placed :
    (blocks : List GtBlock) (timer block : ℕ)
    → timer ≤ timers blocks
    → timer < 2 ^ 32
    → 0 < length blocks
    → block + length blocks < 2 ^ 32
    → (place : ℕ × ℕ) × (entry_loop timer block blocks ≡ some place)
      × Placed blocks timer place block
unfolding entry_loop
entry_loop-Placed [] timer block le fits some_block room = absurd (omega arith)
entry_loop-Placed (b ∷ bs) timer block le fits some_block room =
    elim (Bool-cases (ltb b.timer_count timer)) [
      | inr stop ↦
          let inside = at_most b.timer_count timer stop in
          let plain : low_bits timer 32 ≡ timer = mod-eq_of_lt fits in
          (
            (block, timer),
            rw (stop, plain) refl,
            record {
              before = [];
              after = bs;
              here = b;
              split = refl;
              number = omega arith;
              index = omega arith;
              inside = inside;
              first = inl refl;
            },
          )
      | inl on ↦
          let more = greater b.timer_count timer on in
          let next : add32 block 1 ≡ block + 1 = omega arith in
          let (place, found, p) =
            entry_loop-Placed bs (timer - b.timer_count) (block + 1) (omega arith) (omega arith)
              (some_timer bs (omega arith)) (omega arith) in
          (
            place,
            rw (on) (ap (λ (c : ℕ). entry_loop (timer - b.timer_count) c bs) next ∙ found),
            further b bs timer block place more p,
          )
    ]
  where
    further :
        (b : GtBlock) (bs : List GtBlock) (timer block : ℕ) (place : ℕ × ℕ)
        → b.timer_count < timer
        → Placed bs (timer - b.timer_count) place (block + 1)
        → Placed (b ∷ bs) timer place block
    further b bs timer block place more p =
        let n = p.number in
        let i = p.index in
        record {
          before = b ∷ p.before;
          after = p.after;
          here = p.here;
          split = ap (λ (cs : List GtBlock). b ∷ cs) p.split;
          number = omega arith;
          index = omega arith;
          inside = p.inside;
          first =
              inr (elim p.first [
                | inl none_before ↦ positive p.before none_before i
                | inr pos ↦ pos
              ]);
        }
      where
        positive :
            (cs : List GtBlock)
            → cs ≡ []
            → timer - b.timer_count ≡ timers cs + place.1
            → 0 < place.1
        positive [] e i = omega arith
        positive (c ∷ cs) e i = absurd (cc)

-- A timer whose number is at most the number of timers, which the blocks hold in all, is given a block
-- and an index in one search of a table with a block (all sizes within 32 bits): the timers of the
-- blocks before and the index add up to its number. The index is at most the count of the block, the
-- count included, and is 0 in block 0 only.
pub platform_timer_get_entry_index-Placed :
    (t : TimerInfo) (timer old : ℕ)
    → timer ≤ t.header.num_platform_timer
    → t.header.num_platform_timer ≡ timers t.gt_info
    → timers t.gt_info < 2 ^ 32
    → 0 < length t.gt_info
    → length t.gt_info < 2 ^ 32
    → (place : ℕ × ℕ) × (platform_timer_get_entry_index t timer old ≡ some place)
      × Placed t.gt_info timer place 0
unfolding platform_timer_get_entry_index
platform_timer_get_entry_index-Placed t timer old le all fits some_block room =
    let (place, found, p) =
      entry_loop-Placed t.gt_info timer 0 (omega arith) (omega arith) some_block (omega arith) in
    let within : ltb t.header.num_platform_timer timer ≡ false = ground arith in
    (place, rw (within) found, p)
