-- ===== src/Pcie/Isolation.antt =====
-- Two functions never share a configuration register: the addresses of a well-formed table of ECAM
-- regions, and what a write to one function leaves of the others.
use riscv_server_soc_ts.Prelude.{
  ℕ, ◌+◌, ◌*◌, ◌%◌, ◌^◌, ◌≤◌, ◌<◌, ◌≡◌, ◌≢◌, ◌⊎◌, inl, inr, sym, subst, ap, ◌∙◌, arith, true, false,
  some, [], ◌∷◌, All, Bool-cases, Option-cases,
}
use riscv_server_soc_ts.Bits.{add64}
use riscv_server_soc_ts.Pcie.{bdf_seg, bdf_bus, bdf_dev, bdf_func, InfoBlock, InfoTable}
use riscv_server_soc_ts.Pcie.Config.{cfg_addr}
use riscv_server_soc_ts.Pcie.Ecam.{covers, locate, config_address}

-- The region's registers lie below 2^64, its base is aligned to a word, and its buses are in range.
abbrev pub Fits : InfoBlock → Type 0
Fits b =
    (b.start_bus_num ≤ b.end_bus_num)
    × (b.end_bus_num < 256)
    × (b.ecam_base + 2 ^ 28 ≤ 2 ^ 64)
    × (b.ecam_base % 4 ≡ 0)

-- The 1 MB windows of the buses of two regions do not meet.
abbrev pub Apart : InfoBlock → InfoBlock → Type 0
Apart b c =
    (b.ecam_base + (b.end_bus_num + 1) * 2 ^ 20 ≤ c.ecam_base + c.start_bus_num * 2 ^ 20)
    ⊎ (c.ecam_base + (c.end_bus_num + 1) * 2 ^ 20 ≤ b.ecam_base + b.start_bus_num * 2 ^ 20)

abbrev pub IsWellFormed : InfoTable → Type 0
IsWellFormed [] = Unit
IsWellFormed (b ∷ bs) = Fits b × All (Apart b) bs × IsWellFormed bs

-- Two numbers name the same function.
abbrev pub SameFunction : ℕ → ℕ → Type 0
SameFunction f g =
    (bdf_seg f ≡ bdf_seg g)
    × (bdf_bus f ≡ bdf_bus g)
    × (bdf_dev f ≡ bdf_dev g)
    × (bdf_func f ≡ bdf_func g)

-- What `locate` finds covers the bus.
abbrev pub Found : InfoBlock → ℕ → ℕ → Type 0
Found b bus segment =
    Fits b × (b.start_bus_num ≤ bus) × (bus ≤ b.end_bus_num) × (segment ≡ b.segment_num)

covers-Found :
    (b : InfoBlock) (bus segment : ℕ) → Fits b → covers b bus segment ≡ true → Found b bus segment
covers-Found b bus segment f h = (f, ground arith, ground arith, ground arith)

locate_hit :
    (c : InfoBlock) (t : InfoTable) (bus segment : ℕ) {b : InfoBlock}
    → covers c bus segment ≡ true
    → locate (c ∷ t) bus segment ≡ some b
    → c ≡ b
unfolding locate
locate_hit c t bus segment h e = cc (rw (h, locate) at e)

locate_miss :
    (c : InfoBlock) (t : InfoTable) (bus segment : ℕ) {b : InfoBlock}
    → covers c bus segment ≡ false
    → locate (c ∷ t) bus segment ≡ some b
    → locate t bus segment ≡ some b
unfolding locate
locate_miss c t bus segment h e = rw (h, locate) at e

locate-Found :
    (t : InfoTable) (bus segment : ℕ) (b : InfoBlock)
    → IsWellFormed t
    → locate t bus segment ≡ some b
    → Found b bus segment
unfolding locate
locate-Found [] bus segment b wf e = absurd (ground arith)
locate-Found (c ∷ t) bus segment b (fits, apart, wf) e = elim (Bool-cases (covers c bus segment)) [
  | inl h ↦
      subst (λ x. Found x bus segment) (locate_hit c t bus segment h e)
        (covers-Found c bus segment fits h)
  | inr h ↦ locate-Found t bus segment b wf (locate_miss c t bus segment h e)
]

All-locate :
    (P : InfoBlock → Type 0) (t : InfoTable) (bus segment : ℕ) (b : InfoBlock)
    → All P t
    → locate t bus segment ≡ some b
    → P b
unfolding locate
All-locate P [] bus segment b all e = absurd (ground arith)
All-locate P (c ∷ t) bus segment b (p, all) e = elim (Bool-cases (covers c bus segment)) [
  | inl h ↦ subst P (locate_hit c t bus segment h e) p
  | inr h ↦ All-locate P t bus segment b all (locate_miss c t bus segment h e)
]

-- Two searches of a well-formed table end on one region, or on two that lie apart.
locate-Apart :
    (t : InfoTable) (bus segment bus' segment' : ℕ) (b c : InfoBlock)
    → IsWellFormed t
    → locate t bus segment ≡ some b
    → locate t bus' segment' ≡ some c
    → (b ≡ c) ⊎ Apart b c
unfolding locate
locate-Apart [] bus segment bus' segment' b c wf e e' = absurd (ground arith)
locate-Apart (d ∷ t) bus segment bus' segment' b c (fits, apart, wf) e e' =
    elim (Bool-cases (covers d bus segment)) [
      | inl h ↦ elim (Bool-cases (covers d bus' segment')) [
        | inl k ↦ inl (sym (locate_hit d t bus segment h e) ∙ locate_hit d t bus' segment' k e')
        | inr k ↦ inr (
            subst (λ x. Apart x c) (locate_hit d t bus segment h e)
              (All-locate (Apart d) t bus' segment' c apart (locate_miss d t bus' segment' k e')))
      ]
      | inr h ↦ elim (Bool-cases (covers d bus' segment')) [
        | inl k ↦
            let other : Apart c b =
              subst (λ x. Apart x b) (locate_hit d t bus' segment' k e')
                (All-locate (Apart d) t bus segment b apart (locate_miss d t bus segment h e)) in
            inr (omega arith)
        | inr k ↦
            locate-Apart t bus segment bus' segment' b c wf (locate_miss d t bus segment h e)
              (locate_miss d t bus' segment' k e')
      ]
    ]

-- A function's registers lie in the 1 MB window of its bus, in the region that covers it.
pub record Placed (t : InfoTable) (bdf a : ℕ) : Type 0 where
  pub region : InfoBlock
  pub located : locate t (bdf_bus bdf) (bdf_seg bdf) ≡ some region
  pub found : Found region (bdf_bus bdf) (bdf_seg bdf)
  pub dev_in : bdf_dev bdf < 32
  pub func_in : bdf_func bdf < 8
  pub address :
      a ≡ region.ecam_base + bdf_bus bdf * 2 ^ 20 + bdf_dev bdf * 2 ^ 15 + bdf_func bdf * 2 ^ 12

pub config_address-Placed :
    (t : InfoTable) (bdf a : ℕ) → IsWellFormed t → config_address t bdf ≡ some a → Placed t bdf a
unfolding config_address cfg_addr
config_address-Placed t bdf a wf e = elim (Option-cases (locate t (bdf_bus bdf) (bdf_seg bdf))) [
  | inl none_found ↦ absurd (ground arith)
  | inr (b, l) ↦
      let found = locate-Found t (bdf_bus bdf) (bdf_seg bdf) b wf l in
      record {
        region = b;
        located = l;
        found = found;
        dev_in = ground arith;
        func_in = ground arith;
        address = ground arith;
      }
]

window_inj :
    (base bus dev func o bus' dev' func' o' : ℕ)
    → dev < 32
    → func < 8
    → o < 4096
    → dev' < 32
    → func' < 8
    → o' < 4096
    → base + bus * 2 ^ 20 + dev * 2 ^ 15 + func * 2 ^ 12 + o
      ≡ base + bus' * 2 ^ 20 + dev' * 2 ^ 15 + func' * 2 ^ 12 + o'
    → (bus ≡ bus') × (dev ≡ dev') × (func ≡ func')
window_inj base bus dev func o bus' dev' func' o' hd hf ho hd' hf' ho' e = omega arith

window-Apart :
    (b c : InfoBlock) (bus dev func o bus' dev' func' o' : ℕ)
    → Apart b c
    → (b.start_bus_num ≤ bus) × (bus ≤ b.end_bus_num)
    → (c.start_bus_num ≤ bus') × (bus' ≤ c.end_bus_num)
    → (dev < 32) × (func < 8) × (o < 4096)
    → (dev' < 32) × (func' < 8) × (o' < 4096)
    → b.ecam_base + bus * 2 ^ 20 + dev * 2 ^ 15 + func * 2 ^ 12 + o
      ≢ c.ecam_base + bus' * 2 ^ 20 + dev' * 2 ^ 15 + func' * 2 ^ 12 + o'
window-Apart b c bus dev func o bus' dev' func' o' apart hb hc h h' = omega arith

-- The registers of a placed function do not wrap around.
pub Placed-add64 :
    {t : InfoTable} {bdf a : ℕ} (offset : ℕ)
    → Placed t bdf a
    → offset < 4096
    → add64 a offset ≡ a + offset
Placed-add64 {bdf} {a} offset p h =
    let (fits, _, top, _) = p.found in
    no_wrap (bdf_bus bdf) (bdf_dev bdf) (bdf_func bdf) p.region top fits p.dev_in p.func_in
      p.address
  where
    no_wrap :
        (bus dev func : ℕ) (b : InfoBlock)
        → bus ≤ b.end_bus_num
        → Fits b
        → dev < 32
        → func < 8
        → a ≡ b.ecam_base + bus * 2 ^ 20 + dev * 2 ^ 15 + func * 2 ^ 12
        → add64 a offset ≡ a + offset
    no_wrap bus dev func b top fits hd hf e = omega arith

-- In a well-formed table the registers of two different functions, 4096 bytes each, are at different
-- addresses, which do not wrap around.
pub registers_distinct :
    (t : InfoTable) (f g a a' offset offset' : ℕ)
    → IsWellFormed t
    → config_address t f ≡ some a
    → config_address t g ≡ some a'
    → ¬ SameFunction f g
    → offset < 4096
    → offset' < 4096
    → (add64 a offset ≢ add64 a' offset') × (add64 a offset ≡ a + offset)
registers_distinct t f g a a' offset offset' wf e e' other ho ho' =
    let p = config_address-Placed t f a wf e in
    let q = config_address-Placed t g a' wf e' in
    let plain = Placed-add64 offset p ho in
    let plain' = Placed-add64 offset' q ho' in
    (λ clash. apart_or_same p q (sym plain ∙ clash ∙ plain'), plain)
  where
    apart_or_same : (p : Placed t f a) (q : Placed t g a') → a + offset ≡ a' + offset' → ⊥
    apart_or_same p q clash =
        elim (locate-Apart t _ _ _ _ p.region q.region wf p.located q.located) [
          | inl same ↦
              let base = ap (λ (b : InfoBlock). b.ecam_base) same in
              let segment = ap (λ (b : InfoBlock). b.segment_num) same in
              let (bus, dev, func) =
                window_inj p.region.ecam_base (bdf_bus f) (bdf_dev f) (bdf_func f) offset
                  (bdf_bus g) (bdf_dev g) (bdf_func g) offset' p.dev_in p.func_in ho q.dev_in
                  q.func_in ho'
                  (sums p.region.ecam_base q.region.ecam_base _ _ _ _ _ _ base p.address q.address
                    clash) in
              other (p.found.3 ∙ segment ∙ sym q.found.3, bus, dev, func)
          | inr apart ↦
              window-Apart p.region q.region (bdf_bus f) (bdf_dev f) (bdf_func f) offset (bdf_bus g)
                (bdf_dev g) (bdf_func g) offset' apart (p.found.1, p.found.2) (q.found.1, q.found.2)
                (p.dev_in, p.func_in, ho) (q.dev_in, q.func_in, ho')
                (sym (ap (λ n. n + offset) p.address) ∙ clash ∙ ap (λ n. n + offset') q.address)
        ]
      where
        sums :
            (x y bus dev func bus' dev' func' : ℕ)
            → x ≡ y
            → a ≡ x + bus * 2 ^ 20 + dev * 2 ^ 15 + func * 2 ^ 12
            → a' ≡ y + bus' * 2 ^ 20 + dev' * 2 ^ 15 + func' * 2 ^ 12
            → a + offset ≡ a' + offset'
            → x + bus * 2 ^ 20 + dev * 2 ^ 15 + func * 2 ^ 12 + offset
              ≡ x + bus' * 2 ^ 20 + dev' * 2 ^ 15 + func' * 2 ^ 12 + offset'
        sums x y bus dev func bus' dev' func' e h h' k = omega arith
