-- ===== src/Iovirt/Its.antt =====
-- `val_iovirt_get_its_info` (val/src/acs_iovirt.c): the groups of interrupt translation services, and
-- the ids of the services of a group.
use riscv_server_soc_ts.Prelude.{
  ℕ, zero, suc, ◌+◌, ◌-◌, ◌^◌, ◌≤◌, ◌<◌, ◌≡◌, ◌≢◌, refl, sym, ap, ◌∙◌, arith, Bool, true, false,
  ◌==◌, ==→≡, ==→≢, ≡→==, ≢→==, Bool-cases, inl, inr, if◌then◌else◌, Option, none, some, List, [],
  ◌∷◌, get_elem?, length,
}
use riscv_server_soc_ts.Bits.{add32}
use riscv_server_soc_ts.Session.{acs_status_err}
use riscv_server_soc_ts.Iovirt.{IovirtBlock, IovirtInfo, IovirtTable, is_its, id_word}
use riscv_server_soc_ts.Iovirt.Nodes.{nodes}

abbrev pub acs_invalid_index : ℕ
acs_invalid_index = 0xFFFFFFFF

-- ITS_INFO_e; the last stands for the values that have no case.
pub data ItsInfo : Type 0 where
  its_num_groups its_group_num_blocks its_get_id_for_blk_index : ItsInfo
  its_get_grp_index_for_id its_get_blk_index_for_id its_other : ItsInfo

-- A loop over the indices of a group, with `n` left from `it` on: the first that passes the test.
unfoldable pub find_index : (ℕ → Bool) → ℕ → ℕ → Option ℕ
find_index test zero it = none
find_index test (suc n) it =
    let rest = find_index test n (it + 1) in if test it then some it else rest

unfoldable pub index_of_id : IovirtBlock → ℕ → Option ℕ
index_of_id b id = find_index (λ it. id_word b it == id) b.its_count 0

-- The inner `switch`: the status, and `*return_value`, which held `old`.
unfoldable pub group_info : ItsInfo → ℕ → IovirtBlock → ℕ → ℕ × ℕ
group_info its_group_num_blocks param b old = (0, b.its_count)
group_info its_get_id_for_blk_index param b old =
    elim (find_index (λ it. it == param) b.its_count 0) [
      | none ↦ (acs_invalid_index, old)
      | some it ↦ (0, id_word b it)
    ]
group_info its_get_blk_index_for_id param b old = elim (index_of_id b param) [
  | none ↦ (acs_invalid_index, old)
  | some it ↦ (0, it)
]
group_info its_num_groups param b old = (acs_status_err, old)
group_info its_get_grp_index_for_id param b old = (acs_status_err, old)
group_info its_other param b old = (acs_status_err, old)

unfoldable pub asks_for_group : ItsInfo → Bool
asks_for_group its_get_grp_index_for_id = true
asks_for_group its_num_groups = false
asks_for_group its_group_num_blocks = false
asks_for_group its_get_id_for_blk_index = false
asks_for_group its_get_blk_index_for_id = false
asks_for_group its_other = false

module _ (type : ItsInfo) (group_index param old : ℕ) where
  -- The loop over the blocks, with `j` groups before.
  unfoldable pub its_loop : ℕ → List IovirtBlock → ℕ × ℕ
  its_loop j [] = (acs_invalid_index, old)
  its_loop j (b ∷ bs) =
      let counted = its_loop (add32 j 1) bs in
      let passed = its_loop j bs in
      let owner = elim (index_of_id b param) as (λ o. ℕ × ℕ) [
        | none ↦ counted
        | some it ↦ (0, j)
      ] in
      if is_its b
      then (if asks_for_group type
          then owner
          else if group_index == j
          then group_info type param b old
          else counted)
      else passed

-- `return_value` is no NULL.
unfoldable pub get_its_info : IovirtTable → ItsInfo → ℕ → ℕ → ℕ → ℕ × ℕ
get_its_info none type group_index param old = (acs_status_err, old)
get_its_info (some t) its_num_groups group_index param old = (0, t.num_its_groups)
get_its_info (some t) type group_index param old = its_loop type group_index param old 0 t.blocks

find_index-first :
    (test : ℕ → Bool) (n it k : ℕ)
    → k < n
    → ((i : ℕ) → i < k → test (it + i) ≡ false)
    → test (it + k) ≡ true
    → find_index test n it ≡ some (it + k)
unfolding find_index
find_index-first test zero it k lt before found = absurd (omega arith)
find_index-first test (suc n) it zero lt before found =
    let here : it + 0 ≡ it = omega arith in
    let found' = ap test (sym here) ∙ found in rw (here, found') refl
find_index-first test (suc n) it (suc k) lt before found =
    let here : it + 0 ≡ it = omega arith in
    let next : it + suc k ≡ it + 1 + k = omega arith in
    let passed = ap test (sym here) ∙ before 0 (omega arith) in
    let later : (i : ℕ) → i < k → test (it + 1 + i) ≡ false =
      λ i l. ap test (omega arith) ∙ before (suc i) (omega arith) in
    rw (passed, next)
      (find_index-first test n (it + 1) k (omega arith) later (ap test (sym next) ∙ found))

-- The node at an index, when the first block is one of the nodes or not.
skipped :
    (x : Bool) (c b : IovirtBlock) (rest : List IovirtBlock) (i : ℕ)
    → x ≡ false
    → get_elem? (if x then c ∷ rest else rest) i ≡ some b
    → get_elem? rest i ≡ some b
skipped false c b rest i e at = at
skipped true c b rest i e at = absurd (cc)

taken :
    (x : Bool) (c b : IovirtBlock) (rest : List IovirtBlock) (i : ℕ)
    → x ≡ true
    → i ≡ 0
    → get_elem? (if x then c ∷ rest else rest) i ≡ some b
    → c ≡ b
taken true c b rest zero e z at = cc
taken true c b rest (suc i) e z at = absurd (omega arith)
taken false c b rest i e z at = absurd (cc)

counted :
    (x : Bool) (c b : IovirtBlock) (rest : List IovirtBlock) (i k : ℕ)
    → x ≡ true
    → i ≡ suc k
    → get_elem? (if x then c ∷ rest else rest) i ≡ some b
    → get_elem? rest k ≡ some b
counted true c b rest zero k e z at = absurd (omega arith)
counted true c b rest (suc i) k e z at =
    let same : k ≡ i = omega arith in ap (get_elem? rest) same ∙ at
counted false c b rest i k e z at = absurd (cc)

find_index-least :
    (test : ℕ → Bool) (n k : ℕ)
    → k < n
    → ((i : ℕ) → i < k → test i ≡ false)
    → test k ≡ true
    → find_index test n 0 ≡ some k
find_index-least test n k lt before found =
    let from_zero : (i : ℕ) → 0 + i ≡ i = λ i. omega arith in
    let all : (i : ℕ) → i < k → test (0 + i) ≡ false = λ i l. ap test (from_zero i) ∙ before i l in
    find_index-first test n 0 k lt all (ap test (from_zero k) ∙ found)
    ∙ ap (λ (i : ℕ). let o : Option ℕ = some i in o) (from_zero k)

its_loop-group :
    (type : ItsInfo) (group_index param old j : ℕ) (b : IovirtBlock) (bs : List IovirtBlock)
    → asks_for_group type ≡ false
    → j ≤ group_index
    → j + length bs < 2 ^ 32
    → get_elem? (nodes is_its bs) (group_index - j) ≡ some b
    → its_loop type group_index param old j bs ≡ group_info type param b old
unfolding its_loop
its_loop-group type g param old j b [] of_group le fits at = absurd (none-some at)
  where
    none-some : ◌≡◌ {A = Option IovirtBlock} none (some b) → ⊥
    none-some e = cc
its_loop-group type g param old j b (c ∷ cs) of_group le fits at = elim (Bool-cases (is_its c)) [
  | inr other ↦ rw (other) (
      its_loop-group type g param old j b cs of_group le (omega arith) (skipped _ c b _ _ other at))
  | inl its ↦ elim (Bool-cases (g == j)) [
    | inl here ↦
        rw (its, of_group, here)
          (ap (λ d. group_info type param d old) (taken _ c b _ (g - j) its (level g j here) at))
    | inr later ↦
        let ne = ==→≢ g j later in
        let next : add32 j 1 ≡ j + 1 = omega arith in
        rw (its, of_group, later, next)
          (its_loop-group type g param old (j + 1) b cs of_group (omega arith) (omega arith)
            (counted _ c b _ (g - j) (g - (j + 1)) its (omega arith) at))
  ]
]
  where
    level : (g j : ℕ) → g == j ≡ true → g - j ≡ 0
    level g j h = let e = ==→≡ g j h in omega arith

-- In a table of fewer than 2^32 blocks, for a service of a group whose id no service before it in the
-- group has, the index that is found for its id is its own, and the id that is found for its index is
-- that id.
pub get_its_info_round :
    (t : IovirtInfo) (group k old old' : ℕ) (b : IovirtBlock)
    → length t.blocks < 2 ^ 32
    → get_elem? (nodes is_its t.blocks) group ≡ some b
    → k < b.its_count
    → ((i : ℕ) → i < k → id_word b i ≢ id_word b k)
    → (get_its_info (some t) its_get_blk_index_for_id group (id_word b k) old ≡ (0, k))
      × (get_its_info (some t) its_get_id_for_blk_index group k old' ≡ (0, id_word b k))
unfolding get_its_info group_info asks_for_group index_of_id
get_its_info_round t group k old old' b fits at lt fresh =
    let all : group - 0 ≡ group = omega arith in
    let place = ap (get_elem? (nodes is_its t.blocks)) all ∙ at in
    let by_id =
      find_index-least (λ it. id_word b it == id_word b k) b.its_count k lt
        (λ i l. ≢→== _ _ (fresh i l)) (≡→== _ _ refl) in
    let by_index =
      find_index-least (λ it. it == k) b.its_count k lt (λ i l. ≢→== _ _ (omega arith))
        (≡→== _ _ refl) in
    (
      its_loop-group its_get_blk_index_for_id group (id_word b k) old 0 b t.blocks refl
            (omega arith) (omega arith) place
          ∙ rw (by_id, group_info) refl,
      its_loop-group its_get_id_for_blk_index group k old' 0 b t.blocks refl (omega arith)
            (omega arith) place
          ∙ rw (by_index, group_info) refl,
    )
