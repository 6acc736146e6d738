-- ===== src/Hart/Lookup.antt =====
-- The search for a hart by its id finds the first entry that has it, and undoes the lookup by index.
use riscv_server_soc_ts.Prelude.{
  ℕ, zero, suc, ◌+◌, ◌<◌, ◌≤◌, ◌≡◌, ◌≢◌, ◌⊎◌, inl, inr, arith, refl, ◌==◌, ==→≡, ==→≢, Bool-cases,
}
use riscv_server_soc_ts.Session.{Session}
use riscv_server_soc_ts.Hart.{HartTable, index_loop, get_index_mpid, get_mpid_index}

-- Entry `k` is the first from `entry` on that has the id.
pub record IsFirst (t : HartTable) (hart_id entry k : ℕ) : Type 0 where
  pub after : entry ≤ k
  pub has : (t.hart_info k).hart_id ≡ hart_id
  pub first : (j : ℕ) → entry ≤ j → j < k → (t.hart_info j).hart_id ≢ hart_id

-- No entry from `entry` up to `end` has the id.
abbrev pub Lacks : HartTable → ℕ → ℕ → ℕ → Type 0
Lacks t hart_id entry end = (j : ℕ) → entry ≤ j → j < end → (t.hart_info j).hart_id ≢ hart_id

-- What a search over the entries from `entry` up to `end` gives.
abbrev Searched : HartTable → ℕ → ℕ → ℕ → ℕ → Type 0
Searched t hart_id entry end found =
    ((k : ℕ) × (k < end) × IsFirst t hart_id entry k × (found ≡ (t.hart_info k).hart_num))
    ⊎ ((found ≡ 0) × Lacks t hart_id entry end)

module _ (t : HartTable) (hart_id : ℕ) where
  -- An entry that lacks the id, in front of entries that lack it.
  Lacks-more :
      (entry end : ℕ)
      → (t.hart_info entry).hart_id ≢ hart_id
      → Lacks t hart_id (entry + 1) end
      → Lacks t hart_id entry end
  Lacks-more entry end other rest j le lt has = elim (Bool-cases (j == entry)) [
    | inl same ↦ other (rw (← ==→≡ j entry same) has)
    | inr later ↦
        let apart = ==→≢ j entry later in
        let after : entry + 1 ≤ j = ground arith in rest j after lt has
  ]

  index_loop-Searched :
      (i entry end : ℕ)
      → entry + i ≡ end
      → Searched t hart_id entry end (index_loop t hart_id i entry)
  unfolding index_loop
  index_loop-Searched zero entry end e = inr (omega arith, λ j le lt has. absurd (omega arith))
  index_loop-Searched (suc i) entry end e =
      elim (Bool-cases ((t.hart_info entry).hart_id == hart_id)) [
        | inl same ↦
            let first : IsFirst t hart_id entry entry = record {
              after = omega arith;
              has = ==→≡ _ _ same;
              first = λ j le lt has. absurd (omega arith);
            } in
            inl (entry, omega arith, first, rw (same))
        | inr other ↦
            let differs : (t.hart_info entry).hart_id ≢ hart_id = ==→≢ _ _ other in
            elim (index_loop-Searched i (entry + 1) end (omega arith)) [
              | inl (k, lt, is_first, e') ↦
                  let first : IsFirst t hart_id entry k = record {
                    after = omega (arith, is_first.after);
                    has = is_first.has;
                    first = Lacks-more entry k differs is_first.first;
                  } in
                  inl (k, lt, first, rw (other) e')
              | inr (e', lacks) ↦ inr (rw (other) e', Lacks-more entry end differs lacks)
            ]
      ]

  -- The search gives the number of the first hart of the table that has the id, and 0 when no hart
  -- of the table has it.
  pub get_index_mpid-IsFirst :
      ((k : ℕ) × (k < t.num_of_hart)
        × IsFirst t hart_id 0 k
        × (get_index_mpid t hart_id ≡ (t.hart_info k).hart_num))
      ⊎ ((get_index_mpid t hart_id ≡ 0) × Lacks t hart_id 0 t.num_of_hart)
  unfolding get_index_mpid
  get_index_mpid-IsFirst = index_loop-Searched t.num_of_hart 0 t.num_of_hart (omega arith)

-- The harts are numbered by their place in the table, and have ids of their own.
pub record IsWellFormed (t : HartTable) : Type 0 where
  pub numbered : (i : ℕ) → i < t.num_of_hart → (t.hart_info i).hart_num ≡ i
  pub distinct :
      (i j : ℕ)
      → i < t.num_of_hart
      → j < t.num_of_hart
      → (t.hart_info i).hart_id ≡ (t.hart_info j).hart_id
      → i ≡ j

-- In a table whose harts are numbered by place and have ids of their own, the id that is looked up
-- for a hart of the table is found again at the hart's index, and the lookup leaves the session.
pub get_index_mpid-get_mpid_index :
    (t : HartTable) (i : ℕ) (s : Session)
    → IsWellFormed t
    → i < t.num_of_hart
    → (get_index_mpid t (get_mpid_index t i s).0 ≡ i) × ((get_mpid_index t i s).1 ≡ s)
unfolding get_mpid_index
get_index_mpid-get_mpid_index t i s wf h = elim (get_index_mpid-IsFirst t (t.hart_info i).hart_id) [
  | inl (k, lt, is_first, e) ↦
      let same = wf.distinct k i lt h is_first.has in
      let number = wf.numbered k lt in (ground arith, ground arith)
  | inr (_, lacks) ↦ absurd (lacks i (omega arith) h refl)
]
