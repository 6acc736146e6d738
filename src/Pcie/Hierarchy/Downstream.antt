-- ===== src/Pcie/Hierarchy/Downstream.antt =====
-- The one pass of `val_pcie_get_downstream_function` against two searches of the table.
use riscv_server_soc_ts.Prelude.{
  ℕ, ◌≡◌, refl, ◌==◌, ◌&&◌, inl, inr, Bool, Bool-cases, if◌then◌else◌, Option, none, some, List, [],
  ◌∷◌,
}
use riscv_server_soc_ts.Pcie.{Pal, InfoTable}
use riscv_server_soc_ts.Pcie.Device.{function_header_type}
use riscv_server_soc_ts.Pcie.Hierarchy.{is_below, downstream_loop, get_downstream_function}

unfoldable pub first_such : (ℕ → Bool) → List ℕ → Option ℕ
first_such p [] = none
first_such p (d ∷ ds) = if p d then some d else first_such p ds

unfoldable pub or_else : Option ℕ → Option ℕ → Option ℕ
or_else none o = o
or_else (some d) o = some d

unfoldable pub found : Option ℕ → ℕ × ℕ
found none = (1, 0)
found (some d) = (0, d)

module _ {S : Type 0} (pal : Pal S) (info : Option InfoTable) (fuel junk bdf : ℕ) (s : S) where
  abbrev pub below : ℕ → Bool
  below d = is_below pal info fuel junk bdf s d

  abbrev pub type0_below : ℕ → Bool
  type0_below d = below d && function_header_type pal info fuel junk d s == 0

  loop-searches :
      (table : List ℕ) (type1 : Option ℕ)
      → downstream_loop pal info fuel junk bdf s type1 table
        ≡ found (or_else (first_such type0_below table) (or_else type1 (first_such below table)))
  unfolding downstream_loop first_such or_else found
  loop-searches [] none = refl
  loop-searches [] (some d) = refl
  loop-searches (d ∷ ds) none = elim (Bool-cases (below d)) [
    | inr out ↦ rw (out, loop-searches ds none) refl
    | inl in_window ↦ elim (Bool-cases (function_header_type pal info fuel junk d s == 0)) [
      | inl zero_header ↦ rw (in_window, zero_header) refl
      | inr other ↦ rw (in_window, other, loop-searches ds (some d)) refl
    ]
  ]
  loop-searches (d ∷ ds) (some e) = elim (Bool-cases (below d)) [
    | inr out ↦ rw (out, loop-searches ds (some e)) refl
    | inl in_window ↦ elim (Bool-cases (function_header_type pal info fuel junk d s == 0)) [
      | inl zero_header ↦ rw (in_window, zero_header) refl
      | inr other ↦ rw (in_window, other, loop-searches ds (some e)) refl
    ]
  ]

  -- The first Type 0 function of the table below the bridge is found; without one, the first function
  -- below it; and the call fails, with 0, when no function of the table is below the bridge.
  pub get_downstream_function_first :
      (table : List ℕ)
      → get_downstream_function pal info fuel junk bdf table s
        ≡ found (or_else (first_such type0_below table) (first_such below table))
  unfolding get_downstream_function or_else
  get_downstream_function_first table = loop-searches table none
