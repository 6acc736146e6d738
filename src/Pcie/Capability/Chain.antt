-- ===== src/Pcie/Capability/Chain.antt =====
-- The walk against the list of capabilities that the function's registers describe.
use riscv_server_soc_ts.Prelude.{
  ℕ, zero, suc, ◌≤◌, ◌≡◌, ◌≢◌, inl, inr, refl, arith, ◌==◌, if◌then◌else◌, Option, none, some, List,
  [], ◌∷◌, length, Bool-cases, ≢→==,
}
use riscv_server_soc_ts.Bits.{field, low_bits}
use riscv_server_soc_ts.Pcie.{
  Pal, InfoTable, pcie_success, pcie_cap_not_found, pcie_unknown_response,
}
use riscv_server_soc_ts.Pcie.Config.{read_cfg}
use riscv_server_soc_ts.Pcie.Capability.{
  pcie_cap, pcie_ecap, type01_cpr, pcie_ecap_start, Layout, cap_layout, ecap_layout, walk,
  find_capability,
}

-- The first entry with the id, in a list of offsets and ids.
unfoldable pub first_with : ℕ → List (ℕ × ℕ) → Option ℕ
first_with cid [] = none
first_with cid ((offset, id) ∷ caps) = if id == cid then some offset else first_with cid caps

abbrev pub outcome : ℕ → Option ℕ → ℕ × ℕ
outcome old none = (pcie_cap_not_found, old)
outcome old (some offset) = (pcie_success, offset)

module _ {S : Type 0} (pal : Pal S) (info : Option InfoTable) (l : Layout) (bdf : ℕ) (s : S) where
  -- The entries from an offset on: the list that the registers of the function link, when they are
  -- mapped and the links come to an end.
  pub data Chain : ℕ → List (ℕ × ℕ) → Type 0 where
    end : Chain 0 []
    link :
        (offset reg : ℕ) {caps : List (ℕ × ℕ)}
        → offset ≢ 0
        → ((old : ℕ) → read_cfg pal info bdf offset old s ≡ (0, reg))
        → Chain (field reg l.next_shift l.next_bits) caps
        → Chain offset ((offset, low_bits reg l.id_bits) ∷ caps)

  walk-Chain :
      (fuel cid old : ℕ) {offset : ℕ} {caps : List (ℕ × ℕ)} (reg : ℕ)
      → Chain offset caps
      → length caps ≤ fuel
      → walk pal info l fuel bdf cid old offset reg s ≡ some (outcome old (first_with cid caps))
  unfolding walk first_with
  walk-Chain zero cid old reg end h = refl
  walk-Chain (suc fuel) cid old reg end h = refl
  walk-Chain zero cid old reg (link offset value ne read rest) h = absurd (omega arith)
  walk-Chain (suc fuel) cid old reg (link offset value ne read rest) h =
      let ih = walk-Chain fuel cid old value rest (omega arith) in
      rw (≢→== offset 0 ne, read reg)
        (elim (Bool-cases (low_bits value l.id_bits == cid)) [
          | inl same ↦ rw same refl
          | inr other ↦ rw other ih
        ])

module _ {S : Type 0} (pal : Pal S) (info : Option InfoTable) (bdf : ℕ) (s : S) where
  -- When the pointer register is mapped and not all ones, and the entries that it leads to come to an
  -- end within the fuel, the search succeeds at the first entry with the id, and without one it reports
  -- that the capability was not found and stores nothing.
  pub find_capability_pcie :
      (fuel junk cid old pointer : ℕ) (caps : List (ℕ × ℕ))
      → ((old : ℕ) → read_cfg pal info bdf type01_cpr old s ≡ (0, pointer))
      → pointer ≢ pcie_unknown_response
      → Chain pal info cap_layout bdf s (low_bits pointer 8) caps
      → length caps ≤ fuel
      → find_capability pal info fuel junk bdf pcie_cap cid old s
        ≡ some (outcome old (first_with cid caps))
  unfolding find_capability
  find_capability_pcie fuel junk cid old pointer caps read known chain h =
      rw (read junk, ≢→== pointer pcie_unknown_response known)
        (walk-Chain pal info cap_layout bdf s fuel cid old pointer chain h)

  -- In the extended configuration space, of which the list begins at a fixed offset: when the entries
  -- come to an end within the fuel, the search succeeds at the first entry with the id, and without one
  -- it reports that the capability was not found and stores nothing.
  pub find_capability_ext :
      (fuel junk cid old : ℕ) (caps : List (ℕ × ℕ))
      → Chain pal info ecap_layout bdf s pcie_ecap_start caps
      → length caps ≤ fuel
      → find_capability pal info fuel junk bdf pcie_ecap cid old s
        ≡ some (outcome old (first_with cid caps))
  unfolding find_capability
  find_capability_ext fuel junk cid old caps chain h =
      walk-Chain pal info ecap_layout bdf s fuel cid old junk chain h

  -- A pointer register that is mapped and reads all ones ends the search with the status of a success,
  -- and nothing is stored.
  pub find_capability_unknown :
      (fuel junk cid old : ℕ)
      → ((old : ℕ) → read_cfg pal info bdf type01_cpr old s ≡ (0, pcie_unknown_response))
      → find_capability pal info fuel junk bdf pcie_cap cid old s ≡ some (pcie_success, old)
  unfolding find_capability
  find_capability_unknown fuel junk cid old read = rw (read junk) refl
