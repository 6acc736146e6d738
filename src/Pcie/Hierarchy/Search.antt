-- ===== src/Pcie/Hierarchy/Search.antt =====
-- What the searches for a root port find: the first function of the table with the property sought.
use riscv_server_soc_ts.Prelude.{
  ℕ, ◌≤◌, ◌≡◌, ◌≢◌, ◌↔◌, refl, ◌⊎◌, inl, inr, ◌==◌, ◌||◌, ◌&&◌, arith, Bool, true, false, leb,
  Option, none, some, List, [], ◌∷◌, ◌++◌, All,
}
use riscv_server_soc_ts.Pcie.{Pal, InfoTable, bdf_seg, bdf_bus}
use riscv_server_soc_ts.Pcie.Device.{device_port_type, rp, rciep, rcec, iep_rp}
use riscv_server_soc_ts.Pcie.Hierarchy.{
  is_root, first_match, sec_bus, sub_bus, is_rootport_of, get_rootport, is_parent_of,
  parent_is_rootport,
}

-- The first entry of a table with a property, or none of its entries has it.
pub data Outcome (P : ℕ → Type 0) : List ℕ → Option ℕ → Type 0 where
  absent : {table : List ℕ} → All (λ d. ¬ P d) table → Outcome P table none
  present :
      (before after : List ℕ) (d : ℕ)
      → All (λ d. ¬ P d) before
      → P d
      → Outcome P (before ++ d ∷ after) (some d)

-- A test that ends on an entry decides a property.
abbrev Decides : (ℕ → Option Bool) → (ℕ → Type 0) → ℕ → Type 0
Decides test P d = ((test d ≡ some true) × P d) ⊎ ((test d ≡ some false) × ¬ P d)

All-map : {P Q : ℕ → Type 0} → ((d : ℕ) → P d → Q d) → (table : List ℕ) → All P table → All Q table
All-map f [] all = tt
All-map f (d ∷ ds) (p, all) = (f d p, All-map f ds all)

later :
    {P : ℕ → Type 0} {table : List ℕ} {r : Option ℕ} (d : ℕ)
    → ¬ P d
    → Outcome P table r
    → Outcome P (d ∷ table) r
later d other (absent all) = absent (other, all)
later d other (present before after e all p) = present (d ∷ before) after e (other, all) p

first_match-Outcome :
    (test : ℕ → Option Bool) (P : ℕ → Type 0)
    → (table : List ℕ) → All (Decides test P) table
    → (r : Option ℕ) × (first_match test table ≡ some r) × Outcome P table r
unfolding first_match
first_match-Outcome test P [] dec = (none, refl, absent tt)
first_match-Outcome test P (d ∷ ds) (now, dec) = elim now [
  | inl (e, p) ↦ (some d, rw (e, first_match) refl, present [] ds d tt p)
  | inr (e, other) ↦
      let (r, found, o) = first_match-Outcome test P ds dec in
      (r, rw (e, found, first_match) refl, later d other o)
]

root_window :
    (p sec sub bus seg seg' : ℕ)
    → (is_root p && leb sec bus && leb bus sub && seg == seg' ≡ true)
      ↔ (((p ≡ rp) ⊎ (p ≡ iep_rp)) × (sec ≤ bus) × (bus ≤ sub) × (seg ≡ seg'))
root_window p sec sub bus seg seg' = ground arith

root_child :
    (p sec sub bus : ℕ)
    → (is_root p && bus == sec && leb bus sub ≡ true)
      ↔ (((p ≡ rp) ⊎ (p ≡ iep_rp)) × (bus ≡ sec) × (bus ≤ sub))
root_child p sec sub bus = ground arith

-- The status and `*rp_bdf` for what was found.
abbrev pub answer : ℕ → Option ℕ → ℕ × ℕ
answer old none = (1, old)
answer old (some d) = (0, d)

decided :
    {P : Type 0} (b : Bool) {o : Option Bool}
    → o ≡ some b
    → (b ≡ true) ↔ P
    → ((o ≡ some true) × P) ⊎ ((o ≡ some false) × ¬ P)
decided true e h = inl (e, h.0 refl)
decided false e h = inr (e, λ p. absurd (ground (arith, h.1 p)))

not_root : (p : ℕ) → p ≢ rp → p ≢ iep_rp → is_root p ≡ false
not_root p h k = ground arith

not_integrated : (p : ℕ) → p ≢ rciep → p ≢ rcec → p == rciep || p == rcec ≡ false
not_integrated p h k = ground arith

module _ {S : Type 0} (pal : Pal S) (info : Option InfoTable) (fuel junk : ℕ) (s : S)
    (port : ℕ → ℕ) where
  -- The fuel given is enough to read the port type.
  abbrev pub Ends : ℕ → Type 0
  Ends d = device_port_type pal info fuel junk d s ≡ some (port d)

  abbrev pub IsRootPort : ℕ → Type 0
  IsRootPort d = (port d ≡ rp) ⊎ (port d ≡ iep_rp)

  -- A root port of the segment whose bus window holds the function.
  abbrev pub IsUpstream : ℕ → ℕ → Type 0
  IsUpstream bdf d =
      IsRootPort d
      × (sec_bus pal info fuel junk d s ≤ bdf_bus bdf)
      × (bdf_bus bdf ≤ sub_bus pal info fuel junk d s)
      × (bdf_seg d ≡ bdf_seg bdf)

  -- A root port that has the function on its secondary bus, on whichever segment.
  abbrev pub IsParent : ℕ → ℕ → Type 0
  IsParent bdf d =
      IsRootPort d
      × (bdf_bus bdf ≡ sec_bus pal info fuel junk d s)
      × (bdf_bus bdf ≤ sub_bus pal info fuel junk d s)

  is_rootport_of-Decides :
      (bdf d : ℕ) → Ends d → Decides (is_rootport_of pal info fuel junk bdf s) (IsUpstream bdf) d
  unfolding is_rootport_of
  is_rootport_of-Decides bdf d ends = decided _ (rw (ends, is_rootport_of) refl) (
      root_window (port d) (sec_bus pal info fuel junk d s) (sub_bus pal info fuel junk d s)
        (bdf_bus bdf) (bdf_seg d) (bdf_seg bdf))

  is_parent_of-Decides :
      (bdf d : ℕ) → Ends d → Decides (is_parent_of pal info fuel junk bdf s) (IsParent bdf) d
  unfolding is_parent_of
  is_parent_of-Decides bdf d ends = decided _ (rw (ends, is_parent_of) refl) (
      root_child (port d) (sec_bus pal info fuel junk d s) (sub_bus pal info fuel junk d s)
        (bdf_bus bdf))

  -- When the fuel is enough to read the port types, then for a function that is neither a root port
  -- nor integrated the first upstream root port of the table is found, and the call fails with 0
  -- exactly when the table has none.
  pub get_rootport_first :
      (bdf : ℕ) (table : List ℕ)
      → Ends bdf
      → All Ends table
      → port bdf ≢ rp
      → port bdf ≢ iep_rp
      → port bdf ≢ rciep
      → port bdf ≢ rcec
      → (r : Option ℕ) × Outcome (IsUpstream bdf) table r
        × (get_rootport pal info fuel junk bdf table s ≡ some (answer 0 r))
  unfolding get_rootport
  get_rootport_first bdf table own ends a b c d =
      let (r, found, o) =
        first_match-Outcome _ _ table (All-map (is_rootport_of-Decides bdf) table ends) in
      (
        r,
        o,
        rw (own, not_root (port bdf) a b, not_integrated (port bdf) c d, found, get_rootport)
            (cases r),
      )
    where
      cases :
          (r : Option ℕ)
          → (elim r as (λ _. Option (ℕ × ℕ)) [ none ↦ some (1, 0) | some e ↦ some (0, e) ])
            ≡ some (answer 0 r)
      cases none = refl
      cases (some e) = refl

  -- When the fuel is enough to read the port types, the first root port of the table that has the
  -- function's bus as its secondary bus is found, and without one the call fails and leaves
  -- `*rp_bdf`. The segment of the root port is not looked at.
  pub parent_is_rootport_first :
      (dsf_bdf old : ℕ) (table : List ℕ)
      → All Ends table
      → (r : Option ℕ) × Outcome (IsParent dsf_bdf) table r
        × (parent_is_rootport pal info fuel junk dsf_bdf old table s ≡ some (answer old r))
  unfolding parent_is_rootport
  parent_is_rootport_first dsf_bdf old table ends =
      let (r, found, o) =
        first_match-Outcome _ _ table (All-map (is_parent_of-Decides dsf_bdf) table ends) in
      (r, o, rw (found, parent_is_rootport) (cases r))
    where
      cases :
          (r : Option ℕ)
          → (elim r as (λ _. Option (ℕ × ℕ)) [ none ↦ some (1, old) | some e ↦ some (0, e) ])
            ≡ some (answer old r)
      cases none = refl
      cases (some e) = refl
