-- ===== src/Execute/Verdict.antt =====
-- The consolidated status of an executor: the `|=` of the tests' statuses against the worst of them.
use Prim.Native.String.{String}
use riscv_server_soc_ts.Prelude.{
  ℕ, ◌≡◌, refl, ap, true, false, Bool-cases, inl, inr, List, [], ◌∷◌, ◌++◌, bit_or,
}
use riscv_server_soc_ts.Session.{
  Session, print, print_test_end, acs_print_err, acs_status_pass, acs_status_skip, acs_status_fail,
}
use riscv_server_soc_ts.Execute.{begin, View, run_tests, run_views, run_module}

-- What a test can end in.
pub data Ending : Type 0 where
  passed skipped failed : Ending

unfoldable pub status_of : Ending → ℕ
status_of passed = acs_status_pass
status_of skipped = acs_status_skip
status_of failed = acs_status_fail

-- A failure outweighs a skip, and a skip a pass.
unfoldable pub worse : Ending → Ending → Ending
worse passed f = f
worse skipped passed = skipped
worse skipped skipped = skipped
worse skipped failed = failed
worse failed f = failed

unfoldable pub worst : List Ending → Ending
worst [] = passed
worst (e ∷ es) = worse e (worst es)

bit_or-status_of : (e f : Ending) → bit_or (status_of e) (status_of f) ≡ status_of (worse e f)
unfolding status_of worse
bit_or-status_of passed passed = refl
bit_or-status_of passed skipped = refl
bit_or-status_of passed failed = refl
bit_or-status_of skipped passed = refl
bit_or-status_of skipped skipped = refl
bit_or-status_of skipped failed = refl
bit_or-status_of failed passed = refl
bit_or-status_of failed skipped = refl
bit_or-status_of failed failed = refl

worse_assoc : (e f g : Ending) → worse (worse e f) g ≡ worse e (worse f g)
unfolding worse
worse_assoc passed f g = refl
worse_assoc skipped passed g = refl
worse_assoc skipped skipped passed = refl
worse_assoc skipped skipped skipped = refl
worse_assoc skipped skipped failed = refl
worse_assoc skipped failed g = refl
worse_assoc failed f g = refl

worse-passed : (e : Ending) → worse e passed ≡ e
unfolding worse
worse-passed passed = refl
worse-passed skipped = refl
worse-passed failed = refl

module _ (entry : String → Session → ℕ × Session) where
  -- The tests, each run once and in order, from one session to another, with what each ended in.
  pub data Ran : List String → Session → List Ending → Session → Type 0 where
    none_left : {s : Session} → Ran [] s [] s
    one_more :
        {s t u : Session} {test : String} {tests : List String} {es : List Ending}
        → (e : Ending) → entry test s ≡ (status_of e, t)
        → Ran tests t es u
        → Ran (test ∷ tests) s (e ∷ es) u

  -- The same for the views that are shown; those not shown leave no trace.
  pub data Shown : List View → Session → List Ending → Session → Type 0 where
    no_view : {s : Session} → Shown [] s [] s
    hidden :
        {s t : Session} {v : View} {vs : List View} {es : List Ending}
        → v.shown ≡ false
        → Shown vs s es t
        → Shown (v ∷ vs) s es t
    shown :
        {s t u : Session} {v : View} {vs : List View} {es fs : List Ending}
        → v.shown ≡ true
        → Ran v.tests (print acs_print_err v.heading 0 s) es t
        → Shown vs t fs u
        → Shown (v ∷ vs) s (es ++ fs) u

  run_tests-Ran :
      {tests : List String} {s t : Session} {es : List Ending} (e : Ending)
      → Ran tests s es t
      → run_tests entry tests (status_of e) s ≡ (status_of (worse e (worst es)), t)
  unfolding run_tests worst
  run_tests-Ran e none_left = rw (worse-passed e) refl
  run_tests-Ran e (one_more f here rest) =
      rw (here, bit_or-status_of e f, run_tests-Ran (worse e f) rest, worse_assoc e f _) refl

worst-append : (es fs : List Ending) → worst (es ++ fs) ≡ worse (worst es) (worst fs)
unfolding worst worse
worst-append [] fs = refl
worst-append (e ∷ es) fs = rw (worst-append es fs, worse_assoc e (worst es) (worst fs)) refl

module _ (entry : String → Session → ℕ × Session) where
  run_views-Shown :
      {views : List View} {s t : Session} {es : List Ending} (e : Ending)
      → Shown entry views s es t
      → run_views entry views (status_of e) s ≡ (status_of (worse e (worst es)), t)
  unfolding run_views worst
  run_views-Shown e no_view = rw (worse-passed e) refl
  run_views-Shown e (hidden off rest) = rw (off, run_views-Shown e rest) refl
  run_views-Shown e (shown {es = es} {fs = fs} on here rest) =
      rw
        (
          on,
          run_tests-Ran entry e here,
          run_views-Shown (worse e (worst es)) rest,
          worst-append es fs,
          worse_assoc e (worst es) (worst fs),
        )
        refl

  run_module-Shown :
      (views : List View) (s : Session) {t : Session} {es : List Ending} (name : String)
      (number : ℕ) (end_name : String)
      → Shown entry views (begin name number s) es t
      → run_module entry name number end_name views s
        ≡ (status_of (worst es), print_test_end (status_of (worst es)) end_name t)
  unfolding run_module status_of worst worse
  run_module-Shown views s name number end_name h =
      ap (λ (r : ℕ × Session). (r.0, print_test_end r.0 end_name r.1))
        (run_views-Shown {s = begin name number s} passed h)

  -- Every test ends in one of the three statuses.
  abbrev pub AllEnd : Type 0
  AllEnd = (test : String) (s : Session) → (e : Ending) × ((entry test s).0 ≡ status_of e)

  module _ (ends : AllEnd) where
    Ran-exists :
        (tests : List String) (s : Session)
        → (es : List Ending) × (t : Session) × Ran entry tests s es t
    Ran-exists [] s = ([], s, none_left)
    Ran-exists (test ∷ tests) s =
        let (e, here) = ends test s in
        let (es, t, rest) = Ran-exists tests (entry test s).1 in
        (e ∷ es, t, one_more e (ap (λ x. (x, (entry test s).1)) here) rest)

    Shown-exists :
        (views : List View) (s : Session)
        → (es : List Ending) × (t : Session) × Shown entry views s es t
    Shown-exists [] s = ([], s, no_view)
    Shown-exists (v ∷ vs) s = elim (Bool-cases v.shown) [
      | inl on ↦
          let (es, t, here) = Ran-exists v.tests (print acs_print_err v.heading 0 s) in
          let (fs, u, rest) = Shown-exists vs t in (es ++ fs, u, shown on here rest)
      | inr off ↦ let (es, t, rest) = Shown-exists vs s in (es, t, hidden off rest)
    ]

    -- A module's run ends in the status of its worst test.
    pub run_module-worst :
        (views : List View) (s : Session) (name : String) (number : ℕ) (end_name : String)
        → (es : List Ending) × (t : Session) × Shown entry views (begin name number s) es t
          × (run_module entry name number end_name views s
              ≡ (status_of (worst es), print_test_end (status_of (worst es)) end_name t))
    run_module-worst views s name number end_name =
        let (es, t, h) = Shown-exists views (begin name number s) in
        (es, t, h, run_module-Shown views s name number end_name h)
