-- ===== src/Status/Shared.antt =====
-- Storing and reporting a status: what changes and what does not.
use Prim.Native.String.{String}
use riscv_server_soc_ts.Prelude.{
  ℕ, ◌%◌, ◌^◌, ◌≡◌, refl, arith, Option, none, some, ◌==◌, if◌then◌else◌, Bool, true, false, ap,
  ◌∙◌,
}
use riscv_server_soc_ts.Session.{Session, print, print_format}
use riscv_server_soc_ts.Status.{
  set_status, get_status, report_status, report_body, report_rule, report_rule?, print_id,
  is_test_pass, is_test_fail, is_test_skip, is_test_start, is_test_end,
}

-- A status that is set is read back in 32 bits from its slot, and every other slot, and the data of
-- all slots, are as before.
pub get_status-set_status :
    (index status : ℕ) (s : Session) (i : ℕ)
    → (get_status i (set_status index status s)
        ≡ (if i == index then status % 2 ^ 32 else get_status i s))
      × (((set_status index status s).shared i).data0 ≡ (s.shared i).data0)
      × (((set_status index status s).shared i).data1 ≡ (s.shared i).data1)
unfolding get_status set_status
get_status-set_status index status s i = ground arith

-- `t` is `s` with another console.
pub record OnlyConsole (s t : Session) : Type 0 where
  pub same : t ≡ record s { console = t.console }

module _ (s : Session) where
  pub OnlyConsole-refl : OnlyConsole s s
  OnlyConsole-refl = record { same = refl }

  pub OnlyConsole-trans : {t u : Session} → OnlyConsole s t → OnlyConsole t u → OnlyConsole s u
  OnlyConsole-trans {t} {u} h k = record {
    same = k.same ∙ ap (λ (v : Session). record v { console = u.console }) h.same;
  }

  OnlyConsole-format :
      (level : ℕ) (text : Option String) (arg : ℕ) {t : Session}
      → OnlyConsole s t
      → OnlyConsole s (print_format level text arg t)
  unfolding print_format
  OnlyConsole-format level text arg h = ground arith

  pub OnlyConsole-print :
      (level : ℕ) (text : String) (arg : ℕ) {t : Session}
      → OnlyConsole s t
      → OnlyConsole s (print level text arg t)
  unfolding print
  OnlyConsole-print level text arg h = OnlyConsole-format level (some text) arg h

  OnlyConsole-print_id :
      (level : ℕ) (ruleid : Option String) {t : Session}
      → OnlyConsole s t
      → OnlyConsole s (print_id level ruleid t)
  unfolding print_id
  OnlyConsole-print_id level ruleid h = OnlyConsole-format level ruleid 0 h

  OnlyConsole-rule :
      (level status : ℕ) (ruleid : Option String) {t : Session}
      → OnlyConsole s t
      → OnlyConsole s (report_rule? level status ruleid t)
  unfolding report_rule? report_rule
  OnlyConsole-rule level status none h = h
  OnlyConsole-rule level status (some ruleid) h =
      OnlyConsole-print level _ _ (OnlyConsole-print 2 ruleid 0 (OnlyConsole-print 2 _ 0 h))

  OnlyConsole-if :
      (b : Bool) {t u : Session}
      → OnlyConsole s t
      → OnlyConsole s u
      → OnlyConsole s (if b then t else u)
  OnlyConsole-if true h k = h
  OnlyConsole-if false h k = k

  failed-OnlyConsole :
      (index status : ℕ)
      → OnlyConsole s
          (if is_test_fail status then print 5 "\n       Failed on HART - %4d" index s else s)
  failed-OnlyConsole index status =
      OnlyConsole-if (is_test_fail status) (OnlyConsole-print 5 _ index OnlyConsole-refl)
        OnlyConsole-refl

  pub report_status-OnlyConsole :
      (index status : ℕ) (ruleid : Option String)
      → OnlyConsole s (report_status index status ruleid s)
  unfolding report_status report_body
  report_status-OnlyConsole index status ruleid =
      let failed = failed-OnlyConsole index status in
      OnlyConsole-if (s.override_skip == 0) OnlyConsole-refl (
        OnlyConsole-if (is_test_pass status)
          (OnlyConsole-print 3 _ status (
            OnlyConsole-print 2 _ 0
              (OnlyConsole-print_id 2 ruleid (OnlyConsole-print 2 _ 0 failed))))
          (OnlyConsole-if (is_test_fail status)
            (OnlyConsole-print 5 _ 0 (OnlyConsole-rule 5 status ruleid failed))
            (OnlyConsole-if (is_test_skip status)
              (OnlyConsole-print 4 _ 0 (OnlyConsole-rule 4 status ruleid failed))
              (OnlyConsole-if (is_test_start status) (OnlyConsole-print 1 _ status failed) (
                OnlyConsole-if (is_test_end status) (OnlyConsole-print 1 _ status failed)
                  (OnlyConsole-print 5 _ status failed))))))
