-- ===== src/Doctor/Report/Worst.antt =====
-- The exit code of board-support/e87n/doctor.py, by the severity of the checks.
use edgepi_e87n.Base.{ℕ, max, Bool, List, [], ◌∷◌, ◌≡◌, refl, arith, if◌then◌else◌, String}
use edgepi_e87n.Doctor.{Status, good, unknown, warning, error, System}
use edgepi_e87n.Doctor.Report.{
  Named, is_error, is_warning, select, is_nonempty, report, all_checks, doctor,
}

pub severity : Status → ℕ
severity good = 0
severity unknown = 1
severity warning = 1
severity error = 2

-- the most severe of the checks
pub worst : List Named → ℕ
worst [] = 0
worst (c ∷ checks) = max (severity c.status) (worst checks)

-- The code that stands for a status of the report.
pub code_of : Status → ℕ
code_of good = 0
code_of error = 2
code_of _ = 1

exit_of : Bool → Bool → ℕ
exit_of errors warnings = if errors then 2 else if warnings then 1 else 0

exit_cons :
    (s : Status) (name : String) (rest : List Named)
    → exit_of (is_nonempty (select is_error rest)) (is_nonempty (select is_warning rest))
      ≡ worst rest
    → let checks : List Named = record { name = name; status = s } ∷ rest in
      exit_of (is_nonempty (select is_error checks)) (is_nonempty (select is_warning checks))
      ≡ worst checks
unfolding worst severity select is_nonempty is_error is_warning exit_of
exit_cons good name rest h = ground (arith, h)
exit_cons unknown name rest h = ground (arith, h)
exit_cons warning name rest h = ground (arith, h)
exit_cons error name rest h = ground (arith, h)

exit_worst :
    (checks : List Named)
    → exit_of (is_nonempty (select is_error checks)) (is_nonempty (select is_warning checks))
      ≡ worst checks
unfolding worst select is_nonempty exit_of
exit_worst [] = refl
exit_worst (c ∷ rest) = exit_cons c.status c.name rest (exit_worst rest)

-- The exit code is the severity of the worst check of the report, and the status is the one that the
-- code stands for: error, then warning or unknown, then ok. No check is left out of it.
pub doctor-worst :
    (system : System)
    → ((doctor system).exit_code ≡ worst (all_checks system))
      × (code_of ((doctor system).status) ≡ (doctor system).exit_code)
unfolding doctor report code_of exit_of
doctor-worst system = (exit_worst (all_checks system), ground arith)
