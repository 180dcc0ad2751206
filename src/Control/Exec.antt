-- ===== src/Control/Exec.antt =====
-- harness_run/control.py: the result of a command in the running turn's workspace, on the wire.
use harness_run.Base.{ℕ, String, ◌≡◌, refl, Bool, false, Option, none, some, eqb}

-- An exit code: 0 and up, or the negative of a number from 1 on.
pub data ReturnCode : Type 0 where
  exited : ℕ → ReturnCode
  minus : ℕ → ReturnCode

pub record ExecResult : Type 0 where
  pub stdout : String
  pub stderr : String
  pub returncode : ReturnCode
  pub truncated : Bool
  pub duration_ms : ℕ

-- The keys of the answer; a missing key is `none`.
pub record ExecDict : Type 0 where
  pub stdout : Option String
  pub stderr : Option String
  pub returncode : Option ReturnCode
  pub truncated : Option Bool
  pub duration_ms : Option ℕ

-- `ok`
unfoldable pub ok : ExecResult → Bool
ok r = elim r.returncode [ exited n ↦ eqb n 0 | minus n ↦ false ]

unfoldable pub to_dict : ExecResult → ExecDict
to_dict r = record {
  stdout = some r.stdout;
  stderr = some r.stderr;
  returncode = some r.returncode;
  truncated = some r.truncated;
  duration_ms = some r.duration_ms;
}

abbrev pub or_else : {A : Type 0} → A → Option A → A
or_else d none = d
or_else d (some a) = a

unfoldable pub from_dict : ExecDict → ExecResult
from_dict d = record {
  stdout = or_else "" d.stdout;
  stderr = or_else "" d.stderr;
  returncode = or_else (minus 1) d.returncode;
  truncated = or_else false d.truncated;
  duration_ms = or_else 0 d.duration_ms;
}

-- A result survives the wire, and the answer of a worker that has none of its keys is a failure.
from_dict_result :
    (r : ExecResult)
    → (from_dict (to_dict r) ≡ r)
      × (ok (
            from_dict (record {
              stdout = none;
              stderr = none;
              returncode = none;
              truncated = none;
              duration_ms = none;
            }))
          ≡ false)
unfolding from_dict to_dict ok
from_dict_result r = (refl, refl)
