-- ===== src/Login.antt =====
-- The PAM module with pinutil as its helper, on one TPM (pinpam-pam/src/lib.rs, pinutil/src/main.rs).
pub mod Helper
pub mod Recovery
use pinpam.Base.{
  panic, inl, ◌==◌, err, none, ◌⊎◌, inr, some, if◌then◌else◌, [], true, ok, Option, ◌∷◌, ◌++◌, refl,
}
use pinpam.Base.Text.{Text}
use pinpam.Core.Pin.{Pin, as_str}
use pinpam.Core.Util.{Caller}
use pinpam.Core.Manager.{PinManager}
use pinpam.Core.Error.{PinError}
use pinpam.Pam.Env.{
  unreadable, told, status, prompted, Env, Trace, TestRun, StatusRun, tested, asked_status, failed,
}
use pinpam.Pinutil.Main.{PinCommand, test, pin_command}
use pinpam.Pinutil.MasterKeys.{Ending, Stdout, json, nothing, attempts, silent}

-- What `read_line` takes of an input: up to the first newline.
unfoldable pub first_line : Text → Text
first_line [] = []
first_line (c ∷ s) = if c == b'\n' then c ∷ [] else c ∷ first_line s

-- The text of `writeln!(child_stdin, "{}", pin.as_str())`, as the helper reads it.
unfoldable pub pin_line : Pin → Text
pin_line pin = first_line (as_str pin ++ (b'\n' ∷ []))

-- A run of `pinutil -m test` that loses nothing: the output, as a `Result<(), PinError>`.
abbrev pub run_with : Option (PinError ⊎ (Unit {0})) → TestRun
run_with result = record {
  spawned = none;
  has_stdin = true;
  written = none;
  flushed = none;
  waited = none;
  result = result;
}

-- What serde_json reads of an output as a `Result<(), PinError>`: `()` and `None` are both `null`.
unit_of : Stdout → Option (PinError ⊎ (Unit {0}))
unit_of (json (err e)) = some (inl e)
unit_of (json (ok nothing)) = some (inr tt)
unit_of (json (ok (attempts none))) = some (inr tt)
unit_of out = none

unfoldable pub run_of_test : Ending → TestRun
unfolding unit_of
run_of_test e = run_with (unit_of e.stdout)

-- The same as a `Result<Option<AttemptInfo>, PinError>`.
info_read : Stdout → StatusRun
info_read (json (err e)) = status (inl e)
info_read (json (ok nothing)) = status (inr none)
info_read (json (ok (attempts info))) = status (inr info)
info_read out = unreadable 0

-- A run of `pinutil -m status`: its output counts where the process ends with 0.
unfoldable pub run_of_status : Ending → StatusRun
unfolding info_read
run_of_status e = if e.code == 0 then info_read e.stdout else failed e.code

module _ (m : PinManager) (helper : Caller) where
  -- `pinutil -m test` and `pinutil -m status`, to the end of the process
  unfoldable pub on_test : Text → Pin → m.tpm.State → Ending × m.tpm.State
  on_test username pin s =
      let q = pin_command m helper true (test (some username)) (s, inr (pin_line pin) ∷ []) in
      (q.0, q.1.0)

  unfoldable pub on_status : Text → m.tpm.State → Ending × m.tpm.State
  on_status username s =
      let q = pin_command m helper true (PinCommand.status (some username)) (s, []) in (q.0, q.1.0)

  -- The state after what happened.
  unfoldable pub replay : m.tpm.State → Trace → m.tpm.State
  unfolding on_test on_status
  replay s [] = s
  replay s (prompted message ∷ t) = replay s t
  replay s (told message ∷ t) = replay s t
  replay s (asked_status username run ∷ t) = (on_status username (replay s t)).1
  replay s (tested username pin run ∷ t) = (on_test username pin (replay s t)).1

  -- The environment with pinutil as the helper.
  abbrev pub with_helper : Env → m.tpm.State → Env
  with_helper env s = record env {
    on_test = λ t username pin. run_of_test (on_test username pin (replay s t)).0;
    on_status = λ t username. run_of_status (on_status username (replay s t)).0;
  }
