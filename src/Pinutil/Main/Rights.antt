-- ===== src/Pinutil/Main/Rights.antt =====
-- Who may run which command of pinutil.
use pinpam.Base.{◌||◌, not, ◌≡◌, ◌≢◌, Bool, Option, ℕ, err, ok, refl, if◌then◌else◌}
use pinpam.Base.Text.{Text}
use pinpam.Core.Error.{permission_denied}
use pinpam.Core.Manager.{PinManager}
use pinpam.Core.MasterKey.{Platform}
use pinpam.Core.Util.{Caller, get_uid_from_username}
use pinpam.Pinutil.{change_pin, run_setup, Act, Desk, Machine}
use pinpam.Pinutil.Main.{
  done, PinCommand, setup, change, delete, test, status, Commands, on_pin, master_key, Cli, World,
  concluded, resolved, pin_command, dispatch, run_cli,
}
use pinpam.Pinutil.MasterKeys.{Ending, Value, handle_result, silent, json}
use pinpam.Pinutil.MasterKeys.Consent.{main_denied}
use pinpam.Pinutil.Rights.{manage_denied, test_denied}
use pinpam.Pinutil.Use.{test_pin, delete_pin, resolve_username}

-- The user whom a name, or the lack of one, stands for.
abbrev pub Means : Caller → Option Text → ℕ → Type 0
Means caller username uid =
    (name : Text) × (resolve_username caller username ≡ ok name)
    × (get_uid_from_username caller name ≡ ok uid)

-- The caller has no right to run the command: the PIN of another user may be set, changed and
-- removed by root alone, and tried with the effective uid 0; the master key is root's.
abbrev pub IsForbidden : Caller → Commands → Type 0
IsForbidden caller (on_pin (setup username)) =
    (uid : ℕ) × Means caller username uid × (caller.uid ≢ 0) × (caller.uid ≢ uid)
IsForbidden caller (on_pin (change username)) =
    (uid : ℕ) × Means caller username uid × (caller.uid ≢ 0) × (caller.uid ≢ uid)
IsForbidden caller (on_pin (delete username)) =
    (uid : ℕ) × Means caller username uid × (caller.uid ≢ 0) × (caller.uid ≢ uid)
IsForbidden caller (on_pin (test username)) =
    (uid : ℕ) × Means caller username uid × (caller.euid ≢ 0) × (caller.uid ≢ uid)
IsForbidden caller (on_pin (status username)) = ⊥
IsForbidden caller (master_key k) = caller.uid ≢ 0

-- The end of a run that was refused.
abbrev pub denial : Bool → Ending
denial machine = record {
  code = 1;
  stdout = if machine then json (err permission_denied) else silent;
}

module _ (m : PinManager) (caller : Caller) where
  stopped :
      {A : Type 0} (f : A → Value) (act : Text → Machine → Act m A) (machine : Machine)
      (username : Option Text) (name : Text) (d : Desk m)
      → resolve_username caller username ≡ ok name
      → act name machine d ≡ (err permission_denied, d)
      → resolved m caller (concluded m caller f act machine) username d ≡ (denial machine, d)
  unfolding resolved concluded handle_result
  stopped f act machine username name d e h = rw (e, h) refl

  pin_command_denied :
      (machine : Machine) (k : PinCommand) (d : Desk m)
      → IsForbidden caller (on_pin k)
      → pin_command m caller machine k d ≡ (denial machine, d)
  unfolding pin_command
  pin_command_denied machine (setup username) d (uid, (name, e, found), a, b) =
      stopped done (run_setup m caller) machine username name d e
        (manage_denied m caller name uid found machine d a b).0
  pin_command_denied machine (change username) d (uid, (name, e, found), a, b) =
      stopped done (change_pin m caller) machine username name d e
        (manage_denied m caller name uid found machine d a b).1
  pin_command_denied machine (delete username) d (uid, (name, e, found), a, b) =
      stopped done (delete_pin m caller) machine username name d e
        (manage_denied m caller name uid found machine d a b).2
  pin_command_denied machine (test username) d (uid, (name, e, found), a, b) =
      stopped done (test_pin m caller) machine username name d e
        (test_denied m caller name uid found machine d a b)
  pin_command_denied machine (status username) d h = absurd h

  module _ (p : Platform) where
    dispatch_denied :
        (machine : Machine) (k : Commands) (w : World m caller p)
        → IsForbidden caller k
        → dispatch m caller p machine k w ≡ (denial machine, w)
    unfolding dispatch
    dispatch_denied machine (on_pin k) w h =
        rw (pin_command_denied machine k (w.pins, w.input) h) refl
    dispatch_denied machine (master_key k) w h =
        rw (main_denied p m.policy caller machine k (w.platform, w.input) h) refl

    -- A run of pinutil by a caller without the right to its command ends with the code 1, in
    -- machine mode with `PermissionDenied` as its JSON, and touches neither the TPM nor the files
    -- nor the input. The callers without a right are: to set, change or remove a PIN, all but root
    -- and the PIN's user; to test it, all but that user and those with the effective uid 0; to any
    -- command on the master key, all but root.
    pub run_cli_denied :
        (is_terminal : Bool) (cli : Cli) (w : World m caller p)
        → IsForbidden caller cli.command
        → run_cli m caller p is_terminal cli w ≡ (denial (cli.machine || not is_terminal), w)
    unfolding run_cli
    run_cli_denied is_terminal cli w h =
        dispatch_denied (cli.machine || not is_terminal) cli.command w h
