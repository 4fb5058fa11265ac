-- ===== src/Pinutil/Main.antt =====
-- pinutil/src/main.rs: the command line, the dispatch of `main`, and the end of the process.
pub mod Rights
use pinpam.Base.{
  ◌||◌, not, Bool, List, Option, ℕ, Outcome, St, some, none, ok, err, panic, if◌then◌else◌,
}
use pinpam.Base.Text.{Text}
use pinpam.Core.Error.{PinError, PinResult}
use pinpam.Core.Manager.{PinManager}
use pinpam.Core.MasterKey.{Platform}
use pinpam.Core.PinData.{AttemptInfo}
use pinpam.Core.Policy.{PinPolicy}
use pinpam.Core.Util.{Caller}
use pinpam.Pinutil.{Act, Desk, Line, Machine, change_pin, run_setup}
use pinpam.Pinutil.MasterKeys
use pinpam.Pinutil.MasterKeys.{
  Ending, MasterKeyCommand, Value, attempts, exit_code, handle_result, nothing, silent,
}
use pinpam.Pinutil.Use.{delete_pin, resolve_username, show_status, test_pin}

-- `Commands`, those on PINs, each with the user's name where one is given.
pub data PinCommand : Type 0 where
  setup change delete test status : Option Text → PinCommand

-- `Commands`
pub data Commands : Type 0 where
  on_pin : PinCommand → Commands
  master_key : MasterKeyCommand → Commands

-- `Cli`
pub record Cli : Type 0 where
  pub command : Commands
  pub verbose : Bool
  pub machine : Bool

-- A result as one of the values.
abbrev pub as_value : {A : Type 0} → (A → Value) → PinResult A → PinResult Value
as_value f (ok a) = ok (f a)
as_value f (err e) = err e
as_value f panic = panic

abbrev pub done : Unit {0} → Value
done u = nothing

-- The end of a process whose `main` returns an error by `?`: the error goes to stderr.
abbrev pub returned : PinResult Value → Ending
returned res = record { code = exit_code res; stdout = silent }

module _ (m : PinManager) (caller : Caller) where
  -- A command for a user, to the end of the process.
  unfoldable pub concluded :
      {A : Type 0}
      → (A → Value)
      → (Text → Machine → Act m A)
      → Machine
      → Text
      → Desk m
      → Ending × Desk m
  concluded f act machine username d =
      let q = act username machine d in (handle_result machine (as_value f q.0), q.1)

  -- `resolve_username(username)?`
  with_name : (Text → Desk m → Ending × Desk m) → PinResult Text → Desk m → Ending × Desk m
  with_name next (ok username) d = next username d
  with_name next (err e) d = (returned (err e), d)
  with_name next panic d = (returned panic, d)

  unfoldable pub resolved :
      (Text → Desk m → Ending × Desk m) → Option Text → Desk m → Ending × Desk m
  unfolding with_name
  resolved next username = with_name next (resolve_username caller username)

  -- `main`, on a command on PINs.
  unfoldable pub pin_command : Machine → PinCommand → Desk m → Ending × Desk m
  unfolding resolved concluded
  pin_command machine (setup username) =
      resolved (concluded done (run_setup m caller) machine) username
  pin_command machine (change username) =
      resolved (concluded done (change_pin m caller) machine) username
  pin_command machine (delete username) =
      resolved (concluded done (delete_pin m caller) machine) username
  pin_command machine (test username) =
      resolved (concluded done (test_pin m caller) machine) username
  pin_command machine (status username) =
      resolved (concluded attempts (show_status m caller) machine) username

  module _ (p : Platform) where
    -- The part of the TPM that holds PINs, the platform of the master key, and the input.
    pub record World : Type 0 where
      pub pins : m.tpm.State
      pub platform : p.State
      pub input : List Line

    -- `main`, the `match` on the command.
    unfoldable pub dispatch : Machine → Commands → World → Ending × World
    dispatch machine (on_pin k) w =
        let q = pin_command machine k (w.pins, w.input) in
        (q.0, record w { pins = q.1.0; input = q.1.1 })
    dispatch machine (master_key k) w =
        let q = MasterKeys.main p m.policy caller machine k (w.platform, w.input) in
        (q.0, record w { platform = q.1.0; input = q.1.1 })

    -- `main`, from the parsed command line on. A standard input that is no terminal makes it a run
    -- for a machine.
    unfoldable pub run_cli : Bool → Cli → World → Ending × World
    unfolding dispatch
    run_cli is_terminal cli = dispatch (cli.machine || not is_terminal) cli.command
