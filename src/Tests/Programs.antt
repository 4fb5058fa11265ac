-- ===== src/Tests/Programs.antt =====
-- Runs of pinutil from its command line, at concrete inputs: the user 1001 asks for the PIN of the
-- user 1000.
use pinpam.Base.{◌≡◌, true, false, some, none, inr, refl, arith, []}
use pinpam.Base.Text.{codes}
use pinpam.Core.Util.{Caller, get_uid_from_username}
use pinpam.Pinutil.Main.{Cli, World, on_pin, test, run_cli}
use pinpam.Pinutil.Main.Rights.{Means, IsForbidden, denial, run_cli_denied}
use pinpam.Pinutil.Use.{resolve_username}
use pinpam.Tests.Keys.{blank}
use pinpam.Tests.Users.{manager, before}
use pinpam.Tests.Vaults.{machine}

abbrev stranger : Caller
stranger = record {
  uid = 1001;
  euid = 1001;
  from_name = λ name. inr (some 1000);
  from_uid = λ uid. inr none;
}

abbrev cli : Cli
cli = record { command = on_pin (test (some (codes "ann"))); verbose = false; machine = false }

abbrev world : World manager stranger machine
world = record { pins = before; platform = blank; input = [] }

meant : Means stranger (some (codes "ann")) 1000
unfolding resolve_username get_uid_from_username
meant = (codes "ann", refl, refl)

forbidden : IsForbidden stranger cli.command
forbidden = (1000, meant, λ e. omega (arith, e), λ e. omega (arith, e))

run_cli_denied_example : run_cli manager stranger machine false cli world ≡ (denial true, world)
run_cli_denied_example = run_cli_denied manager stranger machine false cli world forbidden
