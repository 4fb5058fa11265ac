-- ===== src/Tests/Logs.antt =====
-- The log of the PAM module at a concrete input: syslog at hand and another logger there already.
use pinpam.Base.{◌≡◌, ◌+◌, [], ◌∷◌, List, false, true, none}
use pinpam.Core.PamLog.{Env, State, unset}
use pinpam.Core.PamLog.Once.{fallbacks, fresh, levels, loggers, settings}
use pinpam.Pam.Entries.{
  EntryPoint, acct_mgmt, authenticate, enter_all, enter_all-Counts, open_session, set_cred,
}

abbrev env : Env
env = record {
  rust_log = unset;
  pid = 7;
  unix = λ t formatter. true;
  set_boxed_logger = λ t formatter. false;
  parse_level = λ value. none;
}

abbrev later : List EntryPoint
later = authenticate ∷ set_cred ∷ open_session ∷ authenticate ∷ []

abbrev after : State
after = enter_all env (acct_mgmt ∷ later) fresh

enter_all-Counts_example :
    (loggers after.trace + fallbacks after.trace ≡ 1)
    × (levels after.trace ≡ loggers after.trace)
    × (settings after.trace ≡ 1)
enter_all-Counts_example = enter_all-Counts env acct_mgmt later
