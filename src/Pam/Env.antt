-- ===== src/Pam/Env.antt =====
-- What the PAM module meets outside: libpam's conversation, the `pinutil` helper, and the user
-- database. Each answers as it likes, by what happened before, and what happens is written down.
use pinpam.Core.Pin.{Pin}
use pinpam.Core.Policy.{PinPolicy}
use pinpam.Core.PinData.{AttemptInfo}
use pinpam.Core.Error.{PinError}
use pinpam.Core.Util.{Caller}
use pinpam.Base.Text.{Text}
use pinpam.Base.{Bool, St, List, Option, ℕ, ◌⊎◌}

pub data PamReturnCode : Type 0 where
  success user_unknown authinfo_unavail maxtries auth_err conv_err : PamReturnCode
  other_code : ℕ → PamReturnCode

-- The keys of the translated messages, with their arguments.
pub data Message : Type 0 where
  pin_prompt pin_prompt_last pin_empty pin_digits : Message
  auth_failure pin_auth_unavail pin_not_conf_for_user account_locked : Message
  pin_prompt_remaining : ℕ → Message

-- A C string that libpam gives out: none, one that is not UTF-8, or a text.
pub data CString : Type 0 where
  null not_utf8 : CString
  text : Text → CString

-- What the conversation function answers: a status, and a response if it made one.
pub record Reply : Type 0 where
  pub status : PamReturnCode
  pub response : Option CString

pub data IoError : Type 0 where
  broken_pipe : IoError
  other_io : ℕ → IoError

-- A run of `pinutil -m status`: the process was not started, it failed, or it wrote something, which
-- serde_json could or could not read.
pub data StatusRun : Type 0 where
  not_run failed : ℕ → StatusRun
  unreadable : ℕ → StatusRun
  status : PinError ⊎ Option AttemptInfo → StatusRun

-- A run of `pinutil -m test`, step by step: `none` where the step had no error.
pub record TestRun : Type 0 where
  pub spawned : Option IoError
  pub has_stdin : Bool
  pub written : Option IoError
  pub flushed : Option IoError
  pub waited : Option IoError
  pub result : Option (PinError ⊎ (Unit {0}))

pub data Event : Type 0 where
  prompted : Message → Event
  told : Message → Event
  asked_status : Text → StatusRun → Event
  tested : Text → Pin → TestRun → Event

-- What has happened, the last first.
abbrev pub Trace : Type 0
Trace = List Event

pub record Env : Type 0 where
  pub caller : Caller
  -- `PinPolicy::cached`
  pub policy : PinPolicy
  -- Whether the `PamConversation` holds a function, and the function.
  pub has_conv : Bool
  pub conv_fn : Trace → Message → Reply
  pub on_status : Trace → Text → StatusRun
  pub on_test : Trace → Text → Pin → TestRun

-- A computation of the module; its error is the code of a `PamResult`.
abbrev pub Run : Type 0 → Type 0
Run A = St Trace PamReturnCode A
