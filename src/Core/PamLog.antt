-- ===== src/Core/PamLog.antt =====
-- pinpam-core/src/pamlog.rs: the set-up of the log of the two PAM modules. `syslog`, `log` and
-- `env_logger` are parameters, and so is the environment; the trace says what was asked of them.
pub mod Once
use pinpam.Base.{ℕ, Bool, true, false, Option, none, some, List, [], ◌∷◌, ◌==◌, ◌||◌, if◌then◌else◌}
use pinpam.Base.Text.{Text, codes}

-- `log::LevelFilter`
pub data LevelFilter : Type 0 where
  off error warn info debug trace : LevelFilter

-- What the environment has under a name.
pub data Var : Type 0 where
  unset not_unicode : Var
  set : Text → Var

-- `env_logger::Builder`, by what it was told.
pub record Builder : Type 0 where
  pub level : LevelFilter
  pub filters : Option Text

-- `Formatter3164`; the facility is always LOG_AUTHPRIV, and no host is named.
pub record Formatter : Type 0 where
  pub process : Text
  pub pid : ℕ

-- What happened, with the answer where the code looks at it.
pub data Event : Type 0 where
  connected logger_set : Formatter → Bool → Event
  max_level_set : LevelFilter → Event
  fell_back : Builder → Event
  var_set : Text → Text → Event

abbrev pub Trace : Type 0
Trace = List Event

pub record Env : Type 0 where
  pub rust_log : Var
  pub pid : ℕ
  pub unix : Trace → Formatter → Bool
  pub set_boxed_logger : Trace → Formatter → Bool
  pub parse_level : Text → Option LevelFilter

-- The two `OnceLock`s of the process, and what happened.
pub record State : Type 0 where
  pub initialised : Bool
  pub suppressed : Bool
  pub trace : Trace

-- `env::var(name).ok()`
abbrev pub var_ok : Var → Option Text
var_ok unset = none
var_ok not_unicode = none
var_ok (set s) = some s

-- `env::var_os(name).is_none()`
abbrev pub is_unset : Var → Bool
is_unset unset = true
is_unset not_unicode = false
is_unset (set s) = false

-- `str::contains`, of a character
unfoldable pub contains : Text → ℕ → Bool
contains [] c = false
contains (d ∷ s) c = d == c || contains s c

-- `Result::unwrap_or`
abbrev unwrap_or : {A : Type 0} → Option A → A → A
unwrap_or none b = b
unwrap_or (some a) b = a

module _ (env : Env) where
  -- `install`, the closure for the maximal level.
  unfoldable pub level_of : Text → LevelFilter
  unfolding contains
  level_of value =
      if contains value b'=' || contains value b','
      then LevelFilter.trace
      else unwrap_or (env.parse_level value) LevelFilter.trace

  -- `install`, the maximal level.
  unfoldable pub max_level : Option Text → LevelFilter
  unfolding level_of
  max_level none = LevelFilter.info
  max_level (some value) = level_of value

  -- `install`, from the answer of `set_boxed_logger` on.
  on_logger : Option Text → Formatter → Trace → Bool → Trace
  unfolding max_level
  on_logger rust_log formatter t true =
      max_level_set (max_level rust_log) ∷ logger_set formatter true ∷ t
  on_logger rust_log formatter t false =
      fell_back (record { level = LevelFilter.info; filters = rust_log })
      ∷ logger_set formatter false
      ∷ t

  -- `install`, from the answer of `syslog::unix` on.
  on_writer : Option Text → Formatter → Trace → Bool → Trace
  unfolding on_logger
  on_writer rust_log formatter t true =
      let t' = connected formatter true ∷ t in
      on_logger rust_log formatter t' (env.set_boxed_logger t' formatter)
  on_writer rust_log formatter t false =
      fell_back (record { level = LevelFilter.info; filters = rust_log })
      ∷ connected formatter false
      ∷ t

  -- `install`
  unfoldable pub install : Text → Trace → Trace
  unfolding on_writer
  install process_name t =
      let formatter : Formatter = record { process = process_name; pid = env.pid } in
      on_writer (var_ok env.rust_log) formatter t (env.unix t formatter)

  -- `init_syslog_logger`
  unfoldable pub init_syslog_logger : Text → State → State
  unfolding install
  init_syslog_logger process_name s =
      if s.initialised
      then s
      else record s { initialised = true; trace = install process_name s.trace }

  -- `suppress_tss_logs`, the closure.
  unfoldable pub suppress : Trace → Trace
  suppress t =
      if is_unset env.rust_log then var_set (codes "TSS2_LOG") (codes "all+NONE") ∷ t else t

  -- `suppress_tss_logs`
  unfoldable pub suppress_tss_logs : State → State
  unfolding suppress
  suppress_tss_logs s =
      if s.suppressed then s else record s { suppressed = true; trace = suppress s.trace }
