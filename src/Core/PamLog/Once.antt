-- ===== src/Core/PamLog/Once.antt =====
-- Any calls of pinpam-core/src/pamlog.rs in one process, in any order.
use pinpam.Base.{
  ap, ◌∙◌, ◌≡◌, ◌+◌, ℕ, Bool, true, false, ◌||◌, ◌&&◌, List, [], ◌∷◌, Option, Bool-cases,
  if◌then◌else◌, arith, refl, inl, inr,
}
use pinpam.Base.Text.{Text}
use pinpam.Core.PamLog.{
  Env, Formatter, State, Trace, connected, fell_back, init_syslog_logger, install, is_unset,
  logger_set, max_level_set, on_logger, on_writer, suppress, suppress_tss_logs, var_ok, var_set,
}

-- A call of one of the two functions.
pub data Call : Type 0 where
  call_init : Text → Call
  call_suppress : Call

abbrev pub fresh : State
fresh = record { initialised = false; suppressed = false; trace = [] }

-- The calls in order.
unfoldable pub run : Env → List Call → State → State
run env [] s = s
run env (call_init process_name ∷ calls) s = run env calls (init_syslog_logger env process_name s)
run env (call_suppress ∷ calls) s = run env calls (suppress_tss_logs env s)

abbrev pub any_init : List Call → Bool
any_init [] = false
any_init (call_init process_name ∷ calls) = true
any_init (call_suppress ∷ calls) = any_init calls

abbrev pub any_suppress : List Call → Bool
any_suppress [] = false
any_suppress (call_init process_name ∷ calls) = any_suppress calls
any_suppress (call_suppress ∷ calls) = true

abbrev pub bit : Bool → ℕ
bit b = if b then 1 else 0

-- How often a log was taken up by syslog and by env_logger, and the rest of what happened.
abbrev pub loggers : Trace → ℕ
loggers [] = 0
loggers (connected formatter b ∷ t) = loggers t
loggers (logger_set formatter b ∷ t) = bit b + loggers t
loggers (max_level_set level ∷ t) = loggers t
loggers (fell_back builder ∷ t) = loggers t
loggers (var_set name value ∷ t) = loggers t

abbrev pub fallbacks : Trace → ℕ
fallbacks [] = 0
fallbacks (connected formatter b ∷ t) = fallbacks t
fallbacks (logger_set formatter b ∷ t) = fallbacks t
fallbacks (max_level_set level ∷ t) = fallbacks t
fallbacks (fell_back builder ∷ t) = 1 + fallbacks t
fallbacks (var_set name value ∷ t) = fallbacks t

abbrev pub levels : Trace → ℕ
levels [] = 0
levels (connected formatter b ∷ t) = levels t
levels (logger_set formatter b ∷ t) = levels t
levels (max_level_set level ∷ t) = 1 + levels t
levels (fell_back builder ∷ t) = levels t
levels (var_set name value ∷ t) = levels t

abbrev pub settings : Trace → ℕ
settings [] = 0
settings (connected formatter b ∷ t) = settings t
settings (logger_set formatter b ∷ t) = settings t
settings (max_level_set level ∷ t) = settings t
settings (fell_back builder ∷ t) = settings t
settings (var_set name value ∷ t) = 1 + settings t

-- Counts of a trace: the loggers of both kinds, those of syslog without a level, the settings.
abbrev pub Counts : Trace → ℕ → ℕ → Type 0
Counts t backends vars =
    (loggers t + fallbacks t ≡ backends) × (levels t ≡ loggers t) × (settings t ≡ vars)

module _ (env : Env) where
  on_logger-Counts :
      (rust_log : Option Text) (formatter : Formatter) (b : Bool) (t : Trace) (n k : ℕ)
      → Counts t n k
      → Counts (on_logger env rust_log formatter t b) (1 + n) k
  unfolding on_logger
  on_logger-Counts rust_log formatter true t n k c = (omega (arith, c.0), omega (arith, c.1), c.2)
  on_logger-Counts rust_log formatter false t n k c = (omega (arith, c.0), omega (arith, c.1), c.2)

  on_writer-Counts :
      (rust_log : Option Text) (formatter : Formatter) (b : Bool) (t : Trace) (n k : ℕ)
      → Counts t n k
      → Counts (on_writer env rust_log formatter t b) (1 + n) k
  unfolding on_writer
  on_writer-Counts rust_log formatter true t n k c =
      on_logger-Counts rust_log formatter (env.set_boxed_logger _ formatter)
        (connected formatter true ∷ t) n k c
  on_writer-Counts rust_log formatter false t n k c = (omega (arith, c.0), c.1, c.2)

  install-Counts :
      (process_name : Text) (t : Trace) (n k : ℕ)
      → Counts t n k
      → Counts (install env process_name t) (1 + n) k
  unfolding install
  install-Counts process_name t n k c =
      on_writer-Counts (var_ok env.rust_log) (record { process = process_name; pid = env.pid })
        (env.unix t (record { process = process_name; pid = env.pid })) t n k c

  suppress-Counts :
      (t : Trace) (n : ℕ) → Counts t n 0 → Counts (suppress env t) n (bit (is_unset env.rust_log))
  unfolding suppress
  suppress-Counts t n c = elim (Bool-cases (is_unset env.rust_log)) [
    | inl e ↦ rw e (c.0, c.1, omega (arith, c.2))
    | inr e ↦ rw e c
  ]

  -- The state says how often anything was done.
  abbrev IsCounted : State → Type 0
  IsCounted st = Counts st.trace (bit st.initialised) (bit (st.suppressed && is_unset env.rust_log))

  abbrev state : Bool → Bool → Trace → State
  state i s t = record { initialised = i; suppressed = s; trace = t }

  init-IsCounted :
      (process_name : Text) (i s : Bool) (t : Trace)
      → IsCounted (state i s t)
      → IsCounted (init_syslog_logger env process_name (state i s t))
  unfolding init_syslog_logger
  init-IsCounted process_name true s t c = c
  init-IsCounted process_name false s t c = install-Counts process_name t 0 _ c

  suppress-IsCounted :
      (i s : Bool) (t : Trace)
      → IsCounted (state i s t)
      → IsCounted (suppress_tss_logs env (state i s t))
  unfolding suppress_tss_logs
  suppress-IsCounted i true t c = c
  suppress-IsCounted i false t c = suppress-Counts t (bit i) c

  run-IsCounted : (calls : List Call) (st : State) → IsCounted st → IsCounted (run env calls st)
  unfolding run
  run-IsCounted [] st c = c
  run-IsCounted (call_init process_name ∷ calls) st c =
      run-IsCounted calls _ (init-IsCounted process_name st.initialised st.suppressed st.trace c)
  run-IsCounted (call_suppress ∷ calls) st c =
      run-IsCounted calls _ (suppress-IsCounted st.initialised st.suppressed st.trace c)

  run-initialised :
      (calls : List Call) (i s : Bool) (t : Trace)
      → (run env calls (state i s t)).initialised ≡ i || any_init calls
  unfolding run init_syslog_logger suppress_tss_logs
  run-initialised [] true s t = refl
  run-initialised [] false s t = refl
  run-initialised (call_init process_name ∷ calls) true s t = run-initialised calls true s t
  run-initialised (call_init process_name ∷ calls) false s t = run-initialised calls true s _
  run-initialised (call_suppress ∷ calls) i true t = run-initialised calls i true t
  run-initialised (call_suppress ∷ calls) i false t = run-initialised calls i true _

  run-suppressed :
      (calls : List Call) (i s : Bool) (t : Trace)
      → (run env calls (state i s t)).suppressed ≡ s || any_suppress calls
  unfolding run init_syslog_logger suppress_tss_logs
  run-suppressed [] i true t = refl
  run-suppressed [] i false t = refl
  run-suppressed (call_init process_name ∷ calls) true s t = run-suppressed calls true s t
  run-suppressed (call_init process_name ∷ calls) false s t = run-suppressed calls true s _
  run-suppressed (call_suppress ∷ calls) i true t = run-suppressed calls i true t
  run-suppressed (call_suppress ∷ calls) i false t = run-suppressed calls i true _

  -- However often and in whatever order a process calls the two functions: if it calls
  -- `init_syslog_logger`, then either syslog's logger is taken once or env_logger is asked once to
  -- take its place, and never both, and else neither; the maximal level is set as often as
  -- syslog's logger is taken; and TSS2_LOG is set once if `suppress_tss_logs` is called and
  -- RUST_LOG is unset, and else never.
  pub run-Counts :
      (calls : List Call)
      → Counts
          (run env calls fresh).trace
          (bit (any_init calls))
          (bit (any_suppress calls && is_unset env.rust_log))
  run-Counts calls =
      let c = run-IsCounted calls fresh (refl, refl, refl) in
      (
        c.0 ∙ ap bit (run-initialised calls false false []),
        c.1,
        c.2 ∙ ap (λ s. bit (s && is_unset env.rust_log)) (run-suppressed calls false false []),
      )
