-- ===== src/Tests/Sim.antt =====
-- A TPM in memory that does what its documents say: it shows that the laws of Core/Tpm/Laws can hold,
-- and runs the examples.
use pinpam.Core.PinData.Codec.{word_value}
use pinpam.Core.Consts.{pin_nv_index_base}
use pinpam.Core.Error.{
  invalid_param, wrong_value_from_tpm, tss2_error, wrapper_error, other_kind, TssError, auth_fail,
}
use pinpam.Base.Text.{Text}
use pinpam.Core.PinData.{be_bytes}
use pinpam.Base.{
  ◌≤◌, refl, ap, list_eq_refl, ltb, none, ◌&&◌, err, ◌+◌, list_eq, ◌^◌, ◌*◌, length, ◌∷◌, St, leb,
  ◌<◌, some, arith, ◌==◌, [], ok, Outcome, List, inl, Option, if◌then◌else◌, ℕ, ◌≡◌,
}
use pinpam.Core.Tpm.{no_session, null_auth, session, NvAuth, Session, Tpm}
use pinpam.Core.Tpm.Laws.{
  undefined, define, attempt, contents, locate, counter_bytes, owner_write, put, max_buffer,
  pin_slot, write_once, max_auth, NvIndex, Counter, Digests, Store, Errors, IsReliable,
}

-- A policy digest is the list of its assertions.
abbrev pub digests : Digests (List ℕ)
digests = record {
  no_assertion = [];
  command_code_nv_write = λ d. 0 ∷ d;
  nv_written = λ written d. (if written then 1 else 2) ∷ d;
}

abbrev errors : Errors
errors = record {
  wrong_auth = auth_fail;
  unavailable = some (other_kind 0);
  refused = λ auth. some (other_kind 1);
}

pub record SimState : Type 0 where
  pub nv : Store (List ℕ)
  pub auth_of : ℕ → List ℕ
  pub policy_of : ℕ → List ℕ

-- At most so many bytes.
abbrev pub sized : ℕ → List ℕ → Outcome TssError (List ℕ)
sized most bytes =
    if leb (length bytes) most then ok bytes else err (wrapper_error wrong_value_from_tpm)

abbrev pub sim_handle : ℕ → Outcome TssError ℕ
sim_handle n =
    if leb pin_nv_index_base n && ltb n (pin_nv_index_base + 2 ^ 24)
    then ok n
    else err (wrapper_error invalid_param)

-- What an NV command does, from its effect on one index.
abbrev on_index :
    {A : Type 0}
    → ℕ
    → (Option (NvIndex (List ℕ)) → Outcome TssError A × Option (NvIndex (List ℕ)))
    → St SimState TssError A
on_index n f s = ((f (s.nv n)).0, record s { nv = put s.nv n (f (s.nv n)).1 })

abbrev words_of : List ℕ → Option Counter
words_of (a ∷ b ∷ c ∷ d ∷ e ∷ f ∷ g ∷ h ∷ []) = some (record {
  count = a * 2 ^ 24 + b * 2 ^ 16 + c * 2 ^ 8 + d;
  limit = e * 2 ^ 24 + f * 2 ^ 16 + g * 2 ^ 8 + h;
})
words_of _ = none

-- A write under a policy session: to a PIN slot whose policy the session satisfies.
abbrev pub policy_write :
    List ℕ
    → List ℕ
    → Option (NvIndex (List ℕ))
    → Outcome TssError (Unit {0}) × Option (NvIndex (List ℕ))
policy_write bytes policy (some (pin_slot auth d none)) =
    if list_eq policy d
    then (ok tt, some (pin_slot auth d (words_of bytes)))
    else (err (tss2_error (some auth_fail)), some (pin_slot auth d none))
policy_write bytes policy i = (err (tss2_error none), i)

abbrev sim_write : Session ℕ → NvAuth ℕ → ℕ → List ℕ → ℕ → St SimState TssError (Unit {0})
sim_write (session i) auth n bytes offset s = on_index n (policy_write bytes (s.policy_of i)) s
sim_write no_session auth n bytes offset s = on_index n (owner_write bytes) s
sim_write null_auth auth n bytes offset s = on_index n (owner_write bytes) s

abbrev with_policy : SimState → ℕ → List ℕ → SimState
with_policy s i d = record s { policy_of = λ k. if i == k then d else s.policy_of k }

abbrev pub sim : Tpm
sim = record {
  State = SimState;
  Tcti = Text;
  Handle = ℕ;
  SessionId = ℕ;
  Digest = List ℕ;
  tcti_from_str = ok;
  nv_index_tpm_handle = sim_handle;
  auth_try_from = sized max_auth;
  max_nv_buffer = sized max_buffer;
  build_attributes = ok;
  validate_attributes = λ a. ok tt;
  build_public = ok;
  policy_session = ok;
  new_context = λ tcti s. (ok tt, record s { auth_of = λ n. [] });
  clear_sessions = λ s. s;
  execute_with_nullauth_session = λ A f. f null_auth;
  execute_without_session = λ A f. f no_session;
  execute_with_session = λ A x f. f x;
  start_auth_session = λ t s. (ok (some 0), with_policy s 0 []);
  tr_sess_set_attributes = λ i s. (ok tt, s);
  tr_set_session_auth = λ i a s. (ok tt, s);
  flush_context = λ i s. (ok tt, s);
  policy_command_code_nv_write = λ i s. (ok tt, with_policy s i (0 ∷ s.policy_of i));
  policy_nv_written =
      λ i written s. (ok tt, with_policy s i ((if written then 1 else 2) ∷ s.policy_of i));
  policy_get_digest = λ i s. (ok (s.policy_of i), s);
  tr_from_tpm_public = λ x n s. (locate n (s.nv n), s);
  tr_set_auth = λ n a s. (ok tt, record s { auth_of = λ k. if n == k then a else s.auth_of k });
  read_full = λ x auth n s. (contents (s.nv n), s);
  nv_read = λ x auth n size offset s. on_index n (attempt errors (s.auth_of n)) s;
  nv_write = sim_write;
  nv_define_space = λ x auth p. on_index p.nv_index (define errors [] auth p);
  nv_undefine_space = λ x n. on_index n (λ i. (undefined i, none));
}

pub sim_handle_ok :
    (n : ℕ) → pin_nv_index_base ≤ n → n < pin_nv_index_base + 2 ^ 24 → sim_handle n ≡ ok n
sim_handle_ok n a b = ground arith

pub sized_ok : (most : ℕ) (bytes : List ℕ) → length bytes ≤ most → sized most bytes ≡ ok bytes
sized_ok most bytes h = ground arith

pub same : {A : Type 0} (n : ℕ) (a b : A) → (if n == n then a else b) ≡ a
same n a b = ground arith

pub written :
    (auth d : List ℕ) (c : Counter)
    → c.count < 2 ^ 32
    → c.limit < 2 ^ 32
    → policy_write (counter_bytes c) d (some (pin_slot auth d none))
      ≡ (ok tt, some (pin_slot auth d (some c)))
unfolding be_bytes
written auth d c a b = rw (list_eq_refl d, word_value c.count a, word_value c.limit b)

abbrev pub sim_laws : IsReliable sim
sim_laws = record {
  nv = λ s. s.nv;
  auth_of = λ s. s.auth_of;
  policy_of = λ s. s.policy_of;
  handle_of = λ n. n;
  errors = errors;
  errors_said = inl refl;
  digests = digests;
  new_handle = sim_handle_ok;
  auth_fits = sized_ok max_auth;
  buffer_fits = sized_ok max_buffer;
  attributes_built = λ a. refl;
  attributes_valid = λ a. refl;
  public_built = λ p. refl;
  policy_session_lem = λ i. refl;
  new_context_lem = λ c s. (refl, refl);
  clear_sessions_lem = λ s. refl;
  with_nullauth = λ A f s. refl;
  without_session = λ A f s. refl;
  with_session = λ A i f s. refl;
  started = λ t s. 0;
  start_auth_session_lem = λ t s. (refl, refl);
  start_policy = λ t s. refl;
  set_attributes_lem = λ i s. (refl, refl);
  set_session_auth_lem = λ i a s. (refl, refl);
  flush_context_lem = λ i s. (refl, refl);
  command_code_lem = λ i s. (refl, refl);
  command_code_policy = λ i s. same i _ _;
  nv_written_lem = λ i b s. (refl, refl);
  nv_written_policy = λ i b s. same i _ _;
  get_digest_lem = λ i s. (refl, refl);
  tr_from_tpm_public_lem = λ x n s. (refl, refl);
  tr_set_auth_lem = λ n a s. (refl, refl);
  tr_set_auth_entered = λ n a s. same n _ _;
  read_full_lem = λ n s. (refl, refl);
  nv_read_lem = λ n s. (refl, refl);
  write_as_owner = λ n b s. (refl, refl);
  write_by_policy = λ i n c auth s p e a b.
      rw (p, e)
        (
          ap (λ q. q.0) (written auth (write_once digests) c a b),
          ap (λ q. put s.nv n q.1) (written auth (write_once digests) c a b),
        );
  nv_define_space_lem = λ auth p s. (refl, refl);
  nv_undefine_space_lem = λ n s. (refl, refl);
}
