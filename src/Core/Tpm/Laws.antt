-- ===== src/Core/Tpm/Laws.antt =====
-- What the program relies on of the TPM and of tss-esapi, where no command is lost on the way: the
-- documented behaviour of NV indices, PIN counters, sessions and policies.
mod Spec
pub use Spec.*
use pinpam.Base.{
  ℕ, ◌+◌, ◌≤◌, ◌<◌, ◌^◌, Bool, true, false, Option, none, some, List, length, Outcome, ok, err, St,
  ◌≡◌, ◌⊎◌,
}
use pinpam.Core.Consts.{pin_nv_index_base}
use pinpam.Core.Error.{TssError, ResponseKind, auth_fail, bad_auth}
use pinpam.Core.Tpm.{
  Tpm, Session, null_auth, no_session, session, owner, nv_index, NvPublic, NvAttributes,
  SessionType,
}
use pinpam.Core.Tpm.Chain.{Ends}

-- Authorisation values are told apart by their bytes. A TPM drops the zero bytes at the end of one, so
-- these laws are not about PINs that end in the character NUL.
pub record IsReliable (T : Tpm) : Type 1 where
  -- The NV indices, the authorisation value entered for each, and the policy of each session.
  pub nv : T.State → Store T.Digest
  pub auth_of : T.State → ℕ → List ℕ
  pub policy_of : T.State → T.SessionId → T.Digest
  pub handle_of : ℕ → T.Handle
  pub errors : Errors
  pub errors_said : IsAuthError errors.wrong_auth
  pub digests : Digests T.Digest
  -- Conversions and builders accept what is in range.
  pub new_handle :
      (n : ℕ)
      → pin_nv_index_base ≤ n
      → n < pin_nv_index_base + 2 ^ 24
      → T.nv_index_tpm_handle n ≡ ok n
  pub auth_fits : (a : List ℕ) → length a ≤ max_auth → T.auth_try_from a ≡ ok a
  pub buffer_fits : (b : List ℕ) → length b ≤ max_buffer → T.max_nv_buffer b ≡ ok b
  pub attributes_built : (a : NvAttributes) → T.build_attributes a ≡ ok a
  pub attributes_valid : (a : NvAttributes) → T.validate_attributes a ≡ ok tt
  pub public_built : (p : NvPublic T.Digest) → T.build_public p ≡ ok p
  pub policy_session_lem : (i : T.SessionId) → T.policy_session i ≡ ok i
  -- Contexts and sessions. A closure runs under its session, and nothing of that is left behind.
  pub new_context_lem : (c : T.Tcti) (s : T.State) → Ends nv (T.new_context c) s (ok tt) (nv s)
  pub clear_sessions_lem : (s : T.State) → nv (T.clear_sessions s) ≡ nv s
  pub with_nullauth :
      (A : Type 0) (f : Session T.SessionId → St T.State TssError A) (s : T.State)
      → T.execute_with_nullauth_session A f s ≡ f null_auth s
  pub without_session :
      (A : Type 0) (f : Session T.SessionId → St T.State TssError A) (s : T.State)
      → T.execute_without_session A f s ≡ f no_session s
  pub with_session :
      (A : Type 0) (i : T.SessionId) (f : Session T.SessionId → St T.State TssError A) (s : T.State)
      → T.execute_with_session A (session i) f s ≡ f (session i) s
  pub started : SessionType → T.State → T.SessionId
  pub start_auth_session_lem :
      (t : SessionType) (s : T.State)
      → Ends nv (T.start_auth_session t) s (ok (some (started t s))) (nv s)
  pub start_policy :
      (t : SessionType) (s : T.State)
      → policy_of (T.start_auth_session t s).1 (started t s) ≡ digests.no_assertion
  pub set_attributes_lem :
      (i : T.SessionId) (s : T.State)
      → Ends (seen nv policy_of) (T.tr_sess_set_attributes i) s (ok tt) (seen nv policy_of s)
  pub set_session_auth_lem :
      (i : T.SessionId) (a : List ℕ) (s : T.State)
      → Ends (seen nv policy_of) (T.tr_set_session_auth i a) s (ok tt) (seen nv policy_of s)
  pub flush_context_lem :
      (i : T.SessionId) (s : T.State) → Ends nv (T.flush_context i) s (ok tt) (nv s)
  pub command_code_lem :
      (i : T.SessionId) (s : T.State) → Ends nv (T.policy_command_code_nv_write i) s (ok tt) (nv s)
  pub command_code_policy :
      (i : T.SessionId) (s : T.State)
      → policy_of (T.policy_command_code_nv_write i s).1 i
        ≡ digests.command_code_nv_write (policy_of s i)
  pub nv_written_lem :
      (i : T.SessionId) (b : Bool) (s : T.State)
      → Ends nv (T.policy_nv_written i b) s (ok tt) (nv s)
  pub nv_written_policy :
      (i : T.SessionId) (b : Bool) (s : T.State)
      → policy_of (T.policy_nv_written i b s).1 i ≡ digests.nv_written b (policy_of s i)
  pub get_digest_lem :
      (i : T.SessionId) (s : T.State)
      → Ends nv (T.policy_get_digest i) s (ok (policy_of s i)) (nv s)
  -- NV storage.
  pub tr_from_tpm_public_lem :
      (x : Session T.SessionId) (n : ℕ) (s : T.State)
      → Ends
          (seen nv policy_of)
          (T.tr_from_tpm_public x n)
          s
          (locate (handle_of n) (nv s n))
          (seen nv policy_of s)
  pub tr_set_auth_lem :
      (n : ℕ) (a : List ℕ) (s : T.State) → Ends nv (T.tr_set_auth (handle_of n) a) s (ok tt) (nv s)
  pub tr_set_auth_entered :
      (n : ℕ) (a : List ℕ) (s : T.State) → auth_of (T.tr_set_auth (handle_of n) a s).1 n ≡ a
  pub read_full_lem :
      (n : ℕ) (s : T.State) → Ends nv (T.read_full null_auth owner n) s (contents (nv s n)) (nv s)
  pub nv_read_lem :
      (n : ℕ) (s : T.State)
      → Ends nv
          (T.nv_read null_auth (nv_index (handle_of n)) (handle_of n) 8 0)
          s
          (attempt errors (auth_of s n) (nv s n)).0
          (put (nv s) n (attempt errors (auth_of s n) (nv s n)).1)
  pub write_as_owner :
      (n : ℕ) (b : List ℕ) (s : T.State)
      → Ends nv
          (T.nv_write null_auth owner (handle_of n) b 0)
          s
          (owner_write b (nv s n)).0
          (put (nv s) n (owner_write b (nv s n)).1)
  -- A write under a session whose policy is that of the slot, `write_once`, while it holds.
  pub write_by_policy :
      (i : T.SessionId) (n : ℕ) (c : Counter) (auth : List ℕ) (s : T.State)
      → policy_of s i ≡ write_once digests
      → nv s n ≡ some (pin_slot auth (write_once digests) none)
      → c.count < 2 ^ 32
      → c.limit < 2 ^ 32
      → Ends nv
          (T.nv_write (session i) (nv_index (handle_of n)) (handle_of n) (counter_bytes c) 0)
          s
          (ok tt)
          (put (nv s) n (some (pin_slot auth (write_once digests) (some c))))
  pub nv_define_space_lem :
      (auth : Option (List ℕ)) (p : NvPublic T.Digest) (s : T.State)
      → Ends nv
          (T.nv_define_space null_auth auth p)
          s
          (define errors digests.no_assertion auth p (nv s p.nv_index)).0
          (put (nv s) p.nv_index (define errors digests.no_assertion auth p (nv s p.nv_index)).1)
  pub nv_undefine_space_lem :
      (n : ℕ) (s : T.State)
      → Ends nv
          (T.nv_undefine_space null_auth (handle_of n))
          s
          (undefined (nv s n))
          (put (nv s) n none)
