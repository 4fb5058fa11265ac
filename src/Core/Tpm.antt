-- ===== src/Core/Tpm.antt =====
-- The part of tss-esapi that the program calls, with the TPM behind it: an interface, since neither
-- is code of this repository. `State` is a `Context` together with the TPM that it talks to.
pub mod Laws
pub mod Chain
use pinpam.Base.{ℕ, Bool, Option, List, Outcome, St}
use pinpam.Base.Text.{Text}
use pinpam.Core.Error.{TssError}

-- The session that a command is authorised by.
pub data Session (Ident : Type 0) : Type 0 where
  no_session null_auth : Session Ident
  session : Ident → Session Ident

pub data SessionType : Type 0 where
  trial policy : SessionType

pub data NvAuth (Handle : Type 0) : Type 0 where
  owner : NvAuth Handle
  nv_index : Handle → NvAuth Handle

pub data NvIndexType : Type 0 where
  ordinary pin_fail : NvIndexType

-- What `NvIndexAttributesBuilder` is given; an attribute that is not mentioned is false.
pub record NvAttributes : Type 0 where
  pub nv_index_type : NvIndexType
  pub auth_read : Bool
  pub owner_read : Bool
  pub owner_write : Bool
  pub policy_write : Bool
  pub no_da : Bool

-- What `NvPublic::builder` is given. The name algorithm is always SHA-256.
pub record NvPublic (Digest : Type 0) : Type 0 where
  pub nv_index : ℕ
  pub attributes : NvAttributes
  pub data_area_size : ℕ
  pub auth_policy : Option Digest

pub record Tpm : Type 1 where
  pub State : Type 0
  pub Tcti : Type 0
  pub Handle : Type 0
  pub SessionId : Type 0
  pub Digest : Type 0
  -- conversions and builders
  pub tcti_from_str : Text → Outcome TssError Tcti
  pub nv_index_tpm_handle : ℕ → Outcome TssError ℕ
  pub auth_try_from : List ℕ → Outcome TssError (List ℕ)
  pub max_nv_buffer : List ℕ → Outcome TssError (List ℕ)
  pub build_attributes : NvAttributes → Outcome TssError NvAttributes
  pub validate_attributes : NvAttributes → Outcome TssError (Unit {0})
  pub build_public : NvPublic Digest → Outcome TssError (NvPublic Digest)
  pub policy_session : SessionId → Outcome TssError SessionId
  -- the context and its sessions; a closure is given the session that it runs under
  pub new_context : Tcti → St State TssError (Unit {0})
  pub clear_sessions : State → State
  pub execute_with_nullauth_session :
      (A : Type 0) → (Session SessionId → St State TssError A) → St State TssError A
  pub execute_without_session :
      (A : Type 0) → (Session SessionId → St State TssError A) → St State TssError A
  pub execute_with_session :
      (A : Type 0)
      → Session SessionId
      → (Session SessionId → St State TssError A)
      → St State TssError A
  pub start_auth_session : SessionType → St State TssError (Option SessionId)
  pub tr_sess_set_attributes : SessionId → St State TssError (Unit {0})
  pub tr_set_session_auth : SessionId → List ℕ → St State TssError (Unit {0})
  pub flush_context : SessionId → St State TssError (Unit {0})
  -- policies: `NvWrite` is the only command code that the program asks for
  pub policy_command_code_nv_write : SessionId → St State TssError (Unit {0})
  pub policy_nv_written : SessionId → Bool → St State TssError (Unit {0})
  pub policy_get_digest : SessionId → St State TssError Digest
  -- NV storage; `Provision::Owner` is the only hierarchy that the program names
  pub tr_from_tpm_public : Session SessionId → ℕ → St State TssError Handle
  pub tr_set_auth : Handle → List ℕ → St State TssError (Unit {0})
  pub read_full : Session SessionId → NvAuth Handle → ℕ → St State TssError (List ℕ)
  pub nv_read : Session SessionId → NvAuth Handle → Handle → ℕ → ℕ → St State TssError (List ℕ)
  pub nv_write :
      Session SessionId → NvAuth Handle → Handle → List ℕ → ℕ → St State TssError (Unit {0})
  pub nv_define_space :
      Session SessionId → Option (List ℕ) → NvPublic Digest → St State TssError (Unit {0})
  pub nv_undefine_space : Session SessionId → Handle → St State TssError (Unit {0})
