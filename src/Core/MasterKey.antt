-- ===== src/Core/MasterKey.antt =====
-- pinpam-core/src/master_key.rs: what the master key rests on. `State` is the TPM with the context
-- that talks to it, the file system, the clock and the source of randomness.
pub mod Objects
pub mod Sealing
pub mod Lifecycle
pub mod Laws
pub mod Post
use pinpam.Base.{ℕ, Bool, Option, List, Outcome, St, pure, on_result, catch}
use pinpam.Base.Text.{Text}
use pinpam.Core.Error.{TssError, PinError}

-- What a command is authorised by.
pub data Authorisation : Type 0 where
  unauthorised null_hmac password : Authorisation

-- What `ObjectAttributesBuilder` is given.
pub record ObjectAttributes : Type 0 where
  pub fixed_tpm : Bool
  pub fixed_parent : Bool
  pub sign_encrypt : Bool
  pub user_with_auth : Bool
  pub sensitive_data_origin : Bool
  pub restricted : Bool
  pub decrypt : Bool

-- What `PublicBuilder` is given for a keyed hash with HMAC-SHA256. The name algorithm is SHA-256.
pub record KeyedHashTemplate : Type 0 where
  pub attributes : ObjectAttributes
  pub unique : List ℕ

-- `SealedMasterKeyFile`
pub record SealedMasterKeyFile : Type 0 where
  pub version : ℕ
  pub created_unix_ms : ℕ
  pub salt_b64 : Text
  pub nonce_b64 : Text
  pub ciphertext_b64 : Text

pub record Platform : Type 1 where
  pub State : Type 0
  pub Tcti : Type 0
  -- `ObjectHandle`, `KeyHandle`: handles of the context
  pub Object : Type 0
  pub Public : Type 0
  pub Private : Type 0
  pub Params : Type 0
  pub Cipher : Type 0
  pub File : Type 0
  -- tss-esapi: conversions and builders
  pub tcti_from_str : Text → Outcome TssError Tcti
  pub persistent_tpm_handle : ℕ → Outcome TssError ℕ
  pub max_buffer : List ℕ → Outcome TssError (List ℕ)
  pub digest_try_from : List ℕ → Outcome TssError (List ℕ)
  pub sensitive_data : List ℕ → Outcome TssError (List ℕ)
  pub restricted_decryption_rsa_public : Outcome TssError Public
  pub build_attributes : ObjectAttributes → Outcome TssError ObjectAttributes
  pub build_public : KeyedHashTemplate → Outcome TssError Public
  pub is_none : Object → Bool
  -- tss-esapi: the context; a closure is given the authorisation that it runs under
  pub new_context : Tcti → St State TssError (Unit {0})
  pub execute_with_nullauth_session :
      (A : Type 0) → (Authorisation → St State TssError A) → St State TssError A
  pub execute_without_session :
      (A : Type 0) → (Authorisation → St State TssError A) → St State TssError A
  pub execute_with_session :
      (A : Type 0) → Authorisation → (Authorisation → St State TssError A) → St State TssError A
  -- tss-esapi: objects, all in the owner's hierarchy
  pub tr_from_tpm_public : Authorisation → ℕ → St State TssError Object
  pub create_primary : Authorisation → Public → St State TssError Object
  pub evict_control : Authorisation → Object → ℕ → St State TssError Object
  pub create : Authorisation → Object → Public → List ℕ → St State TssError (Private × Public)
  pub load : Authorisation → Object → Private → Public → St State TssError Object
  pub hmac : Authorisation → Object → List ℕ → St State TssError (List ℕ)
  pub flush_context : Object → St State TssError (Unit {0})
  pub tr_close : Object → St State TssError (Unit {0})
  -- the file system, with the number of the error
  pub parent : Text → Option Text
  pub exists : Text → State → Bool
  pub create_dir_all : Text → St State ℕ (Unit {0})
  pub set_permissions : Text → ℕ → St State ℕ (Unit {0})
  pub chown : Text → ℕ → ℕ → St State ℕ (Unit {0})
  pub create_new : Text → ℕ → St State ℕ File
  pub write_all : File → List ℕ → St State ℕ (Unit {0})
  pub read : Text → St State ℕ (List ℕ)
  pub remove_file : Text → St State ℕ (Unit {0})
  pub is_not_found : ℕ → Bool
  -- the clock and the source of randomness
  pub now_unix_ms : State → ℕ
  pub fill_bytes : ℕ → State → List ℕ × State
  pub generate_mnemonic : St State Text Text
  -- argon2, aes-gcm, base64, serde_json and hex, with the text of the error
  pub argon2_params : ℕ → ℕ → ℕ → ℕ → Outcome Text Params
  pub hash_password : Params → List ℕ → List ℕ → Outcome Text (List ℕ)
  pub cipher_of : List ℕ → Outcome Text Cipher
  pub encrypt : Cipher → List ℕ → List ℕ → Outcome Text (List ℕ)
  pub decrypt : Cipher → List ℕ → List ℕ → Outcome Text (List ℕ)
  pub encode_b64 : List ℕ → Text
  pub decode_b64 : List ℕ → Outcome Text (List ℕ)
  pub to_json : SealedMasterKeyFile → Outcome Text (List ℕ)
  pub from_json : List ℕ → Outcome Text SealedMasterKeyFile
  pub encode_hex : List ℕ → Text

-- A function of `master_key`.
abbrev pub Action : Platform → Type 0 → Type 0
Action p A = St p.State PinError A

-- `let _ = ...`
abbrev pub ignore : {S E F A : Type 0} → St S E A → St S F (Unit {0})
ignore m = catch m (on_result (λ a. pure tt) (λ e. pure tt))
