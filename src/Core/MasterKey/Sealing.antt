-- ===== src/Core/MasterKey/Sealing.antt =====
-- pinpam-core/src/master_key.rs: the file that the key is sealed in.
pub mod Effects
pub mod Writes
use pinpam.Base.{
  [], length, none, if◌then◌else◌, ◌∷◌, ◌==◌, ◌>>=◌, ◌>>◌, false, ◌^◌, some, ◌*◌, raise, map_err,
  ◌%◌, Option, convert, and_then, ok, lift, pure, St, Outcome, ℕ, List, Bool, true,
}
use pinpam.Base.Text.{Text, as_bytes}
use pinpam.Core.Error.{
  PinError, errno, foreign, states, io_error, mk_unsupported_sealed_file_version,
  mk_invalid_nonce_length, mk_invalid_sealed_file_path,
}
use pinpam.Core.MasterKey.{Platform, Action, ignore, SealedMasterKeyFile}

-- `SEALED_FILE_VERSION`
abbrev pub sealed_file_version : ℕ
sealed_file_version = 1

-- `HMAC_KEY_LEN`
abbrev pub hmac_key_len : ℕ
hmac_key_len = 32

module _ (p : Platform) where
  -- The error of a system call, and that of a library.
  abbrev pub system : {A : Type 0} → St p.State ℕ A → Action p A
  system = convert (λ e. io_error (errno e))

  abbrev pub library : {A : Type 0} → Outcome Text A → Action p A
  library r = lift (map_err (λ e. io_error (foreign e)) r)

  abbrev pub random : ℕ → Action p (List ℕ)
  random n s = (ok (p.fill_bytes n s).0, (p.fill_bytes n s).1)

  -- `now_unix_ms`
  abbrev pub now_unix_ms : Action p ℕ
  now_unix_ms s = (ok (p.now_unix_ms s % 2 ^ 64), s)

  -- `ensure_dir_for_path`, where the path has a parent.
  unfoldable pub ensure_parent : Bool → Option Text → Action p Text
  ensure_parent tighten none = raise (io_error (states mk_invalid_sealed_file_path))
  ensure_parent tighten (some parent) = do
    system (p.create_dir_all parent)
    (if tighten
        then (ignore (p.set_permissions parent 0x1c0) >> ignore (p.chown parent 0 0))
        else pure tt)
    pure parent

  -- `ensure_dir_for_path`
  unfoldable pub ensure_dir_for_path : Text → Bool → Action p Text
  unfolding ensure_parent
  ensure_dir_for_path path tighten = ensure_parent tighten (p.parent path)

  -- `derive_aes_key_from_phrase`
  unfoldable pub derive_aes_key_from_phrase : Text → List ℕ → Outcome Text (List ℕ)
  derive_aes_key_from_phrase phrase salt =
      and_then (p.argon2_params (32 * 1024) 3 1 32)
        (λ params. p.hash_password params (as_bytes phrase) salt)

  unfoldable pub cipher_for : Text → List ℕ → Action p p.Cipher
  unfolding derive_aes_key_from_phrase
  cipher_for phrase salt = do
    aes_key ← library (derive_aes_key_from_phrase phrase salt)
    library (p.cipher_of aes_key)

  -- `seal_key_bytes_to_path`, from the JSON text on.
  unfoldable pub store : Text → SealedMasterKeyFile → Action p (Unit {0})
  store path sealed = do
    json ← library (p.to_json sealed)
    file ← system (p.create_new path 0x180)
    system (p.write_all file json)
    system (p.write_all file (b'\n' ∷ []))
    ignore (p.set_permissions path 0x180)
    ignore (p.chown path 0 0)

  -- `seal_key_bytes_to_path`
  unfoldable pub seal_key_bytes_to_path : List ℕ → Text → Text → Action p (Unit {0})
  unfolding ensure_dir_for_path cipher_for store
  seal_key_bytes_to_path key_bytes phrase path = do
    ensure_dir_for_path path false
    salt ← random 16
    nonce ← random 12
    cipher ← cipher_for phrase salt
    ciphertext ← library (p.encrypt cipher nonce key_bytes)
    now ← now_unix_ms
    store path (record {
      version = sealed_file_version;
      created_unix_ms = now;
      salt_b64 = p.encode_b64 salt;
      nonce_b64 = p.encode_b64 nonce;
      ciphertext_b64 = p.encode_b64 ciphertext;
    })

  -- `return Err(..)` where the test fails.
  abbrev pub ensure : Bool → PinError → Action p (Unit {0})
  ensure true e = pure tt
  ensure false e = raise e

  -- `unseal_key_bytes_from_path`, after the file was read.
  unfoldable pub unseal : Text → SealedMasterKeyFile → Action p (List ℕ)
  unfolding cipher_for
  unseal phrase sealed = do
    ensure (sealed.version == sealed_file_version)
        (io_error (states mk_unsupported_sealed_file_version))
    salt ← library (p.decode_b64 (as_bytes sealed.salt_b64))
    nonce ← library (p.decode_b64 (as_bytes sealed.nonce_b64))
    ciphertext ← library (p.decode_b64 (as_bytes sealed.ciphertext_b64))
    ensure (length nonce == 12) (io_error (states mk_invalid_nonce_length))
    cipher ← cipher_for phrase salt
    library (p.decrypt cipher nonce ciphertext)

  -- `unseal_key_bytes_from_path`
  unfoldable pub unseal_key_bytes_from_path : Text → Text → Action p (List ℕ)
  unfolding unseal
  unseal_key_bytes_from_path phrase path = do
    bytes ← system (p.read path)
    sealed ← library (p.from_json bytes)
    unseal phrase sealed
