-- ===== src/Core/MasterKey/Laws.antt =====
-- What the master key relies on of the TPM, the file system and the libraries, where no call is lost
-- on the way.
use pinpam.Base.{
  ◌∷◌, ◌≢◌, St, true, ◌++◌, list_eq, err, [], length, ◌==◌, false, ◌≤◌, some, ok, if◌then◌else◌,
  Outcome, Bool, Option, List, ℕ, ◌≡◌, none,
}
use pinpam.Base.Text.{Text, as_bytes}
use pinpam.Core.Consts.{master_key_sealed_file}
use pinpam.Core.Error.{TssError, tss2_error, handle}
use pinpam.Core.Policy.{PinPolicy, tcti_spec}
use pinpam.Core.Tpm.Chain.{Ends}
use pinpam.Core.MasterKey.{
  password, unauthorised, null_hmac, Platform, KeyedHashTemplate, ObjectAttributes,
  SealedMasterKeyFile, Authorisation,
}

-- An object that the TPM holds.
pub data Held : Type 0 where
  rsa_parent : Held
  hmac_key : List ℕ → Held

-- The persistent objects of the TPM, and the files.
pub record Vault : Type 0 where
  pub objects : ℕ → Option Held
  pub files : Text → Option (List ℕ)

abbrev pub put_object : Vault → ℕ → Option Held → Vault
put_object v n x = record v { objects = λ k. if k == n then x else v.objects k }

abbrev pub put_file : Vault → Text → Option (List ℕ) → Vault
put_file v path x = record v { files = λ k. if list_eq k path then x else v.files k }

abbrev pub is_some : {A : Type 0} → Option A → Bool
is_some none = false
is_some (some a) = true

abbrev pub locate : {Object : Type 0} → Object → Option Held → Outcome TssError Object
locate object none = err (tss2_error (some handle))
locate object (some x) = ok object

-- The range of `PersistentTpmHandle`.
abbrev pub IsPersistent : ℕ → Type 0
IsPersistent n = (0x8100_0000 ≤ n) × (n ≤ 0x81ff_ffff)

pub record IsDependable (p : Platform) : Type 1 where
  pub vault : p.State → Vault
  -- The objects that are loaded, and the handle that the context has for a persistent one.
  pub loaded : p.State → p.Object → Option Held
  pub handle_of : ℕ → p.Object
  -- Conversions and builders accept what is in range.
  pub persistent_lem : (n : ℕ) → IsPersistent n → p.persistent_tpm_handle n ≡ ok n
  pub buffer_fits : (b : List ℕ) → length b ≤ 1024 → p.max_buffer b ≡ ok b
  pub digest_fits : (b : List ℕ) → length b ≤ 64 → p.digest_try_from b ≡ ok b
  pub sensitive_fits : (b : List ℕ) → length b ≤ 128 → p.sensitive_data b ≡ ok b
  pub rsa_public : p.Public
  pub rsa_built : p.restricted_decryption_rsa_public ≡ ok rsa_public
  pub attributes_built : (a : ObjectAttributes) → p.build_attributes a ≡ ok a
  pub public_of : KeyedHashTemplate → p.Public
  pub public_built : (t : KeyedHashTemplate) → p.build_public t ≡ ok (public_of t)
  -- Contexts and sessions.
  pub new_context_lem :
      (c : p.Tcti) (s : p.State) → Ends vault (p.new_context c) s (ok tt) (vault s)
  pub with_nullauth :
      (A : Type 0) (f : Authorisation → St p.State TssError A) (s : p.State)
      → p.execute_with_nullauth_session A f s ≡ f null_hmac s
  pub without_session :
      (A : Type 0) (f : Authorisation → St p.State TssError A) (s : p.State)
      → p.execute_without_session A f s ≡ f unauthorised s
  pub with_session :
      (A : Type 0) (x : Authorisation) (f : Authorisation → St p.State TssError A) (s : p.State)
      → p.execute_with_session A x f s ≡ f x s
  -- Objects. An object that is loaded can be made persistent where nothing is, and one that is
  -- persistent is removed by its own handle.
  pub tr_from_tpm_public_lem :
      (x : Authorisation) (n : ℕ) (s : p.State)
      → Ends vault
          (p.tr_from_tpm_public x n)
          s
          (locate (handle_of n) ((vault s).objects n))
          (vault s)
  pub primary : p.State → p.Object
  pub create_primary_lem :
      (s : p.State) → Ends vault (p.create_primary password rsa_public) s (ok (primary s)) (vault s)
  pub create_primary_loaded :
      (s : p.State)
      → loaded (p.create_primary password rsa_public s).1 (primary s) ≡ some rsa_parent
  pub persist_lem :
      (o : p.Object) (n : ℕ) (x : Held) (s : p.State)
      → loaded s o ≡ some x
      → (vault s).objects n ≡ none
      → Ends vault
          (p.evict_control password o n)
          s
          (ok (handle_of n))
          (put_object (vault s) n (some x))
  pub nothing : p.Object
  pub nothing-is_none : p.is_none nothing ≡ true
  pub remove_lem :
      (n : ℕ) (x : Held) (s : p.State)
      → (vault s).objects n ≡ some x
      → Ends vault
          (p.evict_control password (handle_of n) n)
          s
          (ok nothing)
          (put_object (vault s) n none)
  pub flush_context_lem :
      (o : p.Object) (s : p.State) → Ends vault (p.flush_context o) s (ok tt) (vault s)
  pub tr_close_lem : (o : p.Object) (s : p.State) → Ends vault (p.tr_close o) s (ok tt) (vault s)
  -- A key that is given its bytes, under the parent, and the code that it computes.
  pub wrapped : List ℕ → p.Private × p.Public
  pub create_lem :
      (t : KeyedHashTemplate) (key : List ℕ) (n : ℕ) (s : p.State)
      → t.attributes.sensitive_data_origin ≡ false
      → t.attributes.sign_encrypt ≡ true
      → (vault s).objects n ≡ some rsa_parent
      → Ends vault
          (p.create password (handle_of n) (public_of t) key)
          s
          (ok (wrapped key))
          (vault s)
  pub transient : p.State → p.Object
  pub load_lem :
      (key : List ℕ) (n : ℕ) (s : p.State)
      → (vault s).objects n ≡ some rsa_parent
      → Ends vault
          (p.load password (handle_of n) (wrapped key).0 (wrapped key).1)
          s
          (ok (transient s))
          (vault s)
  pub load_loaded :
      (key : List ℕ) (n : ℕ) (s : p.State)
      → (vault s).objects n ≡ some rsa_parent
      → loaded (p.load password (handle_of n) (wrapped key).0 (wrapped key).1 s).1 (transient s)
        ≡ some (hmac_key key)
  pub mac : List ℕ → List ℕ → List ℕ
  pub hmac_lem :
      (key bytes : List ℕ) (n : ℕ) (s : p.State)
      → (vault s).objects n ≡ some (hmac_key key)
      → Ends vault (p.hmac null_hmac (handle_of n) bytes) s (ok (mac key bytes)) (vault s)

-- The names of files, the clock, the source of randomness and the libraries.
pub record IsStocked (p : Platform) (vault : p.State → Vault) : Type 1 where
  pub exists_lem : (path : Text) (s : p.State) → p.exists path s ≡ is_some ((vault s).files path)
  pub directory : Text
  pub parent_lem : p.parent master_key_sealed_file ≡ some directory
  pub create_dir_all_lem :
      (path : Text) (s : p.State) → Ends vault (p.create_dir_all path) s (ok tt) (vault s)
  pub set_permissions_lem :
      (path : Text) (mode : ℕ) (s : p.State)
      → Ends vault (p.set_permissions path mode) s (ok tt) (vault s)
  pub chown_lem :
      (path : Text) (uid gid : ℕ) (s : p.State)
      → Ends vault (p.chown path uid gid) s (ok tt) (vault s)
  pub file_of : Text → p.File
  pub create_new_lem :
      (path : Text) (mode : ℕ) (s : p.State)
      → (vault s).files path ≡ none
      → Ends vault
          (p.create_new path mode)
          s
          (ok (file_of path))
          (put_file (vault s) path (some []))
  pub fill_bytes-length : (n : ℕ) (s : p.State) → length (p.fill_bytes n s).0 ≡ n
  pub fill_bytes-vault : (n : ℕ) (s : p.State) → vault (p.fill_bytes n s).1 ≡ vault s
  pub mnemonic : p.State → Text
  pub generate_mnemonic_lem :
      (s : p.State) → Ends vault p.generate_mnemonic s (ok (mnemonic s)) (vault s)
  -- Argon2id with 32 MiB, 3 passes and one lane, to 32 bytes
  pub params : p.Params
  pub argon2_params_lem : p.argon2_params 32768 3 1 32 ≡ ok params
  pub stretch : List ℕ → List ℕ → List ℕ
  pub hash_password_lem :
      (phrase salt : List ℕ)
      → 8 ≤ length salt
      → p.hash_password params phrase salt ≡ ok (stretch phrase salt)
  pub stretch-length : (phrase salt : List ℕ) → length (stretch phrase salt) ≡ 32
  -- AES-256-GCM
  pub cipher : List ℕ → p.Cipher
  pub cipher_of_lem : (key : List ℕ) → length key ≡ 32 → p.cipher_of key ≡ ok (cipher key)
  pub closed : List ℕ → List ℕ → List ℕ → List ℕ
  pub encrypt_lem :
      (key nonce bytes : List ℕ)
      → length nonce ≡ 12
      → p.encrypt (cipher key) nonce bytes ≡ ok (closed key nonce bytes)
  pub decrypt_lem :
      (key nonce bytes : List ℕ) → p.decrypt (cipher key) nonce (closed key nonce bytes) ≡ ok bytes
  pub aead_error : Text
  pub decrypt_wrong :
      (key other nonce bytes : List ℕ)
      → other ≢ key
      → p.decrypt (cipher other) nonce (closed key nonce bytes) ≡ err aead_error
  -- base64 and JSON, in which white space may follow
  pub decode-encode : (bytes : List ℕ) → p.decode_b64 (as_bytes (p.encode_b64 bytes)) ≡ ok bytes
  pub json : SealedMasterKeyFile → List ℕ
  pub to_json_lem : (f : SealedMasterKeyFile) → p.to_json f ≡ ok (json f)
  pub from_json_lem : (f : SealedMasterKeyFile) → p.from_json (json f ++ (b'\n' ∷ [])) ≡ ok f

-- What is written to a file is in it, and is read again.
pub record IsSaved (p : Platform) (vault : p.State → Vault) (file_of : Text → p.File) : Type 1 where
  pub write_all_lem :
      (path : Text) (old bytes : List ℕ) (s : p.State)
      → (vault s).files path ≡ some old
      → Ends vault
          (p.write_all (file_of path) bytes)
          s
          (ok tt)
          (put_file (vault s) path (some (old ++ bytes)))
  pub read_lem :
      (path : Text) (bytes : List ℕ) (s : p.State)
      → (vault s).files path ≡ some bytes
      → Ends vault (p.read path) s (ok bytes) (vault s)

-- A file system without room: nothing can be written to a file.
pub record IsFull (p : Platform) (vault : p.State → Vault) (file_of : Text → p.File) : Type 1 where
  pub no_space : ℕ
  pub write_all_fails :
      (path : Text) (bytes : List ℕ) (s : p.State)
      → Ends vault (p.write_all (file_of path) bytes) s (err no_space) (vault s)

-- A platform but for the contents of files, and the policy whose TCTI it can open.
pub record IsPrepared (p : Platform) (policy : PinPolicy) : Type 1 where
  pub laws : IsDependable p
  pub open laws use *
  pub stock : IsStocked p vault
  pub open stock use *
  pub tcti : p.Tcti
  pub parsed : p.tcti_from_str (tcti_spec policy) ≡ ok tcti

pub record IsReady (p : Platform) (policy : PinPolicy) : Type 1 where
  pub prepared : IsPrepared p policy
  pub open prepared use *
  pub saved : IsSaved p vault file_of
  pub open saved use *
