-- ===== src/Tests/Vaults.antt =====
-- A platform in memory for the master key, with codings in place of the libraries: it shows that the
-- laws of Core/MasterKey/Laws can hold.
use mathlib.Core.List.{[], List, append_assoc}
use pinpam.Base.{
  repeat, ok_or, ◌&&◌, list_eq_ne, some, err, arith, list_eq_refl, ◌≤◌, list_eq, ◌==◌, leb, ◌≢◌, ok,
  length, ◌≡◌, St, if◌then◌else◌, ap, ◌∷◌, Outcome, ℕ, ◌++◌, Option, refl, none,
}
use pinpam.Base.Text.{Text, codes}
use pinpam.Core.Error.{invalid_param, wrong_value_from_tpm, TssError, wrapper_error, tss2_error}
use pinpam.Core.Policy.{default, tcti_spec}
use pinpam.Core.MasterKey.{unauthorised, null_hmac, Platform, SealedMasterKeyFile}
use pinpam.Core.MasterKey.Laws.{
  rsa_parent, hmac_key, Held, Vault, put_object, put_file, locate, is_some, IsPersistent,
  IsDependable, IsStocked, IsReady, IsPrepared, IsSaved, IsFull,
}
use pinpam.Tests.Codings.{
  delimit, undelimit, undelimit-delimit, letters, unletters, unletters-letters, pad, length-pad,
  length-repeat,
}

pub record Machine : Type 0 where
  pub vault : Vault
  pub loaded : ℕ → Option Held

abbrev at_most : ℕ → List ℕ → Outcome TssError (List ℕ)
at_most n b = if leb (length b) n then ok b else err (wrapper_error wrong_value_from_tpm)

abbrev persistent : ℕ → Outcome TssError ℕ
persistent n =
    if leb 0x8100_0000 n && leb n 0x81ff_ffff then ok n else err (wrapper_error invalid_param)

-- `evict_control`: what was persistent is removed, and else what is loaded becomes so.
abbrev evict_at : ℕ → Option Held → Option Held → St Machine TssError ℕ
evict_at n (some y) o s = (ok 2, record s { vault = put_object s.vault n none })
evict_at n none (some x) s = (ok n, record s { vault = put_object s.vault n (some x) })
evict_at n none none s = (err (tss2_error none), s)

abbrev put_loaded : Machine → ℕ → Held → Machine
put_loaded s o x = record s { loaded = λ k. if k == o then some x else s.loaded k }

abbrev hmac_with : Option Held → List ℕ → Outcome TssError (List ℕ)
hmac_with none b = err (tss2_error none)
hmac_with (some rsa_parent) b = err (tss2_error none)
hmac_with (some (hmac_key key)) b = ok (key ++ b)

abbrev create_at : Text → Option (List ℕ) → St Machine ℕ Text
create_at path (some b) s = (err 17, s)
create_at path none s = (ok path, record s { vault = put_file s.vault path (some []) })

abbrev write_at : Text → List ℕ → Option (List ℕ) → St Machine ℕ (Unit {0})
write_at path b none s = (err 9, s)
write_at path b (some old) s = (ok tt, record s { vault = put_file s.vault path (some (old ++ b)) })

abbrev remove_at : Text → Option (List ℕ) → St Machine ℕ (Unit {0})
remove_at path none s = (err 2, s)
remove_at path (some b) s = (ok tt, record s { vault = put_file s.vault path none })

abbrev json : SealedMasterKeyFile → List ℕ
json f =
    f.version ∷ f.created_unix_ms ∷ delimit f.salt_b64
    ++ (delimit f.nonce_b64 ++ delimit f.ciphertext_b64)

abbrev json_parts : ℕ → ℕ → List ℕ × List ℕ → SealedMasterKeyFile
json_parts v n (a, r) =
    let rest = undelimit r in
    record {
      version = v;
      created_unix_ms = n;
      salt_b64 = a;
      nonce_b64 = rest.0;
      ciphertext_b64 = (undelimit rest.1).0;
    }

abbrev from_json : List ℕ → Outcome Text SealedMasterKeyFile
from_json [] = err []
from_json (v ∷ []) = err []
from_json (v ∷ n ∷ r) = ok (json_parts v n (undelimit r))

pub from_json_ok : (f : SealedMasterKeyFile) → from_json (json f ++ (10 ∷ [])) ≡ ok f
from_json_ok f =
    rw
      (
        append_assoc (delimit f.salt_b64) (delimit f.nonce_b64 ++ delimit f.ciphertext_b64)
            (10 ∷ []),
        append_assoc (delimit f.nonce_b64) (delimit f.ciphertext_b64) (10 ∷ []),
        undelimit-delimit f.salt_b64
            (delimit f.nonce_b64 ++ (delimit f.ciphertext_b64 ++ (10 ∷ []))),
        undelimit-delimit f.nonce_b64 (delimit f.ciphertext_b64 ++ (10 ∷ [])),
        undelimit-delimit f.ciphertext_b64 (10 ∷ []),
      )
      refl

abbrev open_with : List ℕ → List ℕ × List ℕ → Outcome Text (List ℕ)
open_with key (k, b) = if list_eq key k then ok b else err (codes "aead")

-- The platform, but for what a write to a file does.
abbrev pub machine_with : (Text → List ℕ → St Machine ℕ (Unit {0})) → Platform
machine_with write = record {
  State = Machine;
  Tcti = Text;
  Object = ℕ;
  Public = ℕ;
  Private = List ℕ;
  Params = Unit {0};
  Cipher = List ℕ;
  File = Text;
  tcti_from_str = ok;
  persistent_tpm_handle = persistent;
  max_buffer = at_most 1024;
  digest_try_from = at_most 64;
  sensitive_data = at_most 128;
  restricted_decryption_rsa_public = ok 0;
  build_attributes = ok;
  build_public = λ t. ok 1;
  is_none = λ o. o == 2;
  new_context = λ tcti s. (ok tt, s);
  execute_with_nullauth_session = λ A f. f null_hmac;
  execute_without_session = λ A f. f unauthorised;
  execute_with_session = λ A x f. f x;
  tr_from_tpm_public = λ x n s. (locate n (s.vault.objects n), s);
  create_primary = λ x public s. (ok 0, put_loaded s 0 rsa_parent);
  evict_control = λ x o n s. evict_at n (s.vault.objects n) (s.loaded o) s;
  create = λ x parent public key s. (ok (key, 1), s);
  load = λ x parent private public s. (ok 1, put_loaded s 1 (hmac_key private));
  hmac = λ x o b s. (hmac_with (s.vault.objects o) b, s);
  flush_context = λ o s. (ok tt, s);
  tr_close = λ o s. (ok tt, s);
  parent = λ path. some (codes "/var/pinpam");
  exists = λ path s. is_some (s.vault.files path);
  create_dir_all = λ path s. (ok tt, s);
  set_permissions = λ path mode s. (ok tt, s);
  chown = λ path uid gid s. (ok tt, s);
  create_new = λ path mode s. create_at path (s.vault.files path) s;
  write_all = write;
  read = λ path s. (ok_or (s.vault.files path) 2, s);
  remove_file = λ path s. remove_at path (s.vault.files path) s;
  is_not_found = λ e. e == 2;
  now_unix_ms = λ s. 0;
  fill_bytes = λ n s. (repeat n 7, s);
  generate_mnemonic = λ s. (ok (codes "able about"), s);
  argon2_params = λ memory passes lanes size. ok tt;
  hash_password = λ params phrase salt. ok (pad 32 phrase);
  cipher_of = λ key. ok key;
  encrypt = λ key nonce b. ok (delimit key ++ b);
  decrypt = λ key nonce b. open_with key (undelimit b);
  encode_b64 = letters;
  decode_b64 = λ b. ok (unletters 0 b);
  to_json = λ f. ok (json f);
  from_json = from_json;
  encode_hex = λ b. b;
}

pub at_most_ok : (n : ℕ) (b : List ℕ) → length b ≤ n → at_most n b ≡ ok b
at_most_ok n b h = ground arith

pub persistent_ok : (n : ℕ) → IsPersistent n → persistent n ≡ ok n
persistent_ok n h = ground arith

abbrev dependable :
    (write : Text → List ℕ → St Machine ℕ (Unit {0})) → IsDependable (machine_with write)
dependable write = record {
  vault = λ s. s.vault;
  loaded = λ s. s.loaded;
  handle_of = λ n. n;
  persistent_lem = persistent_ok;
  buffer_fits = at_most_ok 1024;
  digest_fits = at_most_ok 64;
  sensitive_fits = at_most_ok 128;
  rsa_public = 0;
  rsa_built = refl;
  attributes_built = λ a. refl;
  public_of = λ t. 1;
  public_built = λ t. refl;
  new_context_lem = λ tcti s. (refl, refl);
  with_nullauth = λ A f s. refl;
  without_session = λ A f s. refl;
  with_session = λ A x f s. refl;
  tr_from_tpm_public_lem = λ x n s. (refl, refl);
  primary = λ s. 0;
  create_primary_lem = λ s. (refl, refl);
  create_primary_loaded = λ s. refl;
  persist_lem = λ o n x s l e. rw (e, l) (refl, refl);
  nothing = 2;
  nothing-is_none = refl;
  remove_lem = λ n x s e. rw e (refl, refl);
  flush_context_lem = λ o s. (refl, refl);
  tr_close_lem = λ o s. (refl, refl);
  wrapped = λ key. (key, 1);
  create_lem = λ t key n s a b e. (refl, refl);
  transient = λ s. 1;
  load_lem = λ key n s e. (refl, refl);
  load_loaded = λ key n s e. refl;
  mac = λ key b. key ++ b;
  hmac_lem = λ key b n s e. rw e (refl, refl);
}

pub opened_wrong :
    (key other b : List ℕ)
    → other ≢ key
    → open_with other (undelimit (delimit key ++ b)) ≡ err (codes "aead")
opened_wrong key other b ne = rw (undelimit-delimit key b, list_eq_ne other key ne) refl

pub opened_right : (key b : List ℕ) → open_with key (undelimit (delimit key ++ b)) ≡ ok b
opened_right key b = rw (undelimit-delimit key b, list_eq_refl key) refl

abbrev stocked :
    (write : Text → List ℕ → St Machine ℕ (Unit {0}))
    → IsStocked (machine_with write) (λ s. s.vault)
stocked write = record {
  exists_lem = λ path s. refl;
  directory = codes "/var/pinpam";
  parent_lem = refl;
  create_dir_all_lem = λ path s. (refl, refl);
  set_permissions_lem = λ path mode s. (refl, refl);
  chown_lem = λ path uid gid s. (refl, refl);
  file_of = λ path. path;
  create_new_lem = λ path mode s e. rw e (refl, refl);
  fill_bytes-length = λ n s. length-repeat n 7;
  fill_bytes-vault = λ n s. refl;
  mnemonic = λ s. codes "able about";
  generate_mnemonic_lem = λ s. (refl, refl);
  params = tt;
  argon2_params_lem = refl;
  stretch = λ phrase salt. pad 32 phrase;
  hash_password_lem = λ phrase salt h. refl;
  stretch-length = λ phrase salt. length-pad 32 phrase;
  cipher = λ key. key;
  cipher_of_lem = λ key h. refl;
  closed = λ key nonce b. delimit key ++ b;
  encrypt_lem = λ key nonce b h. refl;
  decrypt_lem = λ key nonce b. opened_right key b;
  aead_error = codes "aead";
  decrypt_wrong = λ key other nonce b ne. opened_wrong key other b ne;
  decode-encode = λ b. ap ok (unletters-letters b);
  json = json;
  to_json_lem = λ f. refl;
  from_json_lem = from_json_ok;
}

abbrev pub prepared_with :
    (write : Text → List ℕ → St Machine ℕ (Unit {0})) → IsPrepared (machine_with write) default
prepared_with write = record {
  laws = dependable write;
  stock = stocked write;
  tcti = tcti_spec default;
  parsed = refl;
}

abbrev pub machine : Platform
machine = machine_with (λ path b s. write_at path b (s.vault.files path) s)

abbrev pub prepared : IsPrepared machine default
prepared = prepared_with (λ path b s. write_at path b (s.vault.files path) s)

abbrev saved : IsSaved machine (λ s. s.vault) (λ path. path)
saved = record {
  write_all_lem = λ path old b s e. rw e (refl, refl);
  read_lem = λ path b s e. rw e (refl, refl);
}

abbrev pub ready : IsReady machine default
ready = record { prepared = prepared; saved = saved }

-- The platform with a full disk.
abbrev pub crowded : Platform
crowded = machine_with (λ path b s. (err 28, s))

abbrev pub without_space : IsPrepared crowded default
without_space = prepared_with (λ path b s. (err 28, s))

abbrev pub full : IsFull crowded (λ s. s.vault) (λ path. path)
full = record { no_space = 28; write_all_fails = λ path b s. (refl, refl) }
