-- ===== src/Tests/Keys.antt =====
-- The master key on the platform in memory.
use pinpam.Core.MasterKey.Lifecycle.Rollback.{init_rolled_back, IsStuck, no_room}
use pinpam.Core.MasterKey.Sealing.Effects.{sealed_file}
use pinpam.Base.{
  inl, [], ◌∷◌, ◌++◌, list_eq_iff, some, list_eq, ◌≢◌, ℕ, repeat, if◌then◌else◌, List, arith, err,
  ◌≤◌, ok, ◌≡◌, inr, length, refl, none,
}
use pinpam.Base.Text.{Text, as_bytes, codes}
use pinpam.Core.Consts.{master_key_sealed_file}
use pinpam.Core.Error.{foreign, mk_sealed_file_already_exists, io_error, states}
use pinpam.Core.Policy.{default}
use pinpam.Core.Util.{Caller}
use pinpam.Core.MasterKey.Laws.{rsa_parent, put_object}
use pinpam.Core.MasterKey.Objects.Effects.{no_object}
use pinpam.Core.MasterKey.Objects.Provisioned.{rsa}
use pinpam.Core.MasterKey.Lifecycle.{init, import_to_tpm, clear_from_tpm, derive_user_token}
use pinpam.Core.MasterKey.Lifecycle.Recovery.{IsKept, all_present}
use pinpam.Core.MasterKey.Lifecycle.Effects.{IsFresh}
use pinpam.Core.MasterKey.Lifecycle.Roundtrip.{
  import_to_tpm-init, import_to_tpm_wrong, after_init, after_clear, after_import, IsUnmoved,
}
use pinpam.Tests.Vaults.{full, without_space, crowded, prepared, machine, ready, Machine}

abbrev pub root : Caller
root = record { uid = 0; euid = 0; from_name = λ name. inr none; from_uid = λ uid. inr none }

abbrev pub ann : Caller
ann = record root { uid = 1000 }

abbrev pub blank : Machine
blank = record { vault = record { objects = λ n. none; files = λ path. none }; loaded = λ o. none }

pub blank-IsFresh : IsFresh (ready.vault blank)
blank-IsFresh = record { no_parent = refl; no_key = refl; no_file = refl }

pub short_name : length (as_bytes (codes "ann")) ≤ 1024
unfolding as_bytes
short_name = omega arith

import_to_tpm-init_example :
    (phrase : Text) × (t : Text) × ((init machine default root blank).0
      ≡ ok (record { recovery_phrase = phrase; status = all_present machine default ready }))
    × ((derive_user_token machine default
          (codes "ann")
          (after_init machine default ready root refl blank)).0
        ≡ ok t)
    × ((clear_from_tpm machine default root (after_init machine default ready root refl blank)).0
        ≡ ok tt)
    × ((derive_user_token machine default
          (codes "ann")
          (after_clear machine default ready root refl blank)).0
        ≡ err no_object)
    × ((import_to_tpm machine default root phrase
          (after_clear machine default ready root refl blank)).0
        ≡ ok (all_present machine default ready))
    × ((derive_user_token machine default
          (codes "ann")
          (after_import machine default ready root refl blank phrase)).0
        ≡ ok t)
import_to_tpm-init_example =
    import_to_tpm-init machine default ready root refl blank (codes "ann") blank-IsFresh short_name

-- A key of zeros that was sealed under this phrase, and is not in the TPM.
abbrev phrase : Text
phrase = codes "able about"

abbrev zero_key : List ℕ
zero_key = repeat 32 0

abbrev kept_file : List ℕ
kept_file =
    ready.json (sealed_file machine default prepared phrase zero_key 0 (repeat 16 7) (repeat 12 7))
    ++ (b'\n' ∷ [])

abbrev lost : Machine
lost = record blank {
  vault = record {
    objects = λ n. none;
    files = λ path. if list_eq path master_key_sealed_file then some kept_file else none;
  };
}

abbrev lost-IsKept : IsKept machine default ready (ready.vault lost) phrase zero_key
lost-IsKept = record {
  file = kept_file;
  in_file = refl;
  seals = record {
    now = 0;
    salt = repeat 16 7;
    nonce = repeat 12 7;
    salt_length = refl;
    nonce_length = refl;
    is_sealed = refl;
  };
  key_length = refl;
}

other_key :
    ready.stretch (as_bytes (codes "x")) (repeat 16 7)
    ≢ ready.stretch (as_bytes phrase) (repeat 16 7)
unfolding as_bytes
other_key e = cc ((list_eq_iff _ _).1 e)

import_to_tpm_wrong_example :
    ((import_to_tpm machine default root (codes "x") lost).0
      ≡ err (io_error (foreign ready.aead_error)))
    × IsUnmoved machine default ready root refl lost
        (import_to_tpm machine default root (codes "x") lost).1
import_to_tpm_wrong_example =
    import_to_tpm_wrong machine default ready root refl lost phrase (codes "x") zero_key lost-IsKept
      refl refl other_key

-- A machine that has the parent, and the file.
abbrev parented : Machine
parented = record lost { vault = put_object lost.vault rsa (some rsa_parent) }

init_rolled_back_example :
    let s' = (init crowded default root blank).1 in
    ((init crowded default root blank).0 ≡ err (no_room crowded default without_space full))
    × IsStuck crowded default without_space full root refl s'
    × ((init crowded default root s').0 ≡ err (io_error (states mk_sealed_file_already_exists)))
init_rolled_back_example =
    init_rolled_back crowded default without_space full root refl blank (inl refl) refl refl
