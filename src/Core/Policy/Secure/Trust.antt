-- ===== src/Core/Policy/Secure/Trust.antt =====
-- Which policy files count (pinpam-core/src/pinpolicy.rs).
use pinpam.Core.Policy.{PinPolicy}
use pinpam.Base.Text.{Text}
use pinpam.Core.Error.{PinResult}
use pinpam.Core.Policy.Parse.{parse_config, OpenFile, Host, Metadata}
use Prim.Native.Nat.{bit_and}
use pinpam.Base.{
  Bool-cases, panic, err, ◌⊎◌, to_option, ◌↔◌, ◌/◌, ◌&&◌, ◌≡◌, ◌%◌, ◌==◌, Bool, ℕ, true, some, ok,
  inl, inr, refl, arith,
}
use pinpam.Base.Bits.{agree_below, agree_below_lem}
use pinpam.Core.Policy.Secure.{
  read_contents, read_opened, parse_read, read_checked, metadata_is_secure, load_from_path,
  read_policy_if_secure,
}

-- Whether a bit of a mode is clear.
abbrev pub is_clear : ℕ → ℕ → Bool
is_clear bit mode = mode / bit % 2 == 0

-- The bits that a policy file may not have: execution by anyone, and writing by group and others.
is_private : ℕ → Bool
is_private mode =
    is_clear 64 mode && is_clear 16 mode && is_clear 8 mode && is_clear 2 mode && is_clear 1 mode

mask_table : agree_below (λ x. bit_and x 0x5b == 0) is_private 512 ≡ true
unfolding agree_below is_private
mask_table = refl

mask_lem : (mode : ℕ) → (bit_and (mode % 512) 0x5b == 0) ≡ is_private (mode % 512)
mask_lem mode =
    agree_below_lem (λ x. bit_and x 0x5b == 0) is_private 512 (mode % 512) (omega arith) mask_table

-- A file that only root can have written: root's, and with no such bit.
abbrev pub IsRootOnly : Metadata → Type 0
IsRootOnly metadata =
    (metadata.uid ≡ 0)
    × (metadata.mode / 64 % 2 ≡ 0)
    × (metadata.mode / 16 % 2 ≡ 0)
    × (metadata.mode / 8 % 2 ≡ 0)
    × (metadata.mode / 2 % 2 ≡ 0)
    × (metadata.mode % 2 ≡ 0)

private_lem :
    (mode : ℕ)
    → (is_private (mode % 512) ≡ true) ↔ (
        (mode / 64 % 2 ≡ 0)
        × (mode / 16 % 2 ≡ 0)
        × (mode / 8 % 2 ≡ 0)
        × (mode / 2 % 2 ≡ 0)
        × (mode % 2 ≡ 0))
unfolding is_private
private_lem mode = ground arith

pub metadata_is_secure_iff :
    (metadata : Metadata) → (metadata_is_secure metadata ≡ true) ↔ IsRootOnly metadata
unfolding metadata_is_secure
metadata_is_secure_iff metadata = ground (arith, mask_lem metadata.mode, private_lem metadata.mode)

to_option-some : (r : PinResult PinPolicy) (p : PinPolicy) → to_option r ≡ some p → r ≡ ok p
to_option-some (ok q) p h = cc
to_option-some (err e) p h = cc
to_option-some panic p h = cc

-- What makes a file the policy.
pub record IsSource (host : Host) (path : Text) (p : PinPolicy) : Type 0 where
  pub file : OpenFile
  pub metadata : Metadata
  pub contents : Text
  pub opened : host.open_file path ≡ inr file
  pub described : file.metadata ≡ inr metadata
  pub regular : metadata.is_file ≡ true
  pub root_only : IsRootOnly metadata
  pub loaded : file.contents ≡ inr contents
  pub parsed : parse_config host contents ≡ ok p

module _ (host : Host) (path : Text) (p : PinPolicy) where
  from_contents :
      (file : OpenFile) (metadata : Metadata) (r : ℕ ⊎ Text)
      → file.contents ≡ r
      → host.open_file path ≡ inr file
      → file.metadata ≡ inr metadata
      → metadata.is_file ≡ true
      → metadata_is_secure metadata ≡ true
      → parse_read host (read_contents r) ≡ some p
      → IsSource host path p
  unfolding parse_read read_contents
  from_contents file metadata (inl e) c o d f s h = cc
  from_contents file metadata (inr contents) c o d f s h = record {
    file = file;
    metadata = metadata;
    contents = contents;
    opened = o;
    described = d;
    regular = f;
    root_only = (metadata_is_secure_iff metadata).0 s;
    loaded = c;
    parsed = to_option-some (parse_config host contents) p h;
  }

  from_checked :
      (file : OpenFile) (m : ℕ ⊎ Metadata)
      → file.metadata ≡ m
      → host.open_file path ≡ inr file
      → parse_read host (read_checked file m) ≡ some p
      → IsSource host path p
  unfolding read_checked parse_read
  from_checked file (inl e) d o h = cc
  from_checked file (inr metadata) d o h = elim (Bool-cases metadata.is_file) [
    | inl f ↦ elim (Bool-cases (metadata_is_secure metadata)) [
      | inl s ↦ from_contents file metadata file.contents refl o d f s (rw (f, s) at h)
      | inr s ↦ cc
    ]
    | inr f ↦ cc
  ]

  from_opened :
      (r : ℕ ⊎ OpenFile)
      → host.open_file path ≡ r
      → parse_read host (read_opened r) ≡ some p
      → IsSource host path p
  unfolding read_opened parse_read
  from_opened (inl e) o h = cc
  from_opened (inr file) o h = from_checked file file.metadata refl o h

  to_loaded : IsSource host path p → load_from_path host path ≡ some p
  unfolding load_from_path read_policy_if_secure read_opened read_checked read_contents parse_read
  to_loaded h =
      rw
        (
          h.opened,
          h.described,
          h.regular,
          (metadata_is_secure_iff h.metadata).1 h.root_only,
          h.loaded,
          h.parsed,
        )
        refl

  -- A path gives a policy exactly when the file opens, is regular, belongs to root, has no
  -- execution bit and no write bit for group and others, and its text parses to that policy.
  pub load_from_path_iff : (load_from_path host path ≡ some p) ↔ IsSource host path p
  unfolding load_from_path read_policy_if_secure
  load_from_path_iff = (from_opened (host.open_file path) refl, to_loaded)
