-- ===== src/Core/Util.antt =====
-- pinpam-core/src/util.rs: the PIN format of v0.0.3, and who may act on whose PIN.
use pinpam.Base.{
  ℕ, Bool, ◌||◌, [], ◌∷◌, Option, none, some, ok_or, ◌⊎◌, inl, inr, ◌≡◌, refl, ok, err, is_empty,
  ◌==◌, if◌then◌else◌,
}
use pinpam.Base.Text.{Text, trim_start_matches}
use pinpam.Core.Error.{PinResult, user_not_found}

-- `normalize_legacy_pin`
unfoldable pub normalize_legacy_pin : Text → Text
normalize_legacy_pin pin =
    let normalized = trim_start_matches b'0' pin in
    if is_empty normalized then b'0' ∷ [] else normalized

-- Who runs the process: `getuid`, `geteuid`, and the user database as `nix` reads it. A lookup by
-- name may fail, or find nobody.
pub record Caller : Type 0 where
  pub uid : ℕ
  pub euid : ℕ
  pub from_name : Text → ℕ ⊎ Option ℕ
  pub from_uid : ℕ → ℕ ⊎ Option Text

-- `can_manage_pin`
unfoldable pub can_manage_pin : Caller → ℕ → Bool
can_manage_pin c target_uid = c.uid == 0 || c.uid == target_uid

-- `can_attempt_pin`
unfoldable pub can_attempt_pin : Caller → ℕ → Bool
can_attempt_pin c target_uid = c.euid == 0 || c.uid == target_uid

-- The user that a lookup by name has found.
found_uid : ℕ ⊎ Option ℕ → PinResult ℕ
found_uid (inl e) = err user_not_found
found_uid (inr user) = ok_or user user_not_found

-- `get_uid_from_username`
unfoldable pub get_uid_from_username : Caller → Text → PinResult ℕ
unfolding found_uid
get_uid_from_username c username = found_uid (c.from_name username)

-- The user that a lookup by uid has found, if it succeeded.
found_name : ℕ ⊎ Option Text → Option Text
found_name (inl e) = none
found_name (inr user) = user

-- `get_username_from_uid`
unfoldable pub get_username_from_uid : Caller → ℕ → Option Text
unfolding found_name
get_username_from_uid c uid = found_name (c.from_uid uid)

found_uid_total :
    (found : ℕ ⊎ Option ℕ)
    → ((uid : ℕ) × (found_uid found ≡ ok uid)) ⊎ (found_uid found ≡ err user_not_found)
unfolding found_uid
found_uid_total (inl e) = inr refl
found_uid_total (inr none) = inr refl
found_uid_total (inr (some uid)) = inl (uid, refl)

-- A lookup by name ends: with a uid, or with `UserNotFound`.
pub get_uid_from_username_total :
    (c : Caller) (username : Text)
    → ((uid : ℕ) × (get_uid_from_username c username ≡ ok uid))
      ⊎ (get_uid_from_username c username ≡ err user_not_found)
unfolding get_uid_from_username
get_uid_from_username_total c username = found_uid_total (c.from_name username)
