-- ===== src/Core/Index.antt =====
-- pinpam-core/src/pinindex.rs: the NV indices of a user's PIN slot and version tag.
pub mod Disjoint
use pinpam.Base.{
  ℕ, ◌+◌, ◌^◌, Option, none, some, ok_or, and_then, map_err, err, Outcome, ltb, if◌then◌else◌,
}
use pinpam.Core.Consts.{pin_nv_index_base, pin_version_uid_max, pin_version_nv_index_offset}
use pinpam.Core.Error.{PinResult, TssError, from_tss, uid_overflow}

-- `u32::checked_add`
unfoldable pub checked_add : ℕ → ℕ → Option ℕ
checked_add a b = if ltb (a + b) (2 ^ 32) then some (a + b) else none

abbrev bind_option : Option ℕ → (ℕ → Option ℕ) → Option ℕ
bind_option none f = none
bind_option (some a) f = f a

-- `NvIndexTpmHandle::new` is of tss-esapi: it is given as an argument.
module _ (nv_index_tpm_handle : ℕ → Outcome TssError ℕ) where
  -- `nv_index_for_uid`
  unfoldable pub nv_index_for_uid : ℕ → PinResult ℕ
  unfolding checked_add
  nv_index_for_uid uid =
      if ltb pin_version_uid_max uid
      then err (uid_overflow uid)
      else and_then (ok_or (checked_add pin_nv_index_base uid) (uid_overflow uid))
          (λ index_value. map_err from_tss (nv_index_tpm_handle index_value))

  -- `version_nv_index_for_uid`
  unfoldable pub version_nv_index_for_uid : ℕ → PinResult ℕ
  unfolding checked_add
  version_nv_index_for_uid uid =
      if ltb pin_version_uid_max uid
      then err (uid_overflow uid)
      else and_then
          (ok_or
            (bind_option (checked_add pin_nv_index_base pin_version_nv_index_offset)
              (λ base. checked_add base uid))
            (uid_overflow uid))
          (λ index_value. map_err from_tss (nv_index_tpm_handle index_value))
