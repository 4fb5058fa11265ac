-- ===== src/Core/Index/Disjoint.antt =====
-- Where the indices of a user stand, against those of the others (pinpam-core/src/pinindex.rs).
use pinpam.Base.{ℕ, ◌+◌, ◌^◌, ◌≤◌, ◌<◌, ◌≡◌, ◌≢◌, ◌↔◌, ok, err, Outcome, arith}
use native.Mathlib.Decide.{dec_lt}
use pinpam.Core.Consts.{pin_nv_index_base, pin_version_uid_max, pin_version_nv_index_offset}
use pinpam.Core.Error.{TssError, uid_overflow}
use pinpam.Core.Index.{nv_index_for_uid, version_nv_index_for_uid, checked_add}

abbrev pub slot_index : ℕ → ℕ
slot_index uid = pin_nv_index_base + uid

abbrev pub tag_index : ℕ → ℕ
tag_index uid = pin_nv_index_base + pin_version_nv_index_offset + uid

-- What tss-esapi documents of `NvIndexTpmHandle::new`.
abbrev pub AcceptsNvRange : (ℕ → Outcome TssError ℕ) → Type 0
AcceptsNvRange new_handle =
    (n : ℕ) → pin_nv_index_base ≤ n → n < pin_nv_index_base + 2 ^ 24 → new_handle n ≡ ok n

module _ (new_handle : ℕ → Outcome TssError ℕ) (accepts : AcceptsNvRange new_handle) where
  pub nv_index_for_uid-eq :
      (uid : ℕ) → uid ≤ pin_version_uid_max → nv_index_for_uid new_handle uid ≡ ok (slot_index uid)
  unfolding nv_index_for_uid checked_add
  nv_index_for_uid-eq uid h =
      ground (arith, accepts (pin_nv_index_base + uid) (omega arith) (omega arith))

  pub version_nv_index_for_uid-eq :
      (uid : ℕ)
      → uid ≤ pin_version_uid_max
      → version_nv_index_for_uid new_handle uid ≡ ok (tag_index uid)
  unfolding version_nv_index_for_uid checked_add
  version_nv_index_for_uid-eq uid h = ground (
    arith,
    accepts (pin_nv_index_base + pin_version_nv_index_offset + uid) (omega arith) (omega arith),
  )

-- For a uid above 0x7fffff both index functions answer `UidOverflow`, whatever tss-esapi says.
pub uid_overflow_both :
    (new_handle : ℕ → Outcome TssError ℕ) (uid : ℕ)
    → pin_version_uid_max < uid
    → (nv_index_for_uid new_handle uid ≡ err (uid_overflow uid))
      × (version_nv_index_for_uid new_handle uid ≡ err (uid_overflow uid))
unfolding nv_index_for_uid version_nv_index_for_uid
uid_overflow_both new_handle uid h = ground arith

slot_of :
    (new_handle : ℕ → Outcome TssError ℕ)
    → AcceptsNvRange new_handle
    → (uid : ℕ) {i : ℕ} → nv_index_for_uid new_handle uid ≡ ok i
    → (i ≡ slot_index uid) × (uid ≤ pin_version_uid_max)
slot_of new_handle accepts uid e = elim (dec_lt pin_version_uid_max uid) [
  | yes over ↦ cc ((uid_overflow_both new_handle uid over).0)
  | no within ↦
      let b : uid ≤ pin_version_uid_max = omega arith in
      (ground (arith, nv_index_for_uid-eq new_handle accepts uid b), b)
]

tag_of :
    (new_handle : ℕ → Outcome TssError ℕ)
    → AcceptsNvRange new_handle
    → (uid : ℕ) {i : ℕ} → version_nv_index_for_uid new_handle uid ≡ ok i
    → (i ≡ tag_index uid) × (uid ≤ pin_version_uid_max)
tag_of new_handle accepts uid e = elim (dec_lt pin_version_uid_max uid) [
  | yes over ↦ cc ((uid_overflow_both new_handle uid over).1)
  | no within ↦
      let b : uid ≤ pin_version_uid_max = omega arith in
      (ground (arith, version_nv_index_for_uid-eq new_handle accepts uid b), b)
]

-- Two users that both index functions give indices to share none: no slot is a tag, and slots, as
-- tags, are equal only for the same user.
pub indices_disjoint :
    (new_handle : ℕ → Outcome TssError ℕ)
    → AcceptsNvRange new_handle
    → (u w i j k l : ℕ) → nv_index_for_uid new_handle u ≡ ok i
    → version_nv_index_for_uid new_handle u ≡ ok j
    → nv_index_for_uid new_handle w ≡ ok k
    → version_nv_index_for_uid new_handle w ≡ ok l
    → (i ≢ l) × (j ≢ k) × ((i ≡ k) ↔ (u ≡ w)) × ((j ≡ l) ↔ (u ≡ w))
indices_disjoint new_handle accepts u w i j k l p q r t = omega (
  arith,
  slot_of new_handle accepts u p,
  tag_of new_handle accepts u q,
  slot_of new_handle accepts w r,
  tag_of new_handle accepts w t,
)
