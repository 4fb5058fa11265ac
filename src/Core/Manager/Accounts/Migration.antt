-- ===== src/Core/Manager/Accounts/Migration.antt =====
-- The migration of a PIN to the current format (`migrate_legacy_pin_format`).
use pinpam.Core.Manager.Accounts.Setup.{set_result, set_account, is_long}
use pinpam.Core.Tpm.Chain.{cease, follow}
use pinpam.Core.Manager.Slots.Defines.{new_counter}
use pinpam.Core.Manager.Accounts.{Untouched, Stores}
use pinpam.Core.Index.Disjoint.{tag_index, slot_index}
use pinpam.Core.Consts.{pin_version_current, pin_version_uid_max}
use pinpam.Core.Account.{Account}
use pinpam.Core.Util.{normalize_legacy_pin}
use pinpam.Core.Manager.Connected.{restart_context_ends, Results, Holds, IsConnected}
use pinpam.Core.Tpm.Laws.{
  max_index_auth, put-at, put-at_ne, put, write_once, pin_slot, Store, max_auth, Counter,
}
use pinpam.Core.Manager.{PinManager}
use pinpam.Core.Pin.{as_str, as_bytes, Pin}
use pinpam.Base.{
  pure, on_result, ltb→lt, Option, Outcome, ◌∙◌, list_eq_sound, ap, Bool-cases, ◌^◌, ◌<◌, length,
  if◌then◌else◌, list_eq, ◌≤◌, List, Bool, ℕ, ◌≡◌, refl, ok, err, some, none, inl, inr, true, false,
  arith,
}
use pinpam.Core.Error.{tss2_error, from_tss, PinError}
use pinpam.Core.Manager.Users.{migrate_legacy_pin_format}
use pinpam.Core.Manager.Tags.Effects.{write_pin_version_tag_ends}
use pinpam.Core.Manager.Users.Effects.{
  setup_pin_long, delete_pin_admin_ends, setup_pin_ends, current_tag,
}
use pinpam.Base.Text
use pinpam.Core.Manager.Connected.{Holds}

-- The PIN as the old format stored it.
abbrev pub old_bytes : Pin → List ℕ
old_bytes pin = pinpam.Base.Text.as_bytes (normalize_legacy_pin (as_str pin))

-- Whether the old format stored the PIN as it was entered.
abbrev pub is_same : Pin → Bool
is_same pin = list_eq (normalize_legacy_pin (as_str pin)) (as_str pin)

-- The account after the migration: a PIN that must be stored again gets the policy's limit.
-- A PIN that must be stored again, and is too long for an index, is lost.
abbrev pub migrated : PinManager → Pin → Counter → Option Account
migrated m pin k =
    if is_same pin
    then some (record { pin = as_bytes pin; failures = 0; limit = k.limit })
    else set_account m pin

-- What the migration leaves.
abbrev pub moved :
    (m : PinManager) (c : IsConnected m) → ℕ → Pin → Store m.tpm.Digest → Store m.tpm.Digest
moved m c uid pin v =
    if is_same pin
    then put v (tag_index uid) current_tag
    else if is_long pin
    then put (put v (slot_index uid) none) (tag_index uid) none
    else put
        (put (put (put v (slot_index uid) none) (tag_index uid) none) (slot_index uid)
          (some (pin_slot (as_bytes pin) (write_once c.digests) (some (new_counter m c)))))
        (tag_index uid) current_tag

-- What the migration answers.
abbrev pub move_result : (m : PinManager) → IsConnected m → Pin → Outcome PinError (Unit {0})
move_result m c pin = if is_same pin then ok tt else set_result m c pin

module _ (m : PinManager) (c : IsConnected m) (uid : ℕ) (range : uid ≤ pin_version_uid_max)
    (pin : Pin) (fits : length (as_bytes pin) ≤ max_auth) (small : m.policy.max_attempts < 2 ^ 31)
    (k : Counter) (v : Store m.tpm.Digest)
    (e : v (slot_index uid) ≡ some (pin_slot (old_bytes pin) (write_once c.digests) (some k)))
    (t : v (tag_index uid) ≡ none) where
  open m use {tpm}

  migrate_same :
      (s : tpm.State)
      → Holds m c s v
      → is_same pin ≡ true
      → Results m c
          (migrate_legacy_pin_format m uid pin)
          s
          (ok tt)
          (put v (tag_index uid) current_tag)
  unfolding migrate_legacy_pin_format
  migrate_same s h same =
      rw same (write_pin_version_tag_ends m c uid pin_version_current s v range h (inl t))

  migrate_other :
      (s : tpm.State)
      → Holds m c s v
      → is_same pin ≡ false
      → length (as_bytes pin) ≤ max_index_auth
      → Results m c (migrate_legacy_pin_format m uid pin) s (ok tt) (
          put
            (put
              (put (put v (slot_index uid) none) (tag_index uid) none)
              (slot_index uid)
              (some (pin_slot (as_bytes pin) (write_once c.digests) (some (new_counter m c)))))
            (tag_index uid)
            current_tag)
  unfolding migrate_legacy_pin_format
  migrate_other s h other short = rw other (
      follow c.nv _ _ s (delete_pin_admin_ends m c uid range s v h _ e) λ s₁ h₁.
        follow c.nv _ _ s₁ (restart_context_ends m c s₁ _ h₁) λ s₂ h₂.
          follow c.nv _ _ s₂
            (setup_pin_ends m c uid range s₂ _ h₂ pin (omega arith) short (ground arith)
              (inl (ground arith)))
            λ s₃ h₃. restart_context_ends m c s₃ _ h₃)

  migrate_long :
      (s : tpm.State)
      → Holds m c s v
      → is_same pin ≡ false
      → max_index_auth < length (as_bytes pin)
      → Results m c
          (migrate_legacy_pin_format m uid pin)
          s
          (err (from_tss (tss2_error (c.errors.refused (as_bytes pin)))))
          (put (put v (slot_index uid) none) (tag_index uid) none)
  unfolding migrate_legacy_pin_format
  migrate_long s h other long = rw other (
      follow c.nv _ _ s (delete_pin_admin_ends m c uid range s v h _ e) λ s₁ h₁.
        follow c.nv _ _ s₁ (restart_context_ends m c s₁ _ h₁) λ s₂ h₂.
          cease c.nv _ _ s₂ (setup_pin_long m c uid range s₂ _ h₂ pin long fits (ground arith)))

  pub migrate_ends :
      (s : tpm.State)
      → Holds m c s v
      → Results m c
          (migrate_legacy_pin_format m uid pin)
          s
          (move_result m c pin)
          (moved m c uid pin v)
  migrate_ends s h = elim (Bool-cases (is_same pin)) [
    | inl same ↦ rw same (migrate_same s h same)
    | inr other ↦ elim (Bool-cases (is_long pin)) [
      | inl long ↦
          rw (other, long)
            (migrate_long s h other (ltb→lt max_index_auth (length (as_bytes pin)) long))
      | inr short ↦ rw (other, short) (migrate_other s h other (ground (arith, short)))
    ]
  ]

  same_bytes : is_same pin ≡ true → old_bytes pin ≡ as_bytes pin
  unfolding as_bytes as_str
  same_bytes same = ap pinpam.Base.Text.as_bytes (list_eq_sound _ _ same)

  pub moved-Stores :
      k.count ≡ 0 → k.limit < 2 ^ 31 → Stores m c (moved m c uid pin v) uid (migrated m pin k)
  moved-Stores zero_count low = elim (Bool-cases (is_same pin)) [
    | inl same ↦ rw same (
      put-at_ne v (tag_index uid) (slot_index uid) _ (omega arith)
          ∙ e
          ∙ rw (same_bytes same, zero_count) refl,
      put-at v (tag_index uid) _,
      record { within = omega arith; small = low },
    )
    | inr other ↦ elim (Bool-cases (is_long pin)) [
      | inl long ↦ rw (other, long) (ground arith, ground arith)
      | inr short ↦
          rw (other, short)
            (ground arith, ground arith, record { within = omega arith; small = small })
    ]
  ]

  pub moved-Untouched : Untouched m c uid v (moved m c uid pin v)
  moved-Untouched w r ne = elim (Bool-cases (is_same pin)) [
    | inl same ↦ rw same (
      put-at_ne v (tag_index uid) (slot_index w) _ (omega arith),
      put-at_ne v (tag_index uid) (tag_index w) _ (omega arith),
    )
    | inr other ↦ elim (Bool-cases (is_long pin)) [
      | inl long ↦ rw (other, long) (ground arith, ground arith)
      | inr short ↦ rw (other, short) (ground arith, ground arith)
    ]
  ]
