-- ===== src/Login/Helper.antt =====
-- What the helper does with a status and with a PIN, for a user with an account that has attempts left.
use pinpam.Pinutil.MasterKeys.{handle_result}
use pinpam.Core.Error.{PinResult}
use pinpam.Pinutil.Main.{done, as_value, concluded, resolved, pin_command}
use pinpam.Core.Tpm.Laws.{max_auth}
use pinpam.Core.Manager.Slots.Reads.{data_of}
use pinpam.Core.PinData.{from_pin_data, AttemptInfo, locked}
use pinpam.Core.Consts.{pin_version_uid_max}
use pinpam.Base.{
  ◌^◌, ◌<◌, length, true, sym, ap, ◌∙◌, ◌||◌, arith, ◌==◌, [], some, inr, ◌∷◌, ◌++◌, ◌≤◌, false, ok,
  ◌≡◌, ℕ, Bool, refl, ◌>>=◌, ◌>>◌,
}
use pinpam.Base.Trimmed.{trim-newline}
use pinpam.Base.Text.{Text, trim}
use pinpam.Core.Pin.{Pin, as_str, as_bytes, new}
use pinpam.Core.Pin.Bounds.{new_ok}
use pinpam.Core.Policy.{PinPolicy}
use pinpam.Core.Util.{Caller, get_uid_from_username, can_attempt_pin}
use pinpam.Core.Account.{Account, guess}
use pinpam.Core.Manager.{PinManager, with_tcti}
use pinpam.Core.Manager.Users.{get_pin_slot}
use pinpam.Core.Manager.Users.Effects.{get_pin_slot_ends}
use pinpam.Core.Manager.Connected.{IsConnected, with_tcti_ends}
use pinpam.Core.Manager.Accounts.{Stores, counter_of}
use pinpam.Pinutil.{on_tpm, new_manager, get_attempt_info}
use pinpam.Pinutil.Use.{test_pin, resolve_username, show_status, printed}
use pinpam.Pinutil.Verification.{Reports, test_pin-Guesses}
use pinpam.Login.{attempts, json, first_line, pin_line, on_test, on_status}

abbrev pub has_newline : Text → Bool
has_newline [] = false
has_newline (c ∷ s) = c == b'\n' || has_newline s

first_line-newline :
    (s : Text) → has_newline s ≡ false → first_line (s ++ (b'\n' ∷ [])) ≡ s ++ (b'\n' ∷ [])
unfolding first_line
first_line-newline [] h = refl
first_line-newline (c ∷ s) h = ground (arith, first_line-newline s, h)

-- The helper makes the same PIN of the line that the module made of the user's answer.
pub new-pin_line :
    (input : Text) (policy : PinPolicy) (pin : Pin)
    → new input policy ≡ ok pin
    → has_newline (as_str pin) ≡ false
    → new (pin_line pin) policy ≡ ok pin
unfolding pin_line as_str
new-pin_line input policy pin e h =
    let q = (new_ok input policy pin).0 e in
    let t : trim (pin.text ++ (b'\n' ∷ [])) ≡ pin.text =
      ap (λ u. trim (u ++ (b'\n' ∷ []))) q.1 ∙ trim-newline input ∙ sym q.1 in
    rw (first_line-newline pin.text h)
      ((new_ok (pin.text ++ (b'\n' ∷ [])) policy pin).1 (rw (t ∙ q.1) q.0, sym t))

-- The attempts of an account, as the helper reports them.
abbrev pub info_of : Account → AttemptInfo
info_of a = from_pin_data (data_of (counter_of a))

pub info_of-open :
    (a : Account)
    → a.failures < a.limit
    → a.limit < 2 ^ 31
    → (locked (info_of a) ≡ false) × ((info_of a).used ≡ a.failures) × ((info_of a).limit ≡ a.limit)
unfolding locked from_pin_data
info_of-open a left small = (ground arith, ground arith, ground arith)

pub info_of-spent :
    (a : Account)
    → a.limit ≤ a.failures
    → 0 < a.limit
    → a.limit < 2 ^ 31
    → a.failures ≤ a.limit
    → locked (info_of a) ≡ true
unfolding locked from_pin_data
info_of-spent a spent positive small within = ground arith

module _ (m : PinManager) (c : IsConnected m) (uid : ℕ) (range : uid ≤ pin_version_uid_max)
    (helper : Caller) (username : Text) (found : get_uid_from_username helper username ≡ ok uid)
    (s : m.tpm.State) (a : Account) where
  -- The state after the connection, and after the slot was read.
  abbrev connected_state : m.tpm.State
  connected_state = (with_tcti m s).1

  slot_read :
      Stores m c (c.nv s) uid (some a)
      → ((get_pin_slot m uid connected_state).0 ≡ ok (some (data_of (counter_of a))))
        × (c.nv (get_pin_slot m uid connected_state).1 ≡ c.nv s)
  slot_read (e, t, f) =
      get_pin_slot_ends m c uid range connected_state (c.nv s)
        (with_tcti_ends m c s (c.nv s) refl).1 a.pin _ (counter_of a)
        (record {
          count_word = omega (arith, f.within, f.small);
          limit_word = omega (arith, f.small);
        })
        e

  shown :
      Stores m c (c.nv s) uid (some a)
      → show_status m helper username true (s, [])
        ≡ (ok (some (info_of a)), ((get_pin_slot m uid connected_state).1, []))
  unfolding show_status new_manager get_attempt_info on_tpm printed ◌>>=◌ ◌>>◌
  shown k = rw (found, (with_tcti_ends m c s (c.nv s) refl).0, (slot_read k).0) refl

  pub on_status_ends :
      Stores m c (c.nv s) uid (some a)
      → ((on_status m helper username s).0
          ≡ record { code = 0; stdout = json (ok (attempts (some (info_of a)))) })
        × (c.nv (on_status m helper username s).1 ≡ c.nv s)
  unfolding on_status pin_command resolved concluded resolve_username handle_result
  on_status_ends k = (
    ap (λ q. handle_result true (as_value attempts q.0)) (shown k),
    ap (λ q. c.nv q.1.0) (shown k) ∙ (slot_read k).1,
  )

  pub on_test_ends :
      (pin : Pin)
      → can_attempt_pin helper uid ≡ true
      → new (pin_line pin) m.policy ≡ ok pin
      → length (as_bytes pin) ≤ max_auth
      → Stores m c (c.nv s) uid (some a)
      → a.failures < a.limit
      → (r : PinResult (Unit {0})) × Reports (guess a (as_bytes pin)).0 r
        × ((on_test m helper username pin s).0 ≡ handle_result true (as_value done r))
        × Stores m c
            (c.nv (on_test m helper username pin s).1)
            uid
            (some (guess a (as_bytes pin)).1)
  unfolding on_test pin_command resolved concluded resolve_username
  on_test_ends pin may e fits k left =
      let q =
        test_pin-Guesses m c uid range s a pin [] helper username found may (pin_line pin) e fits k
          left in
      ((test_pin m helper username true (s, inr (pin_line pin) ∷ [])).0, q.0, refl, q.1)
