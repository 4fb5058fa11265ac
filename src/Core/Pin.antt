-- ===== src/Core/Pin.antt =====
-- pinpam-core/src/pin.rs. A `Pin` is the text that `new` has normalised and checked.
pub mod Bounds
pub mod Refusal
use pinpam.Base.{List, ℕ, ok, and_then}
use pinpam.Base.Text
use pinpam.Base.Text.{Text, trim}
use pinpam.Core.Error.{PinResult}
use pinpam.Core.Policy.{PinPolicy, validate}

pub record Pin : Type 0 where
  pub text : Text

-- `Pin::new`
unfoldable pub new : Text → PinPolicy → PinResult Pin
new input policy =
    let normalized = trim input in
    and_then (validate policy normalized) (λ _. ok (record { text = normalized }))

-- `Pin::as_bytes`
unfoldable pub as_bytes : Pin → List ℕ
as_bytes pin = Text.as_bytes pin.text

-- `Pin::as_str`
unfoldable pub as_str : Pin → Text
as_str pin = pin.text
