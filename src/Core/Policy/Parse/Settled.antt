-- ===== src/Core/Policy/Parse/Settled.antt =====
-- What every setting of a policy file keeps true of the policy (pinpam-core/src/pinpolicy.rs).
use pinpam.Core.Consts.{default_pinutil_path}
use pinpam.Base.Text.{codes, Text}
use pinpam.Core.Error.{PinError, PinResult}
use pinpam.Core.Policy.{default, PinPolicy}
use pinpam.Base.{
  list_eq, ◌-◌, ◌+◌, ◌*◌, ok_or, List, ◌⊎◌, is_empty, Bool-cases, ◌≡◌, and_then, ◌<◌, ◌^◌, Option,
  ℕ, true, false, none, some, ok, err, panic, inl, inr, refl, arith, [], ◌∷◌,
}
use pinpam.Base.Split.{digits, parse_uint, split_once, split_whitespace}
use pinpam.Core.Policy.Parse.{
  invalid_param, Metadata, Host, parse_config, set_parts, set_part, set_pair, set_key, number,
  regular, parse_pinutil_path, parse_tcti_setting, is_absolute,
}

digits-lt :
    (limit acc : ℕ) (s : Text) (n : ℕ) → acc < limit → digits limit acc s ≡ some n → n < limit
unfolding digits
digits-lt limit acc [] n h e = ground (arith, e)
digits-lt limit acc (c ∷ s) n h e = ground (arith, digits-lt limit (acc * 10 + (c - b'0')) s n)

parse_uint-lt : (limit : ℕ) (s : Text) (n : ℕ) → 0 < limit → parse_uint limit s ≡ some n → n < limit
unfolding parse_uint
parse_uint-lt limit [] n h e = cc
parse_uint-lt limit (c ∷ []) n h e = digits-lt limit 0 (c ∷ []) n h e
parse_uint-lt limit (c ∷ d ∷ s) n h e =
    ground (arith, digits-lt limit 0 (d ∷ s) n, digits-lt limit 0 (c ∷ d ∷ s) n)

-- A fact about the result, if there is one.
abbrev Gives : {A : Type 0} → (A → Type 0) → PinResult A → Type 0
Gives P (ok a) = P a
Gives P (err e) = Unit
Gives P panic = Unit

Gives-and_then :
    {A B : Type 0} (P : A → Type 0) (Q : B → Type 0) (r : PinResult A) (f : A → PinResult B)
    → Gives P r
    → ((a : A) → P a → Gives Q (f a))
    → Gives Q (and_then r f)
Gives-and_then P Q (ok a) f h k = k a h
Gives-and_then P Q (err e) f h k = tt
Gives-and_then P Q panic f h k = tt

Gives-ok_or :
    {A : Type 0} (P : A → Type 0) (o : Option A) (e : PinError)
    → ((a : A) → o ≡ some a → P a)
    → Gives P (ok_or o e)
Gives-ok_or P none e h = tt
Gives-ok_or P (some a) e h = h a refl

-- A path that names a regular file, from the root.
abbrev pub IsHelper : Host → Text → Type 0
IsHelper host path =
    (is_absolute path ≡ true)
    × (metadata : Metadata) × (host.metadata path ≡ inr metadata)
    × (metadata.is_file ≡ true)

abbrev pub IsSpec : Host → Option Text → Type 0
IsSpec host none = Unit
IsSpec host (some spec) = (is_empty spec ≡ false) × (host.parse_tcti_spec spec ≡ ok tt)

abbrev pub IsSize : Option ℕ → Type 0
IsSize none = Unit
IsSize (some n) = n < 2 ^ 64

-- The numbers fit their types, the helper is the default or was found, and the TCTI can be parsed.
pub record IsSettled (host : Host) (p : PinPolicy) : Type 0 where
  pub min_size : p.min_length < 2 ^ 64
  pub max_size : IsSize p.max_length
  pub attempts : p.max_attempts < 2 ^ 32
  pub helper : (p.pinutil_path ≡ default_pinutil_path) ⊎ IsHelper host p.pinutil_path
  pub spec : IsSpec host p.tcti

number-Gives : (limit : ℕ) (value : Text) → 0 < limit → Gives (λ n. n < limit) (number limit value)
unfolding number
number-Gives limit value h =
    Gives-ok_or (λ n. n < limit) (parse_uint limit value) invalid_param
      (λ n e. parse_uint-lt limit value n h e)

module _ (host : Host) where
  regular-Gives :
      (path : Text) (m : ℕ ⊎ Metadata)
      → host.metadata path ≡ m
      → is_absolute path ≡ true
      → Gives (IsHelper host) (regular path m)
  unfolding regular
  regular-Gives path (inl e) h a = tt
  regular-Gives path (inr metadata) h a = elim (Bool-cases metadata.is_file) [
    | inl e ↦ rw e (a, metadata, h, e)
    | inr e ↦ rw e tt
  ]

  path-Gives : (value : Text) → Gives (IsHelper host) (parse_pinutil_path host value)
  unfolding parse_pinutil_path
  path-Gives value = elim (Bool-cases (is_absolute value)) [
    | inl e ↦ rw e (regular-Gives value (host.metadata value) refl e)
    | inr e ↦ rw e tt
  ]

  parsed-Gives :
      (value : Text) (r : PinResult (Unit {0}))
      → host.parse_tcti_spec value ≡ r
      → is_empty value ≡ false
      → Gives (λ spec. IsSpec host (some spec)) (and_then r (λ _. ok value))
  parsed-Gives value (ok done) h e = (e, h)
  parsed-Gives value (err x) h e = tt
  parsed-Gives value panic h e = tt

  spec-Gives :
      (value : Text) → Gives (λ spec. IsSpec host (some spec)) (parse_tcti_setting host value)
  unfolding parse_tcti_setting
  spec-Gives value = elim (Bool-cases (is_empty value)) [
    | inl e ↦ rw e tt
    | inr e ↦ rw e (parsed-Gives value (host.parse_tcti_spec value) refl e)
  ]

  Gives-setting :
      {A : Type 0} (P : A → Type 0) (r : PinResult A) (update : A → PinPolicy)
      → Gives P r
      → ((a : A) → P a → IsSettled host (update a))
      → Gives (IsSettled host) (and_then r (λ a. ok (update a)))
  Gives-setting P (ok a) update h k = k a h
  Gives-setting P (err e) update h k = tt
  Gives-setting P panic update h k = tt

  set_key-Gives :
      (p : PinPolicy) (key value : Text)
      → IsSettled host p
      → Gives (IsSettled host) (set_key host p key value)
  unfolding set_key
  set_key-Gives p key value h = elim (Bool-cases (list_eq key (codes "pin_min_length"))) [
    | inl e ↦ rw e (
        Gives-setting (λ n. n < 2 ^ 64) (number (2 ^ 64) value) (λ n. record p { min_length = n })
          (number-Gives (2 ^ 64) value (omega arith))
          λ n k. record {
            min_size = k;
            max_size = h.max_size;
            attempts = h.attempts;
            helper = h.helper;
            spec = h.spec;
          })
    | inr e ↦ rw e (elim (Bool-cases (list_eq key (codes "pin_max_length"))) [
      | inl e ↦ rw e (
          Gives-setting (λ n. n < 2 ^ 64) (number (2 ^ 64) value)
            (λ n. record p { max_length = some n }) (number-Gives (2 ^ 64) value (omega arith))
            λ n k. record {
              min_size = h.min_size;
              max_size = k;
              attempts = h.attempts;
              helper = h.helper;
              spec = h.spec;
            })
      | inr e ↦ rw e (elim (Bool-cases (list_eq key (codes "pin_lockout_max_attempts"))) [
        | inl e ↦ rw e (
            Gives-setting (λ n. n < 2 ^ 32) (number (2 ^ 32) value)
              (λ n. record p { max_attempts = n }) (number-Gives (2 ^ 32) value (omega arith))
              λ n k. record {
                min_size = h.min_size;
                max_size = h.max_size;
                attempts = k;
                helper = h.helper;
                spec = h.spec;
              })
        | inr e ↦ rw e (elim (Bool-cases (list_eq key (codes "pinutil_path"))) [
          | inl e ↦ rw e (
              Gives-setting (IsHelper host) (parse_pinutil_path host value)
                (λ path. record p { pinutil_path = path }) (path-Gives value)
                λ path k. record {
                  min_size = h.min_size;
                  max_size = h.max_size;
                  attempts = h.attempts;
                  helper = inr k;
                  spec = h.spec;
                })
          | inr e ↦ rw e (elim (Bool-cases (list_eq key (codes "tcti"))) [
            | inl e ↦ rw e (
                Gives-setting (λ spec. IsSpec host (some spec)) (parse_tcti_setting host value)
                  (λ spec. record p { tcti = some spec }) (spec-Gives value)
                  λ spec k. record {
                    min_size = h.min_size;
                    max_size = h.max_size;
                    attempts = h.attempts;
                    helper = h.helper;
                    spec = k;
                  })
            | inr e ↦ rw e (h)
          ])
        ])
      ])
    ])
  ]

  set_pair-Gives :
      (p : PinPolicy) (pair : Option (Text × Text))
      → IsSettled host p
      → Gives (IsSettled host) (set_pair host p pair)
  unfolding set_pair
  set_pair-Gives p none h = tt
  set_pair-Gives p (some (key, value)) h = set_key-Gives p key value h

  set_parts-Gives :
      (p : PinPolicy) (parts : List Text)
      → IsSettled host p
      → Gives (IsSettled host) (set_parts host p parts)
  unfolding set_parts set_part
  set_parts-Gives p [] h = h
  set_parts-Gives p (part ∷ parts) h =
      Gives-and_then (IsSettled host) (IsSettled host) _ _
        (set_pair-Gives p (split_once b'=' part) h) λ q k. set_parts-Gives q parts k

  pub parse_config-IsSettled :
      (config : Text) (p : PinPolicy) → parse_config host config ≡ ok p → IsSettled host p
  unfolding parse_config
  parse_config-IsSettled config p e = rw e at (
      set_parts-Gives default (split_whitespace config) (record {
        min_size = omega arith;
        max_size = omega arith;
        attempts = omega arith;
        helper = inl refl;
        spec = tt;
      }))
