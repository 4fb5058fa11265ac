-- ===== src/Core/Tpm/Laws/Spec.antt =====
-- The documented effect of each NV command, as a function of the index that it names.
use pinpam.Base.{
  length, list_eq_iff, list_eq_ne, lt→ltb, le→ltb, ◌<◌, ◌≤◌, ℕ, Bool, false, Option, none, some,
  List, [], ◌++◌, Outcome, ok, err, ◌==◌, ltb, list_eq, ◌≡◌, ◌⊎◌, ◌+◌, ◌≢◌, arith, if◌then◌else◌,
}
use pinpam.Core.Error.{
  TssError, ResponseKind, tss2_error, handle, nv_uninitialized, auth_fail, bad_auth,
}
use pinpam.Core.PinData.{be_bytes}
use pinpam.Core.Tpm.{NvPublic, NvIndexType, ordinary, pin_fail}
use mathlib.Core.Path.{fun_ext}

-- `TPMS_NV_PIN_COUNTER_PARAMETERS`: two `UINT32`.
pub record Counter : Type 0 where
  pub count : ℕ
  pub limit : ℕ

pub data NvIndex (Digest : Type 0) : Type 0 where
  pin_slot : List ℕ → Digest → Option Counter → NvIndex Digest
  data_area : Option (List ℕ) → NvIndex Digest

abbrev pub Store : Type 0 → Type 0
Store Digest = ℕ → Option (NvIndex Digest)

abbrev pub put : {Digest : Type 0} → Store Digest → ℕ → Option (NvIndex Digest) → Store Digest
put v n i k = if n == k then i else v k

-- The error codes that the documents leave to the TPM.
pub record Errors : Type 0 where
  pub wrong_auth : ResponseKind
  pub unavailable : Option ResponseKind
  -- of a definition, by the authorisation value that it names
  pub refused : List ℕ → Option ResponseKind

abbrev pub IsAuthError : ResponseKind → Type 0
IsAuthError k = (k ≡ auth_fail) ⊎ (k ≡ bad_auth)

-- How a policy digest is extended by the two assertions that the program makes.
pub record Digests (Digest : Type 0) : Type 0 where
  pub no_assertion : Digest
  pub command_code_nv_write : Digest → Digest
  pub nv_written : Bool → Digest → Digest

-- The greatest authorisation value that tss-esapi takes, the greatest that an index can have, which
-- is the digest of its name algorithm, SHA-256, and the greatest write, in bytes.
abbrev pub max_auth : ℕ
max_auth = 64

abbrev pub max_index_auth : ℕ
max_index_auth = 32

abbrev pub max_buffer : ℕ
max_buffer = 2048

-- The counters as the TPM gives them out and takes them.
abbrev pub counter_bytes : Counter → List ℕ
counter_bytes c = be_bytes c.count ++ be_bytes c.limit

abbrev pub seen :
    {S Ident Digest : Type 0}
    → (S → Store Digest)
    → (S → Ident → Digest)
    → S
    → Store Digest × (Ident → Digest)
seen nv policy_of s = (nv s, policy_of s)

abbrev or_empty : Option (List ℕ) → List ℕ
or_empty none = []
or_empty (some a) = a

-- The policy of a PIN slot: `NvWrite` alone, and only while nothing was written.
abbrev pub write_once : {Digest : Type 0} → Digests Digest → Digest
write_once d = d.nv_written false (d.command_code_nv_write d.no_assertion)

module _ {Digest : Type 0} where
  abbrev pub locate : {Handle : Type 0} → Handle → Option (NvIndex Digest) → Outcome TssError Handle
  locate h none = err (tss2_error (some handle))
  locate h (some i) = ok h

  -- A read by the owner.
  abbrev pub contents : Option (NvIndex Digest) → Outcome TssError (List ℕ)
  contents none = err (tss2_error (some handle))
  contents (some (pin_slot auth d none)) = err (tss2_error (some nv_uninitialized))
  contents (some (pin_slot auth d (some c))) = ok (counter_bytes c)
  contents (some (data_area none)) = err (tss2_error (some nv_uninitialized))
  contents (some (data_area (some b))) = ok b

  -- A read with the index's own authorisation: the TPM counts a failure, clears the counter on
  -- success, and refuses both once the limit is reached.
  abbrev pub attempt_slot :
      Errors
      → List ℕ
      → List ℕ
      → Digest
      → Counter
      → Outcome TssError (List ℕ) × Option (NvIndex Digest)
  attempt_slot e guess auth d c =
      if ltb c.count c.limit
      then (if list_eq guess auth
          then (
            ok (counter_bytes (record c { count = 0 })),
            some (pin_slot auth d (some (record c { count = 0 }))),
          )
          else (
            err (tss2_error (some e.wrong_auth)),
            some (pin_slot auth d (some (record c { count = c.count + 1 }))),
          ))
      else (err (tss2_error e.unavailable), some (pin_slot auth d (some c)))

  abbrev pub attempt :
      Errors
      → List ℕ
      → Option (NvIndex Digest)
      → Outcome TssError (List ℕ) × Option (NvIndex Digest)
  attempt e guess none = (err (tss2_error (some handle)), none)
  attempt e guess (some (pin_slot auth d none)) =
      (err (tss2_error e.unavailable), some (pin_slot auth d none))
  attempt e guess (some (pin_slot auth d (some c))) = attempt_slot e guess auth d c
  attempt e guess (some (data_area b)) = (err (tss2_error e.unavailable), some (data_area b))

  -- A write by the owner: to an ordinary index only.
  abbrev pub owner_write :
      List ℕ → Option (NvIndex Digest) → Outcome TssError (Unit {0}) × Option (NvIndex Digest)
  owner_write b none = (err (tss2_error (some handle)), none)
  owner_write b (some (data_area old)) = (ok tt, some (data_area (some b)))
  owner_write b (some (pin_slot auth d c)) = (err (tss2_error none), some (pin_slot auth d c))

  abbrev or_policy : Digest → Option Digest → Digest
  or_policy d none = d
  or_policy d (some e) = e

  abbrev fresh : NvIndexType → List ℕ → Digest → NvIndex Digest
  fresh ordinary auth d = data_area none
  fresh pin_fail auth d = pin_slot auth d none

  -- A definition: of an index that is not there, with an authorisation value that it can have.
  abbrev pub define :
      Errors
      → Digest
      → Option (List ℕ)
      → NvPublic Digest
      → Option (NvIndex Digest)
      → Outcome TssError (Unit {0}) × Option (NvIndex Digest)
  define e d auth p none =
      if ltb max_index_auth (length (or_empty auth))
      then (err (tss2_error (e.refused (or_empty auth))), none)
      else (
        ok tt,
        some (fresh p.attributes.nv_index_type (or_empty auth) (or_policy d p.auth_policy)),
      )
  define e d auth p (some i) = (err (tss2_error (e.refused (or_empty auth))), some i)

  abbrev pub undefined : Option (NvIndex Digest) → Outcome TssError (Unit {0})
  undefined none = err (tss2_error (some handle))
  undefined (some i) = ok tt

  pub put_self : (v : Store Digest) (n : ℕ) → put v n (v n) ≡ v
  put_self v n = fun_ext λ k. ground arith

  pub put-at : (v : Store Digest) (n : ℕ) (i : Option (NvIndex Digest)) → put v n i n ≡ i
  put-at v n i = ground arith

  pub put-at_ne :
      (v : Store Digest) (n k : ℕ) (i : Option (NvIndex Digest)) → n ≢ k → put v n i k ≡ v k
  put-at_ne v n k i h = ground arith

  pub put-put :
      (v : Store Digest) (n : ℕ) (i j : Option (NvIndex Digest)) → put (put v n i) n j ≡ put v n j
  put-put v n i j = fun_ext λ k. ground arith

  module _ (e : Errors) (auth : List ℕ) (d : Digest) (k : Counter) where
    pub attempt_right :
        (guess : List ℕ)
        → k.count < k.limit
        → guess ≡ auth
        → attempt_slot e guess auth d k ≡ (
          ok (counter_bytes (record k { count = 0 })),
          some (pin_slot auth d (some (record k { count = 0 }))),
        )
    attempt_right guess left right =
        rw (lt→ltb k.count k.limit left, (list_eq_iff guess auth).1 right)

    pub attempt_wrong :
        (guess : List ℕ)
        → k.count < k.limit
        → guess ≢ auth
        → attempt_slot e guess auth d k ≡ (
          err (tss2_error (some e.wrong_auth)),
          some (pin_slot auth d (some (record k { count = k.count + 1 }))),
        )
    attempt_wrong guess left wrong = rw (lt→ltb k.count k.limit left, list_eq_ne guess auth wrong)

    -- Once the limit is reached the TPM does not look at the guess.
    pub attempt_locked :
        (guess : List ℕ)
        → k.limit ≤ k.count
        → attempt_slot e guess auth d k
          ≡ (err (tss2_error e.unavailable), some (pin_slot auth d (some k)))
    attempt_locked guess full = rw (le→ltb k.limit k.count full)
