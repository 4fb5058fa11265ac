-- ===== src/Core/Manager/History.antt =====
-- Runs of calls to the manager, for any users and in any order, against a specification that has no
-- TPM: a table of accounts.
pub mod Runs
pub mod Reach
pub mod Secrets
use pinpam.Core.Manager.Accounts.Absent.{delete_pin_with_auth_absent-Acts, verify_pin_absent-Acts}
use pinpam.Core.Manager.Accounts.Setup.{
  is_long, delete_pin_admin-Acts, delete_pin_admin_absent-Acts, setup_pin_taken-Acts,
  setup_pin-Acts,
}
use pinpam.Core.Manager.Accounts.Verify.{verify_pin-Acts, Says}
use pinpam.Core.Manager.Accounts.Delete.{delete_pin_with_auth-Acts, Reports, remaining}
use pinpam.Core.Tpm.Laws.{max_index_auth, max_auth}
use pinpam.Core.Manager.Accounts.{Untouched, Stores}
use pinpam.Core.Manager.Users.{delete_pin_admin, delete_pin_with_auth, verify_pin, setup_pin}
use pinpam.Core.Consts.{pin_version_uid_max}
use pinpam.Core.Manager.Connected.{IsConnected}
use pinpam.Core.Pin.{as_bytes, Pin}
use pinpam.Core.Error.{VerificationResult, DeleteResult, PinError}
use pinpam.Core.Account.{refused, guess, accepted, rejected, Account, Answer}
use pinpam.Core.Manager.{PinManager}
use pinpam.Base.{
  inr, inl, ltb, Bool-cases, ◌∙◌, ◌^◌, ap, ◌<◌, none, panic, ◌==◌, err, some, if◌then◌else◌, ◌≡◌,
  [], false, ◌∷◌, length, true, ok, Option, List, Bool, ℕ, ◌≤◌, Outcome, refl,
}

pub data Command : Type 0 where
  set_up verify remove : ℕ → Pin → Command
  remove_as_root : ℕ → Command

abbrev pub user_of : Command → ℕ
user_of (set_up uid pin) = uid
user_of (verify uid pin) = uid
user_of (remove uid pin) = uid
user_of (remove_as_root uid) = uid

-- What is asked of a command: a uid that has indices, and a PIN that tss-esapi takes.
abbrev pub IsProper : Command → Type 0
IsProper (set_up uid pin) = (uid ≤ pin_version_uid_max) × (length (as_bytes pin) ≤ max_auth)
IsProper (verify uid pin) = (uid ≤ pin_version_uid_max) × (length (as_bytes pin) ≤ max_auth)
IsProper (remove uid pin) = (uid ≤ pin_version_uid_max) × (length (as_bytes pin) ≤ max_auth)
IsProper (remove_as_root uid) = uid ≤ pin_version_uid_max

-- The specification: whether the command is granted, and what it makes of the user's account.
abbrev pub is_accepted : Answer → Bool
is_accepted accepted = true
is_accepted (rejected last) = false
is_accepted refused = false

abbrev pub obey : ℕ → Command → Option Account → Bool × Option Account
obey limit (set_up uid pin) none =
    if ltb max_index_auth (length (as_bytes pin))
    then (false, none)
    else (true, some (record { pin = as_bytes pin; failures = 0; limit = limit }))
obey limit (set_up uid pin) (some a) = (false, some a)
obey limit (verify uid pin) none = (false, none)
obey limit (verify uid pin) (some a) =
    (is_accepted (guess a (as_bytes pin)).0, some (guess a (as_bytes pin)).1)
obey limit (remove uid pin) none = (false, none)
obey limit (remove uid pin) (some a) =
    (is_accepted (guess a (as_bytes pin)).0, remaining (guess a (as_bytes pin)))
obey limit (remove_as_root uid) none = (false, none)
obey limit (remove_as_root uid) (some a) = (true, none)

abbrev pub Table : Type 0
Table = ℕ → Option Account

abbrev pub assign : Table → ℕ → Option Account → Table
assign t uid a w = if w == uid then a else t w

abbrev pub obey_all : ℕ → List Command → Table → List Bool × Table
obey_all limit [] t = ([], t)
obey_all limit (k ∷ ks) t =
    let now = obey limit k (t (user_of k)) in
    let rest = obey_all limit ks (assign t (user_of k) now.1) in (now.0 ∷ rest.0, rest.1)

-- The code: a command is granted where the method answers `Ok(())`, or the `Ok` of a success.
abbrev unit_granted : Outcome PinError (Unit {0}) → Bool
unit_granted (ok done) = true
unit_granted (err e) = false
unit_granted panic = false

abbrev verification_granted : Outcome PinError VerificationResult → Bool
verification_granted (ok (VerificationResult.success slot)) = true
verification_granted (ok (VerificationResult.invalid locked)) = false
verification_granted (ok VerificationResult.locked_out) = false
verification_granted (err e) = false
verification_granted panic = false

abbrev deletion_granted : Outcome PinError DeleteResult → Bool
deletion_granted (ok DeleteResult.success) = true
deletion_granted (ok (DeleteResult.invalid locked)) = false
deletion_granted (ok DeleteResult.locked_out) = false
deletion_granted (err e) = false
deletion_granted panic = false

module _ (m : PinManager) where
  abbrev pub call : Command → m.tpm.State → Bool × m.tpm.State
  call (set_up uid pin) s = (unit_granted (setup_pin m uid pin s).0, (setup_pin m uid pin s).1)
  call (verify uid pin) s =
      (verification_granted (verify_pin m uid pin s).0, (verify_pin m uid pin s).1)
  call (remove uid pin) s =
      (deletion_granted (delete_pin_with_auth m uid pin s).0, (delete_pin_with_auth m uid pin s).1)
  call (remove_as_root uid) s =
      (unit_granted (delete_pin_admin m uid s).0, (delete_pin_admin m uid s).1)

  abbrev pub call_all : List Command → m.tpm.State → List Bool × m.tpm.State
  call_all [] s = ([], s)
  call_all (k ∷ ks) s =
      let now = call k s in let rest = call_all ks now.1 in (now.0 ∷ rest.0, rest.1)

module _ (m : PinManager) (c : IsConnected m) where
  -- The NV storage holds the accounts of the table.
  abbrev pub Represents : m.tpm.State → Table → Type 0
  Represents s t = (uid : ℕ) → uid ≤ pin_version_uid_max → Stores m c (c.nv s) uid (t uid)

  -- How a command turns out, for its user and for the others.
  abbrev Fulfils : Command → m.tpm.State → Bool × Option Account → Type 0
  Fulfils k s (granted, a) =
      ((call m k s).0 ≡ granted)
      × Stores m c (c.nv (call m k s).1) (user_of k) a
      × Untouched m c (user_of k) (c.nv s) (c.nv (call m k s).1)

  Says-granted :
      (a : Account) (answer : Answer) (r : Outcome PinError VerificationResult)
      → Says a answer r
      → verification_granted r ≡ is_accepted answer
  Says-granted a accepted r e = ap verification_granted e
  Says-granted a (rejected last) r e = ap verification_granted e
  Says-granted a refused (ok (VerificationResult.success slot)) e = absurd (e slot refl)
  Says-granted a refused (ok (VerificationResult.invalid locked)) e = refl
  Says-granted a refused (ok VerificationResult.locked_out) e = refl
  Says-granted a refused (err x) e = refl
  Says-granted a refused panic e = refl

  Reports-granted :
      (answer : Answer) (r : Outcome PinError DeleteResult)
      → Reports answer r
      → deletion_granted r ≡ is_accepted answer
  Reports-granted accepted r e = ap deletion_granted e
  Reports-granted (rejected last) r e = ap deletion_granted e
  Reports-granted refused (ok DeleteResult.success) e = absurd (e refl)
  Reports-granted refused (ok (DeleteResult.invalid locked)) e = refl
  Reports-granted refused (ok DeleteResult.locked_out) e = refl
  Reports-granted refused (err x) e = refl
  Reports-granted refused panic e = refl

  module _ (small : m.policy.max_attempts < 2 ^ 31) where
    call-Fulfils :
        (k : Command) (s : m.tpm.State) (a : Option Account)
        → IsProper k
        → Stores m c (c.nv s) (user_of k) a
        → Fulfils k s (obey m.policy.max_attempts k a)
    call-Fulfils (set_up uid pin) s none (r, f) h =
        let p = setup_pin-Acts m c uid r s pin small f h in
        elim (Bool-cases (is_long pin)) [
          | inl long ↦ let q = rw long at p in rw long (ap unit_granted q.0, q.1, q.2)
          | inr short ↦ let q = rw short at p in rw short (ap unit_granted q.0, q.1, q.2)
        ]
    call-Fulfils (set_up uid pin) s (some a) (r, f) h =
        let p = setup_pin_taken-Acts m c uid r s pin a h in (ap unit_granted p.0, p.1, p.2)
    call-Fulfils (verify uid pin) s none (r, f) h =
        let p = verify_pin_absent-Acts m c uid r pin s h in (ap verification_granted p.0, p.1, p.2)
    call-Fulfils (verify uid pin) s (some a) (r, f) h =
        let p = verify_pin-Acts m c uid r s pin a f h in
        (
          ap verification_granted p.2.0 ∙ Says-granted a (guess a (as_bytes pin)).0 p.0 p.1,
          p.2.1,
          p.2.2,
        )
    call-Fulfils (remove uid pin) s none (r, f) h =
        let p = delete_pin_with_auth_absent-Acts m c uid r pin s h in
        (ap deletion_granted p.0, p.1, p.2)
    call-Fulfils (remove uid pin) s (some a) (r, f) h =
        let p = delete_pin_with_auth-Acts m c uid r s pin a f h in
        (
          ap deletion_granted p.2.0 ∙ Reports-granted (guess a (as_bytes pin)).0 p.0 p.1,
          p.2.1,
          p.2.2,
        )
    call-Fulfils (remove_as_root uid) s none r h =
        let p = delete_pin_admin_absent-Acts m c uid r s h in (ap unit_granted p.0, p.1, p.2)
    call-Fulfils (remove_as_root uid) s (some a) r h =
        let p = delete_pin_admin-Acts m c uid r s a h in (ap unit_granted p.0, p.1, p.2)
