-- ===== src/Core/Manager/History/Secrets.antt =====
-- Which PINs are accepted, after any run of commands.
use pinpam.Core.Tpm.Laws.{max_index_auth}
use pinpam.Core.Manager.Accounts.Delete.{remaining}
use pinpam.Core.Manager.Connected.{IsConnected}
use pinpam.Core.Manager.{PinManager}
use pinpam.Core.Pin.{Pin, as_bytes}
use pinpam.Core.Account.{accepted, refused, rejected, Answer, guess, Account}
use pinpam.Base.{
  length, ltb, [], ◌∷◌, All, ==_iff, ◌^◌, ◌∙◌, sym, list_eq_sound, ◌==◌, ◌<◌, inr, inl, true, arith,
  Bool-cases, ◌⊎◌, some, ◌≡◌, Option, List, ℕ, refl, none,
}
use pinpam.Core.Manager.History.{
  call, remove_as_root, is_accepted, remove, verify, set_up, Command, IsProper, obey, obey_all,
  call_all, Table, assign, Represents, user_of,
}
use pinpam.Core.Manager.History.Runs.{call-Represents, call_all-Represents}

-- The user's PIN is set to these bytes, by the command, or by one of the run.
abbrev Sets : ℕ → List ℕ → Command → Type 0
Sets uid bytes (set_up user pin) = (user ≡ uid) × (as_bytes pin ≡ bytes)
Sets uid bytes (verify user pin) = ⊥
Sets uid bytes (remove user pin) = ⊥
Sets uid bytes (remove_as_root user) = ⊥

abbrev pub WasSet : ℕ → List ℕ → List Command → Type 0
WasSet uid bytes [] = ⊥
WasSet uid bytes (k ∷ ks) = Sets uid bytes k ⊎ WasSet uid bytes ks

abbrev HasPin : List ℕ → Option Account → Type 0
HasPin bytes none = ⊥
HasPin bytes (some a) = a.pin ≡ bytes

guess-pin : (a : Account) (pin : List ℕ) → (guess a pin).1.pin ≡ a.pin
unfolding guess
guess-pin a pin = ground arith

remaining-HasPin :
    (r : Answer × Account) (bytes : List ℕ) → HasPin bytes (remaining r) → r.1.pin ≡ bytes
remaining-HasPin (accepted, a) bytes h = absurd h
remaining-HasPin (rejected last, a) bytes h = h
remaining-HasPin (refused, a) bytes h = h

-- A command leaves a PIN that was there, or that it sets.
obey-HasPin :
    (limit : ℕ) (k : Command) (o : Option Account) (bytes : List ℕ)
    → HasPin bytes (obey limit k o).1
    → HasPin bytes o ⊎ Sets (user_of k) bytes k
obey-HasPin limit (set_up uid pin) none bytes h =
    elim (Bool-cases (ltb max_index_auth (length (as_bytes pin)))) [
      | inl long ↦ absurd (rw long at h)
      | inr short ↦ inr (refl, rw short at h)
    ]
obey-HasPin limit (set_up uid pin) (some a) bytes h = inl h
obey-HasPin limit (verify uid pin) none bytes h = inl h
obey-HasPin limit (verify uid pin) (some a) bytes h = inl (sym (guess-pin a (as_bytes pin)) ∙ h)
obey-HasPin limit (remove uid pin) none bytes h = inl h
obey-HasPin limit (remove uid pin) (some a) bytes h =
    inl (sym (guess-pin a (as_bytes pin)) ∙ remaining-HasPin (guess a (as_bytes pin)) bytes h)
obey-HasPin limit (remove_as_root uid) none bytes h = inl h
obey-HasPin limit (remove_as_root uid) (some a) bytes h = absurd h

-- A command gives its user the PIN, or leaves the user with one that was there.
assign-HasPin :
    (limit : ℕ) (k : Command) (t : Table) (uid : ℕ) (bytes : List ℕ)
    → HasPin bytes (assign t (user_of k) (obey limit k (t (user_of k))).1 uid)
    → HasPin bytes (t uid) ⊎ Sets uid bytes k
assign-HasPin limit k t uid bytes h = elim (Bool-cases (uid == user_of k)) [
  | inl same ↦
      let e = (==_iff uid (user_of k)).0 same in
      rw e (obey-HasPin limit k (t (user_of k)) bytes (rw same at h))
  | inr other ↦ inl (rw other at h)
]

obey_all-HasPin :
    (limit : ℕ) (ks : List Command) (t : Table) (uid : ℕ) (bytes : List ℕ)
    → HasPin bytes ((obey_all limit ks t).1 uid)
    → HasPin bytes (t uid) ⊎ WasSet uid bytes ks
obey_all-HasPin limit [] t uid bytes h = inl h
obey_all-HasPin limit (k ∷ ks) t uid bytes h = elim (obey_all-HasPin limit ks _ uid bytes h) [
  | inl held ↦ elim (assign-HasPin limit k t uid bytes held) [
    | inl before ↦ inl before
    | inr set ↦ inr (inl set)
  ]
  | inr later ↦ inr (inr later)
]

guess-accepts : (a : Account) (pin : List ℕ) → is_accepted (guess a pin).0 ≡ true → a.pin ≡ pin
unfolding guess
guess-accepts a pin h = ground (arith, list_eq_sound pin a.pin)

verify-HasPin :
    (limit uid : ℕ) (pin : Pin) (o : Option Account)
    → (obey limit (verify uid pin) o).0 ≡ true
    → HasPin (as_bytes pin) o
verify-HasPin limit uid pin none h = cc
verify-HasPin limit uid pin (some a) h = guess-accepts a (as_bytes pin) h

module _ (m : PinManager) (c : IsConnected m) (small : m.policy.max_attempts < 2 ^ 31) where
  -- On a reliable TPM without indices, with a limit below 2 ^ 31: after any run of commands with
  -- uids that have indices and PINs of at most 64 bytes, `verify_pin` accepts only a PIN that a
  -- command of the run set for this user.
  pub verify_pin-WasSet :
      (ks : List Command) (uid : ℕ) (pin : Pin) (s : m.tpm.State)
      → All IsProper ks
      → IsProper (verify uid pin)
      → Represents m c s (λ w. none)
      → (call m (verify uid pin) (call_all m ks s).1).0 ≡ true
      → WasSet uid (as_bytes pin) ks
  verify_pin-WasSet ks uid pin s p q h granted =
      let run = call_all-Represents m c small ks s (λ w. none) p h in
      let last = call-Represents m c small (verify uid pin) (call_all m ks s).1 _ q run.1 in
      elim (obey_all-HasPin m.policy.max_attempts ks (λ w. none) uid (as_bytes pin)
        (verify-HasPin m.policy.max_attempts uid pin _ (sym last.0 ∙ granted))) [
          | inl held ↦ absurd held
          | inr set ↦ set
        ]
