-- ===== src/Pam/Args.antt =====
-- pinpam-pam/src/lib.rs: the module's arguments, and how they decide where the PIN comes from.
use pinpam.Core.Policy.{PinPolicy}
use pinpam.Base.{
  refl, Bool-cases, inl, inr, arith, not, ◌≡◌, to_option, list_eq, if◌then◌else◌, List, ◌||◌,
  Option, Bool, true, false, none, some, [], ◌∷◌,
}
use pinpam.Base.Text.{Text, codes}
use pinpam.Core.Pin.{Pin}
use pinpam.Core.Pin

pub record ModuleArgs : Type 0 where
  pub try_first_pass : Bool
  pub use_first_pass : Bool

-- `ModuleArgs::default`
abbrev pub default : ModuleArgs
default = record { try_first_pass = false; use_first_pass = false }

-- One turn of the loop of `from_strs`.
with_arg : ModuleArgs → Text → ModuleArgs
with_arg out arg =
    if list_eq arg (codes "try_first_pass")
    then record out { try_first_pass = true }
    else if list_eq arg (codes "use_first_pass")
    then record out { use_first_pass = true }
    else out

parse_args : ModuleArgs → List Text → ModuleArgs
unfolding with_arg
parse_args out [] = out
parse_args out (arg ∷ args) = parse_args (with_arg out arg) args

-- `ModuleArgs::from_strs`
unfoldable pub from_strs : List Text → ModuleArgs
unfolding parse_args
from_strs args = parse_args default args

-- `ModuleArgs::wants_first_pass`
unfoldable pub wants_first_pass : ModuleArgs → Bool
wants_first_pass args = args.try_first_pass || args.use_first_pass

pub data FirstPassDecision : Type 0 where
  try_first_pass : Pin → FirstPassDecision
  deny prompt_user : FirstPassDecision

-- `authtok.and_then(|t| Pin::new(t, policy).ok())`
candidate : Option Text → PinPolicy → Option Pin
candidate none policy = none
candidate (some t) policy = to_option (Pin.new t policy)

-- The `match` at the end of `decide_first_pass`.
decide : Option Pin → Bool → FirstPassDecision
decide (some pin) use_first_pass = FirstPassDecision.try_first_pass pin
decide none true = FirstPassDecision.deny
decide none false = FirstPassDecision.prompt_user

-- `decide_first_pass`
unfoldable pub decide_first_pass : ModuleArgs → Option Text → PinPolicy → FirstPassDecision
unfolding wants_first_pass candidate decide
decide_first_pass args authtok policy =
    if not (wants_first_pass args)
    then FirstPassDecision.prompt_user
    else decide (candidate authtok policy) args.use_first_pass

unused : (args : ModuleArgs) → wants_first_pass args ≡ false → args.use_first_pass ≡ false
unfolding wants_first_pass
unused args w = ground (arith, w)

-- What the arguments allow of a decision: a PIN that was passed on if they ask for it, and a prompt
-- unless they forbid it.
abbrev pub IsAllowed : ModuleArgs → FirstPassDecision → Type 0
IsAllowed args (FirstPassDecision.try_first_pass pin) = wants_first_pass args ≡ true
IsAllowed args FirstPassDecision.deny = args.use_first_pass ≡ true
IsAllowed args FirstPassDecision.prompt_user = args.use_first_pass ≡ false

decide-IsAllowed :
    (args : ModuleArgs) (pin : Option Pin)
    → wants_first_pass args ≡ true
    → IsAllowed args (decide pin args.use_first_pass)
unfolding decide
decide-IsAllowed args (some pin) w = w
decide-IsAllowed args none w = elim (Bool-cases args.use_first_pass) [
  | inl e ↦ rw e refl
  | inr e ↦ rw e refl
]

-- The decision is one that the arguments allow.
pub decide_first_pass-IsAllowed :
    (args : ModuleArgs) (authtok : Option Text) (policy : PinPolicy)
    → IsAllowed args (decide_first_pass args authtok policy)
unfolding decide_first_pass
decide_first_pass-IsAllowed args authtok policy = elim (Bool-cases (wants_first_pass args)) [
  | inl w ↦ rw w (decide-IsAllowed args (candidate authtok policy) w)
  | inr w ↦ rw w (unused args w)
]
