-- ===== src/Pam/Io.antt =====
-- pinpam-pam/src/lib.rs: what the module reads from libpam, and `PamIo`. The translated messages hold
-- no NUL.
use pinpam.Base.{
  panic, inr, inl, arith, Bool-cases, ◌≢◌, false, not, if◌then◌else◌, true, ◌≡◌, Outcome, Bool,
  List, and_then, Option, ok, err, none, some, [], ◌∷◌,
}
use pinpam.Base.Text.{Text, trim}
use pinpam.Pam.Env.{
  Trace, Env, Run, PamReturnCode, user_unknown, conv_err, auth_err, CString, null, not_utf8, text,
  Reply, Message, prompted, told,
}

unfoldable pub is_success : PamReturnCode → Bool
is_success PamReturnCode.success = true
is_success code = false

-- An item of libpam: the status of the call, and the string that it gave.
pub record Item : Type 0 where
  pub status : PamReturnCode
  pub value : CString

-- What the entry point meets.
pub record Entry : Type 0 where
  pub argv : List CString
  pub conversation : Item
  pub user : Item
  pub authtok : Item

-- `argv_to_strings`
unfoldable pub argv_to_strings : List CString → List Text
argv_to_strings [] = []
argv_to_strings (text s ∷ argv) = s ∷ argv_to_strings argv
argv_to_strings (null ∷ argv) = argv_to_strings argv
argv_to_strings (not_utf8 ∷ argv) = argv_to_strings argv

authtok_of : CString → Option Text
authtok_of null = none
authtok_of not_utf8 = none
authtok_of (text s) = some s

-- `get_pam_authtok`
unfoldable pub get_pam_authtok : Item → Outcome PamReturnCode (Option Text)
unfolding is_success authtok_of
get_pam_authtok item =
    if is_success item.status then ok (authtok_of item.value) else err item.status

user_of : CString → Outcome PamReturnCode Text
user_of null = err user_unknown
user_of not_utf8 = err user_unknown
user_of (text s) = ok s

-- `get_username`
unfoldable pub get_username : Item → Outcome PamReturnCode Text
unfolding is_success user_of
get_username item = if is_success item.status then user_of item.value else err item.status

pointed : CString → Outcome PamReturnCode (Unit {0})
pointed null = err conv_err
pointed not_utf8 = ok tt
pointed (text s) = ok tt

-- `PamIo::new`
unfoldable pub new : Item → Outcome PamReturnCode (Unit {0})
unfolding is_success pointed
new item = if is_success item.status then pointed item.value else err item.status

-- `PamIo::converse`, from what the conversation function answers.
unfoldable pub converse : Bool → Reply → Outcome PamReturnCode (Option CString)
unfolding is_success
converse has_conv reply =
    if not has_conv
    then err conv_err
    else if is_success reply.status
    then ok reply.response
    else err reply.status

unfoldable pub entered : Option CString → Outcome PamReturnCode Text
entered none = err conv_err
entered (some null) = err conv_err
entered (some not_utf8) = err auth_err
entered (some (text s)) = ok (trim s)

module _ (env : Env) where
  -- `PamIo::prompt_hidden`
  unfoldable pub prompt_hidden : Message → Run Text
  unfolding converse entered
  prompt_hidden message t =
      (and_then (converse env.has_conv (env.conv_fn t message)) entered, prompted message ∷ t)

  -- `PamIo::send_message`, which `PamIo::info` and `PamIo::error` call.
  unfoldable pub tell : Message → Run (Unit {0})
  unfolding converse
  tell message t = (
    and_then (converse env.has_conv (env.conv_fn t message)) (λ response. ok tt),
    told message ∷ t,
  )

-- A result of libpam's: no panic, and never `SUCCESS` for an error.
abbrev pub IsHonest : {A : Type 0} → Outcome PamReturnCode A → Type 0
IsHonest (ok a) = Unit
IsHonest (err code) = code ≢ PamReturnCode.success
IsHonest panic = ⊥

ne_success : (code : PamReturnCode) → is_success code ≡ false → code ≢ PamReturnCode.success
unfolding is_success
ne_success code h e = ground (arith, h, e)

module _ {A : Type 0} (code : PamReturnCode) where
  -- A call of libpam's that tests its status first.
  unless_failed :
      (r : Outcome PamReturnCode A)
      → IsHonest r
      → IsHonest (if is_success code then r else err code)
  unless_failed r h = elim (Bool-cases (is_success code)) [
    | inl e ↦ rw e h
    | inr e ↦ rw e (ne_success code e)
  ]

converse-IsHonest : (has_conv : Bool) (reply : Reply) → IsHonest (converse has_conv reply)
unfolding converse
converse-IsHonest false reply = λ e. cc
converse-IsHonest true reply = unless_failed reply.status (ok reply.response) tt

entered-IsHonest : (response : Option CString) → IsHonest (entered response)
unfolding entered
entered-IsHonest none = λ e. cc
entered-IsHonest (some null) = λ e. cc
entered-IsHonest (some not_utf8) = λ e. cc
entered-IsHonest (some (text s)) = tt

and_then-IsHonest :
    {A B : Type 0} (r : Outcome PamReturnCode A) (f : A → Outcome PamReturnCode B)
    → IsHonest r
    → ((a : A) → IsHonest (f a))
    → IsHonest (and_then r f)
and_then-IsHonest (ok a) f h k = k a
and_then-IsHonest (err code) f h k = h
and_then-IsHonest panic f h k = h

-- A prompt ends with a text, or with a code that is not `SUCCESS`.
pub prompt_hidden-IsHonest :
    (env : Env) (message : Message) (t : Trace) → IsHonest (prompt_hidden env message t).0
unfolding prompt_hidden
prompt_hidden-IsHonest env message t =
    and_then-IsHonest (converse env.has_conv (env.conv_fn t message)) entered
      (converse-IsHonest env.has_conv (env.conv_fn t message)) entered-IsHonest

-- A message is sent or not; it does not panic.
pub tell-IsHonest : (env : Env) (message : Message) (t : Trace) → IsHonest (tell env message t).0
unfolding tell
tell-IsHonest env message t =
    and_then-IsHonest (converse env.has_conv (env.conv_fn t message)) (λ response. ok tt)
      (converse-IsHonest env.has_conv (env.conv_fn t message)) (λ response. tt)

pub get_pam_authtok-IsHonest : (item : Item) → IsHonest (get_pam_authtok item)
unfolding get_pam_authtok
get_pam_authtok-IsHonest item = unless_failed item.status (ok (authtok_of item.value)) tt

user_of-IsHonest : (value : CString) → IsHonest (user_of value)
unfolding user_of
user_of-IsHonest null = λ e. cc
user_of-IsHonest not_utf8 = λ e. cc
user_of-IsHonest (text s) = tt

pub get_username-IsHonest : (item : Item) → IsHonest (get_username item)
unfolding get_username
get_username-IsHonest item =
    unless_failed item.status (user_of item.value) (user_of-IsHonest item.value)

pointed-IsHonest : (value : CString) → IsHonest (pointed value)
unfolding pointed
pointed-IsHonest null = λ e. cc
pointed-IsHonest not_utf8 = tt
pointed-IsHonest (text s) = tt

pub new-IsHonest : (item : Item) → IsHonest (new item)
unfolding new
new-IsHonest item = unless_failed item.status (pointed item.value) (pointed-IsHonest item.value)
