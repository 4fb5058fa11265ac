-- ===== src/Lib.antt =====
-- pinpam: PINs that a TPM keeps, for PAM. Paths are from the repository's root.
--
-- The program's parts. `pinpam-core` keeps one PIN for each user as an NV index of the TPM of the type
-- PIN_FAIL, whose authorisation value is the PIN, and beside it a version tag in an ordinary index.
-- `PinManager` is the part that talks to the TPM. `pinutil` is the command that runs with the right to
-- do so, and `pinpam-pam` is the PAM module, which runs `pinutil -m status` and `pinutil -m test` and
-- turns what they say into a PAM code. The master key is an HMAC key in the TPM, with a copy in a file
-- that a recovery phrase opens; `pinutil master-key` manages it, and `pinpam-master-key-pam` sets the
-- HMAC of a user's name as PAM_AUTHTOK.
--
-- Which file models which part:
--   Base/*              outcomes and state passing, text, 32-bit integers
--   Core/Consts         pinpam-core/src/pinconstants.rs and the default of tcti.rs
--   Core/Error          pinpam-core/src/pinerror.rs; Display the texts of the errors
--   Core/PamLog         pinpam-core/src/pamlog.rs
--   Core/PinData        pinpam-core/src/pindata.rs: `PinData`, `AttemptInfo` and their bytes
--   Core/Policy         pinpam-core/src/pinpolicy.rs: `PinPolicy`, `validate`; Parse the settings of a
--                       policy file, Secure which file counts
--   Core/Pin            pinpam-core/src/pin.rs; Bounds and Refusal which PINs there are
--   Core/Index          pinpam-core/src/pinindex.rs
--   Core/Util           pinpam-core/src/util.rs
--   Core/Tpm            the calls of tss-esapi that the manager makes, as an interface; Tpm/Laws says
--                       what the manager relies on of them
--   Core/Account        what one user's PIN is meant to do, without a TPM
--   Core/Manager/*      pinpam-core/src/pinmanager.rs: Tags the version tag, Slots the PIN slot, Users
--                       the methods for one user; Accounts relates them to accounts, and
--                       History runs of commands to a table of accounts
--   Core/MasterKey/*    pinpam-core/src/master_key.rs: Objects the two objects in the TPM, Sealing the
--                       file, Lifecycle the functions that the commands call; Laws says what they rely
--                       on, Post has the rules for what is random
--   Pam/*               pinpam-pam/src/lib.rs: Io what it reads from libpam, Status what the helper
--                       says, Args the module's arguments, Authenticate the flow, to the entry point,
--                       Entries the other entry points and the log
--   Pinutil/*           pinutil/src/main.rs: the commands on PINs; Use has test, delete and status,
--                       MasterKeys the commands on the master key, Main the command line and the
--                       dispatch; Enrolment, Renewal, Reset, Deletion and Verification relate the
--                       commands to accounts
--   Login/*             the PAM module with pinutil as its helper, on one TPM: what passes between them;
--                       Pam/Authenticate/Entered, Stacked and Locked have authentications with both,
--                       and Login/Recovery those after a PIN was set
--   MasterKeyPam/*      pinpam-master-key-pam/src/lib.rs, with any helper and with pinutil
--   Tests/*             a TPM and a platform in memory, and the theorems at concrete inputs
--
-- State and calls. A method of `PinManager` passes a state on, the esapi context together with the
-- TPM, and ends with a value, an error or a panic; the state comes back on every path. A closure that
-- the source gives to `execute_with_nullauth_session` or `execute_with_session` is a function of the
-- session. The PAM module passes on the trace of what it did; libpam's conversation, the helper and
-- the user database answer by functions of that trace, so they may change their mind at any time. A
-- command of pinutil passes on the manager's state with the lines that stand in for the standard
-- input.
--
-- Bounds. Integers are natural numbers with their width written out; a `c_int` is a sign and a
-- magnitude, with the `as` casts of the source. Nothing in the model runs on fuel: the program has no
-- loop but those over a list. A
-- PIN has two limits besides the policy's: tss-esapi takes an authorisation value of at most 64 bytes,
-- and an index whose name algorithm is SHA-256 can have one of at most 32, so that the TPM refuses to
-- define a slot for a longer PIN. A PIN of 33 to 64 bytes can thus be tried and not be set. A TPM
-- drops the zero bytes at the end of an authorisation value; the laws do not, and are not about PINs
-- that end in the character NUL.
--
-- Not modelled: the sandbox, which only calls a library, the locales, the messages that are logged, clap, the echoing
-- of the terminal, and what is printed for people. A TPM or a file system that loses a command is not
-- described by Tpm/Laws and MasterKey/Laws; what the code does with such an error is in the
-- definitions.
pub mod Base
pub mod Core
pub mod Pam
pub mod Pinutil
pub mod MasterKeyPam
pub mod Login
pub mod Tests
