-- ===== src/Core/Manager/Tags.antt =====
-- pinpam-core/src/pinmanager.rs: the NV index with the version of a user's PIN format.
pub mod Effects
use pinpam.Base.{
  ℕ, true, false, Option, none, some, List, [], ◌∷◌, length, Outcome, lift, pure, raise, convert,
  catch, on_result, map_err, ◌>>=◌, ◌>>◌, ◌==◌, if◌then◌else◌,
}
use pinpam.Core.Consts.{pin_version_tag_size}
use pinpam.Core.Error.{PinError, TssError, from_tss, tpm_error, invalid_tag_size}
use pinpam.Core.Tpm.{NvAttributes, ordinary, owner}
use pinpam.Core.Manager.{PinManager, Method, clear_sessions, version_nv_index_for_uid, on_missing}

abbrev pub head? : List ℕ → Option ℕ
head? [] = none
head? (x ∷ xs) = some x

-- The attributes of the version tag's index.
abbrev pub tag_attributes : NvAttributes
tag_attributes = record {
  nv_index_type = ordinary;
  auth_read = false;
  owner_read = true;
  owner_write = true;
  policy_write = false;
  no_da = true;
}

module _ (m : PinManager) where
  open m use {tpm}

  -- The `match` on the result of the read in `read_pin_version_tag`.
  tag_of : Outcome TssError (List ℕ) → Method m (Option ℕ)
  tag_of =
      on_result
        (λ bytes.
          if length bytes == pin_version_tag_size
          then pure (head? bytes)
          else raise (tpm_error (invalid_tag_size (length bytes))))
        (on_missing (pure none) (λ e. raise (from_tss e)))

  -- `PinManager::read_pin_version_tag`
  unfoldable pub read_pin_version_tag : ℕ → Method m (Option ℕ)
  unfolding tag_of clear_sessions
  read_pin_version_tag uid = do
    nv_index ← version_nv_index_for_uid m uid
    catch (tpm.execute_with_nullauth_session (List ℕ) (λ x. tpm.read_full x owner nv_index))
        (λ pin_result. clear_sessions m >> tag_of pin_result)

  -- `PinManager::write_pin_version_tag_existing`
  unfoldable pub write_pin_version_tag_existing : ℕ → ℕ → Method m (Unit {0})
  unfolding clear_sessions
  write_pin_version_tag_existing nv_index version =
      catch
        (tpm.execute_with_nullauth_session (Unit {0}) (λ x. do
          handle ← tpm.tr_from_tpm_public x nv_index
          buffer ← lift (tpm.max_nv_buffer (version ∷ []))
          tpm.nv_write x owner handle buffer 0))
        (λ pin_result. clear_sessions m >> lift (map_err from_tss pin_result))

  -- `PinManager::define_pin_version_tag`
  unfoldable pub define_pin_version_tag : ℕ → Method m (Unit {0})
  unfolding clear_sessions
  define_pin_version_tag nv_index = do
    convert from_tss (
        tpm.execute_with_nullauth_session (Unit {0}) (λ x. do
          attributes ← lift (tpm.build_attributes tag_attributes)
          lift (tpm.validate_attributes attributes)
          nv_public ← lift (
              tpm.build_public (record {
                nv_index = nv_index;
                attributes = attributes;
                data_area_size = pin_version_tag_size;
                auth_policy = none;
              }))
          tpm.nv_define_space x none nv_public))
    clear_sessions m

  -- The `match` on the error of the first write in `write_pin_version_tag`.
  define_and_write : ℕ → ℕ → PinError → Method m (Unit {0})
  unfolding define_pin_version_tag write_pin_version_tag_existing
  define_and_write nv_index version (tpm_error _) =
      define_pin_version_tag nv_index >> write_pin_version_tag_existing nv_index version
  define_and_write nv_index version e = raise e

  -- `PinManager::write_pin_version_tag`
  unfoldable pub write_pin_version_tag : ℕ → ℕ → Method m (Unit {0})
  unfolding define_and_write
  write_pin_version_tag uid version = do
    nv_index ← version_nv_index_for_uid m uid
    catch (write_pin_version_tag_existing nv_index version)
        (on_result pure (define_and_write nv_index version))

  -- `PinManager::delete_pin_version_tag`
  unfoldable pub delete_pin_version_tag : ℕ → Method m (Unit {0})
  unfolding clear_sessions
  delete_pin_version_tag uid = do
    nv_index ← version_nv_index_for_uid m uid
    catch
        (tpm.execute_with_nullauth_session (Unit {0})
          (λ x. do handle ← tpm.tr_from_tpm_public x nv_index; tpm.nv_undefine_space x handle))
        (λ pin_result.
          clear_sessions m
          >> on_result pure (on_missing (pure tt) (λ e. raise (from_tss e))) pin_result)
