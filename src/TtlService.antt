-- ===== src/TtlService.antt =====
-- server/ttl/service.go: permission checks, validation and persistence of TTLs. The store and
-- the permission API are interfaces.
pub mod Permissions
pub mod Participants
pub mod Settings
pub mod Keeps
use mattermost_plugin_messag.Base.{
  Bool, true, false, ◌&&◌, not, Option, none, some, Text, Result, ok, err, if◌then◌else◌, Exec,
  pure, raise, reads, lift, ◌>>=◌, ◌>>◌,
}
use mattermost_plugin_messag.Int64.{ℤ}
use mattermost_plugin_messag.Duration.{Duration, seconds, of_seconds}
use mattermost_plugin_messag.Ttl.{
  AppError, TtlError, forbidden, channel_not_found, nil_channel, TtlSetting, validate_ttl,
}
use mattermost_plugin_messag.TtlStore.{TtlSettingStore}

-- the permissions of the package model that the service asks for
pub data Permission : Type 0 where
  manage_system : Permission
  manage_public_channel_properties : Permission
  manage_private_channel_properties : Permission

-- what the service asks of a model.Channel
pub record Channel : Type 0 where
  pub is_group_or_direct : Bool
  pub is_open : Bool

-- PermissionChecker, over the state of the server
pub record PermissionChecker (W : Type 0) : Type 0 where
  pub has_permission_to : Text → Permission → W → Bool
  pub has_permission_to_channel : Text → Text → Permission → W → Bool
  pub get_channel : Text → W → Result AppError (Option Channel)

module _ {W : Type 0} (perm : PermissionChecker W) where
  -- the tests on a channel that was found
  abbrev pub check_channel : Text → Text → Channel → W → Result TtlError (Unit {0})
  check_channel actor channel_id ch w =
      if ch.is_group_or_direct
      then ok tt
      else if ch.is_open
          && perm.has_permission_to_channel actor channel_id manage_public_channel_properties w
      then ok tt
      else if not ch.is_open
          && perm.has_permission_to_channel actor channel_id manage_private_channel_properties w
      then ok tt
      else err forbidden

  -- Service.checkCanManage
  unfoldable pub check_can_manage : Text → Text → W → Result TtlError (Unit {0})
  check_can_manage actor channel_id w =
      if perm.has_permission_to actor manage_system w
      then ok tt
      else elim (perm.get_channel channel_id w) [
        | err e ↦ err (channel_not_found channel_id e)
        | ok none ↦ err (nil_channel channel_id)
        | ok (some ch) ↦ check_channel actor channel_id ch w
      ]

module _ {W : Type 0} (store : TtlSettingStore W) (perm : PermissionChecker W) where
  -- Service.SetTTL; `set_at` is in unix milliseconds
  unfoldable pub set_ttl : Text → Text → Duration → ℤ → Exec W TtlError (Unit {0})
  set_ttl actor channel_id d set_at = do
    lift (validate_ttl d)
    reads (check_can_manage perm actor channel_id)
    store.set channel_id (record { duration_seconds = seconds d; set_by = actor; set_at = set_at })

  -- Service.GetTTL: no duration stands for (0, false)
  unfoldable pub get_ttl : Text → Exec W TtlError (Option Duration)
  get_ttl channel_id = do
    setting ← store.get channel_id
    elim setting [ none ↦ pure none | some s ↦ pure (some (of_seconds s.duration_seconds)) ]

  -- Service.GetSetting
  unfoldable pub get_setting : Text → Exec W TtlError (Option TtlSetting)
  get_setting channel_id = store.get channel_id

  -- Service.ClearTTL
  unfoldable pub clear_ttl : Text → Text → Exec W TtlError (Unit {0})
  clear_ttl actor channel_id = do
    reads (check_can_manage perm actor channel_id)
    store.clear channel_id
