-- ===== src/Tests/Members.antt =====
-- Rule D2 and a request at a group channel, by a user without any permission who is not in it.
use native.Mathlib.Omega.{arith}
use mattermost_plugin_messag.Base.{
  ◌≡◌, ◌↔◌, ◌⊎◌, refl, Bool, false, true, none, some, [], Text, Result, ok,
}
use mattermost_plugin_messag.Int64.{pos, mul64}
use mattermost_plugin_messag.Duration.{of_seconds}
use mattermost_plugin_messag.Ttl.Bounds.{InRange}
use mattermost_plugin_messag.TtlService.{Channel, PermissionChecker, check_can_manage}
use mattermost_plugin_messag.TtlService.Participants.{D2, IsOutsider, check_can_manage-D2}
use mattermost_plugin_messag.Handler.{Handler, manager_of, SetTtlRequest, TtlChanged, handle_set}
use mattermost_plugin_messag.Handler.Outsiders.{asked, any_user_sets_group}
use mattermost_plugin_messag.Tests.{
  SettingsByChannel, memory_store, setting, memory_store-IsLawful, eve, town,
}

abbrev group : Channel
group = record { is_group_or_direct = true; is_open = false }

-- Nobody has a permission, and every channel is a group channel.
abbrev nothing_allowed : PermissionChecker SettingsByChannel
nothing_allowed = record {
  has_permission_to = λ user p w. false;
  has_permission_to_channel = λ user c p w. false;
  get_channel = λ c w. ok (some group);
}

abbrev nobody_in : Text → Text → SettingsByChannel → Bool
nobody_in user c w = false

abbrev empty : SettingsByChannel
empty c = none

check_can_manage-D2_example : (check_can_manage nothing_allowed eve town empty ≡ ok tt) ↔ (
    D2 nothing_allowed nobody_in eve town empty
    ⊎ IsOutsider nothing_allowed nobody_in eve town empty)
check_can_manage-D2_example = check_can_manage-D2 nothing_allowed nobody_in eve town empty

abbrev two_hours : SetTtlRequest
two_hours = record { channel_id = town; ttl_seconds = pos 7200 }

abbrev decode : Text → Result Text SetTtlRequest
decode body = ok two_hours

abbrev publish : TtlChanged → SettingsByChannel → SettingsByChannel
publish e w = w

abbrev group_handler : Handler SettingsByChannel
group_handler = record {
  ttl = manager_of memory_store nothing_allowed;
  publish = publish;
  now = λ w. pos 5;
  decode = decode;
}

in_range : InRange (of_seconds (pos 7200))
unfolding of_seconds mul64
in_range = (refl, refl)

any_user_sets_group_example :
    let (answer, after) =
      handle_set group_handler (record { user_id = eve; channel_id = []; body = [] }) empty in
    (answer.status ≡ 201) × (setting after town ≡ some (asked eve two_hours (pos 5)))
any_user_sets_group_example =
    any_user_sets_group memory_store nothing_allowed setting memory_store-IsLawful publish
      (λ e w j. refl) (λ w. pos 5) decode eve [] two_hours group empty (λ e. ground arith) refl
      (λ e. ground arith) refl in_range refl refl refl
