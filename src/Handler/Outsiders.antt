-- ===== src/Handler/Outsiders.antt =====
-- A request for a direct or group channel, by a user of whom nothing is known.
use native.Mathlib.Omega.{arith}
use mattermost_plugin_messag.Base.{
  ◌≡◌, ◌≢◌, refl, ◌∙◌, false, true, Option, some, [], Text, text_eq, text_eq_iff, text_eq_refl,
  Result, ok,
}
use mattermost_plugin_messag.Int64.{ℤ, pos, ltb_ℤ}
use mattermost_plugin_messag.Duration.{seconds, of_seconds}
use mattermost_plugin_messag.Ttl.{TtlSetting}
use mattermost_plugin_messag.Ttl.Bounds.{InRange, validate_ttl_iff}
use mattermost_plugin_messag.TtlStore.{TtlSettingStore}
use mattermost_plugin_messag.TtlStore.Contract.{IsLawfulStore}
use mattermost_plugin_messag.TtlService.{Channel, PermissionChecker, set_ttl}
use mattermost_plugin_messag.TtlService.Permissions.{CanManage, check_can_manage_iff}
use mattermost_plugin_messag.Handler.{
  Handler, manager_of, SetTtlRequest, TtlChanged, handle_set, set_decoded,
}

-- the setting that a request asks for, at a time
abbrev pub asked : Text → SetTtlRequest → ℤ → TtlSetting
asked actor req at = record {
  duration_seconds = seconds (of_seconds req.ttl_seconds);
  set_by = actor;
  set_at = at;
}

module _ {W : Type 0} (store : TtlSettingStore W) (perm : PermissionChecker W)
    (setting : W → Text → Option TtlSetting) (L : IsLawfulStore store setting)
    (publish : TtlChanged → W → W)
    (publish_keeps : (e : TtlChanged) (w : W) (j : Text) → setting (publish e w) j ≡ setting w j)
    (now : W → ℤ) (decode : Text → Result Text SetTtlRequest) where
  abbrev handler : Handler W
  handler = record { ttl = manager_of store perm; publish = publish; now = now; decode = decode }

  set_ttl_group :
      (actor : Text) (req : SetTtlRequest) (ch : Channel) (w : W)
      → perm.get_channel req.channel_id w ≡ ok (some ch)
      → ch.is_group_or_direct ≡ true
      → InRange (of_seconds req.ttl_seconds)
      → set_ttl store perm actor req.channel_id (of_seconds req.ttl_seconds) (now w) w
        ≡ store.set req.channel_id (asked actor req (now w)) w
  unfolding set_ttl
  set_ttl_group actor req ch w found group range =
      let valid = (validate_ttl_iff (of_seconds req.ttl_seconds)).1 range in
      let passed =
        (check_can_manage_iff perm actor req.channel_id w).1 (CanManage.in_group ch found group) in
      rw (set_ttl, valid, passed) refl

  -- Over a lawful store and a publisher that leaves the settings alone, and for any answers of the
  -- permission API: a POST by any user, with a body that asks for a TTL in range for a channel that is found
  -- and is a direct or group channel, is answered by 201 if the store can write, and the channel
  -- then has this setting. Nothing asks if the user participates in the channel.
  pub any_user_sets_group :
      (actor body : Text) (req : SetTtlRequest) (ch : Channel) (w : W)
      → actor ≢ []
      → decode body ≡ ok req
      → req.channel_id ≢ []
      → ltb_ℤ req.ttl_seconds (pos 0) ≡ false
      → InRange (of_seconds req.ttl_seconds)
      → perm.get_channel req.channel_id w ≡ ok (some ch)
      → ch.is_group_or_direct ≡ true
      → (store.set req.channel_id (asked actor req (now w)) w).0 ≡ ok tt
      → let (answer, after) =
          handle_set handler (record { user_id = actor; channel_id = []; body = body }) w in
        (answer.status ≡ 201) × (setting after req.channel_id ≡ some (asked actor req (now w)))
  unfolding handle_set set_decoded
  any_user_sets_group actor body req ch w named read for_channel nonneg range found group written =
      let same = set_ttl_group actor req ch w found group range in
      let some_user : text_eq actor [] ≡ false = ground (arith, text_eq_iff actor []) in
      let some_channel : text_eq req.channel_id [] ≡ false =
        ground (arith, text_eq_iff req.channel_id []) in
      let d = of_seconds req.ttl_seconds in
      let done : (set_ttl store perm actor req.channel_id d (now w) w).0 ≡ ok tt =
        rw same written in
      let kept : setting (set_ttl store perm actor req.channel_id d (now w) w).1 req.channel_id
          ≡ some (asked actor req (now w)) =
        rw
          (
            same,
            L.set_writes req.channel_id req.channel_id (asked actor req (now w)) w written,
            text_eq_refl,
          )
          refl in
      rw (some_user, read, set_decoded, some_channel, nonneg, done)
        (refl, publish_keeps _ _ req.channel_id ∙ kept)
