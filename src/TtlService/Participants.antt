-- ===== src/TtlService/Participants.antt =====
-- The rule of design decision D2, which asks for a participant in a direct or group channel, against
-- the check. The plugin does not ask the server who participates in a channel: this is a parameter.
use mattermost_plugin_messag.Base.{
  ◌≡◌, ◌↔◌, ◌⊎◌, inl, inr, Bool, true, false, some, Text, ok, Bool-cases, if◌then◌else◌,
}
use mattermost_plugin_messag.TtlService.{
  manage_system, manage_public_channel_properties, manage_private_channel_properties, Channel,
  PermissionChecker, check_can_manage,
}
use mattermost_plugin_messag.TtlService.Permissions.{CanManage, check_can_manage_iff}

module _ {W : Type 0} (perm : PermissionChecker W) (is_participant : Text → Text → W → Bool)
    (actor channel_id : Text) (w : W) where
  abbrev Found : Channel → Type 0
  Found ch = perm.get_channel channel_id w ≡ ok (some ch)

  -- D2: a system admin; a participant of a direct or group channel; an admin of another channel.
  pub data D2 : Type 0 where
    by_system : perm.has_permission_to actor manage_system w ≡ true → D2
    by_participation :
        (ch : Channel)
        → Found ch
        → ch.is_group_or_direct ≡ true
        → is_participant actor channel_id w ≡ true
        → D2
    by_channel :
        (ch : Channel)
        → Found ch
        → ch.is_group_or_direct ≡ false
        → perm.has_permission_to_channel actor channel_id
            (if ch.is_open
              then manage_public_channel_properties
              else manage_private_channel_properties)
            w
          ≡ true
        → D2

  -- A user outside of a direct or group channel.
  pub data IsOutsider : Type 0 where
    outside :
        (ch : Channel)
        → Found ch
        → ch.is_group_or_direct ≡ true
        → is_participant actor channel_id w ≡ false
        → IsOutsider

  in_conversation : (ch : Channel) → Found ch → ch.is_group_or_direct ≡ true → D2 ⊎ IsOutsider
  in_conversation ch found group = elim (Bool-cases (is_participant actor channel_id w)) [
    | inl yes_ ↦ inl (D2.by_participation ch found group yes_)
    | inr no_ ↦ inr (IsOutsider.outside ch found group no_)
  ]

  in_channel :
      (ch : Channel)
      → Found ch
      → perm.has_permission_to_channel actor channel_id
          (if ch.is_open
            then manage_public_channel_properties
            else manage_private_channel_properties)
          w
        ≡ true
      → D2 ⊎ IsOutsider
  in_channel ch found allowed = elim (Bool-cases ch.is_group_or_direct) [
    | inl group ↦ in_conversation ch found group
    | inr other ↦ inl (D2.by_channel ch found other allowed)
  ]

  let_through : CanManage perm actor channel_id w → D2 ⊎ IsOutsider
  let_through (CanManage.system_admin p) = inl (D2.by_system p)
  let_through (CanManage.in_group ch found group) = in_conversation ch found group
  let_through (CanManage.public_manager ch found open_ allowed) =
      in_channel ch found (rw open_ allowed)
  let_through (CanManage.private_manager ch found closed allowed) =
      in_channel ch found (rw closed allowed)

  of_channel :
      (ch : Channel)
      → Found ch
      → perm.has_permission_to_channel actor channel_id
          (if ch.is_open
            then manage_public_channel_properties
            else manage_private_channel_properties)
          w
        ≡ true
      → CanManage perm actor channel_id w
  of_channel ch found allowed = elim (Bool-cases ch.is_open) [
    | inl open_ ↦ CanManage.public_manager ch found open_ (rw open_ at allowed)
    | inr closed ↦ CanManage.private_manager ch found closed (rw closed at allowed)
  ]

  passes : D2 ⊎ IsOutsider → CanManage perm actor channel_id w
  passes (inl (D2.by_system p)) = CanManage.system_admin p
  passes (inl (D2.by_participation ch found group in_it)) = CanManage.in_group ch found group
  passes (inl (D2.by_channel ch found other allowed)) = of_channel ch found allowed
  passes (inr (IsOutsider.outside ch found group out)) = CanManage.in_group ch found group

  -- Whoever participates in which channels: the check passes exactly for the users of rule D2 and, beside
  -- them, for users outside of a direct or group channel.
  pub check_can_manage-D2 : (check_can_manage perm actor channel_id w ≡ ok tt) ↔ (D2 ⊎ IsOutsider)
  check_can_manage-D2 =
      let (sound, complete) = check_can_manage_iff perm actor channel_id w in
      (λ passed. let_through (sound passed), λ who. complete (passes who))
