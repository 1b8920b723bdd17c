-- ===== src/TtlService/Permissions.antt =====
-- Who may change a channel's TTL.
use mattermost_plugin_messag.Base.{
  ◌≡◌, ◌↔◌, true, false, none, some, Text, Result, ok, err, arith, inl, inr, Result-cases,
  Bool-cases,
}
use mattermost_plugin_messag.Ttl.{TtlError, AppError, forbidden, channel_not_found, nil_channel}
use mattermost_plugin_messag.TtlService.{
  manage_system, manage_public_channel_properties, manage_private_channel_properties, Channel,
  PermissionChecker, check_can_manage, check_channel,
}

module _ {W : Type 0} (perm : PermissionChecker W) (actor channel_id : Text) (w : W) where
  -- Whom the check lets through. For a direct or group channel this is every user, a participant or not.
  pub data CanManage : Type 0 where
    system_admin : perm.has_permission_to actor manage_system w ≡ true → CanManage
    in_group :
        (ch : Channel)
        → perm.get_channel channel_id w ≡ ok (some ch)
        → ch.is_group_or_direct ≡ true
        → CanManage
    public_manager :
        (ch : Channel)
        → perm.get_channel channel_id w ≡ ok (some ch)
        → ch.is_open ≡ true
        → perm.has_permission_to_channel actor channel_id manage_public_channel_properties w ≡ true
        → CanManage
    private_manager :
        (ch : Channel)
        → perm.get_channel channel_id w ≡ ok (some ch)
        → ch.is_open ≡ false
        → perm.has_permission_to_channel actor channel_id manage_private_channel_properties w ≡ true
        → CanManage

  abbrev check : Result TtlError (Unit {0})
  check = check_can_manage perm actor channel_id w

  sound_in_channel :
      (ch : Channel)
      → perm.get_channel channel_id w ≡ ok (some ch)
      → check_channel perm actor channel_id ch w ≡ ok tt
      → CanManage
  sound_in_channel ch found h = elim (Bool-cases ch.is_group_or_direct) [
    | inl group ↦ in_group ch found group
    | inr not_group ↦ elim (Bool-cases ch.is_open) [
      | inl open_ ↦ public_manager ch found open_ (ground arith)
      | inr closed ↦ private_manager ch found closed (ground arith)
    ]
  ]

  sound : check ≡ ok tt → CanManage
  unfolding check_can_manage
  sound h = elim (Bool-cases (perm.has_permission_to actor manage_system w)) [
    | inl admin ↦ system_admin admin
    | inr other ↦ elim (Result-cases (perm.get_channel channel_id w)) [
      | inr (e, failed) ↦ ground arith
      | inl (none, missing) ↦ ground arith
      | inl (some ch, found) ↦ sound_in_channel ch found (rw (other, found, check_can_manage) at h)
    ]
  ]

  complete : CanManage → check ≡ ok tt
  unfolding check_can_manage
  complete (system_admin p) = ground arith
  complete (in_group ch p q) = ground arith
  complete (public_manager ch p q r) = ground arith
  complete (private_manager ch p q r) = ground arith

  -- The check passes exactly for these.
  pub check_can_manage_iff : (check_can_manage perm actor channel_id w ≡ ok tt) ↔ CanManage
  check_can_manage_iff = (sound, complete)

  -- How a check fails: the channel was found and the actor may not manage it, the look-up failed,
  -- or it gave no channel. The first is the error `forbidden`, the others a channel not found.
  pub data Refusal : TtlError → Type 0 where
    not_allowed : (ch : Channel) → perm.get_channel channel_id w ≡ ok (some ch) → Refusal forbidden
    lookup_failed :
        (e : AppError)
        → perm.get_channel channel_id w ≡ err e
        → Refusal (channel_not_found channel_id e)
    no_channel : perm.get_channel channel_id w ≡ ok none → Refusal (nil_channel channel_id)

  refused_in_channel :
      (ch : Channel) (e : TtlError)
      → check_channel perm actor channel_id ch w ≡ err e
      → e ≡ forbidden
  refused_in_channel ch e h = ground arith

  refused : (e : TtlError) → check ≡ err e → Refusal e
  unfolding check_can_manage
  refused e h = elim (Result-cases (perm.get_channel channel_id w)) [
    | inr (x, failed) ↦
        let same : channel_not_found channel_id x ≡ e = ground arith in
        rw (← same) (lookup_failed x failed)
    | inl (none, missing) ↦
        let same : nil_channel channel_id ≡ e = ground arith in rw (← same) (no_channel missing)
    | inl (some ch, found) ↦
        let same : forbidden ≡ e = ground arith in rw (← same) (not_allowed ch found)
  ]

  -- A failed check means that the actor may not manage the channel, and names the reason.
  pub check_can_manage_err :
      (e : TtlError) → check_can_manage perm actor channel_id w ≡ err e → (¬ CanManage) × Refusal e
  check_can_manage_err e h = (λ c. cc (complete c), refused e h)
