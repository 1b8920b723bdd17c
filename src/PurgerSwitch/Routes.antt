-- ===== src/PurgerSwitch/Routes.antt =====
-- Where a purge goes.
use native.Mathlib.Omega.{arith}
use mattermost_plugin_messag.Base.{
  ◌+◌, ◌≡◌, refl, ◌⊎◌, inl, inr, true, false, some, List, [], ◌∷◌, length, Text, ok, err, wrap,
}
use mattermost_plugin_messag.Configuration.{
  Configuration, purge_schema_allowlist, PurgeMode, purge_soft, purge_skip, purge_hard,
}
use mattermost_plugin_messag.Configuration.Decision.{Allows, purge_decision_iff}
use mattermost_plugin_messag.PurgerSwitch.{
  Purger, SwitchApi, schema_skipped, hard_failed, hard_purge_skipped, soft_delete, mode, purge,
}

pub PurgeMode-cases : (m : PurgeMode) → (m ≡ purge_hard) ⊎ ((m ≡ purge_soft) ⊎ (m ≡ purge_skip))
PurgeMode-cases purge_hard = inl refl
PurgeMode-cases purge_soft = inr (inl refl)
PurgeMode-cases purge_skip = inr (inr refl)

module _ {W : Type 0} (api : SwitchApi W) (get_config : W → Configuration) (w : W) where
  abbrev pub allowlist : List Text
  allowlist = purge_schema_allowlist (some (get_config w))

  -- the conditions of a hard purge
  pub record MayHardPurge : Type 0 where
    pub enabled : (get_config w).enable_purge ≡ true
    pub unlicensed : api.has_license w ≡ false
    pub tested : Allows (api.get_server_version w) allowlist

  -- the conditions of a soft delete, and of doing nothing
  abbrev pub MustSoftDelete : Type 0
  MustSoftDelete = ((get_config w).enable_purge ≡ false) ⊎ (api.has_license w ≡ true)

  pub record MustSkip : Type 0 where
    pub enabled : (get_config w).enable_purge ≡ true
    pub unlicensed : api.has_license w ≡ false
    pub untested : ¬ Allows (api.get_server_version w) allowlist

  decided :
      ((mode api get_config w ≡ purge_hard) → MayHardPurge)
      × (MayHardPurge → mode api get_config w ≡ purge_hard)
      × (MustSoftDelete → mode api get_config w ≡ purge_soft)
      × (MustSkip → mode api get_config w ≡ purge_skip)
  unfolding mode
  decided =
      let cfg = get_config w in
      let iffs =
        purge_decision_iff cfg.enable_purge (api.has_license w) (api.get_server_version w)
          allowlist in
      (
        λ h. (let c = iffs.0.0 h in record { enabled = c.0; unlicensed = c.1; tested = c.2 }),
        λ m. iffs.0.1 (m.enabled, m.unlicensed, m.tested),
        iffs.1.1,
        λ m. iffs.2.1 (m.enabled, m.unlicensed, m.untested),
      )

  module _ {E : Type 0} where
    -- Unless the purge is enabled, the server has no license and its version is on the allowlist, a
    -- purge is the same with any other hard purge in place: the hard purge is not called.
    pub purge_never_hard :
        (hard hard' : Purger W E) (ids : List Text)
        → ¬ MayHardPurge
        → purge api get_config hard ids w ≡ purge api get_config hard' ids w
    unfolding purge
    purge_never_hard hard hard' [] h = refl
    purge_never_hard hard hard' (id ∷ ids) h = elim (PurgeMode-cases (mode api get_config w)) [
      | inl chosen ↦ absurd (h (decided.0 chosen))
      | inr (inl chosen) ↦ ground arith
      | inr (inr chosen) ↦ ground arith
    ]

    -- A purge of some posts is the hard purge if it may be. On a licensed server, or with the purge
    -- disabled, it soft-deletes every post and succeeds. On any other server it fails, and writes
    -- to the log only.
    pub purge_routes :
        (hard : Purger W E) (id : Text) (ids : List Text)
        → (MayHardPurge
            → purge api get_config hard (id ∷ ids) w ≡ wrap hard_failed (hard (id ∷ ids) w))
          × (MustSoftDelete
              → purge api get_config hard (id ∷ ids) w
                ≡ (ok (length ids + 1), soft_delete api (id ∷ ids) w))
          × (MustSkip
              → purge api get_config hard (id ∷ ids) w ≡ (
                err schema_skipped,
                api.log_error (hard_purge_skipped (api.get_server_version w)) w,
              ))
    unfolding purge
    purge_routes hard id ids = (
      λ m. rw (decided.1 m, purge),
      λ m. rw (decided.2 m, purge) (ground arith),
      λ m. rw (decided.3 m, purge),
    )
