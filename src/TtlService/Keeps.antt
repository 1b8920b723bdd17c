-- ===== src/TtlService/Keeps.antt =====
-- What outlives the operations of the TTL service: only
-- settings in bounds are ever written.
use mattermost_plugin_messag.Base.{ℕ, ◌≤◌, ◌≡◌, inl, inr, none, some, Text, Result-cases}
use mattermost_plugin_messag.Int64.{ℤ, pos}
use mattermost_plugin_messag.Duration.{Duration}
use mattermost_plugin_messag.Ttl.{TtlSetting, validate_ttl}
use mattermost_plugin_messag.Ttl.Bounds.{validate_ttl_iff}
use mattermost_plugin_messag.TtlStore.{TtlSettingStore}
use mattermost_plugin_messag.TtlService.{
  PermissionChecker, check_can_manage, set_ttl, get_ttl, clear_ttl,
}
use mattermost_plugin_messag.TtlService.Settings.{seconds-InRange}

-- a setting of a minute to 365 days
abbrev pub InBounds : TtlSetting → Type 0
InBounds t = (n : ℕ) × (t.duration_seconds ≡ pos n) × (60 ≤ n) × (n ≤ 31536000)

-- `P` outlives the operations of the store, if only settings in bounds are written.
pub record StoreKeeps {W : Type 0} (store : TtlSettingStore W) (P : W → Type 0) : Type 0 where
  pub on_get : (c : Text) (w : W) → P w → P (store.get c w).1
  pub on_set : (c : Text) (t : TtlSetting) (w : W) → InBounds t → P w → P (store.set c t w).1
  pub on_clear : (c : Text) (w : W) → P w → P (store.clear c w).1

module _ {W : Type 0} (store : TtlSettingStore W) (perm : PermissionChecker W) (P : W → Type 0)
    (K : StoreKeeps store P) where
  pub set_ttl-Keeps :
      (actor c : Text) (d : Duration) (at : ℤ) (w : W)
      → P w
      → P (set_ttl store perm actor c d at w).1
  unfolding set_ttl
  set_ttl-Keeps actor c d at w h = elim (Result-cases (validate_ttl d)) [
    | inr (e, bad) ↦ rw (bad, set_ttl) h
    | inl (tt, valid) ↦ elim (Result-cases (check_can_manage perm actor c w)) [
      | inr (e, refused) ↦ rw (valid, refused, set_ttl) h
      | inl (tt, passed) ↦
          rw (valid, passed, set_ttl)
            (K.on_set c _ w (seconds-InRange d ((validate_ttl_iff d).0 valid)) h)
    ]
  ]

  pub get_ttl-Keeps : (c : Text) (w : W) → P w → P (get_ttl store perm c w).1
  unfolding get_ttl
  get_ttl-Keeps c w h =
      let h' = K.on_get c w h in
      elim (Result-cases (store.get c w).0) [
        | inr (e, failed) ↦ rw (failed, get_ttl) h'
        | inl (none, read) ↦ rw (read, get_ttl) h'
        | inl (some s, read) ↦ rw (read, get_ttl) h'
      ]

  pub clear_ttl-Keeps : (actor c : Text) (w : W) → P w → P (clear_ttl store perm actor c w).1
  unfolding clear_ttl
  clear_ttl-Keeps actor c w h = elim (Result-cases (check_can_manage perm actor c w)) [
    | inr (e, refused) ↦ rw (refused, clear_ttl) h
    | inl (tt, passed) ↦ rw (passed, clear_ttl) (K.on_clear c w h)
  ]
