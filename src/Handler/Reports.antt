-- ===== src/Handler/Reports.antt =====
-- Whether the answer to a POST is what was stored.
use native.Mathlib.Omega.{arith}
use mattermost_plugin_messag.Base.{
  ℕ, ◌≤◌, ◌<◌, ◌≡◌, ◌≢◌, refl, ap, sym, ◌∙◌, inl, inr, false, Option, some, Text, text_eq_refl,
  Result, ok, Result-cases,
}
use mattermost_plugin_messag.Int64.{ℤ, pos, negsuc, ltb_ℤ}
use mattermost_plugin_messag.Duration.{seconds, of_seconds}
use mattermost_plugin_messag.Duration.Laws.{of_seconds_pos, seconds_ℕ-mul}
use mattermost_plugin_messag.Ttl.{TtlSetting}
use mattermost_plugin_messag.TtlStore.{TtlSettingStore}
use mattermost_plugin_messag.TtlStore.Contract.{IsLawfulStore}
use mattermost_plugin_messag.TtlService.{PermissionChecker, set_ttl}
use mattermost_plugin_messag.TtlService.Permissions.{CanManage}
use mattermost_plugin_messag.TtlService.Settings.{set_ttl_ok, seconds-InRange}
use mattermost_plugin_messag.Handler.{
  Handler, manager_of, Request, Response, SetTtlRequest, TtlChanged, TtlDto, to_dto, dto,
  write_domain_error, set_decoded, handle_set,
}

-- What a POST that was answered by 201 has done, for the number `n` of seconds that it asked for.
pub record Created {W : Type 0} (store : TtlSettingStore W) (perm : PermissionChecker W)
    (setting : W → Text → Option TtlSetting) (actor : Text) (w : W) (req : SetTtlRequest)
    (answer : Response × W) : Type 0 where
  pub n : ℕ
  pub asked : req.ttl_seconds ≡ pos n
  pub allowed : CanManage perm actor req.channel_id w
  pub kept : TtlSetting
  pub is_kept : setting answer.1 req.channel_id ≡ some kept
  pub seconds_kept : ℕ
  pub kept_as : kept.duration_seconds ≡ pos seconds_kept
  pub in_range : (60 ≤ seconds_kept) × (seconds_kept ≤ 31536000)
  pub untruthful : 31536000 < n → answer.0.body ≢ dto (to_dto (some kept))
  pub truthful : n ≤ 31536000 → answer.0.body ≡ dto (to_dto (some kept))

nonneg : (z : ℤ) → ltb_ℤ z (pos 0) ≡ false → (n : ℕ) × (z ≡ pos n)
nonneg (pos n) h = (n, refl)
nonneg (negsuc n) h = cc

-- A year or less is stored in the seconds that were asked for.
exact : (z : ℤ) (n : ℕ) → z ≡ pos n → n ≤ 31536000 → z ≡ seconds (of_seconds z)
unfolding seconds
exact z n same few =
    rw same (rw (of_seconds_pos n (omega arith)) (ap pos (sym (seconds_ℕ-mul n (omega arith)))))

-- Two reports with different numbers of seconds differ.
false_report :
    (n s : ℕ) (x y : ℤ) (actor : Text) (at : ℤ)
    → 31536000 < n
    → s ≤ 31536000
    → x ≡ pos n
    → y ≡ pos s
    → dto (some (record { duration_seconds = x; set_by = actor; set_at = at }))
      ≢ dto (some (record { duration_seconds = y; set_by = actor; set_at = at }))
false_report n s x y actor at many few p q e = ground arith

module _ {W : Type 0} (store : TtlSettingStore W) (perm : PermissionChecker W)
    (setting : W → Text → Option TtlSetting) (L : IsLawfulStore store setting)
    (publish : TtlChanged → W → W)
    (publish_keeps : (e : TtlChanged) (w : W) (j : Text) → setting (publish e w) j ≡ setting w j)
    (now : W → ℤ) (decode : Text → Result Text SetTtlRequest) where
  abbrev handler : Handler W
  handler = record { ttl = manager_of store perm; publish = publish; now = now; decode = decode }

  abbrev answer : Text → SetTtlRequest → W → Response × W
  answer = set_decoded handler

  checked :
      (actor : Text) (req : SetTtlRequest) (w : W)
      → (answer actor req w).0.status ≡ 201
      → ltb_ℤ req.ttl_seconds (pos 0) ≡ false
  unfolding set_decoded
  checked actor req w h = ground arith

  accepted :
      (actor : Text) (req : SetTtlRequest) (w : W)
      → (answer actor req w).0.status ≡ 201
      → (set_ttl store perm actor req.channel_id (of_seconds req.ttl_seconds) (now w) w).0 ≡ ok tt
  unfolding set_decoded write_domain_error
  accepted actor req w h = ground arith

  answered :
      (actor : Text) (req : SetTtlRequest) (w : W)
      → (answer actor req w).0.status ≡ 201
      → let t : Option TtlDto =
          some (record { duration_seconds = req.ttl_seconds; set_by = actor; set_at = now w }) in
        answer actor req w ≡ (
          record { status = 201; body = dto t },
          publish
              (record { channel_id = req.channel_id; ttl = t })
              (set_ttl store perm actor req.channel_id (of_seconds req.ttl_seconds) (now w) w).1,
        )
  unfolding set_decoded write_domain_error
  answered actor req w h = ground arith

  Created-decoded :
      (actor : Text) (req : SetTtlRequest) (w : W)
      → (set_decoded handler actor req w).0.status ≡ 201
      → Created store perm setting actor w req (set_decoded handler actor req w)
  unfolding set_decoded
  Created-decoded actor req w h =
      let d = of_seconds req.ttl_seconds in
      let (n, asked) = nonneg req.ttl_seconds (checked actor req w h) in
      let fine = accepted actor req w h in
      let (range, allowed, written) =
        set_ttl_ok store perm actor req.channel_id w setting L d (now w) fine in
      let (s, kept_as, lo, hi) = seconds-InRange d range in
      record {
        n = n;
        asked = asked;
        allowed = allowed;
        kept = record { duration_seconds = seconds d; set_by = actor; set_at = now w };
        is_kept =
            rw (answered actor req w h)
              (publish_keeps _ _ req.channel_id ∙ rw (written req.channel_id, text_eq_refl));
        seconds_kept = s;
        kept_as = kept_as;
        in_range = (lo, hi);
        untruthful = λ many e.
            false_report n s req.ttl_seconds (seconds d) actor (now w) many hi asked kept_as
              (rw (answered actor req w h) at e);
        truthful = λ few. rw (answered actor req w h) (
            ap
              (λ (t : ℤ).
                dto (some (record { duration_seconds = t; set_by = actor; set_at = now w })))
              (exact req.ttl_seconds n asked few));
      }

  -- Over a lawful store and a publisher that leaves the settings alone: a POST that is answered by
  -- 201 had a body for which its user may manage the channel, and the channel then has a setting of
  -- 60 to 31536000 seconds. The answer tells that setting if at most 31536000 seconds were asked
  -- for, and another one if more were.
  pub handle_set-Created :
      (r : Request) (w : W)
      → (handle_set handler r w).0.status ≡ 201
      → (req : SetTtlRequest) × (decode r.body ≡ ok req)
        × Created store perm setting r.user_id w req (handle_set handler r w)
  unfolding handle_set
  handle_set-Created r w h = elim (Result-cases (decode r.body)) [
    | inr (e, bad) ↦ ground arith
    | inl (req, fine) ↦
        let same : handle_set handler r w ≡ set_decoded handler r.user_id req w = ground arith in
        (req, fine, rw same (Created-decoded r.user_id req w (rw same at h)))
  ]
