-- ===== src/TtlService/Settings.antt =====
-- What SetTTL, GetTTL and ClearTTL do to the settings, over any store that keeps its contract.
use mattermost_plugin_messag.Base.{
  ℕ, ◌*◌, ◌≤◌, ◌≡◌, ◌∙◌, ap, Option, none, some, Text, text_eq, text_eq_refl, ok, err,
  if◌then◌else◌, arith, inl, inr, Result-cases,
}
use mattermost_plugin_messag.Int64.{ℤ, pos}
use mattermost_plugin_messag.Duration.{Duration, second, seconds, seconds_ℕ, of_seconds}
use mattermost_plugin_messag.Duration.Laws.{seconds_ℕ_bounds, of_seconds_pos}
use mattermost_plugin_messag.Ttl.{TtlError, TtlSetting, validate_ttl}
use mattermost_plugin_messag.Ttl.Bounds.{InRange, InRange-pos, validate_ttl_iff}
use mattermost_plugin_messag.TtlStore.{TtlSettingStore}
use mattermost_plugin_messag.TtlStore.Contract.{IsLawfulStore}
use mattermost_plugin_messag.TtlService.{
  PermissionChecker, check_can_manage, set_ttl, get_ttl, clear_ttl,
}
use mattermost_plugin_messag.TtlService.Permissions.{CanManage, check_can_manage_iff}

-- The duration that a TTL is read back as, after it was stored in seconds.
abbrev pub stored : Duration → Duration
stored d = of_seconds (seconds d)

-- A duration in range is stored as a number of seconds between 60 and 31536000, both included.
pub seconds-InRange :
    (d : Duration) → InRange d → (s : ℕ) × (seconds d ≡ pos s) × (60 ≤ s) × (s ≤ 31536000)
unfolding seconds
seconds-InRange d h =
    let (n, same, lo, hi) = InRange-pos d h in
    let near = seconds_ℕ_bounds n (omega arith) in (seconds_ℕ n, rw same, omega arith, omega arith)

stored-InRange_pos :
    (n : ℕ)
    → 60 * second ≤ n
    → n ≤ 31536000 * second
    → InRange (stored (pos n)) × ((k : ℕ) → pos n ≡ pos (k * second) → stored (pos n) ≡ pos n)
unfolding seconds
stored-InRange_pos n lo hi =
    let near = seconds_ℕ_bounds n (omega arith) in
    let same : stored (pos n) ≡ pos (seconds_ℕ n * second) =
      of_seconds_pos (seconds_ℕ n) (omega arith) in
    (
      rw same (ground arith, ground arith),
      λ k e. same ∙ (let m : n ≡ k * second = ground arith in ap pos (omega arith)),
    )

-- It is in range, and is the same for a whole number of seconds.
pub stored-InRange :
    (d : Duration)
    → InRange d
    → InRange (stored d) × ((k : ℕ) → d ≡ pos (k * second) → stored d ≡ d)
stored-InRange d h = let (n, same, lo, hi) = InRange-pos d h in rw same (stored-InRange_pos n lo hi)

module _ {W : Type 0} (store : TtlSettingStore W) (perm : PermissionChecker W)
    (actor channel_id : Text) (w : W) where
  abbrev Allowed : Type 0
  Allowed = CanManage perm actor channel_id w

  -- If the duration is out of range or the actor may not manage the channel, SetTTL gives an error
  -- and leaves the state as it was.
  pub set_ttl_denied :
      (d : Duration) (set_at : ℤ)
      → ¬ (InRange d × Allowed)
      → (e : TtlError) × (set_ttl store perm actor channel_id d set_at w ≡ (err e, w))
  unfolding set_ttl
  set_ttl_denied d set_at h = elim (Result-cases (validate_ttl d)) [
    | inr (e, bad) ↦ (e, ground arith)
    | inl (tt, valid) ↦ elim (Result-cases (check_can_manage perm actor channel_id w)) [
      | inr (e, refused) ↦ (e, ground arith)
      | inl (tt, passed) ↦ absurd (
          h ((validate_ttl_iff d).0 valid, (check_can_manage_iff perm actor channel_id w).0 passed))
    ]
  ]

  -- If the actor may not manage the channel, ClearTTL gives an error and leaves the state as it was.
  pub clear_ttl_denied :
      ¬ Allowed → (e : TtlError) × (clear_ttl store perm actor channel_id w ≡ (err e, w))
  unfolding clear_ttl
  clear_ttl_denied h = elim (Result-cases (check_can_manage perm actor channel_id w)) [
    | inr (e, refused) ↦ (e, ground arith)
    | inl (tt, passed) ↦ absurd (h ((check_can_manage_iff perm actor channel_id w).0 passed))
  ]

  set_ttl_checks :
      (d : Duration) (set_at : ℤ)
      → (set_ttl store perm actor channel_id d set_at w).0 ≡ ok tt
      → (validate_ttl d ≡ ok tt) × (check_can_manage perm actor channel_id w ≡ ok tt)
  unfolding set_ttl
  set_ttl_checks d set_at h = (ground arith, ground arith)

  clear_ttl_checks :
      (clear_ttl store perm actor channel_id w).0 ≡ ok tt
      → check_can_manage perm actor channel_id w ≡ ok tt
  unfolding clear_ttl
  clear_ttl_checks h = ground arith

  module _ (setting : W → Text → Option TtlSetting) (L : IsLawfulStore store setting) where
    -- With a lawful store, a TTL that is set without error was in range and its actor may manage the
    -- channel. It is now the channel's setting, in seconds, with the actor and the time, and the
    -- settings of other channels are the same.
    pub set_ttl_ok :
        (d : Duration) (set_at : ℤ)
        → (set_ttl store perm actor channel_id d set_at w).0 ≡ ok tt
        → InRange d
          × Allowed
          × ((j : Text)
              → setting (set_ttl store perm actor channel_id d set_at w).1 j ≡ (
                  if text_eq channel_id j
                  then some
                      (record { duration_seconds = seconds d; set_by = actor; set_at = set_at })
                  else setting w j))
    unfolding set_ttl
    set_ttl_ok d set_at h =
        let (valid, passed) = set_ttl_checks d set_at h in
        (
          (validate_ttl_iff d).0 valid,
          (check_can_manage_iff perm actor channel_id w).0 passed,
          λ j.
              rw (valid, passed, set_ttl)
                (L.set_writes channel_id j _ w (rw (valid, passed, set_ttl) at h)),
        )

    -- With a lawful store, a TTL that is cleared without error was cleared by an actor who may manage
    -- the channel. The channel has no setting then, and the settings of other channels are the same.
    pub clear_ttl_ok :
        (clear_ttl store perm actor channel_id w).0 ≡ ok tt
        → Allowed
          × ((j : Text)
              → setting (clear_ttl store perm actor channel_id w).1 j
                ≡ (if text_eq channel_id j then none else setting w j))
    unfolding clear_ttl
    clear_ttl_ok h =
        let passed = clear_ttl_checks h in
        (
          (check_can_manage_iff perm actor channel_id w).0 passed,
          λ j.
              rw (passed, clear_ttl) (L.clear_removes channel_id j w (rw (passed, clear_ttl) at h)),
        )

    -- With a lawful store, what GetTTL reads without error after a SetTTL without error is a TTL that
    -- is in range, and the one that was set if that is a whole number of seconds.
    pub get-set_ttl :
        (d : Duration) (set_at : ℤ)
        → (set_ttl store perm actor channel_id d set_at w).0 ≡ ok tt
        → (r : Option Duration)
        → (get_ttl store perm channel_id (set_ttl store perm actor channel_id d set_at w).1).0
          ≡ ok r
        → (t : Duration) × (r ≡ some t) × InRange t × ((k : ℕ) → d ≡ pos (k * second) → t ≡ d)
    unfolding get_ttl
    get-set_ttl d set_at h r read =
        let (range, _, written) = set_ttl_ok d set_at h in
        let w' = (set_ttl store perm actor channel_id d set_at w).1 in
        let (fits, exact) = stored-InRange d range in
        elim (Result-cases (store.get channel_id w').0) [
          | inr (e, failed) ↦ ground arith
          | inl (s, got) ↦ (
            stored d,
            ground
                (arith, L.get_reads channel_id w' got, written channel_id, text_eq_refl channel_id),
            fits,
            exact,
          )
        ]
