-- ===== src/Command/Enabled.antt =====
-- What a command that set a TTL has done.
use native.Mathlib.Omega.{arith}
use mattermost_plugin_messag.Base.{
  fields, ◌≡◌, refl, ◌∙◌, inl, inr, Option, some, List, [], ◌∷◌, Text, text_eq_refl, Result, ok,
  err, Result-cases,
}
use mattermost_plugin_messag.Int64.{ℤ}
use mattermost_plugin_messag.Duration.{Duration, seconds}
use mattermost_plugin_messag.Ttl.{TtlSetting}
use mattermost_plugin_messag.Ttl.Bounds.{InRange}
use mattermost_plugin_messag.TtlStore.{TtlSettingStore}
use mattermost_plugin_messag.TtlStore.Contract.{IsLawfulStore}
use mattermost_plugin_messag.TtlService.{PermissionChecker, set_ttl}
use mattermost_plugin_messag.TtlService.Permissions.{CanManage}
use mattermost_plugin_messag.TtlService.Settings.{set_ttl_ok}
use mattermost_plugin_messag.Handler.{Handler, SetTtlRequest, TtlChanged, manager_of, to_dto}
use mattermost_plugin_messag.Command.{
  CommandArgs, Reply, enabled, not_a_duration, parse_ttl_arg, cmd_set, cmd_off, cmd_status,
  dispatch, execute_command,
}

parse_ttl_arg_err :
    (parse_duration : Text → Result Text Duration) (s : Text) (e : Reply)
    → parse_ttl_arg parse_duration s ≡ err e
    → e ≡ not_a_duration s
unfolding parse_ttl_arg
parse_ttl_arg_err parse_duration s e h = ground arith

module _ {W : Type 0} (h : Handler W) (parse_duration : Text → Result Text Duration) where
  -- Only the subcommand `set` answers that a TTL was set.
  dispatch_enabled :
      (args : CommandArgs) (words : List Text) (w : W) (arg : Text)
      → (dispatch h parse_duration args words w).0 ≡ enabled arg
      → (rest : List Text) × (dispatch h parse_duration args words w
          ≡ cmd_set h parse_duration args rest w)
  unfolding dispatch cmd_off cmd_status
  dispatch_enabled args [] w arg told = ground arith
  dispatch_enabled args (trigger ∷ []) w arg told = ground arith
  dispatch_enabled args (trigger ∷ sub ∷ rest) w arg told = (rest, ground arith)

  cmd_set_enabled :
      (args : CommandArgs) (rest : List Text) (w : W) (arg : Text)
      → (cmd_set h parse_duration args rest w).0 ≡ enabled arg
      → (d : Duration) × (parse_ttl_arg parse_duration arg ≡ ok d)
        × ((h.ttl.set_ttl args.user_id args.channel_id d (h.now w) w).0 ≡ ok tt)
        × ((cmd_set h parse_duration args rest w).1
            ≡ h.publish
                (record {
                  channel_id = args.channel_id;
                  ttl = some (record {
                    duration_seconds = seconds d;
                    set_by = args.user_id;
                    set_at = h.now w;
                  });
                })
                (h.ttl.set_ttl args.user_id args.channel_id d (h.now w) w).1)
  unfolding cmd_set
  cmd_set_enabled args [] w arg told = ground arith
  cmd_set_enabled args (arg' ∷ rest) w arg told =
      elim (Result-cases (parse_ttl_arg parse_duration arg')) [
        | inr (e, bad) ↦ ground (arith, parse_ttl_arg_err parse_duration arg' e bad)
        | inl (d, fine) ↦ (d, ground arith, ground arith, ground arith)
      ]

-- What a command has done that answers that the TTL `arg` was set.
pub record Enabled {W : Type 0} (store : TtlSettingStore W) (perm : PermissionChecker W)
    (setting : W → Text → Option TtlSetting) (publish : TtlChanged → W → W) (now : W → ℤ)
    (args : CommandArgs) (w : W) (d : Duration) (after : W) : Type 0 where
  pub in_range : InRange d
  pub allowed : CanManage perm args.user_id args.channel_id w
  pub kept : TtlSetting
  pub told : TtlChanged
  pub is_kept : setting after args.channel_id ≡ some kept
  pub kept_as :
      kept ≡ record { duration_seconds = seconds d; set_by = args.user_id; set_at = now w }
  pub told_as : told ≡ record { channel_id = args.channel_id; ttl = to_dto (some kept) }
  pub published :
      after ≡ publish told (set_ttl store perm args.user_id args.channel_id d (now w) w).1

module _ {W : Type 0} (store : TtlSettingStore W) (perm : PermissionChecker W)
    (setting : W → Text → Option TtlSetting) (L : IsLawfulStore store setting)
    (publish : TtlChanged → W → W)
    (publish_keeps : (e : TtlChanged) (w : W) (j : Text) → setting (publish e w) j ≡ setting w j)
    (now : W → ℤ) (decode : Text → Result Text SetTtlRequest)
    (parse_duration : Text → Result Text Duration) where
  abbrev handler : Handler W
  handler = record { ttl = manager_of store perm; publish = publish; now = now; decode = decode }

  -- Over a lawful store and a publisher that leaves the settings alone: a command that answers that
  -- the TTL `arg` was set had an argument that stands for a duration in range, and a user who may
  -- manage the channel. The channel's setting is that duration in seconds, and one event was
  -- published, which tells exactly this setting.
  pub execute_command-Enabled :
      (args : CommandArgs) (w : W) (arg : Text)
      → (execute_command handler parse_duration args w).0.reply ≡ enabled arg
      → (d : Duration) × (parse_ttl_arg parse_duration arg ≡ ok d)
        × Enabled store perm setting publish now args w d
            (execute_command handler parse_duration args w).1
  unfolding execute_command
  execute_command-Enabled args w arg told =
      let (rest, same) =
        dispatch_enabled handler parse_duration args (fields args.command) w arg told in
      let (d, parsed, fine, after) =
        cmd_set_enabled handler parse_duration args rest w arg (rw same at told) in
      let (range, allowed, written) =
        set_ttl_ok store perm args.user_id args.channel_id w setting L d (now w) fine in
      (
        d,
        parsed,
        record {
          in_range = range;
          allowed = allowed;
          kept = record { duration_seconds = seconds d; set_by = args.user_id; set_at = now w };
          told = _;
          is_kept =
              rw (same, after)
                (publish_keeps _ _ args.channel_id ∙ rw (written args.channel_id, text_eq_refl));
          kept_as = refl;
          told_as = refl;
          published = rw same after;
        },
      )
