-- ===== src/Tests/Http.antt =====
-- The theorems about the HTTP handlers at concrete requests.
use mattermost_plugin_messag.Base.{
  ℕ, ◌≡◌, ◌≢◌, refl, none, some, [], ◌∷◌, Text, text_eq, Result, ok, err,
}
use mattermost_plugin_messag.Int64.{pos, mul64}
use mattermost_plugin_messag.Duration.{seconds, seconds_ℕ, of_seconds}
use mattermost_plugin_messag.Float64.{nearest, truncate, round_quot, shift_up, shift_down}
use mattermost_plugin_messag.Ttl.{validate_ttl}
use mattermost_plugin_messag.TtlService.{check_can_manage, set_ttl}
use mattermost_plugin_messag.Handler.{
  Handler, manager_of, Request, SetTtlRequest, TtlChanged, handle_set, handle_get, handle_delete,
  set_decoded,
}
use mattermost_plugin_messag.Handler.Reports.{Created, handle_set-Created}
use mattermost_plugin_messag.Handler.Silence.{errors_publish_nothing}
use mattermost_plugin_messag.Tests.{
  SettingsByChannel, memory_store, setting, memory_store-IsLawful, bob, town, permissions,
}

abbrev pub empty : SettingsByChannel
empty c = none

-- A body that holds the number of seconds, for `town`.
abbrev decode : Text → Result Text SetTtlRequest
decode [] = err []
decode (n ∷ rest) = ok (record { channel_id = town; ttl_seconds = pos n })

abbrev publish : TtlChanged → SettingsByChannel → SettingsByChannel
publish e w = w

abbrev pub town_handler : Handler SettingsByChannel
town_handler = record {
  ttl = manager_of memory_store permissions;
  publish = publish;
  now = λ w. pos 5;
  decode = decode;
}

-- `bob` asks for `n` seconds in `town`.
abbrev post : ℕ → Request
post n = record { user_id = bob; channel_id = []; body = n ∷ [] }

-- This many seconds wrap to 60.290448384 seconds.
abbrev wrapping : ℕ
wrapping = 18446744134

post-wrapping : (handle_set town_handler (post wrapping) empty).0.status ≡ 201
unfolding handle_set set_decoded set_ttl check_can_manage validate_ttl text_eq of_seconds mul64
post-wrapping = refl

-- A request for 584 years is answered as asked for, and kept as a minute.
kept_wrapping :
    setting (handle_set town_handler (post wrapping) empty).1 town
    ≡ some (record { duration_seconds = pos 60; set_by = bob; set_at = pos 5 })
unfolding handle_set set_decoded set_ttl check_can_manage validate_ttl text_eq of_seconds mul64
    seconds seconds_ℕ nearest truncate round_quot shift_up shift_down
kept_wrapping = refl

handle_set-Created_example :
    (req : SetTtlRequest) × (decode (wrapping ∷ []) ≡ ok req)
    × Created memory_store permissions setting bob empty req
        (handle_set town_handler (post wrapping) empty)
handle_set-Created_example =
    handle_set-Created memory_store permissions setting memory_store-IsLawful publish
      (λ e w j. refl) (λ w. pos 5) decode (post wrapping) empty post-wrapping

-- Another publisher, which would be noticed.
abbrev forget : TtlChanged → SettingsByChannel → SettingsByChannel
forget e w c = none

abbrev nobody : Request
nobody = record { user_id = []; channel_id = town; body = 7200 ∷ [] }

errors_publish_nothing_example :
    ((handle_set town_handler nobody empty).0.status ≢ 201
      → handle_set town_handler nobody empty
        ≡ handle_set (record town_handler { publish = forget }) nobody empty)
    × ((handle_delete town_handler nobody empty).0.status ≢ 204
        → handle_delete town_handler nobody empty
          ≡ handle_delete (record town_handler { publish = forget }) nobody empty)
    × (handle_get town_handler nobody empty
        ≡ handle_get (record town_handler { publish = forget }) nobody empty)
errors_publish_nothing_example = errors_publish_nothing town_handler forget nobody empty
