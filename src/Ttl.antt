-- ===== src/Ttl.antt =====
-- server/ttl/ttl.go: the bounds of a TTL and the presets; the setting and the errors of the
-- package server/ttl.
pub mod Bounds
use mattermost_plugin_messag.Base.{
  ℕ, String, ◌≡◌, refl, Bool, true, false, ◌||◌, Option, none, some,
}
use mattermost_plugin_messag.Base.{
  List, [], ◌∷◌, if◌then◌else◌, Text, text, text_eq, Result, ok, err,
}
use mattermost_plugin_messag.Int64.{ℤ, pos, ltb_ℤ}
use mattermost_plugin_messag.Duration.{Duration}

-- MinTTL, a minute
abbrev pub min_ttl : Duration
min_ttl = pos 60000000000

-- MaxTTL, 365 days
abbrev pub max_ttl : Duration
max_ttl = pos 31536000000000000

pub record Preset : Type 0 where
  pub label : Text
  pub duration : Duration

unfoldable pub presets : List Preset
unfolding text
presets =
    record { label = text "5m"; duration = pos 300000000000 }
    ∷ record { label = text "1h"; duration = pos 3600000000000 }
    ∷ record { label = text "8h"; duration = pos 28800000000000 }
    ∷ record { label = text "1d"; duration = pos 86400000000000 }
    ∷ record { label = text "1w"; duration = pos 604800000000000 }
    ∷ []

-- the text of an error of the plugin API
abbrev pub AppError : Type 0
AppError = Text

-- The errors that the package returns. `fmt.Errorf` texts are kept as their parts: the format
-- string is the constructor.
pub data TtlError : Type 0 where
  invalid_ttl forbidden too_many_retries : TtlError
  channel_not_found : Text → AppError → TtlError
  nil_channel : Text → TtlError
  kv_get kv_set kv_delete : Text → AppError → TtlError
  encode decode : Text → Text → TtlError

-- The errors that callers tell apart by `errors.Is`.
pub data Sentinel : Type 0 where
  is_invalid_ttl is_forbidden is_channel_not_found is_too_many_retries : Sentinel

-- the sentinel in an error's chain
abbrev pub sentinel : TtlError → Option Sentinel
sentinel invalid_ttl = some is_invalid_ttl
sentinel forbidden = some is_forbidden
sentinel too_many_retries = some is_too_many_retries
sentinel (channel_not_found _ _) = some is_channel_not_found
sentinel (nil_channel _) = some is_channel_not_found
sentinel _ = none

-- ValidateTTL
unfoldable pub validate_ttl : Duration → Result TtlError (Unit {0})
validate_ttl d = if ltb_ℤ d min_ttl || ltb_ℤ max_ttl d then err invalid_ttl else ok tt

find_preset : List Preset → Text → Option Preset
find_preset [] label = none
find_preset (p ∷ ps) label = if text_eq p.label label then some p else find_preset ps label

-- PresetForLabel
unfoldable pub preset_for_label : Text → Option Preset
unfolding find_preset presets
preset_for_label = find_preset presets

-- TTLSetting
pub record TtlSetting : Type 0 where
  pub duration_seconds : ℤ
  pub set_by : Text
  pub set_at : ℤ

weekly :
    preset_for_label (text "1w")
    ≡ some (record { label = text "1w"; duration = pos 604800000000000 })
unfolding preset_for_label text text_eq
weekly = refl
