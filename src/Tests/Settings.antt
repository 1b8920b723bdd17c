-- ===== src/Tests/Settings.antt =====
-- The theorems about settings, permissions and the configuration at concrete data.
use mattermost_plugin_messag.Base.{
  is_space, ℕ, ◌*◌, ◌≡◌, ◌↔◌, ◌⊎◌, ◌++◌, refl, Bool, true, false, none, some, [], ◌∷◌, Text, text,
  text_eq, join, ok, err, if◌then◌else◌,
}
use mattermost_plugin_messag.Int64.{pos, mul64}
use mattermost_plugin_messag.Duration.{Duration, second, seconds, seconds_ℕ, of_seconds}
use mattermost_plugin_messag.Float64.{nearest, truncate, round_quot, shift_up, shift_down}
use mattermost_plugin_messag.Ttl.{TtlError, forbidden, validate_ttl}
use mattermost_plugin_messag.Ttl.Bounds.{InRange}
use mattermost_plugin_messag.TtlService.{check_can_manage, set_ttl, get_ttl, clear_ttl}
use mattermost_plugin_messag.TtlService.Permissions.{CanManage, check_can_manage_err}
use mattermost_plugin_messag.TtlService.Settings.{set_ttl_denied, set_ttl_ok, get-set_ttl}
use mattermost_plugin_messag.Configuration.{
  Configuration, purge_schema_allowlist, purge_hard, purge_soft, purge_skip, purge_decision,
}
use mattermost_plugin_messag.Configuration.Decision.{Allows, purge_decision_iff}
use mattermost_plugin_messag.Configuration.Allowlist.{IsEntry, allowlist-join}
use mattermost_plugin_messag.Tests.{
  SettingsByChannel, memory_store, setting, memory_store-IsLawful, bob, eve, town, permissions,
}

abbrev empty : SettingsByChannel
empty c = none

abbrev two_hours : Duration
two_hours = pos (7200 * second)

-- `bob` sets a TTL of two hours in `town`.
bob_sets : (set_ttl memory_store permissions bob town two_hours (pos 5) empty).0 ≡ ok tt
unfolding set_ttl check_can_manage validate_ttl text_eq
bob_sets = refl

abbrev after_set : SettingsByChannel
after_set = (set_ttl memory_store permissions bob town two_hours (pos 5) empty).1

set_ttl_ok_example :
    InRange two_hours
    × CanManage permissions bob town empty
    × ((j : Text)
        → setting after_set j ≡ (
            if text_eq town j
            then some
                (record { duration_seconds = seconds two_hours; set_by = bob; set_at = pos 5 })
            else none))
set_ttl_ok_example =
    set_ttl_ok memory_store permissions bob town empty setting memory_store-IsLawful two_hours
      (pos 5) bob_sets

bob_reads : (get_ttl memory_store permissions town after_set).0 ≡ ok (some two_hours)
unfolding set_ttl get_ttl check_can_manage validate_ttl text_eq of_seconds seconds seconds_ℕ nearest
    truncate round_quot shift_up shift_down mul64
bob_reads = refl

get-set_ttl_example :
    (t : Duration) × (some two_hours ≡ some t)
    × InRange t
    × ((k : ℕ) → two_hours ≡ pos (k * second) → t ≡ two_hours)
get-set_ttl_example =
    get-set_ttl memory_store permissions bob town empty setting memory_store-IsLawful two_hours
      (pos 5) bob_sets (some two_hours) bob_reads

-- `eve` may not manage `town`.
eve_refused : check_can_manage permissions eve town empty ≡ err forbidden
unfolding check_can_manage text_eq
eve_refused = refl

eve_denied : ¬ CanManage permissions eve town empty
eve_denied c = (check_can_manage_err permissions eve town empty forbidden eve_refused).0 c

set_ttl_denied_example :
    (e : TtlError) × (set_ttl memory_store permissions eve town two_hours (pos 5) empty
      ≡ (err e, empty))
set_ttl_denied_example =
    set_ttl_denied memory_store permissions eve town empty two_hours (pos 5)
      (λ both. eve_denied both.1)

bob_clears : (clear_ttl memory_store permissions bob town after_set).0 ≡ ok tt
unfolding clear_ttl check_can_manage text_eq
bob_clears = refl

abbrev ten : Text
ten = b'1' ∷ b'0' ∷ b'.' ∷ []

abbrev version : Text
version = ten ++ ten

purge_decision_iff_example :
    ((purge_decision true false version (ten ∷ []) ≡ purge_hard)
      ↔ (◌≡◌ {A = Bool} true true × ◌≡◌ {A = Bool} false false × Allows version (ten ∷ [])))
    × ((purge_decision true false version (ten ∷ []) ≡ purge_soft)
        ↔ (◌≡◌ {A = Bool} true false ⊎ ◌≡◌ {A = Bool} false true))
    × ((purge_decision true false version (ten ∷ []) ≡ purge_skip)
        ↔ (◌≡◌ {A = Bool} true true × ◌≡◌ {A = Bool} false false × (¬ Allows version (ten ∷ []))))
purge_decision_iff_example = purge_decision_iff true false version (ten ∷ [])

abbrev commas : Configuration
commas = record { enable_purge = true; purge_schema_allowlist_raw = text " 10. ,, " }

ten-IsEntry : IsEntry ten
unfolding is_space
ten-IsEntry = record { not_empty = refl; no_comma = refl; starts = refl; ends = refl }

allowlist-join_example :
    purge_schema_allowlist (
      some (record {
        enable_purge = true;
        purge_schema_allowlist_raw = join (b',' ∷ []) (ten ∷ ten ∷ []);
      }))
    ≡ ten ∷ ten ∷ []
allowlist-join_example = allowlist-join true (ten ∷ ten ∷ []) (ten-IsEntry, (ten-IsEntry, tt))
