-- ===== src/Tests/Rivals.antt =====
-- A rival that writes to the channel's key after every read: Set gives up.
use native.Mathlib.Omega.{arith}
use mattermost_plugin_messag.Base.{
  ℕ, ◌+◌, ◌≤◌, ◌≡◌, refl, true, false, [], ◌∷◌, text_eq, ok, err, if◌then◌else◌,
}
use mattermost_plugin_messag.Int64.{pos}
use mattermost_plugin_messag.Ttl.{TtlSetting, too_many_retries}
use mattermost_plugin_messag.TtlStore.{Kv, Json, set, set_loop}
use mattermost_plugin_messag.TtlStore.Retries.{IsSharedKv, SetFailure, set_err}

-- The state is the number that the rival wrote last; each read is followed by its next write.
abbrev rival : Kv ℕ
rival = record {
  get = λ k n. (ok (n ∷ []), n + 1);
  set_with_options = λ k new old n. if text_eq (n ∷ []) old then (ok true, n) else (ok false, n);
  delete = λ k n. (ok tt, n);
}

rival-IsSharedKv : IsSharedKv rival (λ k n. n)
rival-IsSharedKv = record { refused_late = λ k new old n read refused. ground arith }

abbrev pub constant_codec : Json
constant_codec = record { marshal = λ t. ok (7 ∷ []); unmarshal = λ b. err [] }

abbrev pub hour : TtlSetting
hour = record { duration_seconds = pos 3600; set_by = b'b' ∷ []; set_at = pos 5 }

gives_up : (set rival constant_codec (b't' ∷ []) hour 3).0 ≡ err too_many_retries
unfolding set set_loop text_eq
gives_up = refl

set_err_example :
    SetFailure
      (b't' ∷ [])
      (3 + 20 ≤ (set rival constant_codec (b't' ∷ []) hour 3).1)
      too_many_retries
set_err_example =
    set_err rival constant_codec (λ k n. n) rival-IsSharedKv (b't' ∷ []) hour 3 too_many_retries
      gives_up
