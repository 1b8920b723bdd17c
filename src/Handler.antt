-- ===== src/Handler.antt =====
-- server/api/handler.go: the HTTP handlers over the TTL service, and the events that they publish.
-- The service, the publisher and the JSON decoder of a request are parameters.
pub mod Silence
pub mod Reports
pub mod Outsiders
pub mod Router
pub mod Routes
pub mod Keeps
use mattermost_plugin_messag.Base.{
  ℕ, Bool, true, false, ◌||◌, Option, none, some, List, [], ◌∷◌, Text, text_eq, Result, ok, err,
  Exec, if◌then◌else◌,
}
use mattermost_plugin_messag.Int64.{ℤ, pos, ltb_ℤ}
use mattermost_plugin_messag.Duration.{Duration, of_seconds}
use mattermost_plugin_messag.Ttl.{
  TtlError, TtlSetting, sentinel, is_invalid_ttl, is_forbidden, is_channel_not_found,
  is_too_many_retries,
}
use mattermost_plugin_messag.TtlStore.{TtlSettingStore}
use mattermost_plugin_messag.TtlService.{PermissionChecker}
use mattermost_plugin_messag.TtlService

-- TTLManager
pub record TtlManager (W : Type 0) : Type 0 where
  pub set_ttl : Text → Text → Duration → ℤ → Exec W TtlError (Unit {0})
  pub get_setting : Text → Exec W TtlError (Option TtlSetting)
  pub clear_ttl : Text → Text → Exec W TtlError (Unit {0})

-- the service as a TTLManager
abbrev pub manager_of : {W : Type 0} → TtlSettingStore W → PermissionChecker W → TtlManager W
manager_of store perm = record {
  set_ttl = TtlService.set_ttl store perm;
  get_setting = TtlService.get_setting store perm;
  clear_ttl = TtlService.clear_ttl store perm;
}

-- setTTLRequest
pub record SetTtlRequest : Type 0 where
  pub channel_id : Text
  pub ttl_seconds : ℤ

-- ttlDTO
pub record TtlDto : Type 0 where
  pub duration_seconds : ℤ
  pub set_by : Text
  pub set_at : ℤ

-- toDTO; `none` is nil
abbrev pub to_dto : Option TtlSetting → Option TtlDto
to_dto none = none
to_dto (some s) =
    some (record { duration_seconds = s.duration_seconds; set_by = s.set_by; set_at = s.set_at })

-- the event ttl_changed, which goes to the members of its channel
pub record TtlChanged : Type 0 where
  pub channel_id : Text
  pub ttl : Option TtlDto

-- The message of an error response: a text of the handler, or that of the service's error.
pub data Message : Type 0 where
  missing_user invalid_json invalid_request : Message
  of_error : TtlError → Message

-- What a handler writes after the status.
pub data Body : Type 0 where
  message : Message → Body
  dto : Option TtlDto → Body
  get_response : Option TtlDto → Body
  no_body : Body

pub record Response : Type 0 where
  pub status : ℕ
  pub body : Body

-- What the handlers read of an http.Request: the header Mattermost-User-ID, the path value
-- channel_id and the body.
pub record Request : Type 0 where
  pub user_id : Text
  pub channel_id : Text
  pub body : Text

-- Handler, with the clock in unix milliseconds and the decoding of a request's body
pub record Handler (W : Type 0) : Type 0 where
  pub ttl : TtlManager W
  pub publish : TtlChanged → W → W
  pub now : W → ℤ
  pub decode : Text → Result Text SetTtlRequest

-- writeError
abbrev pub write_error : ℕ → Message → Response
write_error status m = record { status = status; body = message m }

-- the status of writeDomainError
abbrev pub status_of : TtlError → ℕ
status_of e = elim (sentinel e) [
  | none ↦ 500
  | some is_invalid_ttl ↦ 400
  | some is_forbidden ↦ 403
  | some is_channel_not_found ↦ 404
  | some is_too_many_retries ↦ 409
]

-- writeDomainError
unfoldable pub write_domain_error : TtlError → Response
write_domain_error e = write_error (status_of e) (of_error e)

module _ {W : Type 0} (h : Handler W) where
  -- broadcast
  abbrev pub broadcast : Text → Option TtlDto → W → W
  broadcast channel_id t = h.publish (record { channel_id = channel_id; ttl = t })

  -- handleSet, for a body that was decoded
  unfoldable pub set_decoded : Text → SetTtlRequest → W → Response × W
  set_decoded actor req w =
      if text_eq req.channel_id [] || ltb_ℤ req.ttl_seconds (pos 0)
      then (write_error 400 invalid_request, w)
      else let now = h.now w in
        let (r, w') = h.ttl.set_ttl actor req.channel_id (of_seconds req.ttl_seconds) now w in
        elim r [
          | err e ↦ (write_domain_error e, w')
          | ok _ ↦
              let reply = to_dto (
                some
                  (record { duration_seconds = req.ttl_seconds; set_by = actor; set_at = now })) in
              (record { status = 201; body = dto reply }, broadcast req.channel_id reply w')
        ]

  -- handleSet
  unfoldable pub handle_set : Request → W → Response × W
  unfolding set_decoded
  handle_set r w =
      if text_eq r.user_id [] then (write_error 401 missing_user, w) else elim (h.decode r.body) [
        | err _ ↦ (write_error 400 invalid_json, w)
        | ok req ↦ set_decoded r.user_id req w
      ]

  -- handleGet
  unfoldable pub handle_get : Request → W → Response × W
  handle_get r w =
      if text_eq r.user_id []
      then (write_error 401 missing_user, w)
      else let (s, w') = h.ttl.get_setting r.channel_id w in
        elim s [
          | err e ↦ (write_domain_error e, w')
          | ok setting ↦ (record { status = 200; body = get_response (to_dto setting) }, w')
        ]

  -- handleDelete
  unfoldable pub handle_delete : Request → W → Response × W
  handle_delete r w =
      if text_eq r.user_id []
      then (write_error 401 missing_user, w)
      else let (s, w') = h.ttl.clear_ttl r.user_id r.channel_id w in
        elim s [
          | err e ↦ (write_domain_error e, w')
          | ok _ ↦ (record { status = 204; body = no_body }, broadcast r.channel_id none w')
        ]
