-- ===== src/Handler/Silence.antt =====
-- When the handlers publish an event.
use native.Mathlib.Omega.{arith}
use mattermost_plugin_messag.Base.{◌≡◌, ◌≢◌, inl, inr, Text, Result-cases}
use mattermost_plugin_messag.Handler.{
  Handler, Request, SetTtlRequest, TtlChanged, set_decoded, handle_set, handle_get, handle_delete,
}

module _ {W : Type 0} (h : Handler W) (publish : TtlChanged → W → W) where
  -- the same handler with another publisher
  abbrev h' : Handler W
  h' = record h { publish = publish }

  set_decoded_silent :
      (actor : Text) (req : SetTtlRequest) (w : W)
      → (set_decoded h actor req w).0.status ≢ 201
      → set_decoded h actor req w ≡ set_decoded h' actor req w
  unfolding set_decoded
  set_decoded_silent actor req w n = ground arith

  -- A request that is not answered by 201 (POST) or 204 (DELETE) publishes nothing, and neither
  -- does a GET: another publisher would make no difference.
  pub errors_publish_nothing :
      (r : Request) (w : W)
      → ((handle_set h r w).0.status ≢ 201 → handle_set h r w ≡ handle_set h' r w)
        × ((handle_delete h r w).0.status ≢ 204 → handle_delete h r w ≡ handle_delete h' r w)
        × (handle_get h r w ≡ handle_get h' r w)
  unfolding handle_set handle_get handle_delete
  errors_publish_nothing r w = (
    λ n. elim (Result-cases (h.decode r.body)) [
      | inl (req, fine) ↦ ground (arith, set_decoded_silent r.user_id req w)
      | inr (e, bad) ↦ ground arith
    ],
    λ n. ground arith,
    ground arith,
  )
