-- ===== src/Handler/Keeps.antt =====
-- What outlives a request.
use mattermost_plugin_messag.Base.{◌||◌, inl, inr, [], Text, text_eq, Result-cases, Bool-cases}
use mattermost_plugin_messag.Int64.{ℤ, pos, ltb_ℤ}
use mattermost_plugin_messag.Duration.{Duration, of_seconds}
use mattermost_plugin_messag.Handler.Router.{
  Endpoint, set_endpoint, get_endpoint, delete_endpoint, Mux, Routed-cases,
}
use mattermost_plugin_messag.Handler.Routes.{HttpRequest, routes, clean_path, handle, serve_http}
use mattermost_plugin_messag.Handler.{
  Handler, Request, SetTtlRequest, TtlChanged, set_decoded, handle_set, handle_get, handle_delete,
}

-- `P` outlives the calls that the handlers make.
pub record HandlerKeeps {W : Type 0} (h : Handler W) (P : W → Type 0) : Type 0 where
  pub on_set :
      (actor c : Text) (d : Duration) (at : ℤ) (w : W) → P w → P (h.ttl.set_ttl actor c d at w).1
  pub on_get : (c : Text) (w : W) → P w → P (h.ttl.get_setting c w).1
  pub on_clear : (actor c : Text) (w : W) → P w → P (h.ttl.clear_ttl actor c w).1
  pub on_publish : (e : TtlChanged) (w : W) → P w → P (h.publish e w)

module _ {W : Type 0} (h : Handler W) (P : W → Type 0) (K : HandlerKeeps h P) where
  set_decoded-Keeps :
      (actor : Text) (req : SetTtlRequest) (w : W) → P w → P (set_decoded h actor req w).1
  unfolding set_decoded
  set_decoded-Keeps actor req w p =
      elim (Bool-cases (text_eq req.channel_id [] || ltb_ℤ req.ttl_seconds (pos 0))) [
        | inl invalid ↦ rw (invalid, set_decoded) p
        | inr valid ↦
            let p' = K.on_set actor req.channel_id (of_seconds req.ttl_seconds) (h.now w) w p in
            elim (Result-cases
              (h.ttl.set_ttl actor req.channel_id (of_seconds req.ttl_seconds) (h.now w) w).0) [
                | inr (e, failed) ↦ rw (valid, failed, set_decoded) p'
                | inl (tt, done) ↦ rw (valid, done, set_decoded) (K.on_publish _ _ p')
              ]
      ]

  pub handle_set-Keeps : (r : Request) (w : W) → P w → P (handle_set h r w).1
  unfolding handle_set
  handle_set-Keeps r w p = elim (Bool-cases (text_eq r.user_id [])) [
    | inl nobody ↦ rw (nobody, handle_set) p
    | inr known ↦ elim (Result-cases (h.decode r.body)) [
      | inr (e, bad) ↦ rw (known, bad, handle_set) p
      | inl (req, decoded) ↦ rw (known, decoded, handle_set) (set_decoded-Keeps r.user_id req w p)
    ]
  ]

  pub handle_get-Keeps : (r : Request) (w : W) → P w → P (handle_get h r w).1
  unfolding handle_get
  handle_get-Keeps r w p = elim (Bool-cases (text_eq r.user_id [])) [
    | inl nobody ↦ rw (nobody, handle_get) p
    | inr known ↦
        let p' = K.on_get r.channel_id w p in
        elim (Result-cases (h.ttl.get_setting r.channel_id w).0) [
          | inr (e, failed) ↦ rw (known, failed, handle_get) p'
          | inl (s, read) ↦ rw (known, read, handle_get) p'
        ]
  ]

  pub handle_delete-Keeps : (r : Request) (w : W) → P w → P (handle_delete h r w).1
  unfolding handle_delete
  handle_delete-Keeps r w p = elim (Bool-cases (text_eq r.user_id [])) [
    | inl nobody ↦ rw (nobody, handle_delete) p
    | inr known ↦
        let p' = K.on_clear r.user_id r.channel_id w p in
        elim (Result-cases (h.ttl.clear_ttl r.user_id r.channel_id w).0) [
          | inr (e, failed) ↦ rw (known, failed, handle_delete) p'
          | inl (tt, done) ↦ rw (known, done, handle_delete) (K.on_publish _ _ p')
        ]
  ]

  handle-Keeps : (mux : Mux) (e : Endpoint) (r : Request) (w : W) → P w → P (handle mux h e r w).1
  unfolding handle
  handle-Keeps mux set_endpoint r w p = handle_set-Keeps r w p
  handle-Keeps mux get_endpoint r w p = handle_get-Keeps r w p
  handle-Keeps mux delete_endpoint r w p = handle_delete-Keeps r w p

  pub serve_http-Keeps : (mux : Mux) (r : HttpRequest) (w : W) → P w → P (serve_http mux h r w).1
  unfolding serve_http
  serve_http-Keeps mux r w p = elim (Routed-cases (mux routes r.method (clean_path r.path))) [
    | inl (answer, refused) ↦ rw (refused, serve_http) p
    | inr (e, (c, found)) ↦
        rw (found, serve_http)
          (handle-Keeps mux e (record { user_id = r.user_id; channel_id = c; body = r.body }) w p)
  ]
