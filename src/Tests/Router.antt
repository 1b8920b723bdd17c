-- ===== src/Tests/Router.antt =====
-- A router for the patterns of the handler, and the theorem about ServeHTTP at it.
use mattermost_plugin_messag.Base.{◌≡◌, refl, inl, List, [], ◌∷◌, ◌++◌, Text, text}
use mattermost_plugin_messag.Handler.{no_body, handle_set, handle_get, handle_delete}
use mattermost_plugin_messag.Handler.Router.{
  Endpoint, Routed, matched, unmatched, Mux, IsServeMux, matches,
}
use mattermost_plugin_messag.Handler.Routes.{server_prefix, serve_http, IsPlain, serve_http_routes}
use mattermost_plugin_messag.Tests.{bob}
use mattermost_plugin_messag.Tests.Http.{town_handler, empty}

abbrev pub first_match : List (Endpoint × Text) → Routed
first_match [] = unmatched (record { status = 404; body = no_body })
first_match ((e, id) ∷ rest) = matched e id

abbrev pub router : Mux
router table method path = first_match (matches table method path)

router-IsServeMux : IsServeMux router
router-IsServeMux = record { dispatches = λ table method path e id shapes shape sole. rw sole refl }

town-IsPlain : IsPlain (text "town")
unfolding text
town-IsPlain = ((λ e. cc), (refl, (refl, (refl, (refl, tt)))))

serve_http_routes_example :
    (serve_http router town_handler
        (record {
          method = text "POST";
          path = server_prefix ++ text "/ttl";
          user_id = bob;
          body = 7200 ∷ [];
        })
        empty
      ≡ handle_set town_handler (record { user_id = bob; channel_id = []; body = 7200 ∷ [] }) empty)
    × (serve_http router town_handler
          (record {
            method = text "GET";
            path = server_prefix ++ (text "/ttl/" ++ text "town");
            user_id = bob;
            body = 7200 ∷ [];
          })
          empty
        ≡ handle_get town_handler
            (record { user_id = bob; channel_id = text "town"; body = 7200 ∷ [] })
            empty)
    × (serve_http router town_handler
          (record {
            method = text "DELETE";
            path = server_prefix ++ (text "/ttl/" ++ text "town");
            user_id = bob;
            body = 7200 ∷ [];
          })
          empty
        ≡ handle_delete town_handler
            (record { user_id = bob; channel_id = text "town"; body = 7200 ∷ [] })
            empty)
serve_http_routes_example =
    serve_http_routes router router-IsServeMux town_handler server_prefix (inl refl) bob (7200 ∷ [])
      (text "town") empty town-IsPlain
