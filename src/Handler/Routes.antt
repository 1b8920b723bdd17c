-- ===== src/Handler/Routes.antt =====
-- server/api/handler.go: New and ServeHTTP. The router of net/http is a parameter.
use mattermost_plugin_messag.Base.{
  ◌≡◌, ◌≢◌, refl, ◌⊎◌, inl, inr, true, false, none, some, List, [], ◌∷◌, ◌++◌, All, Text, text,
  text_eq, arith,
}
use mattermost_plugin_messag.Handler.{
  Response, Request, Handler, handle_set, handle_get, handle_delete,
}
use mattermost_plugin_messag.Handler.Router.{
  Endpoint, set_endpoint, get_endpoint, delete_endpoint, Pattern, matched, unmatched, Mux,
  IsServeMux, cut_prefix, is_alphanumeric, is_rest, is_path, is_segment, match, matches,
}

-- the patterns of New, "POST /ttl", "GET /ttl/{channel_id}" and "DELETE /ttl/{channel_id}", with their
-- handlers
unfoldable pub routes : List (Pattern × Endpoint)
unfolding text
routes =
    (record { method = text "POST"; path = text "/ttl"; has_id = false }, set_endpoint)
    ∷ (record { method = text "GET"; path = text "/ttl/"; has_id = true }, get_endpoint)
    ∷ (record { method = text "DELETE"; path = text "/ttl/"; has_id = true }, delete_endpoint)
    ∷ []

pub record HttpRequest : Type 0 where
  pub method : Text
  pub path : Text
  pub user_id : Text
  pub body : Text

-- PluginID
abbrev pub plugin_id : Text
plugin_id = text "com.mattermost.plugin-message-disappear"

-- the prefix of the paths that the server passes on
abbrev pub server_prefix : Text
server_prefix = text "/plugins/" ++ plugin_id

-- the path that the router gets
unfoldable pub clean_path : Text → Text
clean_path path = elim (cut_prefix path server_prefix) [ some rest ↦ rest | none ↦ path ]

module _ {W : Type 0} (mux : Mux) (h : Handler W) where
  -- a handler that was matched
  unfoldable pub handle : Endpoint → Request → W → Response × W
  handle set_endpoint = handle_set h
  handle get_endpoint = handle_get h
  handle delete_endpoint = handle_delete h

  -- ServeHTTP
  unfoldable pub serve_http : HttpRequest → W → Response × W
  serve_http r w = elim (mux routes r.method (clean_path r.path)) [
    | unmatched answer ↦ (answer, w)
    | matched e channel_id ↦
        handle e (record { user_id = r.user_id; channel_id = channel_id; body = r.body }) w
  ]

-- letters and digits, at least one
abbrev pub IsPlain : Text → Type 0
IsPlain c = (c ≢ []) × All (λ x. is_alphanumeric x ≡ true) c

plain_rest : (c : Text) → All (λ x. is_alphanumeric x ≡ true) c → is_rest false false c ≡ true
unfolding is_rest
plain_rest [] h = refl
plain_rest (x ∷ c) h = ground (arith, plain_rest c h.1, h.0)

plain_segment : (c : Text) → IsPlain c → is_segment c ≡ true
plain_segment [] h = absurd (h.0 refl)
plain_segment (x ∷ c) h = plain_rest (x ∷ c) h.1

plain_path : (c : Text) → IsPlain c → is_path false (text "/ttl/" ++ c) ≡ true
unfolding is_path is_rest text
plain_path [] h = absurd (h.0 refl)
plain_path (x ∷ c) h = ground (arith, plain_rest c h.1.1, h.1.0)

cut_prefix-append : (p s : Text) → cut_prefix (p ++ s) p ≡ some s
unfolding cut_prefix
cut_prefix-append [] s = refl
cut_prefix-append (c ∷ p) s = ground (arith, cut_prefix-append p s)

-- with the prefix of the server or, as in tests, without it
abbrev pub IsPrefix : Text → Type 0
IsPrefix prefix = (prefix ≡ server_prefix) ⊎ (prefix ≡ [])

clean_path-some :
    (path rest : Text) → cut_prefix path server_prefix ≡ some rest → clean_path path ≡ rest
unfolding clean_path
clean_path-some path rest cut = ground arith

clean_path-none : (path : Text) → cut_prefix path server_prefix ≡ none → clean_path path ≡ path
unfolding clean_path
clean_path-none path uncut = ground arith

clean_path-append :
    (prefix path : Text)
    → IsPrefix prefix
    → cut_prefix path server_prefix ≡ none
    → clean_path (prefix ++ path) ≡ path
clean_path-append prefix path (inl same) uncut =
    rw same (clean_path-some _ path (cut_prefix-append server_prefix path))
clean_path-append prefix path (inr same) uncut = rw same (clean_path-none path uncut)

routes-IsPath :
    All (λ (entry : Pattern × Endpoint). is_path entry.0.has_id entry.0.path ≡ true) routes
unfolding routes is_path is_rest text
routes-IsPath = (refl, (refl, (refl, tt)))

matches-post : matches routes (text "POST") (text "/ttl") ≡ (set_endpoint, []) ∷ []
unfolding matches match routes text text_eq
matches-post = refl

matches-get :
    (c : Text)
    → IsPlain c
    → matches routes (text "GET") (text "/ttl/" ++ c) ≡ (get_endpoint, c) ∷ []
unfolding matches match routes text text_eq cut_prefix
matches-get c plain = rw (matches, plain_segment c plain) refl

matches-delete :
    (c : Text)
    → IsPlain c
    → matches routes (text "DELETE") (text "/ttl/" ++ c) ≡ (delete_endpoint, c) ∷ []
unfolding matches match routes text text_eq cut_prefix
matches-delete c plain = rw (matches, plain_segment c plain) refl

post_path : is_path false (text "/ttl") ≡ true
unfolding is_path is_rest text
post_path = refl

module _ {W : Type 0} (mux : Mux) (L : IsServeMux mux) (h : Handler W) (prefix : Text)
    (P : IsPrefix prefix) where
  -- a matched request is answered by its handler
  serve_http-matched :
      (method path user body c : Text) (e : Endpoint) (w : W)
      → mux routes method (clean_path path) ≡ matched e c
      → serve_http mux h (record { method = method; path = path; user_id = user; body = body }) w
        ≡ handle mux h e (record { user_id = user; channel_id = c; body = body }) w
  unfolding serve_http
  serve_http-matched method path user body c e w found = ground arith

  -- For a router that, whatever patterns it is given, hands a request to the handler of the only one
  -- that matches it: with the patterns that New registers, for a path with the prefix that the server passes on and
  -- for one without: POST /ttl is answered by handleSet, and GET and DELETE of /ttl/ and a channel id of
  -- letters and digits by handleGet and handleDelete for that channel.
  pub serve_http_routes :
      (user body c : Text) (w : W)
      → IsPlain c
      → (serve_http mux h
            (record {
              method = text "POST";
              path = prefix ++ text "/ttl";
              user_id = user;
              body = body;
            })
            w
          ≡ handle_set h (record { user_id = user; channel_id = []; body = body }) w)
        × (serve_http mux h
              (record {
                method = text "GET";
                path = prefix ++ (text "/ttl/" ++ c);
                user_id = user;
                body = body;
              })
              w
            ≡ handle_get h (record { user_id = user; channel_id = c; body = body }) w)
        × (serve_http mux h
              (record {
                method = text "DELETE";
                path = prefix ++ (text "/ttl/" ++ c);
                user_id = user;
                body = body;
              })
              w
            ≡ handle_delete h (record { user_id = user; channel_id = c; body = body }) w)
  unfolding handle cut_prefix text
  serve_http_routes user body c w plain =
      let no_id : clean_path (prefix ++ text "/ttl") ≡ text "/ttl" =
        clean_path-append prefix (text "/ttl") P refl in
      let with_id : clean_path (prefix ++ (text "/ttl/" ++ c)) ≡ text "/ttl/" ++ c =
        clean_path-append prefix (text "/ttl/" ++ c) P refl in
      (
        serve_http-matched (text "POST") (prefix ++ text "/ttl") user body [] set_endpoint w
            (rw no_id (L.dispatches routes _ _ _ _ routes-IsPath post_path matches-post)),
        serve_http-matched (text "GET") (prefix ++ (text "/ttl/" ++ c)) user body c get_endpoint w (
            rw with_id (
              L.dispatches routes _ _ _ _ routes-IsPath (plain_path c plain)
                (matches-get c plain))),
        serve_http-matched (text "DELETE") (prefix ++ (text "/ttl/" ++ c)) user body c
            delete_endpoint w
            (rw with_id (
              L.dispatches routes _ _ _ _ routes-IsPath (plain_path c plain)
                (matches-delete c plain))),
      )
