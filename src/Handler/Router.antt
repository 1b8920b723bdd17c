-- ===== src/Handler/Router.antt =====
-- http.ServeMux, as its documentation describes it for patterns with a method, a path, and at most one
-- wildcard {channel_id}, as the last segment.
use mattermost_plugin_messag.Base.{
  ℕ, ◌≡◌, refl, ◌⊎◌, inl, inr, Bool, true, false, not, ◌&&◌, ◌||◌, leb, ◌==◌, Option, none, some,
  List, [], ◌∷◌, All, Text, text_eq, if◌then◌else◌,
}
use mattermost_plugin_messag.Handler.{Response}

-- the handlers that New registers
pub data Endpoint : Type 0 where
  set_endpoint get_endpoint delete_endpoint : Endpoint

-- A pattern "METHOD path", or "METHOD path{channel_id}" with a path that ends in a slash.
pub record Pattern : Type 0 where
  pub method : Text
  pub path : Text
  pub has_id : Bool

-- What a router makes of a request: a handler with the path value channel_id, or its own answer.
pub data Routed : Type 0 where
  matched : Endpoint → Text → Routed
  unmatched : Response → Routed

-- a router: of the registered patterns, a method and a path
abbrev pub Mux : Type 0
Mux = List (Pattern × Endpoint) → Text → Text → Routed

pub Routed-cases :
    (x : Routed)
    → ((answer : Response) × (x ≡ unmatched answer))
      ⊎ ((e : Endpoint) × ((c : Text) × (x ≡ matched e c)))
Routed-cases (matched e c) = inr (e, (c, refl))
Routed-cases (unmatched answer) = inl (answer, refl)

-- strings.CutPrefix(s, prefix)
unfoldable pub cut_prefix : Text → Text → Option Text
cut_prefix s [] = some s
cut_prefix [] (c ∷ p) = none
cut_prefix (d ∷ s) (c ∷ p) = if d == c then cut_prefix s p else none

-- a letter or a digit
abbrev pub is_alphanumeric : ℕ → Bool
is_alphanumeric c = (leb 48 c && leb c 57) || ((leb 65 c && leb c 90) || (leb 97 c && leb c 122))

-- a path of letters and digits between single slashes, which ends in a slash if `ends`; `after` says
-- that a slash came before
unfoldable pub is_rest : Bool → Bool → Text → Bool
is_rest ends after [] = if after then ends else not ends
is_rest ends after (c ∷ path) =
    let same = is_rest ends false path in
    let next = is_rest ends true path in
    if c == b'/' then not after && next else is_alphanumeric c && same

unfoldable pub is_path : Bool → Text → Bool
unfolding is_rest
is_path ends [] = false
is_path ends (c ∷ path) = c == b'/' && is_rest ends true path

-- what can stand for {channel_id} in such a path
abbrev pub is_segment : Text → Bool
is_segment [] = false
is_segment (c ∷ s) = is_rest false false (c ∷ s)

-- Whether a pattern matches a request, and the value of its wildcard.
unfoldable pub match : Pattern → Text → Text → Option Text
match p method path =
    if text_eq method p.method
    then (if p.has_id
        then elim (cut_prefix path p.path) [
          | none ↦ none
          | some id ↦ if is_segment id then some id else none
        ]
        else if text_eq path p.path
        then some []
        else none)
    else none

-- The handlers of the patterns that match, with the values of their wildcards.
unfoldable pub matches : List (Pattern × Endpoint) → Text → Text → List (Endpoint × Text)
unfolding match
matches [] method path = []
matches ((p, e) ∷ table) method path =
    let rest = matches table method path in
    elim (match p method path) [ none ↦ rest | some id ↦ (e, id) ∷ rest ]

-- The documented behaviour: whatever patterns are registered, a request for a path without empty
-- segments and escapes that just one of them matches goes to the handler of this pattern.
pub record IsServeMux (mux : Mux) : Type 0 where
  pub dispatches :
      (table : List (Pattern × Endpoint)) (method path : Text) (e : Endpoint) (id : Text)
      → All (λ (entry : Pattern × Endpoint). is_path entry.0.has_id entry.0.path ≡ true) table
      → is_path false path ≡ true
      → matches table method path ≡ (e, id) ∷ []
      → mux table method path ≡ matched e id
