-- ===== src/Configuration.antt =====
-- server/configuration.go: the plugin's configuration, its allowlist of server versions, and the
-- decision how to delete.
pub mod Allowlist
pub mod Decision
use mattermost_plugin_messag.Base.{
  is_space, is_nil, ℕ, zero, suc, Bool, true, false, not, ◌&&◌, ◌||◌, Option, none, some, List, [],
  ◌∷◌, ◌++◌, keep, any, Text, text, text_eq, has_prefix, ltb, leb, ◌==◌, if◌then◌else◌, ◌≡◌, refl,
}

-- configuration
pub record Configuration : Type 0 where
  pub enable_purge : Bool
  pub purge_schema_allowlist_raw : Text

-- configHolder, between two calls that hold its mutex
pub record ConfigHolder : Type 0 where
  pub conf : Configuration

-- configHolder.get
abbrev pub get : ConfigHolder → Configuration
get h = h.conf

-- configHolder.set
abbrev pub set : Configuration → ConfigHolder → ConfigHolder
set c h = record h { conf = c }

unfoldable pub trim_left : Text → Text
trim_left [] = []
trim_left (c ∷ s) = let rest = trim_left s in if is_space c then rest else c ∷ s

unfoldable pub trim_right : Text → Text
trim_right [] = []
trim_right (c ∷ s) = let rest = trim_right s in if is_nil rest && is_space c then [] else c ∷ rest

-- strings.TrimSpace(s)
unfoldable pub trim_space : Text → Text
unfolding trim_left trim_right
trim_space s = trim_right (trim_left s)

-- puts a character in front of the first part
abbrev pub onto_first : ℕ → List Text → List Text
onto_first c [] = (c ∷ []) ∷ []
onto_first c (p ∷ parts) = (c ∷ p) ∷ parts

-- strings.Split(s, sep) at a separator of one character
unfoldable pub split : ℕ → Text → List Text
split sep [] = [] ∷ []
split sep (c ∷ s) = let parts = split sep s in if c == sep then [] ∷ parts else onto_first c parts

-- the loop of PurgeSchemaAllowlist
unfoldable pub clean : List Text → List Text
unfolding trim_space
clean [] = []
clean (e ∷ es) =
    let rest = clean es in
    let trimmed = trim_space e in if text_eq trimmed [] then rest else trimmed ∷ rest

-- configuration.PurgeSchemaAllowlist; `none` is the nil receiver
unfoldable pub purge_schema_allowlist : Option Configuration → List Text
unfolding clean split
purge_schema_allowlist none = []
purge_schema_allowlist (some c) = clean (split b',' c.purge_schema_allowlist_raw)

-- versionAllowed
unfoldable pub version_allowed : Text → List Text → Bool
version_allowed server_version [] = false
version_allowed server_version (a ∷ allowlist) =
    any (λ allowed. has_prefix server_version allowed) (a ∷ allowlist)

-- purgeMode
pub data PurgeMode : Type 0 where
  purge_soft purge_skip purge_hard : PurgeMode

-- purgeDecision
unfoldable pub purge_decision : Bool → Bool → Text → List Text → PurgeMode
purge_decision enable_purge is_enterprise server_version allowlist =
    if not enable_purge || is_enterprise
    then purge_soft
    else if not (version_allowed server_version allowlist)
    then purge_skip
    else purge_hard

default_allowlist :
    purge_schema_allowlist
      (some (record { enable_purge = true; purge_schema_allowlist_raw = text " 10. ,11.,, " }))
    ≡ text "10." ∷ text "11." ∷ []
unfolding purge_schema_allowlist text is_space text_eq
default_allowlist = refl
