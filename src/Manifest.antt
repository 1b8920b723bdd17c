-- ===== src/Manifest.antt =====
-- build/manifest/main.go: the tool that completes plugin.json by a version and writes it into the
-- sources. encoding/json, net/url, the file system and model.Manifest are parameters; `R` stands for the
-- fields of a manifest that the tool only passes on.
mod Templates
pub mod Versions
pub mod Reread
pub mod Files
use mattermost_plugin_messag.Base.{
  ℕ, Bool, true, false, not, ◌&&◌, ◌==◌, Option, none, some, List, [], ◌∷◌, ◌++◌, Text, text,
  text_eq, has_prefix, is_nil, fields, join, Result, ok, err, if◌then◌else◌, Exec, pure, raise,
  lift, wrap, ◌>>=◌, ◌>>◌,
}
unfoldable pub use Templates.*

-- BuildHashShort, BuildTagLatest, BuildTagCurrent
pub record Build : Type 0 where
  pub hash_short : Text
  pub tag_latest : Text
  pub tag_current : Text

-- what the tool uses of a model.Manifest
pub record PluginManifest (R : Type 0) : Type 0 where
  pub id : Text
  pub homepage_url : Text
  pub release_notes_url : Text
  pub version : Text
  pub rest : R

-- The errors: the constructor is the text of `errors.Wrap`; `json_error` is passed as it is.
pub data ToolError : Type 0 where
  find_failed parse_failed build_url_failed json_error : Text → ToolError
  open_failed write_failed : Text → Text → ToolError

-- the panics of main
pub data Panic : Type 0 where
  no_cmd_specified : Panic
  finding_manifest applying_manifest writing_dist : ToolError → Panic
  checking_manifest unrecognized_command : Text → Panic

pub record ToolApi (W R : Type 0) : Type 0 where
  pub find_path : Exec W Text Text
  pub open_file : Text → Exec W Text Text
  pub write_file : Text → Text → Exec W Text (Unit {0})
  pub print : Text → W → W
  pub decode : Text → Result Text (PluginManifest R)
  pub marshal_indent : PluginManifest R → Text → Result Text Text
  pub join_path : Text → List Text → Result Text Text
  pub has_server : PluginManifest R → Bool
  pub has_webapp : PluginManifest R → Bool
  pub is_valid : PluginManifest R → Result Text (Unit {0})

-- strings.TrimPrefix(s, "v")
abbrev pub trim_v : Text → Text
trim_v [] = []
trim_v (c ∷ s) = if c == b'v' then s else c ∷ s

-- the first tag with the prefix v, and the empty text if there is none
unfoldable pub first_version : List Text → Text
first_version [] = []
first_version (t ∷ tags) =
    let later = first_version tags in if has_prefix t (b'v' ∷ []) then t else later

-- the version that findManifest generates
unfoldable pub generated_version : Build → Text
generated_version b =
    let version = first_version (fields b.tag_current) in
    trim_v (
      if not (is_nil version)
      then version
      else if not (is_nil b.tag_latest)
      then b.tag_latest ++ text "+" ++ b.hash_short
      else text "v0.0.0+" ++ b.hash_short)

-- the version of a manifest with the version `v`
unfoldable pub completed_version : Build → Text → Text
completed_version b v = if is_nil v then generated_version b else v

abbrev pub server_file : Text
server_file = text "server/manifest.go"

abbrev pub webapp_file : Text
webapp_file = text "webapp/src/manifest.ts"

abbrev pub dist_file : Text → Text
dist_file id = text "dist/" ++ id ++ text "/plugin.json"

-- errors.Wrap
abbrev pub wrap_error : {E F A : Type 0} → (E → F) → Result E A → Result F A
wrap_error f (ok a) = ok a
wrap_error f (err e) = err (f e)

module _ {W R : Type 0} (api : ToolApi W R) where
  -- the release notes of a manifest with the homepage `home` and the release notes `notes`
  unfoldable pub completed_notes : Build → Text → Text → Result ToolError Text
  completed_notes b home notes =
      if is_nil notes && not (is_nil b.tag_latest)
      then wrap_error build_url_failed
          (api.join_path home (text "releases" ∷ text "tag" ∷ b.tag_latest ∷ []))
      else ok notes

  -- the end of findManifest, after the manifest is decoded
  unfoldable pub complete : Build → PluginManifest R → Result ToolError (PluginManifest R)
  complete b m = elim (completed_notes b m.homepage_url m.release_notes_url) [
    | err e ↦ err e
    | ok url ↦ ok (record m { version = completed_version b m.version; release_notes_url = url })
  ]

  -- findManifest
  unfoldable pub find_manifest : Build → Exec W ToolError (PluginManifest R)
  find_manifest b = do
    path ← λ w. wrap find_failed (api.find_path w)
    file ← λ w. wrap (open_failed path) (api.open_file path w)
    m ← λ w. wrap parse_failed (api.decode file, w)
    lift (complete b m)

  -- json.MarshalIndent, and os.WriteFile of what `f` makes of the JSON
  unfoldable pub write_as :
      (Text → ToolError)
      → (Text → Text)
      → Text
      → Text
      → PluginManifest R
      → Exec W ToolError (Unit {0})
  write_as failed f indent path m = do
    json ← λ w. wrap json_error (api.marshal_indent m indent, w)
    λ w. wrap failed (api.write_file path (f json) w)

  -- the two halves of applyManifest
  unfoldable pub apply_server : PluginManifest R → Exec W ToolError (Unit {0})
  apply_server m =
      if api.has_server m
      then write_as (write_failed server_file) go_file (text "  ") server_file m
      else pure tt

  unfoldable pub apply_webapp : PluginManifest R → Exec W ToolError (Unit {0})
  apply_webapp m =
      if api.has_webapp m
      then write_as (open_failed webapp_file) (λ json. js_file (escape_newlines json)) (text "    ")
          webapp_file m
      else pure tt

  -- applyManifest
  unfoldable pub apply_manifest : PluginManifest R → Exec W ToolError (Unit {0})
  apply_manifest m = do apply_server m; apply_webapp m

  -- distManifest
  unfoldable pub dist_manifest : PluginManifest R → Exec W ToolError (Unit {0})
  dist_manifest m =
      write_as (write_failed (text "plugin.json")) (λ json. json) (text "    ") (dist_file m.id) m

  -- fmt.Printf
  abbrev pub print : Text → Exec W Panic (Unit {0})
  print s w = (ok tt, api.print s w)

  -- dumpPluginID and dumpPluginVersion
  abbrev pub dump_plugin_id : PluginManifest R → Exec W Panic (Unit {0})
  dump_plugin_id m = print m.id

  abbrev pub dump_plugin_version : PluginManifest R → Exec W Panic (Unit {0})
  dump_plugin_version m = print m.version

  -- the switch of main
  unfoldable pub run_cmd : Text → PluginManifest R → Exec W Panic (Unit {0})
  run_cmd cmd m =
      if text_eq cmd (text "id")
      then dump_plugin_id m
      else if text_eq cmd (text "version")
      then dump_plugin_version m
      else if text_eq cmd (text "has_server")
      then (if api.has_server m then print (text "true") else pure tt)
      else if text_eq cmd (text "has_webapp")
      then (if api.has_webapp m then print (text "true") else pure tt)
      else if text_eq cmd (text "apply")
      then (λ w. wrap applying_manifest (apply_manifest m w))
      else if text_eq cmd (text "dist")
      then (λ w. wrap writing_dist (dist_manifest m w))
      else if text_eq cmd (text "check")
      then (λ w. wrap checking_manifest (api.is_valid m, w))
      else raise (unrecognized_command cmd)

  -- main, over the arguments after the program's name; an error is a panic
  unfoldable pub main : Build → List Text → Exec W Panic (Unit {0})
  main b [] = raise no_cmd_specified
  main b (cmd ∷ args) = do m ← λ w. wrap finding_manifest (find_manifest b w); run_cmd cmd m
