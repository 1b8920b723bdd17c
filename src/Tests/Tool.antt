-- ===== src/Tests/Tool.antt =====
-- The theorems about the manifest tool at a file system with one plugin.json: its first character says
-- whether it gives a version, and the others are the plugin's id.
use native.Mathlib.Omega.{arith}
use mattermost_plugin_messag.Base.{
  ℕ, zero, suc, ◌≡◌, refl, inl, inr, true, false, [], ◌∷◌, Text, text, text_eq, text_eq_iff,
  has_prefix, fields, is_space, Result, ok, err,
}
use mattermost_plugin_messag.Manifest.{
  Build, PluginManifest, ToolApi, first_version, generated_version, completed_version,
  completed_notes, complete, find_manifest, escape_newlines, escape_after, main,
}
use mattermost_plugin_messag.Manifest.Versions.{Generated, generated_version-Generated}
use mattermost_plugin_messag.Manifest.Reread.{find_manifest_again}
use mattermost_plugin_messag.Manifest.Files.{ToolKeeps, IsTarget, OnWrite, main-Keeps}

abbrev tagged_build : Build
tagged_build = record {
  hash_short = text "ab12";
  tag_latest = [];
  tag_current = text "nightly v1.2";
}

abbrev manifest : Text → Text → PluginManifest ℕ
manifest id version = record {
  id = id;
  homepage_url = [];
  release_notes_url = [];
  version = version;
  rest = 0;
}

abbrev decode : Text → Result Text (PluginManifest ℕ)
decode [] = err []
decode (zero ∷ id) = ok (manifest id [])
decode (suc n ∷ id) = ok (manifest id (text "1.2"))

-- The state is the content of plugin.json.
abbrev one_file : ToolApi Text ℕ
one_file = record {
  find_path = λ w. (ok (text "plugin.json"), w);
  open_file = λ path w. (ok w, w);
  write_file = λ path content w. (ok tt, content);
  print = λ s w. w;
  decode = decode;
  marshal_indent = λ m indent. ok (1 ∷ m.id);
  join_path = λ url parts. ok url;
  has_server = λ m. true;
  has_webapp = λ m. true;
  is_valid = λ m. ok tt;
}

one_file-Keeps : ToolKeeps one_file (λ w. w ≡ 0 ∷ text "mpmd")
one_file-Keeps = record { on_find = λ w h. h; on_open = λ path w h. h; on_print = λ s w h. h }

generated_version-Generated_example : Generated tagged_build (text "1.2")
unfolding generated_version first_version fields has_prefix text is_space
generated_version-Generated_example = generated_version-Generated tagged_build

was_read :
    (find_manifest one_file tagged_build (0 ∷ text "mpmd")).0
    ≡ ok (manifest (text "mpmd") (text "1.2"))
unfolding find_manifest complete completed_version completed_notes generated_version first_version
    fields has_prefix text is_space
was_read = refl

find_manifest_again_example :
    (find_manifest one_file tagged_build (1 ∷ text "mpmd")).0
    ≡ ok (manifest (text "mpmd") (text "1.2"))
find_manifest_again_example =
    find_manifest_again one_file tagged_build (0 ∷ text "mpmd") (1 ∷ text "mpmd")
      (manifest (text "mpmd") (text "1.2")) [] (text "plugin.json") (1 ∷ text "mpmd") was_read refl
      refl refl refl

reads_only :
    (path : Text)
    → IsTarget (text "version") path
    → OnWrite one_file (λ w. w ≡ 0 ∷ text "mpmd") path
unfolding text text_eq
reads_only path (inl (same, _)) =
    let eq : false ≡ true = (text_eq_iff (text "version") (text "apply")).1 same in ground arith
reads_only path (inr (same, _)) =
    let eq : false ≡ true = (text_eq_iff (text "version") (text "dist")).1 same in ground arith

main-Keeps_example :
    (main one_file tagged_build (text "version" ∷ []) (0 ∷ text "mpmd")).1 ≡ 0 ∷ text "mpmd"
main-Keeps_example =
    main-Keeps one_file (λ w. w ≡ 0 ∷ text "mpmd") one_file-Keeps tagged_build (text "version") []
      (0 ∷ text "mpmd") reads_only refl

-- A newline in a JSON text is escaped once more, and a quotation mark is not.
escaped : escape_newlines (text "a\\nb\\\"") ≡ text "a\\\\nb\\\""
unfolding escape_newlines escape_after text
escaped = refl
