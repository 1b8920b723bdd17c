-- ===== src/Manifest/Templates.antt =====
-- The templates of build/manifest/main.go, and the escaping for one of them.
use mattermost_plugin_messag.Base.{
  Bool, false, ◌&&◌, ◌==◌, List, [], ◌∷◌, Text, text, join, if◌then◌else◌,
}

-- strings.ReplaceAll(s, `\n`, `\\n`), after a backslash or not
unfoldable pub escape_after : Bool → Text → Text
escape_after backslash [] = []
escape_after backslash (c ∷ s) =
    let rest = escape_after (c == b'\\') s in
    if backslash && c == b'n' then b'\\' ∷ b'n' ∷ rest else c ∷ rest

unfoldable pub escape_newlines : Text → Text
unfolding escape_after
escape_newlines = escape_after false

abbrev lines : List Text → Text
lines = join (10 ∷ [])

-- pluginIDGoFileTemplate, with the manifest in place of %s
unfoldable pub go_file : Text → Text
unfolding join
go_file manifest = lines (
    text "// This file is automatically generated. Do not modify it manually."
    ∷ []
    ∷ text "package main"
    ∷ []
    ∷ text "import ("
    ∷ text "\t\"encoding/json\""
    ∷ text "\t\"strings\""
    ∷ []
    ∷ text "\t\"github.com/mattermost/mattermost/server/public/model\""
    ∷ text ")"
    ∷ []
    ∷ text "var manifest *model.Manifest"
    ∷ []
    ∷ text "const manifestStr = `"
    ∷ manifest
    ∷ text "`"
    ∷ []
    ∷ text "func init() {"
    ∷ text "\t_ = json.NewDecoder(strings.NewReader(manifestStr)).Decode(&manifest)"
    ∷ text "}"
    ∷ []
    ∷ [])

-- pluginIDJSFileTemplate, with the manifest in place of %s
unfoldable pub js_file : Text → Text
unfolding join
js_file manifest = lines (
    text "// This file is automatically generated. Do not modify it manually."
    ∷ []
    ∷ text "const manifest = JSON.parse(`"
    ∷ manifest
    ∷ text "`);"
    ∷ []
    ∷ text "export default manifest;"
    ∷ []
    ∷ [])
