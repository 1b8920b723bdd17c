-- ===== src/Manifest/Reread.antt =====
-- What the tool reads of a manifest that it has completed and written.
use native.Mathlib.Omega.{arith}
use mattermost_plugin_messag.Base.{
  ◌≡◌, refl, inl, inr, not, ◌&&◌, Text, is_nil, ok, Result-cases, Bool-cases,
}
use mattermost_plugin_messag.Manifest.{
  Build, PluginManifest, ToolApi, completed_version, completed_notes, complete, find_manifest,
}

module _ (b : Build) where
  completed_version_again :
      (v : Text) → completed_version b (completed_version b v) ≡ completed_version b v
  unfolding completed_version
  completed_version_again v = ground arith

module _ {W R : Type 0} (api : ToolApi W R) (b : Build) where
  completed_notes_again :
      (home notes url : Text)
      → completed_notes api b home notes ≡ ok url
      → completed_notes api b home url ≡ ok url
  unfolding completed_notes
  completed_notes_again home notes url h =
      elim (Bool-cases (is_nil url && not (is_nil b.tag_latest))) [
        | inr kept ↦ ground arith
        | inl again ↦ ground arith
      ]

  pub complete_again :
      (m m' : PluginManifest R) → complete api b m ≡ ok m' → complete api b m' ≡ ok m'
  unfolding complete
  complete_again m m' h =
      elim (Result-cases (completed_notes api b m.homepage_url m.release_notes_url)) [
        | inr (e, failed) ↦ ground arith
        | inl (url, joined) ↦
            let same : record m { version = completed_version b m.version; release_notes_url = url }
                ≡ m' =
              ground arith in
            rw (← same) (
              rw
                (
                  completed_notes_again m.homepage_url m.release_notes_url url joined,
                  completed_version_again b m.version,
                  complete,
                )
                refl)
      ]

  -- A manifest that the tool has read and completed, written as JSON with any indentation and found
  -- again: if the JSON of a manifest is decoded to it, the tool reads the same manifest, for the same
  -- state of the commit.
  pub find_manifest_again :
      (w u : W) (m : PluginManifest R) (indent path json : Text)
      → (find_manifest api b w).0 ≡ ok m
      → api.marshal_indent m indent ≡ ok json
      → api.decode json ≡ ok m
      → (api.find_path u).0 ≡ ok path
      → (api.open_file path (api.find_path u).1).0 ≡ ok json
      → (find_manifest api b u).0 ≡ ok m
  unfolding find_manifest
  find_manifest_again w u m indent path json read written decoded at reopened =
      elim (Result-cases (api.find_path w).0) [
        | inr (e, failed) ↦ ground arith
        | inl (p, found) ↦ elim (Result-cases (api.open_file p (api.find_path w).1).0) [
          | inr (e, failed) ↦ ground arith
          | inl (file, opened) ↦ elim (Result-cases (api.decode file)) [
            | inr (e, failed) ↦ ground arith
            | inl (m0, first) ↦
                let done : complete api b m0 ≡ ok m = ground arith in
                ground (arith, complete_again m0 m done)
          ]
        ]
      ]
