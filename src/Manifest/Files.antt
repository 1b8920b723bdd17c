-- ===== src/Manifest/Files.antt =====
-- Which files the tool writes.
use mattermost_plugin_messag.Base.{
  ◌≡◌, refl, ◌⊎◌, Exec, inl, inr, Bool, true, false, List, ◌∷◌, Text, text, text_eq, text_eq_iff,
  Result-cases, Bool-cases, state-wrap, if◌then◌else◌,
}
use mattermost_plugin_messag.Manifest.{
  Build, PluginManifest, ToolError, ToolApi, server_file, webapp_file, dist_file, go_file, js_file,
  escape_newlines, find_manifest, write_as, apply_server, apply_webapp, apply_manifest,
  dist_manifest, run_cmd, main,
}

-- The files that a command may write: server/manifest.go and webapp/src/manifest.ts for apply,
-- dist/<id>/plugin.json for dist, and none for the others.
abbrev pub IsTarget : Text → Text → Type 0
IsTarget cmd path =
    ((cmd ≡ text "apply") × ((path ≡ server_file) ⊎ (path ≡ webapp_file)))
    ⊎ ((cmd ≡ text "dist") × ((id : Text) × (path ≡ dist_file id)))

-- `P` outlives reading and printing.
pub record ToolKeeps {W R : Type 0} (api : ToolApi W R) (P : W → Type 0) : Type 0 where
  pub on_find : (w : W) → P w → P (api.find_path w).1
  pub on_open : (path : Text) (w : W) → P w → P (api.open_file path w).1
  pub on_print : (s : Text) (w : W) → P w → P (api.print s w)

-- `P` outlives writes to `path`.
abbrev pub OnWrite : {W R : Type 0} → ToolApi W R → (W → Type 0) → Text → Type 0
OnWrite {W} api P path = (content : Text) (w : W) → P w → P (api.write_file path content w).1

module _ {W R : Type 0} (api : ToolApi W R) (P : W → Type 0) where
  write_as-Keeps :
      (failed : Text → ToolError) (f : Text → Text) (indent path : Text) (m : PluginManifest R)
      (w : W)
      → OnWrite api P path
      → P w
      → P (write_as api failed f indent path m w).1
  unfolding write_as
  write_as-Keeps failed f indent path m w K h = elim (Result-cases (api.marshal_indent m indent)) [
    | inr (e, bad) ↦ rw (bad, write_as) h
    | inl (json, coded) ↦ rw (coded, write_as, state-wrap) (K (f json) w h)
  ]

  apply_server-Keeps :
      (m : PluginManifest R) (w : W) → OnWrite api P server_file → P w → P (apply_server api m w).1
  unfolding apply_server
  apply_server-Keeps m w K h = elim (Bool-cases (api.has_server m)) [
    | inl has ↦ rw (has, apply_server) (write_as-Keeps _ go_file (text "  ") server_file m w K h)
    | inr without ↦ rw (without, apply_server) h
  ]

  apply_webapp-Keeps :
      (m : PluginManifest R) (w : W) → OnWrite api P webapp_file → P w → P (apply_webapp api m w).1
  unfolding apply_webapp
  apply_webapp-Keeps m w K h = elim (Bool-cases (api.has_webapp m)) [
    | inl has ↦
        rw (has, apply_webapp)
          (write_as-Keeps _ (λ json. js_file (escape_newlines json)) (text "    ") webapp_file m w K
            h)
    | inr without ↦ rw (without, apply_webapp) h
  ]

  apply_manifest-Keeps :
      (m : PluginManifest R) (w : W)
      → OnWrite api P server_file
      → OnWrite api P webapp_file
      → P w
      → P (apply_manifest api m w).1
  unfolding apply_manifest
  apply_manifest-Keeps m w S A h =
      let h' = apply_server-Keeps m w S h in
      elim (Result-cases (apply_server api m w).0) [
        | inr (e, failed) ↦ rw (failed, apply_manifest) h'
        | inl (u, done) ↦ rw (done, apply_manifest) (apply_webapp-Keeps m _ A h')
      ]

  dist_manifest-Keeps :
      (m : PluginManifest R) (w : W)
      → OnWrite api P (dist_file m.id)
      → P w
      → P (dist_manifest api m w).1
  unfolding dist_manifest
  dist_manifest-Keeps m w D h =
      write_as-Keeps _ (λ json. json) (text "    ") (dist_file m.id) m w D h

  if-Keeps :
      {E : Type 0} (b : Bool) (f g : Exec W E (Unit {0})) (w : W)
      → (b ≡ true → P (f w).1)
      → (b ≡ false → P (g w).1)
      → P ((if b then f else g) w).1
  if-Keeps true f g w yes_case no_case = yes_case refl
  if-Keeps false f g w yes_case no_case = no_case refl

  module _ (K : ToolKeeps api P) where
    find_manifest-Keeps : (b : Build) (w : W) → P w → P (find_manifest api b w).1
    unfolding find_manifest
    find_manifest-Keeps b w h =
        let h' = K.on_find w h in
        elim (Result-cases (api.find_path w).0) [
          | inr (e, failed) ↦ rw (failed, find_manifest) h'
          | inl (path, found) ↦
              let h'' = K.on_open path (api.find_path w).1 h' in
              elim (Result-cases (api.open_file path (api.find_path w).1).0) [
                | inr (e, failed) ↦ rw (found, failed, find_manifest) h''
                | inl (file, opened) ↦ elim (Result-cases (api.decode file)) [
                  | inr (e, failed) ↦ rw (found, opened, failed, find_manifest) h''
                  | inl (m, decoded) ↦ rw (found, opened, decoded, find_manifest) h''
                ]
              ]
        ]

    run_cmd-Keeps :
        (cmd : Text) (m : PluginManifest R) (w : W)
        → ((path : Text) → IsTarget cmd path → OnWrite api P path)
        → P w
        → P (run_cmd api cmd m w).1
    unfolding run_cmd
    run_cmd-Keeps cmd m w T h =
        let says : (s : Text) → P (api.print s w) = λ s. K.on_print s w h in
        if-Keeps (text_eq cmd (text "id")) _ _ w (λ _. says m.id)
          (λ _.
            if-Keeps (text_eq cmd (text "version")) _ _ w (λ _. says m.version)
              (λ _.
                if-Keeps (text_eq cmd (text "has_server")) _ _ w
                  (λ _. if-Keeps (api.has_server m) _ _ w (λ _. says (text "true")) (λ _. h))
                  (λ _.
                    if-Keeps (text_eq cmd (text "has_webapp")) _ _ w
                      (λ _. if-Keeps (api.has_webapp m) _ _ w (λ _. says (text "true")) (λ _. h))
                      (λ _.
                        if-Keeps (text_eq cmd (text "apply")) _ _ w
                          (λ is_apply.
                            let named = (text_eq_iff cmd (text "apply")).0 is_apply in
                            rw state-wrap (
                              apply_manifest-Keeps m w (T server_file (inl (named, inl refl)))
                                (T webapp_file (inl (named, inr refl))) h))
                          (λ _.
                            if-Keeps (text_eq cmd (text "dist")) _ _ w
                              (λ is_dist.
                                let named = (text_eq_iff cmd (text "dist")).0 is_dist in
                                rw state-wrap (
                                  dist_manifest-Keeps m w
                                    (T (dist_file m.id) (inr (named, (m.id, refl)))) h))
                              (λ _.
                                if-Keeps (text_eq cmd (text "check")) _ _ w (λ _. rw state-wrap h)
                                  (λ _. h)))))))

    -- For a fact that outlives the reading of files and printing: it holds after a run of the tool with
    -- any arguments, whatever fails, if it outlives the writes to the files of the command, which are
    -- server/manifest.go and webapp/src/manifest.ts for apply, a plugin.json under dist for dist, and
    -- no file for any other command.
    pub main-Keeps :
        (b : Build) (cmd : Text) (args : List Text) (w : W)
        → ((path : Text) → IsTarget cmd path → OnWrite api P path)
        → P w
        → P (main api b (cmd ∷ args) w).1
    unfolding main
    main-Keeps b cmd args w T h =
        let h' = find_manifest-Keeps b w h in
        elim (Result-cases (find_manifest api b w).0) [
          | inr (e, failed) ↦ rw (failed, main) h'
          | inl (m, found) ↦ rw (found, main) (run_cmd-Keeps cmd m _ T h')
        ]
