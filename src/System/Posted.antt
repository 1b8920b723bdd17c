-- ===== src/System/Posted.antt =====
-- A post that the server delivers keeps the invariant of the system.
use native.Mathlib.Omega.{arith}
use mattermost_plugin_messag.Base.{
  ℕ, ◌+◌, ◌≤◌, ◌≡◌, refl, inl, inr, not, ◌||◌, none, some, [], All, Text, text_eq, ok, Result-cases,
  List-cases, Bool-cases, state-wrap,
}
use mattermost_plugin_messag.Int64.{pos}
use mattermost_plugin_messag.Duration.{Duration, of_seconds}
use mattermost_plugin_messag.Database.{Db, table}
use mattermost_plugin_messag.Ttl.{TtlSetting}
use mattermost_plugin_messag.TtlStore.{Bytes, get}
use mattermost_plugin_messag.TtlStore.Refines.{setting, get-setting}
use mattermost_plugin_messag.TtlService.{get_ttl}
use mattermost_plugin_messag.TtlService.Keeps.{StoreKeeps, get_ttl-Keeps}
use mattermost_plugin_messag.ExpireStore.{
  upsert_failed, upsert_row, bump_rows, upsert, update_expire_by_root,
}
use mattermost_plugin_messag.ExpireStore.PrimaryKey.{upserts, bumps, change_keeps}
use mattermost_plugin_messag.ExpiryService.{
  Post, thread_root, deadline, entry_of, extend_thread, index_post, on_post_created,
}
use mattermost_plugin_messag.Plugin.{Plugin, message_has_been_posted}
use mattermost_plugin_messag.System.Parts.{Parts, settings_store, expire_store, ttl_reader}
use mattermost_plugin_messag.System.Step.{IsTimely}
use mattermost_plugin_messag.System.Ages.{
  IsAged, deadline_bounds, InOrder, Fits, upsert-Fits, bump-IsAged,
}
use mattermost_plugin_messag.System.Invariant.{
  IsSound, Relies, LooksSame-IsSound, store_keeps, database_keeps,
}

module _ {K Row : Type 0} (p : Parts K Row) (stored : K → Text → Bytes) (born : Text → ℕ)
    (Elsewhere : K × Db Row → K × Db Row → Type 0) (R : Relies p stored born Elsewhere) where
  abbrev Sound : K × Db Row → Type 0
  Sound = IsSound p stored born

  -- What GetTTL reads is a setting of the store.
  ttl_reader-setting :
      (c : Text) (w : K × Db Row) (d : Duration)
      → (ttl_reader p c w).0 ≡ ok (some d)
      → (t : TtlSetting) × (setting p.json stored w.0 c ≡ some t)
        × (d ≡ of_seconds t.duration_seconds)
  unfolding get_ttl
  ttl_reader-setting c w d h = elim (Result-cases (get p.kv p.json c w.0).0) [
    | inr (e, failed) ↦ ground arith
    | inl (none, read) ↦ ground arith
    | inl (some t, read) ↦
        (t, ground (arith, get-setting p.json stored p.kv R.reads c w.0 read), ground arith)
  ]

  ttl_reader_keeps :
      (P : K × Db Row → Type 0)
      → StoreKeeps (settings_store p) P
      → (c : Text) (w : K × Db Row) → P w
      → P (ttl_reader p c w).1
  ttl_reader_keeps P keeps c w h = get_ttl-Keeps (settings_store p) p.permissions P keeps c w h

  rows-ttl_reader : (c : Text) (w : K × Db Row) → (ttl_reader p c w).1.1 ≡ w.1
  rows-ttl_reader c w =
      ttl_reader_keeps (λ w'. w'.1 ≡ w.1)
        (record { on_get = λ c u e. e; on_set = λ c t u _ e. e; on_clear = λ c u e. e }) c w refl

  module _ (post : Post) (d : Duration) (m : ℕ) (due : deadline post d ≡ pos m)
      (late : born post.id + 60000 ≤ m) where
    extend_thread-IsSound :
        (w : K × Db Row)
        → All (InOrder born post) (table w.1)
        → Sound w
        → Sound (extend_thread (expire_store p) (ttl_reader p) p.now post d w).1
    unfolding update_expire_by_root
    extend_thread-IsSound w ordered s = elim (List-cases post.root_id) [
      | inl starts ↦ rw (starts, extend_thread) s
      | inr (c, rest, reply) ↦
          let root = thread_root post in
          rw (reply, extend_thread)
            (rw state-wrap (
              database_keeps p stored born Elsewhere R w _ (bumps root (deadline post d) w.1)
                (change_keeps (All (IsAged born)) _ (bump_rows root (deadline post d)) w.1
                  (λ aged.
                    bump-IsAged born post d (p.now w) m due late (λ e. cc) (table w.1)
                      (aged, ordered))
                  s.aged)
                s))
    ]

    index_post-IsSound :
        (w : K × Db Row)
        → All (InOrder born post) (table w.1)
        → Sound w
        → Sound (index_post (expire_store p) (ttl_reader p) p.now post d w).1
    unfolding index_post upsert
    index_post-IsSound w ordered s =
        let e = entry_of post d (p.now w) in
        let w' = ((expire_store p).upsert e w).1 in
        let (aged, ordered') =
          change_keeps (Fits born post) (upsert_failed post.id) (upsert_row e) w.1
            (upsert-Fits born post d (p.now w) m due late (table w.1)) (s.aged, ordered) in
        let s' = database_keeps p stored born Elsewhere R w w'.1 (upserts e w.1) aged s in
        elim (Result-cases ((expire_store p).upsert e w).0) [
          | inr (x, failed) ↦ rw (failed, index_post) s'
          | inl (tt, done) ↦ rw (done, index_post) (extend_thread-IsSound w' ordered' s')
        ]

  on_post_created-IsSound :
      (post : Post) (w : K × Db Row)
      → IsTimely born post (table w.1)
      → Sound w
      → Sound (on_post_created (expire_store p) (ttl_reader p) p.now post w).1
  unfolding on_post_created
  on_post_created-IsSound post w timely s =
      let w' = (ttl_reader p post.channel_id w).1 in
      let s' = ttl_reader_keeps Sound (store_keeps p stored born Elsewhere R) post.channel_id w s in
      let same = rows-ttl_reader post.channel_id w in
      elim (Result-cases (ttl_reader p post.channel_id w).0) [
        | inr (e, failed) ↦ rw (failed, on_post_created) s'
        | inl (none, off) ↦ rw (off, on_post_created) s'
        | inl (some d, on) ↦
            let (t, kept, read) = ttl_reader-setting post.channel_id w d on in
            let (m, due, late, _) =
              deadline_bounds born post t (s.in_bounds post.channel_id t kept) timely.created
                timely.early in
            rw (on, on_post_created)
              (index_post-IsSound post d m (rw read due) late w' (rw same timely.in_order) s')
      ]

  pub posted-IsSound :
      (plugin : Plugin) (post : Post) (w : K × Db Row)
      → IsTimely born post (table w.1)
      → Sound w
      → Sound
          (message_has_been_posted p.api (expire_store p) (ttl_reader p) p.now plugin (some post) w)
  unfolding message_has_been_posted
  posted-IsSound plugin post w timely s =
      let s' = on_post_created-IsSound post w timely s in
      elim (Bool-cases (not plugin.expiry_service || text_eq post.id [])) [
        | inl skipped ↦ rw (skipped, message_has_been_posted) s
        | inr handled ↦
            elim (Result-cases (on_post_created (expire_store p) (ttl_reader p) p.now post w).0) [
              | inl (tt, done) ↦ rw (handled, done, message_has_been_posted) s'
              | inr (e, failed) ↦
                  rw (handled, failed, message_has_been_posted)
                    (LooksSame-IsSound p stored born _ _ (R.on_api_log _ _) s')
            ]
      ]
