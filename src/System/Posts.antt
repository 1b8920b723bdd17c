-- ===== src/System/Posts.antt =====
-- The posts of the server: a tick deletes none that is younger than a minute.
use native.Mathlib.Omega.{arith}
use mathlib.Core.Path.{fun_ext}
use mattermost_plugin_messag.Base.{
  ◌≡◌, refl, ap, ◌∙◌, inl, inr, Bool, false, not, List, [], ◌∷◌, keep, any, Text, text, text_eq,
  text_eq_iff, contains, Result-cases, state-wrap,
}
use mattermost_plugin_messag.Database.{Db}
use mattermost_plugin_messag.ExpireStore.Tables.{rows-get_expired, rows-delete_by_post_ids}
use mattermost_plugin_messag.Purge.{PurgeError, footprint}
use mattermost_plugin_messag.Purge
use mattermost_plugin_messag.Purge.Atomic.{doomed, survivors, Erased, purge_ok, purge_err}
use mattermost_plugin_messag.Configuration.{Configuration}
use mattermost_plugin_messag.PurgerSwitch.{
  SwitchLog, SwitchError, soft_delete_post, soft_delete, mode,
}
use mattermost_plugin_messag.PurgerSwitch
use mattermost_plugin_messag.PurgerSwitch.Routes.{PurgeMode-cases}
use mattermost_plugin_messag.Sweeper.{SweepLog}
use mattermost_plugin_messag.Sweeper.Spares.{Outlives}
use mattermost_plugin_messag.System.Parts.{Parts, sql_purger, plugin_sweeper}

module _ {Row : Type 0} (column : Text → Row → Text) (j : Text) where
  -- the rows of the table posts that hold the post `j`
  abbrev pub post_rows : Db Row → List Row
  post_rows db = keep (λ r. text_eq (column (text "id") r) j) (db.rows (text "posts"))

  keep_spared :
      (ids : List Text) (l : List Row)
      → contains ids j ≡ false
      → keep
          (λ r. text_eq (column (text "id") r) j)
          (keep (λ r. not (contains ids (column (text "id") r))) l)
        ≡ keep (λ r. text_eq (column (text "id") r) j) l
  unfolding keep
  keep_spared ids [] absent = refl
  keep_spared ids (r ∷ l) absent =
      ground (arith, keep_spared ids l absent, text_eq_iff (column (text "id") r) j)

  doomed_post :
      (ids : List Text) (r : Row)
      → doomed column ids footprint (text "posts") r ≡ contains ids (column (text "id") r)
  unfolding doomed footprint text text_eq
  doomed_post ids r = ground arith

  post_rows-survivors :
      (ids : List Text) (rows : Text → List Row)
      → survivors column ids footprint rows (text "posts")
        ≡ keep (λ r. not (contains ids (column (text "id") r))) (rows (text "posts"))
  unfolding survivors
  post_rows-survivors ids rows =
      ap (λ (q : Row → Bool). keep q (rows (text "posts")))
        (fun_ext (λ r. ap not (doomed_post ids r)))

  post_rows-purge :
      (ids : List Text) (db : Db Row)
      → contains ids j ≡ false
      → post_rows (Purge.purge column ids db).1 ≡ post_rows db
  post_rows-purge ids db absent =
      let among = λ (l : List Row). keep (λ r. text_eq (column (text "id") r) j) l in
      let erased = λ (e : Erased column ids db (Purge.purge column ids db).1).
        ap among (e (text "posts") ∙ post_rows-survivors ids db.rows)
        ∙ keep_spared ids (db.rows (text "posts")) absent in
      elim (Result-cases (Purge.purge column ids db).0) [
        | inl (n, fine) ↦ erased (purge_ok column ids db n fine).1
        | inr (e, failed) ↦ elim (purge_err column ids db e failed) [
          | inl same ↦ ap among (same (text "posts"))
          | inr (_, late) ↦ erased late
        ]
      ]

-- Soft deletes leave other posts alone, and logs all posts.
pub record SparesPosts {K Row : Type 0} (p : Parts K Row) (j : Text) : Type 0 where
  pub on_soft_delete :
      (id : Text) (w : K × Db Row)
      → text_eq id j ≡ false
      → post_rows p.column j (p.switch.delete_post id w).1.1 ≡ post_rows p.column j w.1
  pub on_switch_log :
      (m : SwitchLog) (w : K × Db Row)
      → post_rows p.column j (p.switch.log_error m w).1 ≡ post_rows p.column j w.1
  pub on_sweep_log :
      (m : SweepLog (SwitchError PurgeError)) (w : K × Db Row)
      → post_rows p.column j (p.sweep_log m w).1 ≡ post_rows p.column j w.1

module _ {K Row : Type 0} (p : Parts K Row) (j : Text) (S : SparesPosts p j) where
  abbrev rows_of : K × Db Row → List Row
  rows_of w = post_rows p.column j w.1

  soft_delete_post-spares :
      (id : Text) (w : K × Db Row)
      → text_eq id j ≡ false
      → rows_of (soft_delete_post p.switch id w) ≡ rows_of w
  unfolding soft_delete_post
  soft_delete_post-spares id w other =
      let same = S.on_soft_delete id w other in
      elim (Result-cases (p.switch.delete_post id w).0) [
        | inl (a, done) ↦ rw (done, soft_delete_post) same
        | inr (e, failed) ↦ rw (failed, soft_delete_post) (S.on_switch_log _ _ ∙ same)
      ]

  soft_delete-spares :
      (ids : List Text) (w : K × Db Row)
      → contains ids j ≡ false
      → rows_of (soft_delete p.switch ids w) ≡ rows_of w
  unfolding soft_delete contains any
  soft_delete-spares [] w absent = refl
  soft_delete-spares (id ∷ ids) w absent =
      soft_delete-spares ids (soft_delete_post p.switch id w) (ground arith)
      ∙ soft_delete_post-spares id w (ground arith)

  purge-spares :
      (config : K × Db Row → Configuration) (ids : List Text) (w : K × Db Row)
      → contains ids j ≡ false
      → rows_of (PurgerSwitch.purge p.switch config (sql_purger p) ids w).1 ≡ rows_of w
  unfolding PurgerSwitch.purge
  purge-spares config [] w absent = refl
  purge-spares config (id ∷ ids) w absent = elim (PurgeMode-cases (mode p.switch config w)) [
    | inl hard ↦
        rw (hard, PurgerSwitch.purge)
          (rw state-wrap (post_rows-purge p.column j (id ∷ ids) w.1 absent))
    | inr (inl soft) ↦ rw (soft, PurgerSwitch.purge) (soft_delete-spares (id ∷ ids) w absent)
    | inr (inr skip) ↦ rw (skip, PurgerSwitch.purge) (S.on_switch_log _ _)
  ]

  pub posts_outlive :
      (config : K × Db Row → Configuration) (l : List Row)
      → Outlives (plugin_sweeper p config) (λ ids. contains ids j ≡ false) (λ w. rows_of w ≡ l)
  posts_outlive config l = record {
    purges = λ ids w absent h. purge-spares config ids w absent ∙ h;
    queries = λ w h. ap among (rows-get_expired p.order (p.now w) _ w.1) ∙ h;
    deletes = λ ids w h. ap among (rows-delete_by_post_ids p.order ids w.1) ∙ h;
    logs = λ m w h. S.on_sweep_log m w ∙ h;
  }
    where
      among : (Text → List Row) → List Row
      among rows = keep (λ r. text_eq (p.column (text "id") r) j) (rows (text "posts"))
