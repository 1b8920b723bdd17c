-- ===== src/PurgerSwitch/Keeps.antt =====
-- What outlives a purge through the switch.
use mattermost_plugin_messag.Base.{inl, inr, List, [], ◌∷◌, Text, Result-cases, state-wrap}
use mattermost_plugin_messag.Configuration.{Configuration}
use mattermost_plugin_messag.PurgerSwitch.{
  Purger, SwitchApi, SwitchLog, soft_delete_post, soft_delete, mode, purge,
}
use mattermost_plugin_messag.PurgerSwitch.Routes.{PurgeMode-cases}

module _ {W : Type 0} (api : SwitchApi W) (P : W → Type 0)
    (on_soft_delete : (id : Text) (w : W) → P w → P (api.delete_post id w).1)
    (on_log : (m : SwitchLog) (w : W) → P w → P (api.log_error m w)) where
  soft_delete_post-Keeps : (id : Text) (w : W) → P w → P (soft_delete_post api id w)
  unfolding soft_delete_post
  soft_delete_post-Keeps id w h = elim (Result-cases (api.delete_post id w).0) [
    | inl (u, done) ↦ rw (done, soft_delete_post) (on_soft_delete id w h)
    | inr (e, failed) ↦ rw (failed, soft_delete_post) (on_log _ _ (on_soft_delete id w h))
  ]

  pub soft_delete-Keeps : (ids : List Text) (w : W) → P w → P (soft_delete api ids w)
  unfolding soft_delete
  soft_delete-Keeps [] w h = h
  soft_delete-Keeps (id ∷ ids) w h =
      soft_delete-Keeps ids (soft_delete_post api id w) (soft_delete_post-Keeps id w h)

  pub purge-Keeps :
      {E : Type 0} (config : W → Configuration) (hard : Purger W E)
      → ((ids : List Text) (w : W) → P w → P (hard ids w).1)
      → (ids : List Text) (w : W) → P w
      → P (purge api config hard ids w).1
  unfolding purge
  purge-Keeps config hard on_hard [] w h = h
  purge-Keeps config hard on_hard (id ∷ ids) w h = elim (PurgeMode-cases (mode api config w)) [
    | inl is_hard ↦ rw (is_hard, purge) (rw state-wrap (on_hard (id ∷ ids) w h))
    | inr (inl soft) ↦ rw (soft, purge) (soft_delete-Keeps (id ∷ ids) w h)
    | inr (inr skip) ↦ rw (skip, purge) (on_log _ _ h)
  ]
