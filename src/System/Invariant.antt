-- ===== src/System/Invariant.antt =====
-- What holds in every state of the server: settings in bounds, and one index row for a post.
use native.Mathlib.Omega.{arith}
use mattermost_plugin_messag.Base.{
  ℕ, ◌≡◌, inl, inr, some, List, [], ◌∷◌, All, Text, ok, Result-cases, state-wrap,
}
use mattermost_plugin_messag.Database.{Db, table}
use mattermost_plugin_messag.Ttl.{TtlSetting}
use mattermost_plugin_messag.TtlStore.{Bytes}
use mattermost_plugin_messag.TtlStore.Contract.{IsLawfulJson}
use mattermost_plugin_messag.TtlStore.Refines.{setting, setting_of, setting_of-marshal}
use mattermost_plugin_messag.TtlStore.Shared.{Keeps, get-Keeps, set-Keeps, clear-Keeps}
use mattermost_plugin_messag.TtlService
use mattermost_plugin_messag.TtlService.Keeps.{InBounds, StoreKeeps, set_ttl-Keeps, clear_ttl-Keeps}
use mattermost_plugin_messag.Handler.Keeps.{HandlerKeeps}
use mattermost_plugin_messag.ExpireStore.Counts.{IsKeyed}
use mattermost_plugin_messag.ExpireStore.PrimaryKey.{Step-IsKeyed, change_keeps}
use mattermost_plugin_messag.ExpireStore.PrimaryKey.{Step as DbStep, queries, deletes, purges}
use mattermost_plugin_messag.Configuration.{Configuration}
use mattermost_plugin_messag.PurgerSwitch.{soft_delete_post, soft_delete, mode}
use mattermost_plugin_messag.PurgerSwitch
use mattermost_plugin_messag.PurgerSwitch.Routes.{PurgeMode-cases}
use mattermost_plugin_messag.Sweeper.{effective_batch_size}
use mattermost_plugin_messag.Sweeper.Spares.{Outlives}
use mattermost_plugin_messag.System.Parts.{
  Parts, settings_store, api_handler, sql_purger, plugin_sweeper,
}
use mattermost_plugin_messag.System.Ages.{IsAged}
use mattermost_plugin_messag.ExpireStore.{delete_by_post_ids, delete_rows}
use mattermost_plugin_messag.ExpireStore.Every.{All-keep}
use mattermost_plugin_messag.ExpireStore.Contract.{get_expired-keeps}
use mattermost_plugin_messag.Purge
use mattermost_plugin_messag.Purge.Atomic.{expire-purge}

module _ {K Row : Type 0} (p : Parts K Row) (stored : K → Text → Bytes) (born : Text → ℕ) where
  -- Every channel's setting is in bounds.
  abbrev pub AllInBounds : K → Type 0
  AllInBounds k = (c : Text) (t : TtlSetting) → setting p.json stored k c ≡ some t → InBounds t

  -- bytes that stand for no setting out of bounds
  abbrev pub GoodBytes : Bytes → Type 0
  GoodBytes b = (t : TtlSetting) → setting_of p.json stored b ≡ some t → InBounds t

  pub record IsSound (w : K × Db Row) : Type 0 where
    pub in_bounds : AllInBounds w.0
    pub keyed : IsKeyed (table w.1)
    pub aged : All (IsAged born) (table w.1)

  -- The plugin sees no difference.
  pub record LooksSame (w w' : K × Db Row) : Type 0 where
    pub settings : (c : Text) → setting p.json stored w'.0 c ≡ setting p.json stored w.0 c
    pub rows : table w'.1 ≡ table w.1

  pub LooksSame-IsSound : (w w' : K × Db Row) → LooksSame w w' → IsSound w → IsSound w'
  LooksSame-IsSound w w' same s = record {
    in_bounds = λ c t e. s.in_bounds c t (rw (← same.settings c) e);
    keyed = rw same.rows s.keyed;
    aged = rw same.rows s.aged;
  }

  -- What the plugin relies on: all writers to the key-value store, on any node, keep the settings in
  -- bounds; events, logs and soft deletes touch neither the settings nor the index; and what the
  -- server does elsewhere keeps the settings in bounds and the primary key.
  pub record Relies (Elsewhere : K × Db Row → K × Db Row → Type 0) : Type 0 where
    pub on_kv : Keeps p.kv GoodBytes AllInBounds
    pub reads : (k : Text) (w : K) (b : Bytes) → (p.kv.get k w).0 ≡ ok b → b ≡ stored w k
    pub codec : IsLawfulJson p.json
    pub on_publish : (e : _) (w : K × Db Row) → LooksSame w (p.publish e w)
    pub on_soft_delete : (id : Text) (w : K × Db Row) → LooksSame w (p.switch.delete_post id w).1
    pub on_switch_log : (m : _) (w : K × Db Row) → LooksSame w (p.switch.log_error m w)
    pub on_sweep_log : (m : _) (w : K × Db Row) → LooksSame w (p.sweep_log m w)
    pub on_api_log : (m : _) (w : K × Db Row) → LooksSame w (p.api.log_error m w)
    pub on_elsewhere : (w w' : K × Db Row) → Elsewhere w w' → IsSound w → IsSound w'

  module _ (Elsewhere : K × Db Row → K × Db Row → Type 0) (R : Relies Elsewhere) where
    pub store_keeps : StoreKeeps (settings_store p) IsSound
    store_keeps = record {
      on_get = λ c w s. record {
        in_bounds = get-Keeps p.kv p.json GoodBytes AllInBounds R.on_kv c w.0 s.in_bounds;
        keyed = s.keyed;
        aged = s.aged;
      };
      on_set = λ c t w inside s. record {
        in_bounds =
            set-Keeps p.kv p.json GoodBytes AllInBounds R.on_kv c t w.0
              (λ b coded t' read.
                let e : t ≡ t' =
                  ground (arith, setting_of-marshal p.json stored R.codec t b coded) in
                rw (← e) inside)
              s.in_bounds;
        keyed = s.keyed;
        aged = s.aged;
      };
      on_clear = λ c w s. record {
        in_bounds = clear-Keeps p.kv p.json GoodBytes AllInBounds R.on_kv c w.0 s.in_bounds;
        keyed = s.keyed;
        aged = s.aged;
      };
    }

    pub handler_keeps : HandlerKeeps (api_handler p) IsSound
    unfolding TtlService.get_setting
    handler_keeps = record {
      on_set = λ actor c d at w s.
          set_ttl-Keeps (settings_store p) p.permissions IsSound store_keeps actor c d at w s;
      on_get = λ c w s. store_keeps.on_get c w s;
      on_clear = λ actor c w s.
          clear_ttl-Keeps (settings_store p) p.permissions IsSound store_keeps actor c w s;
      on_publish = λ e w s. LooksSame-IsSound w (p.publish e w) (R.on_publish e w) s;
    }

    -- A call on the database keeps the facts about the rows if it keeps their ages.
    pub database_keeps :
        (w : K × Db Row) (d : Db Row)
        → DbStep p.order p.column w.1 d
        → All (IsAged born) (table d)
        → IsSound w
        → IsSound (w.0, d)
    database_keeps w d step aged s = record {
      in_bounds = s.in_bounds;
      keyed = Step-IsKeyed p.order p.column w.1 d step s.keyed;
      aged = aged;
    }

    purge-IsAged :
        (ids : List Text) (d : Db Row)
        → All (IsAged born) (table d)
        → All (IsAged born) (table (Purge.purge p.column ids d).1)
    purge-IsAged ids d aged =
        let same : table (Purge.purge p.column ids d).1 ≡ table d =
          ground (arith, expire-purge p.column ids d) in
        rw same aged

    delete-IsAged :
        (ids : List Text) (d : Db Row)
        → All (IsAged born) (table d)
        → All (IsAged born) (table (delete_by_post_ids p.order ids d).1)
    unfolding delete_by_post_ids delete_rows
    delete-IsAged [] d aged = aged
    delete-IsAged (id ∷ ids) d aged =
        change_keeps (All (IsAged born)) _ (delete_rows (id ∷ ids)) d
          (All-keep (IsAged born) _ (table d)) aged

    soft_delete_post-IsSound :
        (id : Text) (w : K × Db Row) → IsSound w → IsSound (soft_delete_post p.switch id w)
    unfolding soft_delete_post
    soft_delete_post-IsSound id w s =
        let s' = LooksSame-IsSound w (p.switch.delete_post id w).1 (R.on_soft_delete id w) s in
        elim (Result-cases (p.switch.delete_post id w).0) [
          | inl (a, done) ↦ rw (done, soft_delete_post) s'
          | inr (e, failed) ↦
              rw (failed, soft_delete_post) (LooksSame-IsSound _ _ (R.on_switch_log _ _) s')
        ]

    soft_delete-IsSound :
        (ids : List Text) (w : K × Db Row) → IsSound w → IsSound (soft_delete p.switch ids w)
    unfolding soft_delete
    soft_delete-IsSound [] w s = s
    soft_delete-IsSound (id ∷ ids) w s =
        soft_delete-IsSound ids (soft_delete_post p.switch id w) (soft_delete_post-IsSound id w s)

    purge-IsSound :
        (config : K × Db Row → Configuration) (ids : List Text) (w : K × Db Row)
        → IsSound w
        → IsSound (PurgerSwitch.purge p.switch config (sql_purger p) ids w).1
    unfolding PurgerSwitch.purge
    purge-IsSound config [] w s = s
    purge-IsSound config (id ∷ ids) w s = elim (PurgeMode-cases (mode p.switch config w)) [
      | inl hard ↦
          rw (hard, PurgerSwitch.purge)
            (rw state-wrap
              (database_keeps w _ (purges (id ∷ ids) w.1) (purge-IsAged (id ∷ ids) w.1 s.aged) s))
      | inr (inl soft) ↦ rw (soft, PurgerSwitch.purge) (soft_delete-IsSound (id ∷ ids) w s)
      | inr (inr skip) ↦
          rw (skip, PurgerSwitch.purge) (LooksSame-IsSound _ _ (R.on_switch_log _ _) s)
    ]

    pub tick_outlives :
        (config : K × Db Row → Configuration)
        → Outlives (plugin_sweeper p config) (λ ids. Unit {0}) IsSound
    unfolding effective_batch_size
    tick_outlives config = record {
      purges = λ ids w _ s. purge-IsSound config ids w s;
      queries =
          λ w s. database_keeps w _ (queries (p.now w) 500 w.1) (rw get_expired-keeps s.aged) s;
      deletes = λ ids w s. database_keeps w _ (deletes ids w.1) (delete-IsAged ids w.1 s.aged) s;
      logs = λ m w s. LooksSame-IsSound _ _ (R.on_sweep_log m w) s;
    }
