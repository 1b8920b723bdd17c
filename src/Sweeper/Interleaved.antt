-- ===== src/Sweeper/Interleaved.antt =====
-- A tick whose calls interleave with whatever else happens on the server: which posts it deletes.
use native.Mathlib.Omega.{arith}
use mattermost_plugin_messag.Base.{
  ◌<◌, ◌≡◌, ◌≢◌, refl, inl, inr, true, ◌&&◌, List, [], ◌∷◌, contains, any, Text, ok, Result-cases,
}
use mattermost_plugin_messag.Database.{Entry, Table}
use mattermost_plugin_messag.ExpireStore.{count, is_expired}
use mattermost_plugin_messag.ExpireStore.Counts.{ids_of, of_post, contains-count}
use mattermost_plugin_messag.ExpireStore.Contract.{IsLawfulIndex}
use mattermost_plugin_messag.Sweeper.{Sweeper, query_failed, prune_failed}
use mattermost_plugin_messag.Sweeper.Spares.{Outlives, count-keep-and}
use mattermost_plugin_messag.Sweeper.Steps.{Phase, idle, chosen, purged, tick_step}

-- the posts of the batch
abbrev pub batch_of : Phase → List Text
batch_of idle = []
batch_of (chosen ids) = ids
batch_of (purged ids) = ids

none_listed : (j : Text) → ¬ (contains [] j ≡ true)
unfolding contains any
none_listed j listed = cc

module _ {W E : Type 0} (s : Sweeper W E) (Other : W → W → Type 0) where
  -- Calls of ticks, and `Other` steps between them.
  pub data TickReach (ph0 : Phase) (w0 : W) : Phase → W → Type 0 where
    start : TickReach ph0 w0 ph0 w0
    called :
        {ph : Phase} {w : W}
        → TickReach ph0 w0 ph w
        → TickReach ph0 w0 (tick_step s ph w).0 (tick_step s ph w).1
    other : {ph : Phase} {w w' : W} → TickReach ph0 w0 ph w → Other w w' → TickReach ph0 w0 ph w'

  -- The tick that is under way made its query in the state `u`.
  pub data Since (u : W) : Phase → W → Type 0 where
    asked : Since u (tick_step s idle u).0 (tick_step s idle u).1
    went_on :
        {ph : Phase} {w : W}
        → Since u ph w
        → ph ≢ idle
        → Since u (tick_step s ph w).0 (tick_step s ph w).1
    between : {ph : Phase} {w w' : W} → Since u ph w → Other w w' → Since u ph w'

  -- What a call makes of the batch: the query chooses one, and the other calls keep it or end it.
  batch_of-query :
      (w : W) (j : Text)
      → contains (batch_of (tick_step s idle w).0) j ≡ true
      → (batch : List Entry) × ((s.store.get_expired (s.now w) s.batch_size w).0 ≡ ok batch)
        × (contains (ids_of batch) j ≡ true)
  unfolding tick_step contains any
  batch_of-query w j listed = elim (Result-cases (s.store.get_expired (s.now w) s.batch_size w).0) [
    | inr (e, failed) ↦ ground arith
    | inl ([], none) ↦ ground arith
    | inl (e ∷ es, found) ↦ (e ∷ es, found, ground arith)
  ]

  pub batch_of-call :
      (ph : Phase) (w : W) (j : Text)
      → ph ≢ idle
      → contains (batch_of (tick_step s ph w).0) j ≡ true
      → contains (batch_of ph) j ≡ true
  unfolding tick_step contains any
  batch_of-call idle w j busy listed = absurd (busy refl)
  batch_of-call (chosen ids) w j busy listed = ground arith
  batch_of-call (purged ids) w j busy listed = ground arith

  module _ (Spared : List Text → Type 0) (P : W → Type 0) (O : Outlives s Spared P) where
    pub tick_step-outlives :
        (ph : Phase) (w : W) → Spared (batch_of ph) → P w → P (tick_step s ph w).1
    unfolding tick_step
    tick_step-outlives idle w spared h =
        let h' = O.queries w h in
        elim (Result-cases (s.store.get_expired (s.now w) s.batch_size w).0) [
          | inr (e, failed) ↦ rw (failed, tick_step) (O.logs (query_failed e) _ h')
          | inl (batch, fine) ↦ rw (fine, tick_step) h'
        ]
    tick_step-outlives (chosen ids) w spared h =
        let h' = O.purges ids w spared h in
        elim (Result-cases (s.purger ids w).0) [
          | inr (e, failed) ↦ rw (failed, tick_step) (O.logs _ _ h')
          | inl (n, fine) ↦ rw (fine, tick_step) h'
        ]
    tick_step-outlives (purged ids) w spared h =
        let h' = O.deletes ids w h in
        elim (Result-cases (s.store.delete_by_post_ids ids w).0) [
          | inr (e, failed) ↦ rw (failed, tick_step) (O.logs (prune_failed e) _ h')
          | inl (u, fine) ↦ rw (fine, tick_step) h'
        ]

  module _ (rows : W → Table) (L : IsLawfulIndex s.store rows) where
    -- a post with an expired row
    abbrev pub IsDue : Text → W → Type 0
    IsDue j w = 0 < count (λ r. of_post j r && is_expired (s.now w) r) (rows w)

    pub query-IsDue :
        (w : W) (j : Text) → contains (batch_of (tick_step s idle w).0) j ≡ true → IsDue j w
    query-IsDue w j listed =
        let (batch, found, inside) = batch_of-query w j listed in
        let B = L.get_expired_reads (s.now w) s.batch_size w batch found in
        omega (
          arith,
          contains-count j batch inside,
          B.within (of_post j),
          count-keep-and (of_post j) (is_expired (s.now w)) (rows w),
        )

    -- the state in which a post of the batch was found
    abbrev pub Found : Phase → W → Text → Phase → W → Type 0
    Found ph0 w0 j ph w = (u : W) × (TickReach ph0 w0 idle u × (Since u ph w × IsDue j u))

    called-Found :
        (w0 : W) (ph : Phase) (w : W) (j : Text)
        → TickReach idle w0 ph w
        → (contains (batch_of ph) j ≡ true → Found idle w0 j ph w)
        → contains (batch_of (tick_step s ph w).0) j ≡ true
        → Found idle w0 j (tick_step s ph w).0 (tick_step s ph w).1
    called-Found w0 idle w j r before listed = (w, (r, (Since.asked, query-IsDue w j listed)))
    called-Found w0 (chosen ids) w j r before listed =
        let busy : chosen ids ≢ idle = λ e. cc in
        let (u, (reach, (since, due))) = before (batch_of-call (chosen ids) w j busy listed) in
        (u, (reach, (Since.went_on since busy, due)))
    called-Found w0 (purged ids) w j r before listed =
        let busy : purged ids ≢ idle = λ e. cc in
        let (u, (reach, (since, due))) = before (batch_of-call (purged ids) w j busy listed) in
        (u, (reach, (Since.went_on since busy, due)))

    -- Over a lawful index, while a tick is under way from an idle sweeper and anything happens between
    -- its calls: each post that it is about to purge, or has purged and is about to prune, had an
    -- expired row in the index in the state in which this tick made its query.
    pub batch-IsDue :
        (w0 : W) (ph : Phase) (w : W) (j : Text)
        → TickReach idle w0 ph w
        → contains (batch_of ph) j ≡ true
        → (u : W) × (TickReach idle w0 idle u × (Since u ph w × IsDue j u))
    batch-IsDue w0 _ _ j TickReach.start listed = absurd (none_listed j listed)
    batch-IsDue w0 _ _ j (TickReach.called {ph} {w} r) listed =
        called-Found w0 ph w j r (λ h. batch-IsDue w0 ph w j r h) listed
    batch-IsDue w0 _ w' j (TickReach.other {ph} {w} r o) listed =
        let (u, (reach, (since, due))) = batch-IsDue w0 ph w j r listed in
        (u, (reach, (Since.between since o, due)))
