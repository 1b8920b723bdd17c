-- ===== src/ExpiryService/Settles.antt =====
-- The deadline of a thread while the hooks of its replies run at one time.
use native.Mathlib.Omega.{arith}
use mattermost_plugin_messag.Base.{
  ℕ, zero, suc, ◌≡◌, ◌≢◌, ◌∙◌, sym, refl, Bool, true, false, none, some, List, [], ◌∷◌, any, All,
  map, Text, text_eq, text_eq_iff, Result-cases, Bool-cases, ◌⊎◌, inl, inr,
}
use mattermost_plugin_messag.Int64.{ℤ}
use mattermost_plugin_messag.Duration.{Duration}
use mattermost_plugin_messag.Database.{Entry, Table}
use mattermost_plugin_messag.ExpireStore.{ExpireIndexStore, find_row, upsert_row, bump_rows}
use mattermost_plugin_messag.ExpireStore.Contract.{IsLawfulIndex}
use mattermost_plugin_messag.ExpiryService.{
  Post, ttl_error, store_error, TtlReader, thread_root, deadline, entry_of,
}
use mattermost_plugin_messag.ExpiryService.Steps.{
  Handling, arriving, indexing, extending, handled, failed, handle_step, handle_at, post_of,
  HookReach,
}
use mattermost_plugin_messag.ExpiryService.Bumps.{OneDeadline, upsert-OneDeadline, bump-OneDeadline}

module _ (t : Text) where
  -- A reply in the thread stands between its upsert and its update, or a call to the store has failed.
  abbrev pub is_open : Handling → Bool
  is_open (arriving post) = false
  is_open (indexing post d) = false
  is_open (extending post d) = text_eq (thread_root post) t
  is_open (handled post) = false
  is_open (failed post (ttl_error e)) = false
  is_open (failed post (store_error e)) = text_eq (thread_root post) t

  -- The post does not start the thread.
  abbrev pub IsLater : Handling → Type 0
  IsLater h = (post_of h).id ≢ t

  module _ {W : Type 0} (store : ExpireIndexStore W) (rows : W → Table)
      (L : IsLawfulIndex store rows) (get_ttl : TtlReader W) (now : W → ℤ)
      (get_ttl_keeps : (c : Text) (w : W) → rows (get_ttl c w).1 ≡ rows w) where
    abbrev call : Handling → W → Handling × W
    call = handle_step store get_ttl now

    rows-arriving : (post : Post) (w : W) → rows (call (arriving post) w).1 ≡ rows w
    unfolding handle_step
    rows-arriving post w = elim (Result-cases (get_ttl post.channel_id w).0) [
      | inl (ttl, read) ↦ ground (arith, get_ttl_keeps post.channel_id w)
      | inr (e, bad) ↦ ground (arith, get_ttl_keeps post.channel_id w)
    ]

    rows-indexing :
        (post : Post) (d : Duration) (w : W)
        → (rows (call (indexing post d) w).1 ≡ rows w)
          ⊎ (rows (call (indexing post d) w).1 ≡ upsert_row (entry_of post d (now w)) (rows w))
    unfolding handle_step
    rows-indexing post d w = elim (Result-cases (store.upsert (entry_of post d (now w)) w).0) [
      | inl (u, fine) ↦
          inr (rw (fine, handle_step) (L.upsert_writes (entry_of post d (now w)) w fine))
      | inr (x, bad) ↦ rw (bad, handle_step) (L.upsert_fails (entry_of post d (now w)) w x bad)
    ]

    -- An upsert in the thread leaves it open.
    open-indexing :
        (post : Post) (d : Duration) (w : W)
        → post.id ≢ t
        → text_eq (thread_root post) t ≡ true
        → is_open (call (indexing post d) w).0 ≡ true
    unfolding handle_step thread_root
    open-indexing post d w later inside =
        elim (Result-cases (store.upsert (entry_of post d (now w)) w).0) [
          | inl (u, fine) ↦ ground (arith, text_eq_iff post.id t)
          | inr (x, bad) ↦ ground arith
        ]

    rows-extending :
        (post : Post) (d : Duration) (w : W)
        → let after = rows (call (extending post d) w).1 in
          (after ≡ bump_rows (thread_root post) (deadline post d) (rows w))
          ⊎ ((after ≡ rows w)
              × (is_open (call (extending post d) w).0 ≡ text_eq (thread_root post) t))
    unfolding handle_step
    rows-extending post d w =
        let root = thread_root post in
        let at = deadline post d in
        elim (Result-cases (store.update_expire_by_root root at w).0) [
          | inl (u, fine) ↦ inl (rw (fine, handle_step) (L.bump_writes root at w fine))
          | inr (x, bad) ↦ elim (L.bump_fails root at w x bad) [
            | inl same ↦ inr (rw (bad, handle_step) (same, refl))
            | inr bumped ↦ inl (rw (bad, handle_step) bumped)
          ]
        ]

    -- A call keeps the deadline of the thread, unless it leaves the thread open.
    call-OneDeadline :
        (h : Handling) (w : W)
        → IsLater h
        → (is_open h ≡ false → OneDeadline t (rows w))
        → is_open (call h w).0 ≡ false
        → OneDeadline t (rows (call h w).1)
    unfolding handle_step
    call-OneDeadline (arriving post) w later one closed = rw (rows-arriving post w) (one refl)
    call-OneDeadline (indexing post d) w later one closed =
        elim (Bool-cases (text_eq (thread_root post) t)) [
          | inl inside ↦ absurd (cc (open-indexing post d w later inside))
          | inr outside ↦ elim (rows-indexing post d w) [
            | inl same ↦ rw same (one refl)
            | inr written ↦ rw written (
                upsert-OneDeadline t (entry_of post d (now w)) (rows w)
                  (ground (arith, text_eq_iff (thread_root post) t)) (one refl))
          ]
        ]
    call-OneDeadline (extending post d) w later one closed = elim (rows-extending post d w) [
      | inl written ↦ rw written (
          bump-OneDeadline t (thread_root post) (deadline post d) (rows w)
            (λ other. one (ground (arith, text_eq_iff (thread_root post) t))))
      | inr (same, still) ↦ rw same (one (sym still ∙ closed))
    ]
    call-OneDeadline (handled post) w later one closed = one refl
    call-OneDeadline (failed post e) w later one closed = one closed

    post_of-call : (h : Handling) (w : W) → post_of (call h w).0 ≡ post_of h
    unfolding handle_step
    post_of-call (arriving post) w = elim (Result-cases (get_ttl post.channel_id w).0) [
      | inl (none, read) ↦ ground arith
      | inl (some d, read) ↦ ground arith
      | inr (e, bad) ↦ ground arith
    ]
    post_of-call (indexing post d) w = ground arith
    post_of-call (extending post d) w = ground arith
    post_of-call (handled post) w = refl
    post_of-call (failed post e) w = refl

    call-IsLater : (h : Handling) (w : W) → IsLater h → IsLater (call h w).0
    call-IsLater h w later = rw (post_of-call h w) later

    abbrev at_place : ℕ → List Handling → W → List Handling × W
    at_place = handle_at store get_ttl now

    handle_at-IsLater :
        (i : ℕ) (hs : List Handling) (w : W) → All IsLater hs → All IsLater (at_place i hs w).0
    unfolding handle_at
    handle_at-IsLater i [] w later = tt
    handle_at-IsLater zero (h ∷ hs) w later = (call-IsLater h w later.0, later.1)
    handle_at-IsLater (suc i) (h ∷ hs) w later = (later.0, handle_at-IsLater i hs w later.1)

    handle_at-OneDeadline :
        (i : ℕ) (hs : List Handling) (w : W)
        → All IsLater hs
        → (any is_open hs ≡ false → OneDeadline t (rows w))
        → any is_open (at_place i hs w).0 ≡ false
        → OneDeadline t (rows (at_place i hs w).1)
    unfolding handle_at any
    handle_at-OneDeadline i [] w later one closed = one closed
    handle_at-OneDeadline zero (h ∷ hs) w later one closed =
        call-OneDeadline h w later.0 (λ before. one (ground (arith, closed)))
          (ground (arith, closed))
    handle_at-OneDeadline (suc i) (h ∷ hs) w later one closed =
        handle_at-OneDeadline i hs w later.1 (λ before. one (ground (arith, closed)))
          (ground (arith, closed))

    IsLater-posts :
        (posts : List Post) → All (λ post. post.id ≢ t) posts → All IsLater (map arriving posts)
    IsLater-posts [] later = tt
    IsLater-posts (post ∷ posts) later = (later.0, IsLater-posts posts later.1)

    module _ (Others : W → W → Type 0)
        (others_delete : (w w' : W)
          → Others w w'
          → (j : Text) (r : Entry) → find_row j (rows w') ≡ some r
          → find_row j (rows w) ≡ some r)
        (posts : List Post) (later : All (λ post. post.id ≢ t) posts) (w0 : W) where
      Reach-IsLater :
          (hs : List Handling) (w : W)
          → HookReach store get_ttl now Others posts w0 hs w
          → All IsLater hs
      Reach-IsLater _ _ HookReach.started = IsLater-posts posts later
      Reach-IsLater _ _ (HookReach.called i {hs} {w} reach) =
          handle_at-IsLater i hs w (Reach-IsLater hs w reach)
      Reach-IsLater hs _ (HookReach.other {w} reach o) = Reach-IsLater hs w reach

      -- Over a lawful index and a TTL reader that does not write to it, the hooks of some posts run at
      -- one time, in whatever order their calls come, while others only delete rows. The thread `t` had
      -- one deadline at the start, and none of the posts starts it. Whenever no reply in the thread
      -- stands between its upsert and the update of the thread, and none has failed at either of these
      -- calls, the rows of the thread have one deadline.
      pub threads_settle :
          (hs : List Handling) (w : W)
          → OneDeadline t (rows w0)
          → HookReach store get_ttl now Others posts w0 hs w
          → any is_open hs ≡ false
          → OneDeadline t (rows w)
      threads_settle _ _ one HookReach.started closed = one
      threads_settle _ _ one (HookReach.called i {hs} {w} reach) closed =
          handle_at-OneDeadline i hs w (Reach-IsLater hs w reach)
            (λ before. threads_settle hs w one reach before) closed
      threads_settle hs w' one (HookReach.other {w} reach o) closed =
          let before = threads_settle hs w one reach closed in
          λ i j r s p q a b.
            before i j r s (others_delete w w' o i r p) (others_delete w w' o j s q) a b
