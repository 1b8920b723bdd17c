-- ===== src/Tests/World.antt =====
-- The theorems about the whole system at a concrete server: a TTL is set, a post is made, and a tick
-- purges an old post.
use native.Mathlib.Omega.{arith}
use mattermost_plugin_messag.Base.{
  ℕ, ◌+◌, ◌<◌, refl, inl, inr, true, false, some, [], ◌∷◌, keep, All-intro, Text, text, text_eq,
  Bool-cases, Result, ok, err, if◌then◌else◌,
}
use mattermost_plugin_messag.Int64.{pos}
use mattermost_plugin_messag.Database.{Db, table}
use mattermost_plugin_messag.Configuration.{Configuration}
use mattermost_plugin_messag.TtlStore.{Bytes, kv_key}
use mattermost_plugin_messag.TtlStore.Shared.{Keeps}
use mattermost_plugin_messag.Handler.{SetTtlRequest}
use mattermost_plugin_messag.ExpiryService.{Post}
use mattermost_plugin_messag.Plugin.{Plugin, message_has_been_posted}
use mattermost_plugin_messag.System.Parts.{Parts, api_handler, expire_store, ttl_reader}
use mattermost_plugin_messag.System.Step.{IsTimely, Step, Reach}
use mattermost_plugin_messag.System.Invariant.{IsSound, Relies, AllInBounds, GoodBytes}
use mattermost_plugin_messag.System.Posts.{SparesPosts}
use mattermost_plugin_messag.Tests.{bob, town, permissions, by_time, column, entry_at}
use mattermost_plugin_messag.Tests.Router.{router}
use mattermost_plugin_messag.Handler.Routes.{HttpRequest, serve_http}
use mattermost_plugin_messag.Tests.Keys.{Memory, write, memory, codec, codec-IsLawful}

abbrev pub World : Type 0
World = Memory × Db Text

-- A body that holds the number of seconds, for `town`.
abbrev decode : Text → Result Text SetTtlRequest
decode [] = err []
decode (n ∷ rest) = ok (record { channel_id = town; ttl_seconds = pos n })

abbrev pub config : Configuration
config = record { enable_purge = true; purge_schema_allowlist_raw = text "10." }

-- A server of version 10.5 without a license, whose clock stands at 105 seconds.
abbrev pub parts : Parts Memory Text
parts = record {
  kv = memory;
  json = codec;
  order = by_time;
  column = column;
  permissions = permissions;
  publish = λ e w. w;
  decode = decode;
  mux = router;
  parse_duration = λ s. err [];
  duration_string = λ d. [];
  now = λ w. pos 105000;
  switch = record {
    delete_post = λ id w. (ok tt, w);
    get_server_version = λ w. text "10.5.0";
    has_license = λ w. false;
    log_error = λ m w. w;
  };
  sweep_log = λ m w. w;
  api = record {
    has_driver = true;
    load_configuration = λ w. (ok config, w);
    register_command = λ c w. (ok tt, w);
    get_master_db = λ w. (ok tt, w);
    schedule = λ w. (ok tt, w);
    close_job = λ w. (ok tt, w);
    log_info = λ w. w;
    log_error = λ m w. w;
  };
}

abbrev pub old_post : Text
old_post = b'o' ∷ []

abbrev pub new_post : Text
new_post = b'n' ∷ []

-- The new post is made at 100 seconds, every other at 0.
abbrev pub born : Text → ℕ
born id = if text_eq id new_post then 100000 else 0

abbrev pub Nothing : World → World → Type 0
Nothing w w' = ⊥

abbrev pub held : Memory → Text → Bytes
held m k = m k

abbrev InBoundsAt : Memory → Type 0
InBoundsAt = AllInBounds parts held born

write-AllInBounds :
    (k : Text) (b : Bytes) (m : Memory)
    → GoodBytes parts held born b
    → InBoundsAt m
    → InBoundsAt (write k b m)
write-AllInBounds k b m good h c t e = elim (Bool-cases (text_eq k (kv_key c))) [
  | inl same ↦ good t (rw same at e)
  | inr other ↦ h c t (rw other at e)
]

memory-Keeps : Keeps memory (GoodBytes parts held born) InBoundsAt
memory-Keeps = record {
  on_get = λ k m h. h;
  on_set = λ k new old m good h. elim (Bool-cases (text_eq (m k) old)) [
    | inl same ↦ rw same (write-AllInBounds k new m good h)
    | inr other ↦ rw other h
  ];
  on_delete = λ k m h. write-AllInBounds k [] m (λ t e. cc) h;
}

pub parts-Relies : Relies parts held born Nothing
parts-Relies = record {
  on_kv = memory-Keeps;
  reads = λ k m b e. ground arith;
  codec = codec-IsLawful;
  on_publish = λ e w. record { settings = λ c. refl; rows = refl };
  on_soft_delete = λ id w. record { settings = λ c. refl; rows = refl };
  on_switch_log = λ m w. record { settings = λ c. refl; rows = refl };
  on_sweep_log = λ m w. record { settings = λ c. refl; rows = refl };
  on_api_log = λ m w. record { settings = λ c. refl; rows = refl };
  on_elsewhere = λ w w' never s. absurd never;
}

-- The index holds the old post, which has expired, and the server both posts.
abbrev pub start : World
start = (
  λ k. [],
  record {
    expire = some (entry_at old_post old_post 60000 ∷ []);
    rows = λ t. old_post ∷ new_post ∷ [];
    outcomes = [];
  },
)

pub start-IsSound : IsSound parts held born start
unfolding keep text_eq
start-IsSound = record {
  in_bounds = λ c t e. cc;
  keyed = λ j. ground arith;
  aged = ((60000, refl, omega arith), tt);
}

abbrev pub set_minutes : HttpRequest
set_minutes = record { method = text "POST"; path = text "/ttl"; user_id = bob; body = 300 ∷ [] }

abbrev with_ttl : World
with_ttl = (serve_http router (api_handler parts) set_minutes start).1

abbrev pub message : Post
message = record { id = new_post; channel_id = town; root_id = []; create_at = pos 100000 }

abbrev active : Plugin
active = record { cfg = record { conf = config }; expiry_service = true; sweeper_job = true }

abbrev with_post : World
with_post =
    message_has_been_posted parts.api (expire_store parts) (ttl_reader parts) parts.now active
      (some message) with_ttl

message-IsTimely : IsTimely born message (table with_ttl.1)
unfolding text_eq
message-IsTimely = record {
  created = refl;
  early = omega arith;
  in_order = All-intro _ (table with_ttl.1) (λ r _ reply. absurd (reply refl));
}

reached : Reach parts born Nothing start with_post
reached =
    Reach.later (Reach.later Reach.here (Step.request set_minutes start))
      (Step.posted active message with_ttl message-IsTimely)

pub parts-SparesPosts : SparesPosts parts new_post
parts-SparesPosts = record {
  on_soft_delete = λ id w other. refl;
  on_switch_log = λ m w. refl;
  on_sweep_log = λ m w. refl;
}

pub new_is_young : 105000 < born new_post + 60000
unfolding text_eq
new_is_young = omega arith
