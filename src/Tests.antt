-- ===== src/Tests.antt =====
-- Concrete parameters for the tests: a store, a key-value API, a codec and an order that keep their
-- contracts, permissions, and a database whose rows are the ids of their posts.
pub mod Settings
pub mod Keys
pub mod Index
pub mod Deletion
pub mod Http
pub mod Slash
pub mod World
pub mod Life
pub mod Race
pub mod Router
pub mod LogPages
pub mod Ctl
pub mod Tool
pub mod Hooks
pub mod Rivals
pub mod Writers
pub mod Crowd
pub mod Members
use native.Mathlib.Omega.{arith}
use mattermost_plugin_messag.Base.{
  ℕ, zero, suc, ◌+◌, ◌≡◌, refl, Bool-cases, inl, inr, Bool, true, false, not, Option, none, some,
  List, [], ◌∷◌, keep, length, Text, text, text_eq, Result, ok, err, if◌then◌else◌,
}
use mattermost_plugin_messag.Int64.{ℤ, pos, negsuc, ◌≤ℤ◌, leb_ℤ}
use mattermost_plugin_messag.Database.{Entry, Table, Db}
use mattermost_plugin_messag.Ttl.{AppError, TtlSetting}
use mattermost_plugin_messag.TtlStore.{TtlSettingStore}
use mattermost_plugin_messag.TtlStore.Contract.{IsLawfulStore}
use mattermost_plugin_messag.TtlService.{
  Permission, manage_system, manage_public_channel_properties, manage_private_channel_properties,
  Channel, PermissionChecker,
}
use mattermost_plugin_messag.ExpireStore.{IsSorted, OrderBy, count}

-- Settings by channel, in a store that never fails.
abbrev pub SettingsByChannel : Type 0
SettingsByChannel = Text → Option TtlSetting

abbrev pub put : Text → Option TtlSetting → SettingsByChannel → SettingsByChannel
put c s w j = if text_eq c j then s else w j

abbrev pub memory_store : TtlSettingStore SettingsByChannel
memory_store = record {
  get = λ c w. (ok (w c), w);
  set = λ c t w. (ok tt, put c (some t) w);
  clear = λ c w. (ok tt, put c none w);
}

abbrev pub setting : SettingsByChannel → Text → Option TtlSetting
setting w c = w c

pub memory_store-IsLawful : IsLawfulStore memory_store setting
memory_store-IsLawful = record {
  get_reads = λ c w e. ground arith;
  get_keeps = λ c j w e. refl;
  set_writes = λ c j t w e. refl;
  clear_removes = λ c j w e. refl;
}

-- `ann` is a system admin; the only channel that is found is `town`, which is open and where `bob`
-- may manage the properties.
abbrev pub ann : Text
ann = b'a' ∷ []

abbrev pub bob : Text
bob = b'b' ∷ []

abbrev pub eve : Text
eve = b'e' ∷ []

abbrev pub town : Text
town = b't' ∷ []

abbrev pub town_channel : Channel
town_channel = record { is_group_or_direct = false; is_open = true }

abbrev pub is_public : Permission → Bool
is_public manage_public_channel_properties = true
is_public _ = false

abbrev pub permissions : {W : Type 0} → PermissionChecker W
permissions = record {
  has_permission_to = λ user p w. text_eq user ann;
  has_permission_to_channel = λ user c p w. if text_eq user bob then is_public p else false;
  get_channel = λ c w. if text_eq c town then ok (some town_channel) else err [];
}

-- Insertion sort by expire_at.
insert : Entry → List Entry → List Entry
insert e [] = e ∷ []
insert e (r ∷ rows) = if leb_ℤ e.expire_at r.expire_at then e ∷ r ∷ rows else r ∷ insert e rows

pub sort : List Entry → List Entry
unfolding insert
sort [] = []
sort (e ∷ rows) = insert e (sort rows)

flip : (a b : ℤ) → leb_ℤ a b ≡ false → b ≤ℤ a
flip a b h = ground arith

insert-IsSorted : (e : Entry) (rows : List Entry) → IsSorted rows → IsSorted (insert e rows)
unfolding insert
insert-IsSorted e [] h = tt
insert-IsSorted e (r ∷ []) h = elim (Bool-cases (leb_ℤ e.expire_at r.expire_at)) [
  | inl le ↦ rw le (le, tt)
  | inr gt ↦ rw gt (flip e.expire_at r.expire_at gt, tt)
]
insert-IsSorted e (r ∷ s ∷ rows) h = elim (Bool-cases (leb_ℤ e.expire_at r.expire_at)) [
  | inl le ↦ rw le (le, h)
  | inr gt ↦ elim (Bool-cases (leb_ℤ e.expire_at s.expire_at)) [
    | inl le ↦ rw (gt, le) (flip e.expire_at r.expire_at gt, (le, h.1))
    | inr gt' ↦ rw (gt, gt') (h.0, rw gt' at (insert-IsSorted e (s ∷ rows) h.1))
  ]
]

pub sort-IsSorted : (rows : List Entry) → IsSorted (sort rows)
unfolding sort
sort-IsSorted [] = tt
sort-IsSorted (e ∷ rows) = insert-IsSorted e (sort rows) (sort-IsSorted rows)

count-insert :
    (p : Entry → Bool) (e : Entry) (rows : List Entry)
    → count p (insert e rows) ≡ count p (e ∷ rows)
unfolding insert keep
count-insert p e [] = refl
count-insert p e (r ∷ rows) = ground (arith, count-insert p e rows)

pub count-sort : (p : Entry → Bool) (rows : List Entry) → count p (sort rows) ≡ count p rows
unfolding sort keep
count-sort p [] = refl
count-sort p (e ∷ rows) = ground (arith, count-insert p e (sort rows), count-sort p rows)

unfoldable pub by_time : OrderBy
unfolding sort
by_time = record { sort = sort; sort_sorts = sort-IsSorted; sort_keeps = count-sort }

-- a row of a server table, known by the id of its post
abbrev pub column : Text → Text → Text
column c r = r

abbrev pub entry_at : Text → Text → ℕ → Entry
entry_at id root t = record {
  post_id = id;
  channel_id = town;
  root_id = root;
  expire_at = pos t;
  created_at = pos 0;
}
