-- ===== src/Tests/Writers.antt =====
-- Concurrent calls of kvStore.Set: twenty one writers of one key, of which the first loses each round.
use mattermost_plugin_messag.Base.{
  ℕ, zero, suc, ◌<◌, ◌+◌, ◌≡◌, refl, any, text_eq, true, List, [], ◌∷◌, length,
}
use mattermost_plugin_messag.TtlStore.{Bytes, set}
use mattermost_plugin_messag.TtlStore.Concurrent.{
  How, answered, unacknowledged, reading, act, act_at, Cell, CellStep, CellReach, here, later,
  start, after_act,
}
use mattermost_plugin_messag.TtlStore.Concurrent.Calls.{follow, shared_kv, Follows, set-follow}
use mattermost_plugin_messag.TtlStore.Concurrent.Serial.{
  IsSerial, concurrent_sets, has_given_up, few_never_give_up,
}
use mattermost_plugin_messag.Tests.{town}
use mattermost_plugin_messag.Tests.Rivals.{constant_codec, hour}

abbrev values : ℕ → List Bytes
values zero = []
values (suc n) = (n ∷ []) ∷ values n

-- An answered call of the writer with a number.
abbrev called : ℕ → Cell → Cell
called i u = after_act u (act_at answered i u.callers u.bytes)

call : {u v : Cell} (i : ℕ) → CellReach u v → CellReach u (called i v)
call i r = later r (CellStep.calls answered i)

-- The first writer reads, another one writes, and the first one is refused.
abbrev lost : ℕ → Cell → Cell
lost zero u = u
lost (suc k) u = lost k (called 0 (called (suc k) (called (suc k) (called 0 u))))

lose : (k : ℕ) {u v : Cell} → CellReach u v → CellReach u (lost k v)
lose zero r = r
lose (suc k) r = lose k (call 0 (call (suc k) (call (suc k) (call 0 r))))

abbrev at_first : Cell
at_first = start [] (values 21)

the_first_gives_up : any has_given_up (lost 20 at_first).callers ≡ true
unfolding act act_at any text_eq
the_first_gives_up = refl

concurrent_sets_example : IsSerial [] 21 (lost 20 at_first)
concurrent_sets_example = concurrent_sets [] (values 21) (lost 20 at_first) (lose 20 here)

few_never_give_up_example : 20 < length (values 21) + 0
few_never_give_up_example =
    few_never_give_up [] (values 21) (lost 20 at_first) (lose 20 here) the_first_gives_up

-- Between the first read of a call and its write, another writer changes the key; the second write
-- takes effect, but its answer is lost.
abbrev others : ℕ → Bytes → Bytes
others (suc zero) bytes = 9 ∷ []
others n bytes = bytes

abbrev how : ℕ → How
how (suc (suc (suc zero))) = unacknowledged
how n = answered

set-follow_example :
    Follows town []
      (follow how others 40 (reading 19 (7 ∷ [])) (0, []))
      (set (shared_kv how others []) constant_codec town hour (0, []))
set-follow_example = set-follow how others [] constant_codec town hour (7 ∷ []) (0, []) refl
