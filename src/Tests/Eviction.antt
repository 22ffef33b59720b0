-- ===== src/Tests/Eviction.antt =====
-- Runs of the eviction and of a write of src/cache.ts.
use native.Mathlib.Decide.{ℕ_discrete}
use mathlib.Core.List.{lookup}
use yasd.Prelude.{◌≡◌, refl, none, some, [], ◌∷◌, arith}
use yasd.Text.{text_discrete, utf8_byte_length}
use yasd.Result.{ok}
use yasd.OrderedMap
use yasd.OrderedMap.Chain.{update, remove, next_key}
use yasd.Cache.Core.{
  assert_key_fits, assert_value_fits, is_past, now, is_expired, take_out, put_in, map_set,
  map_delete, sync_expiring, bump_version, next_version, prune,
}
use yasd.Cache.Read.{get}
use yasd.Cache.Write.{
  set_owned, set_live, take_old, evict_if_needed, evict_rounds, evict_entry, evict_out, is_over,
  oldest,
}
use yasd.Cache.Accounting.Recent.{IsLast, evict_if_needed-IsLast}
use yasd.Cache.Accounting.Written.{get-set_owned}
use yasd.Tests.Caches.{clock, limits, numbers, entry, first, second, crowded, crowded-IsBalanced}

evict_if_needed-IsLast_example :
    IsLast second (entry 2) (evict_if_needed clock limits numbers crowded).1
evict_if_needed-IsLast_example =
    evict_if_needed-IsLast clock limits numbers second (entry 2) crowded (omega arith) (omega arith)
      crowded-IsBalanced (record { before = (first, entry 1) ∷ []; entries = refl })

written : (set_owned clock limits numbers first 7 none crowded).0 ≡ ok tt
unfolding set_owned assert_value_fits assert_key_fits utf8_byte_length is_past set_live
    OrderedMap.get lookup text_discrete ℕ_discrete take_old take_out map_delete OrderedMap.delete
    remove next_key OrderedMap.record_undo sync_expiring put_in map_set OrderedMap.set update
    bump_version next_version prune evict_if_needed evict_rounds is_over oldest evict_entry now
    is_expired evict_out
written = refl

get-set_owned_example :
    (get clock limits numbers first (set_owned clock limits numbers first 7 none crowded).1).0
    ≡ ok (some 7)
get-set_owned_example =
    get-set_owned clock limits numbers first 7 7 none crowded (omega arith) tt refl
      crowded-IsBalanced written
