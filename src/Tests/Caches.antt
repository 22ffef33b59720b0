-- ===== src/Tests/Caches.antt =====
-- Runs of src/cache.ts, over values that are numbers of eight bytes.
use native.Mathlib.Decide.{ℕ_discrete}
use mathlib.Core.List.{lookup}
use yasd.Prelude.{ℕ, ◌+◌, ◌≤◌, ◌≡◌, refl, true, none, some, List, [], ◌∷◌, ◌==◌, arith}
use yasd.Text.{Text, text_discrete, utf8_byte_length}
use yasd.Result.{ok, err, not_finite, key_too_long}
use yasd.OrderedMap
use yasd.OrderedMap.{OrderedMap}
use yasd.OrderedMap.Chain.{IsDistinct, update, remove, insert_before, next_key}
use yasd.Cache.State.{Entry, Options, Json, Cache, Action, raise, ◌>>◌, new}
use yasd.Cache.Core.{
  now, map_delete, take_out, sync_expiring, bump_version, next_version, prune, is_expired,
  assert_key_fits, assert_value_fits,
}
use yasd.Cache.Read.{SnapshotEntry}
use yasd.Cache.Write
use yasd.Cache.Write.{is_over, oldest, evict_out, evict_entry, evict_rounds, evict_if_needed}
use yasd.Cache.Atomic.{
  begin_all, or_no_transaction, rollback_all, restore_state, pop_frame, attempt, recover, atomic,
}
use yasd.Cache.Snapshot
use yasd.Cache.Transaction
use yasd.Cache.Transaction.{QueuedOp}
use yasd.Cache.Calls
use yasd.Cache.Calls.{Call}
use yasd.Cache.Steps.Relation.{Follows, Follows-bind, Follows-raise}
use yasd.Cache.Steps.Methods.{Follows-del}
use yasd.Cache.Steps.Atomic.{IsDistinctCache, restored, atomic_thrown-restored}
use yasd.Cache.Steps.Transactions.{commit_queue-restored}
use yasd.Cache.Steps.Replace.{replace-restored}
use yasd.Cache.Accounting.Balance.{IsBalanced}
use yasd.Cache.Accounting.History.{perform_all-IsBalanced, new-IsBalanced}
use yasd.Cache.Accounting.Eviction.{evict_if_needed-size}

abbrev pub first : Text
first = b'a' ∷ []

abbrev pub second : Text
second = b'b' ∷ []

-- Every reading of the clock is one millisecond later.
abbrev pub clock : ℕ → ℕ
clock n = n

abbrev pub limits : Options
limits = record {
  max_entries = 1;
  max_bytes = 100;
  max_key_bytes = 10;
  max_value_bytes = 10;
  default_ttl = none;
  namespace_ttls = [];
}

abbrev pub numbers : Json ℕ
numbers = record {
  byte_length = λ v. 8;
  clone = λ v n. ok v;
  equal = λ v w. v == w;
  is_number = λ v. true;
  zero_value = 0;
  add = λ v w. v + w;
  negate = λ v. 0;
}

abbrev pub entry : ℕ → Entry ℕ
entry v = record { value = v; expires_at = none; size = 9 }

-- Two entries, one more than `limits` allows.
abbrev pub crowded : Cache ℕ
crowded = record new {
  map = record { entries = (first, entry 1) ∷ (second, entry 2) ∷ []; undo = []; frames = [] };
  bytes = 18;
}

keys-IsDistinct : IsDistinct text_discrete ((first, entry 1) ∷ (second, entry 2) ∷ [])
unfolding lookup text_discrete
keys-IsDistinct = (refl, (refl, tt))

crowded-IsDistinctCache : IsDistinctCache crowded
crowded-IsDistinctCache = record { map = keys-IsDistinct; key_versions = tt; expiring = tt }

pub crowded-IsBalanced : IsBalanced limits crowded
crowded-IsBalanced = record {
  distinct = keys-IsDistinct;
  counted_bytes = refl;
  fit = (omega arith, (omega arith, tt));
}

evict_if_needed-size_example :
    (d : Cache ℕ) × (evict_if_needed clock limits numbers crowded ≡ (ok tt, d))
    × (OrderedMap.size d.map ≤ 1)
    × (d.bytes ≤ 100)
evict_if_needed-size_example =
    evict_if_needed-size clock limits numbers crowded crowded-IsBalanced (omega arith)

abbrev calls : List (Call ℕ)
calls =
    Calls.set first 1 (some 1)
    ∷ Calls.set second 2 none
    ∷ Calls.get first
    ∷ Calls.replace (record { key = first; value = 1; expires_at = none } ∷ [])
    ∷ []

perform_all-IsBalanced_example :
    IsBalanced limits (Calls.perform_all clock limits numbers calls new)
perform_all-IsBalanced_example =
    perform_all-IsBalanced clock limits numbers calls new (new-IsBalanced limits)

-- A section that deletes a key and throws.
abbrev failing : Action ℕ (Unit {0})
failing = Write.del clock limits numbers first >> raise not_finite

failing-Follows : Follows limits true failing
failing-Follows =
    Follows-bind limits (Write.del clock limits numbers first) _
      (Follows-del clock limits numbers first) (λ _. Follows-raise limits not_finite)

abbrev after_failing : Cache ℕ
after_failing = (atomic failing crowded).1

failing_throws : atomic failing crowded ≡ (err not_finite, after_failing)
unfolding atomic attempt recover begin_all Write.del assert_key_fits utf8_byte_length
    Write.del_found OrderedMap.get lookup OrderedMap.begin text_discrete ℕ_discrete now is_expired
    bump_version take_out map_delete OrderedMap.delete next_version OrderedMap.set restore_state
    rollback_all or_no_transaction pop_frame prune sync_expiring insert_before next_key remove
    update OrderedMap.has OrderedMap.record_undo OrderedMap.rollback OrderedMap.undo_all
    OrderedMap.undo_one
failing_throws = refl

atomic_thrown-restored_example : after_failing ≡ restored crowded after_failing
atomic_thrown-restored_example =
    atomic_thrown-restored limits failing crowded after_failing not_finite failing-Follows
      crowded-IsDistinctCache failing_throws

-- Eleven code units, one more than a key may have.
abbrev long : Text
long = 1 ∷ 2 ∷ 3 ∷ 4 ∷ 5 ∷ 6 ∷ 7 ∷ 8 ∷ 9 ∷ 10 ∷ 11 ∷ []

abbrev queue : List (QueuedOp ℕ)
queue = Transaction.del first ∷ Transaction.del long ∷ []

abbrev after_queue : Cache ℕ
after_queue = (Transaction.commit_queue clock limits numbers queue crowded).1

queue_throws :
    Transaction.commit_queue clock limits numbers queue crowded ≡ (err key_too_long, after_queue)
unfolding atomic attempt recover begin_all Write.del assert_key_fits utf8_byte_length
    Write.del_found OrderedMap.get lookup OrderedMap.begin text_discrete ℕ_discrete now is_expired
    bump_version take_out map_delete OrderedMap.delete next_version OrderedMap.set restore_state
    rollback_all or_no_transaction pop_frame prune sync_expiring insert_before next_key remove
    update OrderedMap.has OrderedMap.record_undo OrderedMap.rollback OrderedMap.undo_all
    OrderedMap.undo_one Transaction.commit_queue Transaction.apply_all Transaction.apply
queue_throws = refl

commit_queue-restored_example : after_queue ≡ restored crowded after_queue
commit_queue-restored_example =
    commit_queue-restored clock limits numbers queue crowded after_queue key_too_long
      crowded-IsDistinctCache queue_throws

abbrev snapshot : List (SnapshotEntry ℕ)
snapshot = record { key = long; value = 1; expires_at = none } ∷ []

abbrev after_snapshot : Cache ℕ
after_snapshot = (Snapshot.replace clock limits numbers snapshot crowded).1

snapshot_throws :
    Snapshot.replace clock limits numbers snapshot crowded ≡ (err key_too_long, after_snapshot)
unfolding atomic attempt recover begin_all Write.del assert_key_fits utf8_byte_length
    Write.del_found OrderedMap.get lookup OrderedMap.begin text_discrete ℕ_discrete now is_expired
    bump_version take_out map_delete OrderedMap.delete next_version OrderedMap.set restore_state
    rollback_all or_no_transaction pop_frame prune sync_expiring insert_before next_key remove
    update OrderedMap.has OrderedMap.record_undo OrderedMap.rollback OrderedMap.undo_all
    OrderedMap.undo_one Snapshot.replace Snapshot.restore Snapshot.restore_check Snapshot.seen_has
    Snapshot.is_unsafe Snapshot.is_over_at Write.clear Write.bump_all Write.wipe Write.map_clear
    assert_value_fits
snapshot_throws = refl

replace-restored_example : after_snapshot ≡ restored crowded after_snapshot
replace-restored_example =
    replace-restored clock limits numbers snapshot crowded after_snapshot key_too_long
      crowded-IsDistinctCache snapshot_throws
