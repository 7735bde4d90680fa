-- ===== src/Storage/Events.antt =====
-- storage.go: what can happen to a storage, in any order, calls of Select apart. Each event runs by
-- itself: calls from outside, and the goroutines that ensureActiveHead and NewStorage start.
use tstorage.Base.{ℕ, zero, suc, Bool, List, [], ◌∷◌}
use tstorage.Rows.{Row, Label}
use tstorage.Wal.{Wal}
use tstorage.Storage.{Storage, insert_rows}
use tstorage.Storage.Upkeep.{System, flush_partitions, remove_expired_partitions, close}

-- Calls with the clock, the time or the system at that moment; a flush that is pending; the ticker.
pub data Event : Type 0 where
  insert_call : (ℕ → ℕ → ℕ) → Bool → List Row → Event
  pending_flush : System → Event
  ticker : System → Event
  close_call : System → Event

module _ {W : Type 0} (log : Wal W) (name_of : List ℕ → List Label → List ℕ) where
  -- One of the pending flushes, if there is one.
  abbrev pub flush_pending : System → Storage W → ℕ → Storage W
  flush_pending sys s zero = s
  flush_pending sys s (suc n) = (flush_partitions log sys (record s { pending_flushes = n })).1

  unfoldable pub run_event : Event → Storage W → Storage W
  run_event (insert_call clock admitted rows) s = (insert_rows log name_of clock admitted s rows).1
  run_event (pending_flush sys) s = flush_pending sys s s.pending_flushes
  run_event (ticker sys) s = (remove_expired_partitions log sys s).1
  run_event (close_call sys) s = (close log sys name_of s).1

  abbrev pub run_events : List Event → Storage W → Storage W
  run_events [] s = s
  run_events (e ∷ es) s = run_events es (run_event e s)
