-- ===== src/IoManager/Tests.antt =====
-- The properties of the I/O manager on a table where a fiber waits to read from descriptor 3 and a
-- callback to write to it.
use routn.Base.{
  ℕ, ◌+◌, ◌≡◌, ◌≤◌, refl, true, false, none, some, List, [], ◌∷◌, replicate, set, arith,
}
use routn.IoManager.{
  read, write, EpollEvent, Scheduled, fiber_task, callback_task, ok, decrement, Event, add_resized,
  del_event, cancel_all, handle_event,
}
use routn.IoManager.Table.{Table, IsTable, build, at, total, manager, empty_entry}
use routn.IoManager.Context.{caller}
use routn.IoManager.Operations.{add_resized_cut, del_event_miss}
use routn.IoManager.Events.{cancel_all_result, handle_event_result}
use routn.IoManager.Run.{Op, op_add, op_cancel_all, op_event, Log, run, table_run, Balances}
use routn.IoManager.Conservation.{run_result}

abbrev start : Table
start = replicate 32 empty_entry

abbrev reader : Scheduled
reader = (1, fiber_task 10)

abbrev writer : Scheduled
writer = (1, callback_task 20)

abbrev busy : Table
busy = set start 3 (some reader, some writer)

abbrev half : Table
half = set start 3 (some reader, none)

abbrev start-IsTable : IsTable start
start-IsTable = omega arith

abbrev readable : EpollEvent
readable = record { index = 3; epollin = true; epollout = false; epollerr = false }

abbrev stale : EpollEvent
stale = record { index = 3; epollin = true; epollout = true; epollerr = false }

del_event_miss_example :
    del_event 3 write true (manager half)
    ≡ (record (manager half) { pending = decrement (total half) }, true)
del_event_miss_example = del_event_miss 3 write true half (some reader) none refl refl

cancel_all_result_example :
    cancel_all 3 true (manager busy)
    ≡ ok (manager (set busy 3 empty_entry), true, reader ∷ writer ∷ [])
cancel_all_result_example =
    cancel_all_result 3 true busy (some reader) (some writer) (omega arith) refl

handle_event_result_example :
    handle_event readable true (manager busy)
    ≡ ok (manager (set busy 3 (none, some writer)), reader ∷ [])
handle_event_result_example =
    handle_event_result readable true busy (some reader) (some writer) (omega arith) refl tt tt

abbrev calls : List Op
calls =
    op_add 3 read none 1 10 true
    ∷ op_add 3 write (some 20) 1 10 true
    ∷ op_event readable true
    ∷ op_cancel_all 3 true
    ∷ []

run_result_example :
    (l : Log) × (run calls (manager start) ≡ ok (manager (table_run calls start), l))
    × IsTable (table_run calls start)
    × Balances start l (table_run calls start)
run_result_example = run_result calls start start-IsTable (
  (omega arith, refl),
  ((omega arith, refl), ((some reader, some writer, refl, tt, tt), (omega arith, tt))),
)

abbrev far : Table
far = set (replicate 90 empty_entry) 80 (some reader, none)

add_resized_cut_example :
    (t' : Table) × (add_resized 40 read none (caller 1 11) true (manager far)
      ≡ ok (record { contexts = build 0 t'; pending = total far + 1 }, true))
    × (at 40 read t' ≡ some (1, fiber_task 11))
    × ((j : ℕ) (k : Event) → 60 ≤ j → at j k t' ≡ none)
add_resized_cut_example =
    add_resized_cut 40 read none 1 11 far (omega arith) (omega arith) (omega arith) refl
