-- ===== src/IoManager.antt =====
-- src/IoManager.h and src/IoManager.cpp: the table of what waits for events on file descriptors. A
-- scheduler, a fiber and a callback are known by numbers, a file descriptor is a number below 2^31, and
-- what `epoll_ctl` answers is an argument: true where it returns 0. Each operation holds the lock of
-- the context that it is about, and is one step; `addEvent` may lose the lock of the table between its
-- search and its write, and what it then does is `add_resized`.
pub mod Table
pub mod Context
pub mod Operations
pub mod Events
pub mod Run
pub mod Conservation
mod Tests
use Prim.Native.Nat.{bit_and, bit_or}
use routn.Base.{
  ℕ, zero, suc, ◌+◌, ◌-◌, ◌*◌, ◌/◌, ◌%◌, ◌^◌, Bool, true, false, not, ◌&&◌, ◌||◌, Option, none,
  some, List, [], ◌∷◌, ◌++◌, length, get_elem?, set, take, leb, ◌==◌, if◌then◌else◌,
}

-- `assert_fails` is a failed ROUTN_ASSERT, `fault` an access out of range or through a null pointer.
-- `untracked` is a step on a context that is not in the table any more: `add_resized` may cut it off, the
-- kernel then still has its address, and the model does not follow it.
pub data Outcome {ℓ} (A : Type ℓ) : Type ℓ where
  ok : A → Outcome A
  assert_fails : Outcome A
  fault : Outcome A
  untracked : Outcome A

infixl 5 ◌>>=◌
abbrev pub ◌>>=◌ {ℓ κ} : {A : Type ℓ} {B : Type κ} → Outcome A → (A → Outcome B) → Outcome B
ok a >>= f = f a
assert_fails >>= f = assert_fails
fault >>= f = fault
untracked >>= f = untracked

pub data Event : Type 0 where
  read write : Event

-- READ = 0x1, WRITE = 0x4, which are EPOLLIN and EPOLLOUT.
abbrev pub bits : Event → ℕ
bits read = 1
bits write = 4

pub data Task : Type 0 where
  fiber_task : ℕ → Task
  callback_task : ℕ → Task

-- A scheduler, and what it is given to run.
abbrev pub Scheduled : Type 0
Scheduled = ℕ × Task

pub record EventContext : Type 0 where
  pub scheduler : Option ℕ
  pub fiber : Option ℕ
  pub callback : Option ℕ

pub record FdContext : Type 0 where
  pub fd : ℕ
  pub read_context : EventContext
  pub write_context : EventContext
  pub events : ℕ

pub record IoManager : Type 0 where
  pub contexts : List FdContext
  pub pending : ℕ

abbrev pub empty_context : EventContext
empty_context = record { scheduler = none; fiber = none; callback = none }

abbrev pub new_context : ℕ → FdContext
new_context i = record {
  fd = i;
  read_context = empty_context;
  write_context = empty_context;
  events = 0;
}

abbrev pub has : ℕ → Event → Bool
has events e = not (bit_and events (bits e) == 0)

-- `events & ~event`
abbrev pub without : ℕ → Event → ℕ
without events e = events - bit_and events (bits e)

abbrev pub get_context : Event → FdContext → EventContext
get_context read c = c.read_context
get_context write c = c.write_context

abbrev pub put_context : Event → EventContext → FdContext → FdContext
put_context read x c = record c { read_context = x }
put_context write x c = record c { write_context = x }

abbrev pub reset_context : EventContext → EventContext
reset_context x = empty_context

-- `schedule` swaps the callback or the fiber out of the context, and takes no empty task.
abbrev pub trigger_context : EventContext → Outcome (EventContext × List Scheduled)
trigger_context x = elim x.scheduler [
  | none ↦ fault
  | some s ↦ elim x.callback [
    | some k ↦ ok (record x { scheduler = none; callback = none }, (s, callback_task k) ∷ [])
    | none ↦ elim x.fiber [
      | some f ↦ ok (record x { scheduler = none; fiber = none }, (s, fiber_task f) ∷ [])
      | none ↦ ok (record x { scheduler = none }, [])
    ]
  ]
]

unfoldable pub trigger_event : Event → FdContext → Outcome (FdContext × List Scheduled)
trigger_event e c =
    let c' = record c { events = without c.events e } in
    let fired = (do (x, out) ← trigger_context (get_context e c'); ok (put_context e x c', out)) in
    if has c.events e then fired else assert_fails

abbrev pub new_contexts : ℕ → ℕ → List FdContext
new_contexts i zero = []
new_contexts i (suc n) = new_context i ∷ new_contexts (suc i) n

unfoldable pub context_resize : ℕ → List FdContext → List FdContext
context_resize size cs =
    if leb size (length cs) then take size cs else cs ++ new_contexts (length cs) (size - length cs)

unfoldable pub io_manager : IoManager
unfolding context_resize
io_manager = record { contexts = context_resize 32 []; pending = 0 }

-- The thread that calls: its scheduler, its fiber, and whether the fiber's status is EXEC.
pub record Caller : Type 0 where
  pub scheduler : Option ℕ
  pub fiber : ℕ
  pub exec : Bool

abbrev pub is_empty : EventContext → Bool
is_empty x = elim x.scheduler [
  | some s ↦ false
  | none ↦ elim x.fiber [ some f ↦ false | none ↦ elim x.callback [ some k ↦ false | none ↦ true ] ]
]

-- What is to run when the event comes: the callback, or the fiber that calls.
abbrev pub waiting_context : Option ℕ → Caller → Outcome EventContext
waiting_context (some k) me =
    ok (record { scheduler = me.scheduler; fiber = none; callback = some k })
waiting_context none me =
    if me.exec
    then ok (record { scheduler = me.scheduler; fiber = some me.fiber; callback = none })
    else assert_fails

-- What `addEvent` does to the context once the kernel has accepted.
abbrev pub register : Event → Option ℕ → Caller → FdContext → Outcome FdContext
register e cb me c =
    let c' = record c { events = bit_or c.events (bits e) } in
    if is_empty (get_context e c')
    then waiting_context cb me >>= (λ x. ok (put_context e x c'))
    else assert_fails

-- `addEvent` behind the search for the context. The result is 0, or -1 (`false`) where `epoll_ctl`
-- fails.
unfoldable pub add_known :
    ℕ → Event → Option ℕ → Caller → Bool → IoManager → Outcome (IoManager × Bool)
add_known fd e cb me accepted m = elim (get_elem? m.contexts fd) [
  | none ↦ fault
  | some c ↦
      let registered = (do
        c' ← register e cb me c
        ok (
          record { contexts = set m.contexts fd c'; pending = (m.pending + 1) % 2 ^ 64 },
          true,
        )) in
      let answered = if accepted then registered else ok (m, false) in
      if has c.events e then assert_fails else answered
]

-- `addEvent` from the lock for writing on, which it takes where it has found the vector too short.
unfoldable pub add_resized :
    ℕ → Event → Option ℕ → Caller → Bool → IoManager → Outcome (IoManager × Bool)
add_resized fd e cb me accepted m =
    add_known fd e cb me accepted (record m { contexts = context_resize (fd * 3 / 2) m.contexts })

unfoldable pub add_event :
    ℕ → Event → Option ℕ → Caller → Bool → IoManager → Outcome (IoManager × Bool)
add_event fd e cb me accepted m =
    if leb (length m.contexts) fd
    then add_resized fd e cb me accepted m
    else add_known fd e cb me accepted m

-- `(!fd_ctx->events) & event`
abbrev pub guard : ℕ → Event → Bool
guard events e = has (if events == 0 then 1 else 0) e

abbrev pub decrement : ℕ → ℕ
decrement n = (n + 2 ^ 64 - 1) % 2 ^ 64

unfoldable pub del_event : ℕ → Event → Bool → IoManager → IoManager × Bool
del_event fd e accepted m = elim (get_elem? m.contexts fd) [
  | none ↦ (m, false)
  | some c ↦
      let c' =
        put_context e (reset_context (get_context e c))
          (record c { events = without c.events e }) in
      if guard c.events e || not accepted
      then (m, false)
      else (record { contexts = set m.contexts fd c'; pending = decrement m.pending }, true)
]

-- The result of the calls that hand tasks to schedulers: the manager, the result and the tasks.
abbrev pub Handed : Type 0
Handed = IoManager × Bool × List Scheduled

unfoldable pub cancel_event : ℕ → Event → Bool → IoManager → Outcome Handed
cancel_event fd e accepted m = elim (get_elem? m.contexts fd) [
  | none ↦ ok (m, false, [])
  | some c ↦
      let cancelled = (do
        (c', out) ← trigger_event e c
        ok (
          record { contexts = set m.contexts fd c'; pending = decrement m.pending },
          true,
          out,
        )) in
      if guard c.events e || not accepted then ok (m, false, []) else cancelled
]

-- `if(events & e){ triggerEvent(e); --_pendingEventCount; }`
abbrev pub trigger_if : Bool → Event → FdContext → ℕ → Outcome (FdContext × ℕ × List Scheduled)
trigger_if test e c pending =
    let fired = (do (c', out) ← trigger_event e c; ok (c', decrement pending, out)) in
    if test then fired else ok (c, pending, [])

unfoldable pub cancel_all : ℕ → Bool → IoManager → Outcome Handed
cancel_all fd accepted m = elim (get_elem? m.contexts fd) [
  | none ↦ ok (m, false, [])
  | some c ↦
      let cancelled = (do
        (c1, p1, out1) ← trigger_if (has c.events read) read c m.pending
        (c2, p2, out2) ← trigger_if (has c1.events write) write c1 p1
        if c2.events == 0
            then ok (record { contexts = set m.contexts fd c2; pending = p2 }, true, out1 ++ out2)
            else assert_fails) in
      if c.events == 0 || not accepted then ok (m, false, []) else cancelled
]

-- One entry that `epoll_wait` fills in: the place in the table of the context it points to, and whether EPOLLIN, EPOLLOUT, and
-- EPOLLERR or EPOLLHUP are set.
pub record EpollEvent : Type 0 where
  pub index : ℕ
  pub epollin : Bool
  pub epollout : Bool
  pub epollerr : Bool

abbrev pub real_events : EpollEvent → ℕ → ℕ
real_events ev events =
    let input = ev.epollin || (ev.epollerr && has events read) in
    let output = ev.epollout || (ev.epollerr && has events write) in
    bit_or (if input then 1 else 0) (if output then 4 else 0)

-- One round of the loop over the events in `idle`.
unfoldable pub handle_event : EpollEvent → Bool → IoManager → Outcome (IoManager × List Scheduled)
handle_event ev accepted m = elim (get_elem? m.contexts ev.index) [
  | none ↦ untracked
  | some c ↦
      let real = real_events ev c.events in
      let fired = (do
        (c1, p1, out1) ← trigger_if (has real read) read c m.pending
        (c2, p2, out2) ← trigger_if (has real write) write c1 p1
        ok (record { contexts = set m.contexts ev.index c2; pending = p2 }, out1 ++ out2)) in
      if bit_and c.events real == 0 || not accepted then ok (m, []) else fired
]

-- The rounds over all events, each with what `epoll_ctl` answers in it.
unfoldable pub handle_events :
    List (EpollEvent × Bool) → IoManager → Outcome (IoManager × List Scheduled)
handle_events [] m = ok (m, [])
handle_events ((ev, accepted) ∷ evs) m = do
  (m', out) ← handle_event ev accepted m
  (m'', out') ← handle_events evs m'
  ok (m'', out ++ out')

-- The timeout that `epoll_wait` gets: MAX_TIMEOUT is 3000, and ~0ull stands for no timer. The
-- conversion to `int` keeps 32 bits, from 2^31 on it is negative.
abbrev pub wait_timeout : ℕ → ℕ
wait_timeout next =
    let low = next % 2 ^ 32 in
    if next == 2 ^ 64 - 1
    then 3000
    else if leb 3001 low && leb (low + 1) (2 ^ 31)
    then 3000
    else low

-- `stopping(timeout)`: what `getNextTimer` and `Schedular::stopping` answer are arguments.
abbrev pub stopping : ℕ → Bool → IoManager → Bool
stopping next scheduler_stopping m = next == 2 ^ 64 - 1 && (m.pending == 0 && scheduler_stopping)
