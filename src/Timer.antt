-- ===== src/Timer.antt =====
-- src/Timer.h and src/Timer.cpp: timers, and the set in which a manager keeps them by the time they
-- are due. A timer object is known by its address, and the set holds addresses; the manager's
-- `objects` are the timers in memory. The clock's reading is an argument, and so is the address that
-- an allocation returns. Each operation runs under the manager's lock.
pub mod OrderedSet
pub mod Invariant
pub mod Due
pub mod Firing
pub mod Rollover
pub mod Expiry
mod Tests
use routn.Base.{
  ℕ, ◌+◌, ◌-◌, ◌*◌, ◌%◌, ◌^◌, Bool, true, false, not, ◌&&◌, ◌||◌, Option, none, some, List, [], ◌∷◌,
  ◌++◌, ltb, leb, ◌==◌, if◌then◌else◌,
}

-- A callback by its number, or `std::bind(&OnTimer, weak_cond, cb)`.
pub data Callback : Type 0 where
  call : ℕ → Callback
  on_timer : ℕ → ℕ → Callback

pub record Timer : Type 0 where
  pub recurring : Bool
  pub ms : ℕ
  pub next : ℕ
  pub callback : Option Callback

-- `inserted_at_front` counts the calls of `onTimerInsertedAtFront`.
pub record TimerManager : Type 0 where
  pub objects : ℕ → Timer
  pub timers : List ℕ
  pub tickled : Bool
  pub previous_time : ℕ
  pub inserted_at_front : ℕ

-- Running `OnTimer`: the callback runs where the condition is still alive.
abbrev pub run : (ℕ → Bool) → Callback → Option ℕ
run alive (call cb) = some cb
run alive (on_timer cond cb) = if alive cond then some cb else none

abbrev pub has_callback : Timer → Bool
has_callback t = elim t.callback [ none ↦ false | some _ ↦ true ]

abbrev pub assign : ℕ → Timer → (ℕ → Timer) → ℕ → Timer
assign a t objects b = if b == a then t else objects b

-- uint64_t
abbrev pub add64 : ℕ → ℕ → ℕ
add64 a b = (a + b) % 2 ^ 64

abbrev pub sub64 : ℕ → ℕ → ℕ
sub64 a b = (a + (2 ^ 64 - b)) % 2 ^ 64

-- `Timer(ms, cb, recurring, manager)` and `Timer(next)`.
abbrev pub timer : ℕ → Option Callback → Bool → ℕ → Timer
timer ms cb recurring now = record {
  recurring = recurring;
  ms = ms;
  next = add64 now ms;
  callback = cb;
}

abbrev pub timer_at : ℕ → Timer
timer_at next = record { recurring = false; ms = 0; next = next; callback = none }

abbrev pub before : (ℕ → Timer) → ℕ → ℕ → Bool
before objects a b =
    if ltb (objects a).next (objects b).next
    then true
    else if ltb (objects b).next (objects a).next
    then false
    else ltb a b

-- `Timer::Comparator`, the null pointer included.
abbrev pub comparator : (ℕ → Timer) → Option ℕ → Option ℕ → Bool
comparator objects none none = false
comparator objects none (some b) = true
comparator objects (some a) none = false
comparator objects (some a) (some b) = before objects a b

-- The std::set under the comparator: `insert`, `find` (whether it is not `end()`) and `erase`.
unfoldable pub insert : (ℕ → Timer) → ℕ → List ℕ → List ℕ
insert objects a [] = a ∷ []
insert objects a (x ∷ xs) =
    if comparator objects (some a) (some x)
    then a ∷ x ∷ xs
    else if comparator objects (some x) (some a)
    then x ∷ insert objects a xs
    else x ∷ xs

abbrev pub equivalent : (ℕ → Timer) → ℕ → ℕ → Bool
equivalent objects a b =
    not (comparator objects (some a) (some b)) && not (comparator objects (some b) (some a))

unfoldable pub find : (ℕ → Timer) → ℕ → List ℕ → Bool
find objects a [] = false
find objects a (x ∷ xs) = if equivalent objects x a then true else find objects a xs

unfoldable pub erase : (ℕ → Timer) → ℕ → List ℕ → List ℕ
erase objects a [] = []
erase objects a (x ∷ xs) = if equivalent objects x a then xs else x ∷ erase objects a xs

-- `[begin(), lower_bound(a))` and the rest; and the loop behind it, over the timers due at `now`.
unfoldable pub lower_bound : (ℕ → Timer) → ℕ → List ℕ → List ℕ × List ℕ
lower_bound objects a [] = ([], [])
lower_bound objects a (x ∷ xs) =
    let (below, rest) = lower_bound objects a xs in
    if comparator objects (some x) (some a) then (x ∷ below, rest) else ([], x ∷ xs)

unfoldable pub while_due : (ℕ → Timer) → ℕ → List ℕ → List ℕ × List ℕ
while_due objects now [] = ([], [])
while_due objects now (x ∷ xs) =
    let (due, rest) = while_due objects now xs in
    if (objects x).next == now then (x ∷ due, rest) else ([], x ∷ xs)

unfoldable pub timer_manager : ℕ → TimerManager
timer_manager now = record {
  objects = λ _. timer_at 0;
  timers = [];
  tickled = false;
  previous_time = now;
  inserted_at_front = 0;
}

abbrev pub at_begin : ℕ → List ℕ → Bool
at_begin a [] = false
at_begin a (x ∷ xs) = x == a

-- `addTimer(val, lock)`
unfoldable pub insert_timer : ℕ → TimerManager → TimerManager
insert_timer a m =
    let timers' = insert m.objects a m.timers in
    let at_front = at_begin a timers' && not m.tickled in
    record m {
      timers = timers';
      tickled = m.tickled || at_front;
      inserted_at_front = if at_front then m.inserted_at_front + 1 else m.inserted_at_front;
    }

-- `addTimer(ms, cb, recurring)`, whose timer is allocated at `a`.
unfoldable pub add_timer : ℕ → ℕ → Option Callback → Bool → ℕ → TimerManager → TimerManager
add_timer a ms cb recurring now m =
    insert_timer a (record m { objects = assign a (timer ms cb recurring now) m.objects })

abbrev pub add_condition_timer : ℕ → ℕ → ℕ → ℕ → Bool → ℕ → TimerManager → TimerManager
add_condition_timer a ms cb cond recurring now m =
    add_timer a ms (some (on_timer cond cb)) recurring now m

unfoldable pub refresh : ℕ → ℕ → TimerManager → TimerManager × Bool
refresh a now m =
    let t = m.objects a in
    if not (has_callback t)
    then (m, false)
    else if not (find m.objects a m.timers)
    then (m, false)
    else (let objects' = assign a (record t { next = add64 now t.ms }) m.objects in
        (
          record m { objects = objects'; timers = insert objects' a (erase m.objects a m.timers) },
          true,
        ))

-- `none` is the call `erase(end())`, which has no meaning.
unfoldable pub cancel : ℕ → TimerManager → Option (TimerManager × Bool)
cancel a m =
    let t = m.objects a in
    let objects' = assign a (record t { callback = none }) m.objects in
    if not (has_callback t)
    then some (m, false)
    else if not (find objects' a m.timers)
    then none
    else some (record m { objects = objects'; timers = erase objects' a m.timers }, true)

unfoldable pub reset : ℕ → ℕ → Bool → ℕ → TimerManager → TimerManager × Bool
reset a ms from_now now m =
    let t = m.objects a in
    let start = if from_now then now else sub64 t.next t.ms in
    if ms == t.ms && not from_now
    then (m, true)
    else if not (has_callback t)
    then (m, false)
    else if not (find m.objects a m.timers)
    then (m, false)
    else (
      insert_timer a (record m {
        objects = assign a (record t { ms = ms; next = add64 start ms }) m.objects;
        timers = erase m.objects a m.timers;
      }),
      true,
    )

unfoldable pub get_next_timer : ℕ → TimerManager → TimerManager × ℕ
get_next_timer now m = (
  record m { tickled = false },
  elim m.timers [
    | [] ↦ 2 ^ 64 - 1
    | x ∷ _ ↦ if leb (m.objects x).next now then 0 else (m.objects x).next - now
  ],
)

unfoldable pub detect_clock_rollover : ℕ → TimerManager → TimerManager × Bool
detect_clock_rollover now m = (
  record m { previous_time = now },
  ltb now m.previous_time && ltb now (sub64 m.previous_time (60 * 60 * 1000)),
)

-- One timer of the loop of `listExpiredCb`, and the loop.
unfoldable pub rearm : ℕ → ℕ → TimerManager → TimerManager
rearm now a m =
    let t = m.objects a in
    let objects' = assign a (record t { next = add64 now t.ms }) m.objects in
    if t.recurring
    then record m { objects = objects'; timers = insert objects' a m.timers }
    else record m { objects = assign a (record t { callback = none }) m.objects }

unfoldable pub fire : ℕ → List ℕ → TimerManager → TimerManager × List (Option Callback)
fire now [] m = (m, [])
fire now (a ∷ expired) m =
    let (n, cbs) = fire now expired (rearm now a m) in (n, (m.objects a).callback ∷ cbs)

-- The timers up to `it`, and those from there on. `tmp` is the address of `now_timer`.
unfoldable pub split_expired : Bool → ℕ → ℕ → TimerManager → List ℕ × List ℕ
split_expired rollover tmp now m =
    let (below, from) = lower_bound (assign tmp (timer_at now) m.objects) tmp m.timers in
    let (due, rest) = while_due m.objects now from in
    let split : List ℕ × List ℕ = (below ++ due, rest) in if rollover then (m.timers, []) else split

unfoldable pub list_expired_cb : ℕ → ℕ → TimerManager → TimerManager × List (Option Callback)
list_expired_cb tmp now m = elim m.timers [
  | [] ↦ (m, [])
  | first ∷ _ ↦
      let (m', rollover) = detect_clock_rollover now m in
      let (expired, rest) = split_expired rollover tmp now m' in
      let fired = fire now expired (record m' { timers = rest }) in
      if not rollover && ltb now (m.objects first).next then (m', []) else fired
]

abbrev pub has_timer : TimerManager → Bool
has_timer m = elim m.timers [ [] ↦ false | _ ∷ _ ↦ true ]
