-- ===== src/IoManager/Context.antt =====
-- One context of src/IoManager.cpp in the form that a table gives it, by cases on the event and on what
-- waits.
use Prim.Native.Nat.{bit_or}
use routn.Base.{
  ℕ, ◌≡◌, refl, ◌∙◌, Bool, true, false, not, Option, none, some, [], ◌∷◌, get_elem?, arith,
  Option-cases, inl, inr,
}
use routn.IoManager.{
  Event, read, write, FdContext, Caller, Scheduled, fiber_task, callback_task, ok, assert_fails,
  has, guard, without, register, put_context, empty_context, trigger_event,
}
use routn.IoManager.Table.{Entry, Table, context_of, flag, side, put_side, at}

-- A thread of a scheduler that runs its fiber.
abbrev pub caller : ℕ → ℕ → Caller
caller s f = record { scheduler = some s; fiber = f; exec = true }

-- What `addEvent` makes wait.
abbrev pub to_run : Option ℕ → ℕ → ℕ → Scheduled
to_run (some k) s f = (s, callback_task k)
to_run none s f = (s, fiber_task f)

abbrev pub with_side : Event → Option Scheduled → ℕ → Entry → FdContext
with_side e v i x = context_of i (put_side e v x).0 (put_side e v x).1

-- One context, by cases on the event and on what waits.
pub register_free :
    (e : Event) (cb : Option ℕ) (s f i : ℕ) (r w : Option Scheduled)
    → side e (r, w) ≡ none
    → register e cb (caller s f) (context_of i r w)
      ≡ ok (with_side e (some (to_run cb s f)) i (r, w))
register_free read (some k) s f i none none h = refl
register_free read (some k) s f i none (some w) h = refl
register_free read none s f i none none h = refl
register_free read none s f i none (some w) h = refl
register_free read cb s f i (some r) w h = absurd cc
register_free write (some k) s f i none none h = refl
register_free write (some k) s f i (some r) none h = refl
register_free write none s f i none none h = refl
register_free write none s f i (some r) none h = refl
register_free write cb s f i r (some w) h = absurd cc

abbrev pub is_some : Option Scheduled → Bool
is_some none = false
is_some (some x) = true

abbrev pub mask : Entry → ℕ
mask (r, w) = bit_or (flag r 1) (flag w 4)

pub has-side : (e : Event) (r w : Option Scheduled) → has (mask (r, w)) e ≡ is_some (side e (r, w))
has-side read none none = refl
has-side read none (some w) = refl
has-side read (some r) none = refl
has-side read (some r) (some w) = refl
has-side write none none = refl
has-side write none (some w) = refl
has-side write (some r) none = refl
has-side write (some r) (some w) = refl

-- Whether the test of `delEvent` and `cancelEvent` lets the call go on. It stops only a read event on
-- a context where nothing waits.
abbrev pub goes_on : Event → Entry → Bool
goes_on read (none, none) = false
goes_on read (none, some w) = true
goes_on read (some r, w) = true
goes_on write x = true

pub guard_side :
    (e : Event) (r w : Option Scheduled) → guard (mask (r, w)) e ≡ not (goes_on e (r, w))
guard_side read none none = refl
guard_side read none (some w) = refl
guard_side read (some r) none = refl
guard_side read (some r) (some w) = refl
guard_side write none none = refl
guard_side write none (some w) = refl
guard_side write (some r) none = refl
guard_side write (some r) (some w) = refl

pub goes_on-some :
    (e : Event) (r w : Option Scheduled) (x : Scheduled)
    → side e (r, w) ≡ some x
    → goes_on e (r, w) ≡ true
goes_on-some read none w x h = absurd cc
goes_on-some read (some r) w x h = refl
goes_on-some write r w x h = refl

-- A deletion clears the event's bit and its slot, also where they are clear.
pub clear_side :
    (e : Event) (i : ℕ) (r w : Option Scheduled)
    → put_context e empty_context (record (context_of i r w) { events = without (mask (r, w)) e })
      ≡ with_side e none i (r, w)
clear_side read i none none = refl
clear_side read i none (some w) = refl
clear_side read i (some r) none = refl
clear_side read i (some r) (some w) = refl
clear_side write i none none = refl
clear_side write i none (some w) = refl
clear_side write i (some r) none = refl
clear_side write i (some r) (some w) = refl

pub trigger_some :
    (e : Event) (i : ℕ) (r w : Option Scheduled) (x : Scheduled)
    → side e (r, w) ≡ some x
    → trigger_event e (context_of i r w) ≡ ok (with_side e none i (r, w), x ∷ [])
unfolding trigger_event
trigger_some read i none w x h = absurd cc
trigger_some read i (some (s, fiber_task f)) none x h = ground arith
trigger_some read i (some (s, fiber_task f)) (some w) x h = ground arith
trigger_some read i (some (s, callback_task k)) none x h = ground arith
trigger_some read i (some (s, callback_task k)) (some w) x h = ground arith
trigger_some write i r none x h = absurd cc
trigger_some write i none (some (s, fiber_task f)) x h = ground arith
trigger_some write i (some r) (some (s, fiber_task f)) x h = ground arith
trigger_some write i none (some (s, callback_task k)) x h = ground arith
trigger_some write i (some r) (some (s, callback_task k)) x h = ground arith

pub trigger_none :
    (e : Event) (i : ℕ) (r w : Option Scheduled)
    → side e (r, w) ≡ none
    → trigger_event e (context_of i r w) ≡ assert_fails
unfolding trigger_event
trigger_none e i r w h =
    let q : has (mask (r, w)) e ≡ false = has-side e r w ∙ rw h refl in rw q refl

-- The entry of a registered event.
pub entry_of :
    (fd : ℕ) (e : Event) (t : Table) (x : Scheduled)
    → at fd e t ≡ some x
    → (r : Option Scheduled) × (w : Option Scheduled) × (get_elem? t fd ≡ some (r, w))
      × (side e (r, w) ≡ some x)
entry_of fd e t x h = elim (Option-cases (get_elem? t fd)) [
  | inl none_there ↦ absurd (let z : none ≡ some x = rw (none_there, at) at h in cc)
  | inr (p, there) ↦ (p.0, p.1, there, rw (there, at) at h)
]
