-- ===== src/IoManager/Events.antt =====
-- What `cancelAll` and the loop over the kernel's events in `idle` of src/IoManager.cpp hand out.
use Prim.Native.Nat.{bit_and}
use mathlib.Core.Bool.{and-true, and-false, or-true}
use routn.Base.{
  ℕ, ◌+◌, ◌≡◌, refl, Bool, true, false, ◌||◌, ◌&&◌, not, Option, none, some, List, [], ◌∷◌, ◌++◌,
  get_elem?, set, ◌==◌, if◌then◌else◌, arith, Bool-cases, inl, inr,
}
use routn.IoManager.{
  read, write, Scheduled, ok, assert_fails, ◌>>=◌, decrement, cancel_all, EpollEvent, real_events,
  handle_event,
}
use routn.IoManager.Table.{
  Table, IsTable, flag, total, manager, empty_entry, get_elem?-build, set-build, total-le,
  total-set,
}
use routn.IoManager.Context.{is_some, mask, has-side, trigger_some, trigger_none}

abbrev pub all_of : Option Scheduled → List Scheduled
all_of none = []
all_of (some x) = x ∷ []

module _ (n : ℕ) (t : Table) (r w r' w' : Option Scheduled) (v : IsTable t)
    (g : get_elem? t n ≡ some (r, w)) where
  decrement_once :
      flag r 1 + flag w 1 ≡ flag r' 1 + flag w' 1 + 1
      → decrement (total t) ≡ total (set t n (r', w'))
  decrement_once h = omega (arith, v.1, total-le t, total-set t n (r, w) (r', w') g)

  decrement_twice :
      flag r 1 + flag w 1 ≡ flag r' 1 + flag w' 1 + 2
      → decrement (decrement (total t)) ≡ total (set t n (r', w'))
  decrement_twice h = omega (arith, v.1, total-le t, total-set t n (r, w) (r', w') g)

-- On a table, `cancelAll` of a descriptor that the table has hands out what waits for its events, the
-- read event first, and makes nothing wait for them, if anything waits and the kernel accepts; else it
-- changes nothing.
pub cancel_all_result :
    (fd : ℕ) (accepted : Bool) (t : Table) (r w : Option Scheduled)
    → IsTable t
    → get_elem? t fd ≡ some (r, w)
    → cancel_all fd accepted (manager t) ≡ (
        if (is_some r || is_some w) && accepted
        then ok (manager (set t fd empty_entry), true, all_of r ++ all_of w)
        else ok (manager t, false, []))
unfolding cancel_all
cancel_all_result fd accepted t none none v g =
    let c = get_elem?-build 0 fd fd t none none g (omega arith) in rw (c, cancel_all) refl
cancel_all_result fd accepted t (some x) none v g =
    let c = get_elem?-build 0 fd fd t (some x) none g (omega arith) in
    rw
      (
        c,
        cancel_all,
        trigger_some read fd (some x) none x refl,
        ◌>>=◌,
        decrement_once fd t (some x) none none none v g refl,
        set-build 0 fd fd t none none (omega arith),
      )
      (elim (Bool-cases accepted) [ inl y ↦ rw y refl | inr z ↦ rw z refl ])
cancel_all_result fd accepted t none (some y) v g =
    let c = get_elem?-build 0 fd fd t none (some y) g (omega arith) in
    rw
      (
        c,
        cancel_all,
        trigger_some write fd none (some y) y refl,
        ◌>>=◌,
        decrement_once fd t none (some y) none none v g refl,
        set-build 0 fd fd t none none (omega arith),
      )
      (elim (Bool-cases accepted) [ inl y ↦ rw y refl | inr z ↦ rw z refl ])
cancel_all_result fd accepted t (some x) (some y) v g =
    let c = get_elem?-build 0 fd fd t (some x) (some y) g (omega arith) in
    rw
      (
        c,
        cancel_all,
        trigger_some read fd (some x) (some y) x refl,
        ◌>>=◌,
        trigger_some write fd none (some y) y refl,
        ◌>>=◌,
        decrement_twice fd t (some x) (some y) none none v g refl,
        set-build 0 fd fd t none none (omega arith),
      )
      (elim (Bool-cases accepted) [ inl y ↦ rw y refl | inr z ↦ rw z refl ])

-- What a report hands out of what waits, and what it leaves.
abbrev pub fired : Bool → Option Scheduled → Option Scheduled
fired b o = if b then o else none

abbrev pub kept : Bool → Option Scheduled → Option Scheduled
kept b o = if b then none else o

-- The kernel reports EPOLLIN or EPOLLOUT only where the event is registered.
abbrev pub Reports : Bool → Option Scheduled → Type 0
Reports true none = ⊥
Reports true (some x) = Unit
Reports false o = Unit

real_side :
    (b err : Bool) (o : Option Scheduled) (n : ℕ)
    → Reports b o
    → (if b || (err && is_some o) then n else 0) ≡ flag (fired (b || err) o) n
real_side true err none n h = absurd h
real_side true err (some x) n h = refl
real_side false true none n h = refl
real_side false true (some x) n h = refl
real_side false false none n h = refl
real_side false false (some x) n h = refl

real_events_lem :
    (ev : EpollEvent) (r w : Option Scheduled)
    → Reports ev.epollin r
    → Reports ev.epollout w
    → real_events ev (mask (r, w))
      ≡ mask (fired (ev.epollin || ev.epollerr) r, fired (ev.epollout || ev.epollerr) w)
real_events_lem ev r w hr hw =
    rw
      (
        has-side read r w,
        has-side write r w,
        real_side ev.epollin ev.epollerr r 1 hr,
        real_side ev.epollout ev.epollerr w 4 hw,
      )
      refl

-- Either nothing is handed out, or what waits.
data Part : Option Scheduled → Option Scheduled → Option Scheduled → Type 0 where
  nothing : Part none none none
  quiet : (x : Scheduled) → Part (some x) none (some x)
  fires : (x : Scheduled) → Part (some x) (some x) none

fired-Part : (b : Bool) (o : Option Scheduled) → Part o (fired b o) (kept b o)
fired-Part true none = nothing
fired-Part false none = nothing
fired-Part true (some x) = fires x
fired-Part false (some x) = quiet x

module _ (ev : EpollEvent) (t : Table) (v : IsTable t) where
  handle_parts :
      {r w fr fw kr kw : Option Scheduled}
      → Part r fr kr
      → Part w fw kw
      → get_elem? t ev.index ≡ some (r, w)
      → real_events ev (mask (r, w)) ≡ mask (fr, fw)
      → handle_event ev true (manager t) ≡ (
          if is_some fr || is_some fw
          then ok (manager (set t ev.index (kr, kw)), all_of fr ++ all_of fw)
          else ok (manager t, []))
  unfolding handle_event
  handle_parts nothing nothing g e =
      rw (get_elem?-build 0 ev.index ev.index t none none g (omega arith), handle_event, e) refl
  handle_parts nothing (quiet y) g e =
      rw (get_elem?-build 0 ev.index ev.index t none (some y) g (omega arith), handle_event, e) refl
  handle_parts nothing (fires y) g e =
      rw
        (
          get_elem?-build 0 ev.index ev.index t none (some y) g (omega arith),
          handle_event,
          e,
          trigger_some write ev.index none (some y) y refl,
          ◌>>=◌,
          decrement_once ev.index t none (some y) none none v g refl,
          set-build 0 ev.index ev.index t none none (omega arith),
        )
        refl
  handle_parts (quiet x) nothing g e =
      rw (get_elem?-build 0 ev.index ev.index t (some x) none g (omega arith), handle_event, e) refl
  handle_parts (quiet x) (quiet y) g e =
      rw (get_elem?-build 0 ev.index ev.index t (some x) (some y) g (omega arith), handle_event, e)
        refl
  handle_parts (quiet x) (fires y) g e =
      rw
        (
          get_elem?-build 0 ev.index ev.index t (some x) (some y) g (omega arith),
          handle_event,
          e,
          trigger_some write ev.index (some x) (some y) y refl,
          ◌>>=◌,
          decrement_once ev.index t (some x) (some y) (some x) none v g refl,
          set-build 0 ev.index ev.index t (some x) none (omega arith),
        )
        refl
  handle_parts (fires x) nothing g e =
      rw
        (
          get_elem?-build 0 ev.index ev.index t (some x) none g (omega arith),
          handle_event,
          e,
          trigger_some read ev.index (some x) none x refl,
          ◌>>=◌,
          decrement_once ev.index t (some x) none none none v g refl,
          set-build 0 ev.index ev.index t none none (omega arith),
        )
        refl
  handle_parts (fires x) (quiet y) g e =
      rw
        (
          get_elem?-build 0 ev.index ev.index t (some x) (some y) g (omega arith),
          handle_event,
          e,
          trigger_some read ev.index (some x) (some y) x refl,
          ◌>>=◌,
          decrement_once ev.index t (some x) (some y) none (some y) v g refl,
          set-build 0 ev.index ev.index t none (some y) (omega arith),
        )
        refl
  handle_parts (fires x) (fires y) g e =
      let c = get_elem?-build 0 ev.index ev.index t (some x) (some y) g (omega arith) in
      rw
        (
          c,
          handle_event,
          e,
          trigger_some read ev.index (some x) (some y) x refl,
          ◌>>=◌,
          trigger_some write ev.index none (some y) y refl,
          ◌>>=◌,
          decrement_twice ev.index t (some x) (some y) none none v g refl,
          set-build 0 ev.index ev.index t none none (omega arith),
        )
        refl

-- On a table, where the kernel reports only what is registered, one round of the loop in `idle` hands
-- out what waits for the reported events, all that waits on an error, the read event first, and keeps
-- the rest waiting; it changes nothing where the kernel refuses or nothing waits.
pub handle_event_result :
    (ev : EpollEvent) (accepted : Bool) (t : Table) (r w : Option Scheduled)
    → IsTable t
    → get_elem? t ev.index ≡ some (r, w)
    → Reports ev.epollin r
    → Reports ev.epollout w
    → (let a = ev.epollin || ev.epollerr in
        let b = ev.epollout || ev.epollerr in
        handle_event ev accepted (manager t) ≡ (
          if (is_some (fired a r) || is_some (fired b w)) && accepted
          then ok (
            manager (set t ev.index (kept a r, kept b w)),
            all_of (fired a r) ++ all_of (fired b w),
          )
          else ok (manager t, [])))
unfolding handle_event
handle_event_result ev true t r w v g hr hw =
    let a = ev.epollin || ev.epollerr in
    let b = ev.epollout || ev.epollerr in
    rw (and-true (is_some (fired a r) || is_some (fired b w)))
      (handle_parts ev t v (fired-Part a r) (fired-Part b w) g (real_events_lem ev r w hr hw))
handle_event_result ev false t r w v g hr hw =
    rw
      (
        get_elem?-build 0 ev.index ev.index t r w g (omega arith),
        handle_event,
        or-true (bit_and (mask (r, w)) (real_events ev (mask (r, w))) == 0),
        and-false (
            is_some (fired (ev.epollin || ev.epollerr) r)
            || is_some (fired (ev.epollout || ev.epollerr) w)),
      )
      refl

-- Where a read and a write event are reported and only one of them is registered, as when the other is
-- deleted after the report, the round fails an assertion.
pub handle_event_stale :
    (ev : EpollEvent) (t : Table) (r w : Option Scheduled)
    → get_elem? t ev.index ≡ some (r, w)
    → ev.epollin ≡ true
    → ev.epollout ≡ true
    → (is_some r ≡ not (is_some w))
    → handle_event ev true (manager t) ≡ assert_fails
unfolding handle_event
handle_event_stale ev t none none g hi ho h = absurd cc
handle_event_stale ev t (some x) none g hi ho h =
    rw
      (
        get_elem?-build 0 ev.index ev.index t (some x) none g (omega arith),
        handle_event,
        hi,
        ho,
        trigger_some read ev.index (some x) none x refl,
        ◌>>=◌,
        trigger_none write ev.index none none refl,
        ◌>>=◌,
      )
      refl
handle_event_stale ev t none (some y) g hi ho h =
    rw
      (
        get_elem?-build 0 ev.index ev.index t none (some y) g (omega arith),
        handle_event,
        hi,
        ho,
        trigger_none read ev.index none (some y) refl,
        ◌>>=◌,
      )
      refl
handle_event_stale ev t (some x) (some y) g hi ho h = absurd cc
