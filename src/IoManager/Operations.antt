-- ===== src/IoManager/Operations.antt =====
-- What `addEvent`, `delEvent`, `cancelEvent` and `cancelAll` of src/IoManager.cpp do to the table of
-- what waits.
use routn.Base.{
  ℕ, ◌+◌, ◌-◌, ◌≤◌, ◌<◌, ◌%◌, ◌^◌, ◌≡◌, refl, ap, sym, ◌∙◌, Bool, true, false, ◌&&◌, set_self, not,
  Option, none, some, [], ◌∷◌, ◌++◌, length, get_elem?, set, take, length-take, get_elem?-take,
  replicate, leb, ◌*◌, ◌/◌, if◌then◌else◌, arith, Bool-cases, Option-cases, inl, inr, get_elem?-lt,
}
use routn.IoManager.{
  Event, read, write, Scheduled, ok, assert_fails, ◌>>=◌, decrement, guard, has, add_resized,
  add_known, add_event, del_event, cancel_event,
}
use routn.IoManager.Table.{
  Table, IsTable, flag, build, total, manager, side, put_side, at, put_at, grown, empty_entry,
  get_elem?-build, set-build, context_resize-build, context_resize_cut, length-build, length-put_at,
  at-put_at, at_past, length-grown, at-grown, total-grown, total-le, total-put_at,
}
use routn.IoManager.Context.{
  caller, to_run, with_side, mask, goes_on, register_free, has-side, guard_side, goes_on-some,
  clear_side, trigger_some, trigger_none, entry_of,
}

put_none :
    (e : Event) (r w : Option Scheduled) → side e (r, w) ≡ none → (r, w) ≡ put_side e none (r, w)
put_none read r w q = ap (λ (o : Option Scheduled). (o, w)) q
put_none write r w q = ap (λ (o : Option Scheduled). (r, o)) q

module _ (fd : ℕ) (e : Event) (t : Table) where
  pub set-with_side :
      (v : Option Scheduled) (r w : Option Scheduled)
      → get_elem? t fd ≡ some (r, w)
      → set (build 0 t) fd (with_side e v fd (r, w)) ≡ build 0 (put_at fd e v t)
  set-with_side v r w g =
      rw (g, put_at)
        (set-build 0 fd fd t (put_side e v (r, w)).0 (put_side e v (r, w)).1 (omega arith))

  -- The counter after an event that was registered is gone.
  pub decrement_lem :
      (r w : Option Scheduled) (x : Scheduled)
      → IsTable t
      → get_elem? t fd ≡ some (r, w)
      → side e (r, w) ≡ some x
      → decrement (total t) ≡ total (put_at fd e none t)
  decrement_lem r w x v g h =
      let one : flag (side e (r, w)) 1 ≡ 1 = rw h refl in
      omega (arith, v.1, total-le t, total-put_at fd e t none r w g, one)

-- Behind the search, with any counter.
add_known_free :
    (fd : ℕ) (e : Event) (cb : Option ℕ) (s f pending : ℕ) (t : Table) (r w : Option Scheduled)
    → get_elem? t fd ≡ some (r, w)
    → side e (r, w) ≡ none
    → add_known fd e cb (caller s f) true (record { contexts = build 0 t; pending = pending })
      ≡ ok (
        record {
          contexts = build 0 (put_at fd e (some (to_run cb s f)) t);
          pending = (pending + 1) % 2 ^ 64;
        },
        true,
      )
unfolding add_known
add_known_free fd e cb s f pending t r w g q =
    let c = get_elem?-build 0 fd fd t r w g (omega arith) in
    let b : has (mask (r, w)) e ≡ false = has-side e r w ∙ rw q refl in
    rw
      (
        c,
        add_known,
        b,
        register_free e cb s f fd r w q,
        ◌>>=◌,
        set-with_side fd e t (some (to_run cb s f)) r w g,
      )
      refl

add_known_result :
    (fd : ℕ) (e : Event) (cb : Option ℕ) (s f : ℕ) (accepted : Bool) (t : Table)
    (r w : Option Scheduled)
    → IsTable t
    → get_elem? t fd ≡ some (r, w)
    → add_known fd e cb (caller s f) accepted (manager t) ≡ (elim (side e (r, w)) [
      | some x ↦ assert_fails
      | none ↦
          if accepted
          then ok (manager (put_at fd e (some (to_run cb s f)) t), true)
          else ok (manager t, false)
    ])
unfolding add_known
add_known_result fd e cb s f accepted t r w v g =
    let c = get_elem?-build 0 fd fd t r w g (omega arith) in
    elim (Option-cases (side e (r, w))) [
      | inr (x, q) ↦
          let b : has (mask (r, w)) e ≡ true = has-side e r w ∙ rw q refl in
          rw (c, add_known, b, q) refl
      | inl q ↦
          let b : has (mask (r, w)) e ≡ false = has-side e r w ∙ rw q refl in
          let more : (total t + 1) % 2 ^ 64 ≡ total (put_at fd e (some (to_run cb s f)) t) =
            let z : flag (side e (r, w)) 1 ≡ 0 = rw q refl in
            omega (arith, v.1, total-le t, total-put_at fd e t (some (to_run cb s f)) r w g, z) in
          rw q (elim (Bool-cases accepted) [
            | inl yes_answer ↦ rw yes_answer (
                add_known_free fd e cb s f (total t) t r w g q
                ∙ ap
                    (λ (n : ℕ). ok (
                      record {
                        contexts = build 0 (put_at fd e (some (to_run cb s f)) t);
                        pending = n;
                      },
                      true,
                    ))
                    more)
            | inr no_answer ↦ rw (c, add_known, b, no_answer) refl
          ])
    ]

-- On a table, `addEvent` of a thread in its fiber fails its assertion where the event is registered.
-- Otherwise it grows the table and, where the kernel accepts, makes the callback wait, or the fiber
-- where there is none.
pub add_event_result :
    (fd : ℕ) (e : Event) (cb : Option ℕ) (s f : ℕ) (accepted : Bool) (t : Table)
    → IsTable t
    → fd < 2 ^ 31
    → add_event fd e cb (caller s f) accepted (manager t) ≡ (elim (at fd e t) [
      | some x ↦ assert_fails
      | none ↦
          if accepted
          then ok (manager (put_at fd e (some (to_run cb s f)) (grown fd t)), true)
          else ok (manager (grown fd t), false)
    ])
unfolding add_event add_resized
add_event_result fd e cb s f accepted t v h =
    let (v', lt) = length-grown fd t v h in
    let (x, g) = get_elem?-lt (grown fd t) fd lt in
    let same : at fd e t ≡ side e (x.0, x.1) = sym (at-grown fd fd e t) ∙ rw (g, at) refl in
    let known = add_known_result fd e cb s f accepted (grown fd t) x.0 x.1 v' g in
    elim (Bool-cases (leb (length t) fd)) [
      | inl past ↦
          let wide : t ++ replicate (fd * 3 / 2 - length t) empty_entry ≡ grown fd t =
            rw past refl in
          rw
            (length-build 0 t, past, context_resize-build fd t past, same, wide, ← total-grown fd t)
            known
      | inr roomy ↦
          let same_table : grown fd t ≡ t = rw roomy refl in
          rw (length-build 0 t, roomy, same) (rw same_table at known)
    ]

-- On a table, `delEvent` of a registered event makes nothing wait for it where the kernel accepts, and
-- else changes nothing; the result says which.
pub del_event_result :
    (fd : ℕ) (e : Event) (accepted : Bool) (t : Table) (x : Scheduled)
    → IsTable t
    → at fd e t ≡ some x
    → del_event fd e accepted (manager t)
      ≡ (if accepted then (manager (put_at fd e none t), true) else (manager t, false))
unfolding del_event
del_event_result fd e accepted t x v h =
    let (r, w, g, q) = entry_of fd e t x h in
    let c = get_elem?-build 0 fd fd t r w g (omega arith) in
    let n : guard (mask (r, w)) e ≡ false = guard_side e r w ∙ ap not (goes_on-some e r w x q) in
    rw
      (
        c,
        del_event,
        n,
        clear_side e fd r w,
        set-with_side fd e t none r w g,
        decrement_lem fd e t r w x v g q,
      )
      (elim (Bool-cases accepted) [ inl y ↦ rw y refl | inr z ↦ rw z refl ])

-- On a table, `delEvent` of an event that is not registered, on a context that the table has, is stopped
-- only where it is a read event and nothing waits there. Otherwise, where the kernel accepts, it returns
-- true and takes one off the counter, though as many events are registered as before.
pub del_event_miss :
    (fd : ℕ) (e : Event) (accepted : Bool) (t : Table) (r w : Option Scheduled)
    → get_elem? t fd ≡ some (r, w)
    → side e (r, w) ≡ none
    → del_event fd e accepted (manager t) ≡ (
        if goes_on e (r, w) && accepted
        then (record (manager t) { pending = decrement (total t) }, true)
        else (manager t, false))
unfolding del_event
del_event_miss fd e accepted t r w g q =
    let c = get_elem?-build 0 fd fd t r w g (omega arith) in
    let same : put_at fd e none t ≡ t =
      rw (g, put_at) (set_self t fd _ (g ∙ ap some (put_none e r w q))) in
    rw (c, del_event, guard_side e r w, clear_side e fd r w, set-with_side fd e t none r w g, same)
      (elim (Bool-cases (goes_on e (r, w))) [
        | inl y ↦ rw y (elim (Bool-cases accepted) [ inl a ↦ rw a refl | inr b ↦ rw b refl ])
        | inr z ↦ rw z refl
      ])

-- On a table, `cancelEvent` of a registered event hands what waits for it to its scheduler and makes
-- nothing wait for it where the kernel accepts, and else changes nothing.
pub cancel_event_result :
    (fd : ℕ) (e : Event) (accepted : Bool) (t : Table) (x : Scheduled)
    → IsTable t
    → at fd e t ≡ some x
    → cancel_event fd e accepted (manager t) ≡ (
        if accepted
        then ok (manager (put_at fd e none t), true, x ∷ [])
        else ok (manager t, false, []))
unfolding cancel_event
cancel_event_result fd e accepted t x v h =
    let (r, w, g, q) = entry_of fd e t x h in
    let c = get_elem?-build 0 fd fd t r w g (omega arith) in
    let n : guard (mask (r, w)) e ≡ false = guard_side e r w ∙ ap not (goes_on-some e r w x q) in
    rw
      (
        c,
        cancel_event,
        n,
        trigger_some e fd r w x q,
        ◌>>=◌,
        set-with_side fd e t none r w g,
        decrement_lem fd e t r w x v g q,
      )
      (elim (Bool-cases accepted) [ inl y ↦ rw y refl | inr z ↦ rw z refl ])

-- Where the event is not registered and the test does not stop it, `cancelEvent` fails an assertion
-- once the kernel accepts.
pub cancel_event_miss :
    (fd : ℕ) (e : Event) (accepted : Bool) (t : Table) (r w : Option Scheduled)
    → get_elem? t fd ≡ some (r, w)
    → side e (r, w) ≡ none
    → cancel_event fd e accepted (manager t)
      ≡ (if goes_on e (r, w) && accepted then assert_fails else ok (manager t, false, []))
unfolding cancel_event
cancel_event_miss fd e accepted t r w g q =
    let c = get_elem?-build 0 fd fd t r w g (omega arith) in
    rw (c, cancel_event, guard_side e r w, trigger_none e fd r w q, ◌>>=◌)
      (elim (Bool-cases (goes_on e (r, w))) [
        | inl y ↦ rw y (elim (Bool-cases accepted) [ inl a ↦ rw a refl | inr b ↦ rw b refl ])
        | inr z ↦ rw z refl
      ])

-- Where another call has made the table longer than `fd * 1.5` before `addEvent` takes the lock for
-- writing, the table is cut to this length: nothing is registered past it any more, though the counter
-- still counts what was, and the new event.
pub add_resized_cut :
    (fd : ℕ) (e : Event) (cb : Option ℕ) (s f : ℕ) (t : Table)
    → IsTable t
    → fd < fd * 3 / 2
    → fd * 3 / 2 ≤ length t
    → at fd e t ≡ none
    → (t' : Table) × (add_resized fd e cb (caller s f) true (manager t)
        ≡ ok (record { contexts = build 0 t'; pending = total t + 1 }, true))
      × (at fd e t' ≡ some (to_run cb s f))
      × ((j : ℕ) (k : Event) → fd * 3 / 2 ≤ j → at j k t' ≡ none)
unfolding add_resized
add_resized_cut fd e cb s f t v h1 h2 free =
    let n = fd * 3 / 2 in
    let len : length (take n t) ≡ n = omega (arith, length-take n t) in
    let (x, g) = get_elem?-lt (take n t) fd (omega (arith, len)) in
    let old : get_elem? t fd ≡ some x = sym (get_elem?-take n fd t h1) ∙ g in
    let q : side e (x.0, x.1) ≡ none = rw (old, at) at free in
    let more : (total t + 1) % 2 ^ 64 ≡ total t + 1 = omega (arith, v.1, total-le t) in
    let new = some (to_run cb s f) in
    (
      put_at fd e new (take n t),
      rw (context_resize_cut n t h2)
          (add_known_free fd e cb s f (total t) (take n t) x.0 x.1 g q ∙ rw more refl),
      at-put_at fd e new (take n t) x g,
      λ j k past.
          at_past j k (put_at fd e new (take n t))
            (omega (arith, length-put_at fd e new (take n t), len)),
    )
