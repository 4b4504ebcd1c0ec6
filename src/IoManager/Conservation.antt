-- ===== src/IoManager/Conservation.antt =====
-- Over the calls of src/IoManager.cpp nothing that waits is lost, and nothing is handed out twice.
use mathlib.Core.Bool.{and-false}
use routn.Base.{
  ℕ, zero, suc, ◌+◌, ◌-◌, ◌*◌, ◌/◌, ◌≡◌, refl, ap, sym, ◌∙◌, Bool, true, false, ◌||◌, Option, none,
  some, List, [], ◌∷◌, ◌++◌, length, get_elem?, set, set_self, length-set, replicate, leb, arith,
  Bool-cases, inl, inr, get_elem?-lt,
}
use routn.IoManager.{
  Event, read, write, Scheduled, fiber_task, callback_task, ok, ◌>>=◌, cancel_all, EpollEvent,
  handle_event, io_manager,
}
use routn.IoManager.Table.{
  Entry, Table, IsTable, manager, side, at, put_at, grown, slot, empty_entry, get_elem?-build,
  length-put_at, length-grown, at-grown,
}
use routn.IoManager.Context.{to_run, is_some, entry_of}
use routn.IoManager.Operations.{add_event_result, del_event_result, cancel_event_result}
use routn.IoManager.Events.{all_of, fired, kept, cancel_all_result, handle_event_result}
use routn.IoManager.Run.{
  Op, op_add, op_del, op_cancel, op_cancel_all, op_event, Log, no_log, both, waiting_in, waiting_at,
  step, run, Fits, table_step, FitsAll, table_run, count, waits, Balances,
}

count-append :
    (p : Scheduled → Bool) (xs ys : List Scheduled) → count p (xs ++ ys) ≡ count p xs + count p ys
count-append p [] ys = omega arith
count-append p (x ∷ xs) ys = omega (arith, count-append p xs ys)

waits-set :
    (p : Scheduled → Bool) (t : Table) (n : ℕ) (x y : Entry)
    → get_elem? t n ≡ some x
    → waits p (set t n y) + count p (all_of x.0) + count p (all_of x.1)
      ≡ waits p t + count p (all_of y.0) + count p (all_of y.1)
waits-set p [] n x y h = absurd cc
waits-set p ((r, w) ∷ t) zero (r', w') y h =
    let er : r ≡ r' = cc in let ew : w ≡ w' = cc in rw (er, ew) (omega arith)
waits-set p ((r, w) ∷ t) (suc n) x y h = omega (arith, waits-set p t n x y h)

waits-put_at :
    (p : Scheduled → Bool) (fd : ℕ) (e : Event) (t : Table) (v r w : Option Scheduled)
    → get_elem? t fd ≡ some (r, w)
    → waits p (put_at fd e v t) + count p (all_of (side e (r, w))) ≡ waits p t + count p (all_of v)
waits-put_at p fd read t v r w g = rw (g, put_at) (omega (arith, waits-set p t fd (r, w) (v, w) g))
waits-put_at p fd write t v r w g = rw (g, put_at) (omega (arith, waits-set p t fd (r, w) (r, v) g))

waits-append :
    (p : Scheduled → Bool) (t : Table) (n : ℕ) → waits p (t ++ replicate n empty_entry) ≡ waits p t
waits-append p [] zero = refl
waits-append p [] (suc n) = omega (arith, waits-append p [] n)
waits-append p ((r, w) ∷ t) n = omega (arith, waits-append p t n)

waits-grown : (p : Scheduled → Bool) (fd : ℕ) (t : Table) → waits p (grown fd t) ≡ waits p t
waits-grown p fd t = elim (Bool-cases (leb (length t) fd)) [
  | inr roomy ↦ rw roomy refl
  | inl past ↦ rw past (waits-append p t (fd * 3 / 2 - length t))
]

put_at-IsTable :
    (fd : ℕ) (e : Event) (v : Option Scheduled) (t : Table) → IsTable t → IsTable (put_at fd e v t)
put_at-IsTable fd e v t h = rw (length-put_at fd e v t) h

waiting_in-slot : (o : Option Scheduled) → waiting_in (slot o) ≡ all_of o
waiting_in-slot none = refl
waiting_in-slot (some (s, fiber_task f)) = refl
waiting_in-slot (some (s, callback_task k)) = refl

waiting_at-manager :
    (fd : ℕ) (e : Event) (t : Table) (r w : Option Scheduled)
    → get_elem? t fd ≡ some (r, w)
    → waiting_at fd e (manager t) ≡ all_of (side e (r, w))
waiting_at-manager fd read t r w g =
    rw (get_elem?-build 0 fd fd t r w g (omega arith), waiting_at) (waiting_in-slot r)
waiting_at-manager fd write t r w g =
    rw (get_elem?-build 0 fd fd t r w g (omega arith), waiting_at) (waiting_in-slot w)

count-fired :
    (p : Scheduled → Bool) (b : Bool) (o : Option Scheduled)
    → count p (all_of (fired b o)) + count p (all_of (kept b o)) ≡ count p (all_of o)
count-fired p true o = omega arith
count-fired p false o = omega arith

waits-taken :
    (p : Scheduled → Bool) (fd : ℕ) (e : Event) (t : Table) (x : Scheduled)
    → at fd e t ≡ some x
    → count p (x ∷ []) + waits p (put_at fd e none t) ≡ waits p t
waits-taken p fd e t x h =
    let (r, w, g, q) = entry_of fd e t x h in
    let one : count p (all_of (side e (r, w))) ≡ count p (x ∷ []) = rw q refl in
    omega (arith, waits-put_at p fd e t none r w g, one)

-- What the call of a step comes to.
abbrev Comes : Op → Table → Type 0
Comes op t =
    (l : Log) × (step op (manager t) ≡ ok (manager (table_step op t), l))
    × IsTable (table_step op t)
    × Balances t l (table_step op t)

step_add :
    (fd : ℕ) (e : Event) (cb : Option ℕ) (s f : ℕ) (accepted : Bool) (t : Table)
    → IsTable t
    → Fits (op_add fd e cb s f accepted) t
    → Comes (op_add fd e cb s f accepted) t
unfolding step
step_add fd e cb s f true t v (lt, free) =
    let (v', past) = length-grown fd t v lt in
    let (x, g) = get_elem?-lt (grown fd t) fd past in
    let q : side e (x.0, x.1) ≡ none = rw (g, at) at (at-grown fd fd e t ∙ free) in
    (
      record no_log { added = to_run cb s f ∷ [] },
      rw (add_event_result fd e cb s f true t v lt, free) refl,
      put_at-IsTable fd e (some (to_run cb s f)) (grown fd t) v',
      λ p.
          let zero_before : count p (all_of (side e (x.0, x.1))) ≡ 0 = rw q refl in
          omega (
            arith,
            waits-put_at p fd e (grown fd t) (some (to_run cb s f)) x.0 x.1 g,
            waits-grown p fd t,
            zero_before,
          ),
    )
step_add fd e cb s f false t v (lt, free) = (
  no_log,
  rw (add_event_result fd e cb s f false t v lt, free) refl,
  (length-grown fd t v lt).0,
  λ p. omega (arith, waits-grown p fd t),
)

step_del :
    (fd : ℕ) (e : Event) (accepted : Bool) (t : Table)
    → IsTable t
    → Fits (op_del fd e accepted) t
    → Comes (op_del fd e accepted) t
unfolding step
step_del fd e true t v (x, h) =
    let (r, w, g, q) = entry_of fd e t x h in
    let d = waiting_at-manager fd e t r w g ∙ ap all_of q in
    (
      record no_log { dropped = x ∷ [] },
      rw (del_event_result fd e true t x v h, d) refl,
      put_at-IsTable fd e none t v,
      λ p. omega (arith, waits-taken p fd e t x h),
    )
step_del fd e false t v (x, h) =
    (no_log, rw (del_event_result fd e false t x v h) refl, v, λ p. refl)

step_cancel :
    (fd : ℕ) (e : Event) (accepted : Bool) (t : Table)
    → IsTable t
    → Fits (op_cancel fd e accepted) t
    → Comes (op_cancel fd e accepted) t
unfolding step
step_cancel fd e true t v (x, h) = (
  record no_log { handed = x ∷ [] },
  rw (cancel_event_result fd e true t x v h) refl,
  put_at-IsTable fd e none t v,
  λ p. omega (arith, waits-taken p fd e t x h),
)
step_cancel fd e false t v (x, h) =
    (no_log, rw (cancel_event_result fd e false t x v h) refl, v, λ p. refl)

or_false_parts : (a b : Bool) → (a || b) ≡ false → (a ≡ false) × (b ≡ false)
or_false_parts false b h = (refl, h)
or_false_parts true b h = absurd cc

unfired :
    (b : Bool) (o : Option Scheduled)
    → is_some (fired b o) ≡ false
    → (all_of (fired b o) ≡ []) × (kept b o ≡ o)
unfired false o h = (refl, refl)
unfired true none h = (refl, refl)
unfired true (some x) h = absurd cc

-- Where nothing is handed out the entry is written back as it is.
quiet_same :
    (a b : Bool) (n : ℕ) (t : Table) (r w : Option Scheduled)
    → get_elem? t n ≡ some (r, w)
    → (is_some (fired a r) || is_some (fired b w)) ≡ false
    → (set t n (kept a r, kept b w) ≡ t) × (all_of (fired a r) ++ all_of (fired b w) ≡ [])
quiet_same a b n t r w g h =
    let (ha, hb) = or_false_parts (is_some (fired a r)) (is_some (fired b w)) h in
    let (la, ka) = unfired a r ha in
    let (lb, kb) = unfired b w hb in (rw (ka, kb) (set_self t n (r, w) g), rw (la, lb) refl)

set-Comes :
    (a b : Bool) (n : ℕ) (t : Table) (r w : Option Scheduled)
    → IsTable t
    → get_elem? t n ≡ some (r, w)
    → IsTable (set t n (kept a r, kept b w))
      × Balances t
          (record no_log { handed = all_of (fired a r) ++ all_of (fired b w) })
          (set t n (kept a r, kept b w))
set-Comes a b n t r w v g = (
  rw (length-set t n (kept a r, kept b w)) v,
  λ p. omega (
    arith,
    waits-set p t n (r, w) (kept a r, kept b w) g,
    count-append p (all_of (fired a r)) (all_of (fired b w)),
    count-fired p a r,
    count-fired p b w,
  ),
)

cancel_all-true :
    (fd : ℕ) (t : Table) (r w : Option Scheduled)
    → IsTable t
    → get_elem? t fd ≡ some (r, w)
    → (done : Bool) × (cancel_all fd true (manager t)
        ≡ ok (manager (set t fd empty_entry), done, all_of r ++ all_of w))
cancel_all-true fd t none none v g = (
  false,
  cancel_all_result fd true t none none v g
      ∙ ap (λ (u : Table). ok (manager u, false, [])) (sym (set_self t fd empty_entry g)),
)
cancel_all-true fd t none (some y) v g = (true, cancel_all_result fd true t none (some y) v g)
cancel_all-true fd t (some x) none v g = (true, cancel_all_result fd true t (some x) none v g)
cancel_all-true fd t (some x) (some y) v g =
    (true, cancel_all_result fd true t (some x) (some y) v g)

step_cancel_all :
    (fd : ℕ) (accepted : Bool) (t : Table)
    → IsTable t
    → Fits (op_cancel_all fd accepted) t
    → Comes (op_cancel_all fd accepted) t
unfolding step
step_cancel_all fd true t v h =
    let (x, g) = get_elem?-lt t fd h in
    let (done, e) = cancel_all-true fd t x.0 x.1 v g in
    (
      record no_log { handed = all_of x.0 ++ all_of x.1 },
      rw e refl,
      (set-Comes true true fd t x.0 x.1 v g).0,
      (set-Comes true true fd t x.0 x.1 v g).1,
    )
step_cancel_all fd false t v h =
    let (x, g) = get_elem?-lt t fd h in
    let e = cancel_all_result fd false t x.0 x.1 v g in
    (no_log, rw (e, and-false (is_some x.0 || is_some x.1)) refl, v, λ p. refl)

step_event :
    (ev : EpollEvent) (accepted : Bool) (t : Table)
    → IsTable t
    → Fits (op_event ev accepted) t
    → Comes (op_event ev accepted) t
unfolding step
step_event ev true t v (r, w, g, hr, hw) =
    let a = ev.epollin || ev.epollerr in
    let b = ev.epollout || ev.epollerr in
    let e = handle_event_result ev true t r w v g hr hw in
    let table : table_step (op_event ev true) t ≡ set t ev.index (kept a r, kept b w) =
      rw (g, table_step) refl in
    let result : handle_event ev true (manager t)
        ≡ ok (
          manager (set t ev.index (kept a r, kept b w)),
          all_of (fired a r) ++ all_of (fired b w),
        ) =
      elim (Bool-cases (is_some (fired a r) || is_some (fired b w))) [
        | inl y ↦ e ∙ rw y refl
        | inr n ↦ let (same, nil) = quiet_same a b ev.index t r w g n in e ∙ rw (n, same, nil) refl
      ] in
    (
      record no_log { handed = all_of (fired a r) ++ all_of (fired b w) },
      rw (table, result) refl,
      rw table (set-Comes a b ev.index t r w v g).0,
      rw table (set-Comes a b ev.index t r w v g).1,
    )
step_event ev false t v (r, w, g, hr, hw) =
    let a = ev.epollin || ev.epollerr in
    let b = ev.epollout || ev.epollerr in
    let e = handle_event_result ev false t r w v g hr hw in
    let table : table_step (op_event ev false) t ≡ t = rw (g, table_step) refl in
    (
      no_log,
      rw (table, e, and-false (is_some (fired a r) || is_some (fired b w))) refl,
      rw table v,
      λ p. rw table refl,
    )

step_result : (op : Op) (t : Table) → IsTable t → Fits op t → Comes op t
step_result (op_add fd e cb s f accepted) t v h = step_add fd e cb s f accepted t v h
step_result (op_del fd e accepted) t v h = step_del fd e accepted t v h
step_result (op_cancel fd e accepted) t v h = step_cancel fd e accepted t v h
step_result (op_cancel_all fd accepted) t v h = step_cancel_all fd accepted t v h
step_result (op_event ev accepted) t v h = step_event ev accepted t v h

-- A new manager is the table of 32 descriptors on which nothing waits.
pub io_manager_lem : io_manager ≡ manager (replicate 32 empty_entry)
unfolding io_manager
io_manager_lem = refl

-- On a table, for calls that fit the table of their time, the calls succeed and do to the table what
-- `table_run` does; of any kind of task, as many were handed out, dropped or still wait as waited before
-- or were added.
pub run_result :
    (ops : List Op) (t : Table)
    → IsTable t
    → FitsAll ops t
    → (l : Log) × (run ops (manager t) ≡ ok (manager (table_run ops t), l))
      × IsTable (table_run ops t)
      × Balances t l (table_run ops t)
unfolding run
run_result [] t v h = (no_log, refl, v, λ p. refl)
run_result (op ∷ ops) t v (fit, fits) =
    let (a, ea, va, ba) = step_result op t v fit in
    let (b, eb, vb, bb) = run_result ops (table_step op t) va fits in
    (
      both a b,
      rw (ea, ◌>>=◌, eb, ◌>>=◌) refl,
      vb,
      λ p. omega (
        arith,
        ba p,
        bb p,
        count-append p a.added b.added,
        count-append p a.dropped b.dropped,
        count-append p a.handed b.handed,
      ),
    )
