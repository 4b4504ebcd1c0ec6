-- ===== src/IoManager/Run.antt =====
-- The calls of src/IoManager.cpp in the order in which they get the locks, and what becomes of all that
-- is made to wait.
use routn.Base.{
  ℕ, ◌+◌, ◌<◌, ◌^◌, ◌≡◌, Bool, ◌||◌, Option, none, some, List, [], ◌∷◌, ◌++◌, length, get_elem?,
  set, if◌then◌else◌,
}
use routn.IoManager.{
  Event, EventContext, IoManager, Scheduled, fiber_task, callback_task, Outcome, ok, ◌>>=◌,
  get_context, add_event, del_event, cancel_event, cancel_all, EpollEvent, handle_event,
}
use routn.IoManager.Table.{Table, at, put_at, grown, empty_entry}
use routn.IoManager.Context.{caller, to_run}
use routn.IoManager.Events.{all_of, kept, Reports}

-- A call, with what the kernel answers.
pub data Op : Type 0 where
  op_add : ℕ → Event → Option ℕ → ℕ → ℕ → Bool → Op
  op_del : ℕ → Event → Bool → Op
  op_cancel : ℕ → Event → Bool → Op
  op_cancel_all : ℕ → Bool → Op
  op_event : EpollEvent → Bool → Op

-- What calls made wait, dropped, and gave to schedulers.
pub record Log : Type 0 where
  pub added : List Scheduled
  pub dropped : List Scheduled
  pub handed : List Scheduled

abbrev pub no_log : Log
no_log = record { added = []; dropped = []; handed = [] }

abbrev pub both : Log → Log → Log
both a b = record {
  added = a.added ++ b.added;
  dropped = a.dropped ++ b.dropped;
  handed = a.handed ++ b.handed;
}

-- What waits in a context.
abbrev pub waiting_in : EventContext → List Scheduled
waiting_in x = elim x.scheduler [
  | none ↦ []
  | some s ↦ elim x.callback [
    | some k ↦ (s, callback_task k) ∷ []
    | none ↦ elim x.fiber [ some f ↦ (s, fiber_task f) ∷ [] | none ↦ [] ]
  ]
]

abbrev pub waiting_at : ℕ → Event → IoManager → List Scheduled
waiting_at fd e m = elim (get_elem? m.contexts fd) [
  | none ↦ []
  | some c ↦ waiting_in (get_context e c)
]

unfoldable pub step : Op → IoManager → Outcome (IoManager × Log)
step (op_add fd e cb s f accepted) m = do
  (m', done) ← add_event fd e cb (caller s f) accepted m
  ok (m', record no_log { added = if done then to_run cb s f ∷ [] else [] })
step (op_del fd e accepted) m =
    let (m', done) = del_event fd e accepted m in
    ok (m', record no_log { dropped = if done then waiting_at fd e m else [] })
step (op_cancel fd e accepted) m = do
  (m', done, out) ← cancel_event fd e accepted m
  ok (m', record no_log { handed = out })
step (op_cancel_all fd accepted) m = do
  (m', done, out) ← cancel_all fd accepted m
  ok (m', record no_log { handed = out })
step (op_event ev accepted) m = do
  (m', out) ← handle_event ev accepted m
  ok (m', record no_log { handed = out })

unfoldable pub run : List Op → IoManager → Outcome (IoManager × Log)
run [] m = ok (m, no_log)
run (op ∷ ops) m = do (m', a) ← step op m; (m'', b) ← run ops m'; ok (m'', both a b)

-- The call fits the table: an event is added where it is not registered, and deleted or cancelled where
-- it is, and the kernel reports what is registered.
abbrev pub Fits : Op → Table → Type 0
Fits (op_add fd e cb s f accepted) t = (fd < 2 ^ 31) × (at fd e t ≡ none)
Fits (op_del fd e accepted) t = (x : Scheduled) × (at fd e t ≡ some x)
Fits (op_cancel fd e accepted) t = (x : Scheduled) × (at fd e t ≡ some x)
Fits (op_cancel_all fd accepted) t = fd < length t
Fits (op_event ev accepted) t =
    (r : Option Scheduled) × (w : Option Scheduled) × (get_elem? t ev.index ≡ some (r, w))
    × Reports ev.epollin r
    × Reports ev.epollout w

-- What a call that fits does to the table.
abbrev pub table_step : Op → Table → Table
table_step (op_add fd e cb s f accepted) t =
    if accepted then put_at fd e (some (to_run cb s f)) (grown fd t) else grown fd t
table_step (op_del fd e accepted) t = if accepted then put_at fd e none t else t
table_step (op_cancel fd e accepted) t = if accepted then put_at fd e none t else t
table_step (op_cancel_all fd accepted) t = if accepted then set t fd empty_entry else t
table_step (op_event ev accepted) t = elim (get_elem? t ev.index) [
  | none ↦ t
  | some x ↦
      if accepted
      then set t ev.index
          (kept (ev.epollin || ev.epollerr) x.0, kept (ev.epollout || ev.epollerr) x.1)
      else t
]

abbrev pub FitsAll : List Op → Table → Type 0
FitsAll [] t = Unit
FitsAll (op ∷ ops) t = Fits op t × FitsAll ops (table_step op t)

abbrev pub table_run : List Op → Table → Table
table_run [] t = t
table_run (op ∷ ops) t = table_run ops (table_step op t)

-- How many of what waits have a property.
abbrev pub count : (Scheduled → Bool) → List Scheduled → ℕ
count p [] = 0
count p (x ∷ xs) = (if p x then 1 else 0) + count p xs

abbrev pub waits : (Scheduled → Bool) → Table → ℕ
waits p [] = 0
waits p ((r, w) ∷ t) = count p (all_of r) + count p (all_of w) + waits p t

-- What a call adds to what waits is in the log as added, what it takes away as dropped or handed out.
abbrev pub Balances : Table → Log → Table → Type 0
Balances t l t' =
    (p : Scheduled → Bool)
    → count p l.handed + count p l.dropped + waits p t' ≡ count p l.added + waits p t
