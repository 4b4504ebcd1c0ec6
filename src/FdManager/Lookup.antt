-- ===== src/FdManager/Lookup.antt =====
-- `FdManager::get` and `del` of src/FdManager.cpp as operations of a map from descriptors to contexts,
-- and what two threads get that look for one descriptor.
use routn.Base.{
  ℕ, zero, suc, ◌+◌, ◌-◌, ◌*◌, ◌/◌, ◌≤◌, ◌<◌, ◌≡◌, ◌≢◌, ◌⊎◌, refl, ap, sym, ◌∙◌, Bool, true, false,
  Option, none, some, List, [], ◌∷◌, ◌++◌, length, get_elem?, set, replicate, leb, ◌==◌,
  if◌then◌else◌, arith, Bool-cases, Option-cases, inl, inr, length-append, length-replicate,
  length-set, get_elem?-lt, get_elem?-append_left, get_elem?-append_last, lt_of_get_elem?,
}
use routn.FdManager.{FdCtx, FdManager, Stat, fd_ctx, find, room_for, create, get, del}

-- The context of a descriptor.
abbrev pub entry : List (Option ℕ) → ℕ → Option ℕ
entry ds fd = elim (get_elem? ds fd) [ none ↦ none | some a ↦ a ]

abbrev pub known : FdManager → ℕ → Option ℕ
known m fd = entry m.datas fd

-- The vector has its first 64 places, and every context in it was made, for its descriptor.
pub record IsValid (m : FdManager) : Type 0 where
  pub room : 64 ≤ length m.datas
  pub made :
      (fd a : ℕ)
      → known m fd ≡ some a
      → (c : FdCtx) × (get_elem? m.objects a ≡ some c) × (c.fd ≡ fd)

pub entry-replicate : (n j : ℕ) → entry (replicate n none) j ≡ none
entry-replicate zero j = refl
entry-replicate (suc n) zero = refl
entry-replicate (suc n) (suc j) = entry-replicate n j

entry-append : (ds : List (Option ℕ)) (n j : ℕ) → entry (ds ++ replicate n none) j ≡ entry ds j
entry-append [] n j = entry-replicate n j
entry-append (x ∷ ds) n zero = refl
entry-append (x ∷ ds) n (suc j) = entry-append ds n j

entry-set :
    (ds : List (Option ℕ)) (i j : ℕ) (a : Option ℕ)
    → i < length ds
    → entry (set ds i a) j ≡ (if i == j then a else entry ds j)
entry-set [] i j a h = absurd (omega arith)
entry-set (x ∷ ds) zero zero a h = refl
entry-set (x ∷ ds) zero (suc j) a h = ground arith
entry-set (x ∷ ds) (suc i) zero a h = ground arith
entry-set (x ∷ ds) (suc i) (suc j) a h = ground (arith, entry-set ds i j a (omega arith))

-- The vector has a place for the descriptor, and nothing that is in it changes.
room_for_lem :
    (fd : ℕ) (ds : List (Option ℕ))
    → 64 ≤ length ds
    → (fd < length (room_for fd ds))
      × (64 ≤ length (room_for fd ds))
      × ((j : ℕ) → entry (room_for fd ds) j ≡ entry ds j)
unfolding room_for
room_for_lem fd ds h = elim (Bool-cases (leb (length ds) fd)) [
  | inr roomy ↦ rw roomy (ground (arith, roomy), h, λ j. refl)
  | inl past ↦
      let le : length ds ≤ fd = ground (arith, past) in
      let wide : leb (fd * 3 / 2) (length ds) ≡ false = ground arith in
      let n = fd * 3 / 2 - length ds in
      let len = length-append ds (replicate n none) in
      rw (past, wide)
        (
          omega (arith, len, length-replicate {A = Option ℕ} n none),
          omega (arith, len),
          λ j. entry-append ds n j,
        )
]

fd-fd_ctx : (stat : Stat) (fd : ℕ) → (fd_ctx stat fd).fd ≡ fd
unfolding fd_ctx
fd-fd_ctx none fd = refl
fd-fd_ctx (some socket) fd = refl

-- A created context is new, becomes that of its descriptor and of no other, and is found from then on.
pub create_result :
    (stat : Stat) (fd : ℕ) (m : FdManager)
    → IsValid m
    → (m' : FdManager) × (create stat fd m ≡ some (m', some (length m.objects)))
      × IsValid m'
      × ((j : ℕ) → known m' j ≡ (if fd == j then some (length m.objects) else known m j))
      × (m'.objects ≡ m.objects ++ (fd_ctx stat fd ∷ []))
unfolding create
create_result stat fd m v =
    let (lt, room, same) = room_for_lem fd m.datas v.room in
    let (old, g) = get_elem?-lt (room_for fd m.datas) fd lt in
    let a = length m.objects in
    let m' : FdManager = record {
      datas = set (room_for fd m.datas) fd (some a);
      objects = m.objects ++ (fd_ctx stat fd ∷ []);
    } in
    let view : (j : ℕ) → known m' j ≡ (if fd == j then some a else known m j) =
      λ j. entry-set (room_for fd m.datas) fd j (some a) lt ∙ rw (same j) refl in
    (
      m',
      rw (g, create) refl,
      record {
        room = omega (arith, length-set (room_for fd m.datas) fd (some a));
        made = λ j b h. elim (Bool-cases (fd == j)) [
          | inl here ↦
              let e : some a ≡ some b = rw here at (sym (view j) ∙ h) in
              let ab : a ≡ b = cc in
              let fj : fd ≡ j = ground (arith, here) in
              (
                fd_ctx stat fd,
                rw (← ab) (get_elem?-append_last m.objects (fd_ctx stat fd)),
                fd-fd_ctx stat fd ∙ fj,
              )
          | inr other ↦
              let e : known m j ≡ some b = rw other at (sym (view j) ∙ h) in
              let (c, at_b, of_j) = v.made j b e in
              (
                c,
                get_elem?-append_left m.objects (fd_ctx stat fd ∷ []) b
                      (lt_of_get_elem? m.objects b c at_b)
                    ∙ at_b,
                of_j,
              )
        ];
      },
      view,
      refl,
    )

same_known :
    (m : FdManager) (fd : ℕ) (o : Option ℕ)
    → known m fd ≡ o
    → (j : ℕ) → known m j ≡ (if fd == j then o else known m j)
same_known m fd o h j = elim (Bool-cases (fd == j)) [
  | inl here ↦ let e : fd ≡ j = ground (arith, here) in rw here (rw e at h)
  | inr other ↦ rw other refl
]

find_lem :
    (fd : ℕ) (auto_create : Bool) (m : FdManager)
    → find fd auto_create m ≡ (elim (known m fd) [
      | some a ↦ some (some a)
      | none ↦ if auto_create then none else some none
    ])
unfolding find
find_lem fd auto_create m = elim (Option-cases (get_elem? m.datas fd)) [
  | inl gone ↦ rw (gone, known, entry, find) refl
  | inr (none, there) ↦ rw (there, known, entry, find) refl
  | inr (some a, there) ↦ rw (there, known, entry, find) refl
]

-- On a valid manager `get` returns the context that the descriptor has, or none where it has none and
-- `auto_create` is false, and changes nothing in both cases. Where it has none and `auto_create` is true,
-- `get` returns a new context, which is the only one that is made and becomes that of this descriptor and
-- of no other. The invariant is kept.
pub get_result :
    (stat : Stat) (fd : ℕ) (auto_create : Bool) (m : FdManager)
    → IsValid m
    → (m' : FdManager) × (a : Option ℕ) × (get stat (some fd) auto_create m ≡ some (m', a))
      × IsValid m'
      × (a ≡ (elim (known m fd) [
        | some b ↦ some b
        | none ↦ if auto_create then some (length m.objects) else none
      ]))
      × ((j : ℕ) → known m' j ≡ (if fd == j then a else known m j))
      × ((m' ≡ m)
          ⊎ ((known m fd ≡ none)
              × (auto_create ≡ true)
              × (m'.objects ≡ m.objects ++ (fd_ctx stat fd ∷ []))))
unfolding get
get_result stat fd auto_create m v = elim (Option-cases (known m fd)) [
  | inr (b, there) ↦
      let f : find fd auto_create m ≡ some (some b) = find_lem fd auto_create m ∙ rw there refl in
      (m, some b, rw (f, get) refl, v, rw there refl, same_known m fd (some b) there, inl refl)
  | inl none_there ↦ elim (Bool-cases auto_create) [
    | inr keeps ↦
        let f : find fd auto_create m ≡ some none =
          find_lem fd auto_create m ∙ rw (none_there, keeps) refl in
        (
          m,
          none,
          rw (f, get) refl,
          v,
          rw (none_there, keeps) refl,
          same_known m fd none none_there,
          inl refl,
        )
    | inl creates ↦
        let f : find fd auto_create m ≡ none =
          find_lem fd auto_create m ∙ rw (none_there, creates) refl in
        let (m', e, v', k, o) = create_result stat fd m v in
        (
          m',
          some (length m.objects),
          rw (f, get, e) refl,
          v',
          rw (none_there, creates) refl,
          k,
          inr (none_there, creates, o),
        )
  ]
]

-- `del` takes the context from the descriptor and from no other, and keeps the invariant.
pub del_result :
    (fd : ℕ) (m : FdManager)
    → IsValid m
    → IsValid (del fd m) × ((j : ℕ) → known (del fd m) j ≡ (if fd == j then none else known m j))
unfolding del
del_result fd m v = elim (Option-cases (get_elem? m.datas fd)) [
  | inl gone ↦
      let free : known m fd ≡ none = rw (gone, known, entry) refl in
      rw (gone, del) (v, same_known m fd none free)
  | inr (old, there) ↦
      let lt = lt_of_get_elem? m.datas fd old there in
      let view : (j : ℕ) → entry (set m.datas fd none) j ≡ (if fd == j then none else known m j) =
        λ j. entry-set m.datas fd j none lt in
      rw (there, del)
        (
          record {
            room = omega (arith, v.room, length-set m.datas fd none);
            made = λ j b h. elim (Bool-cases (fd == j)) [
              | inl here ↦ absurd (let z : none ≡ some b = rw here at (sym (view j) ∙ h) in cc)
              | inr other ↦ v.made j b (rw other at (sym (view j) ∙ h))
            ];
          },
          view,
        )
]

-- Where two threads look for one descriptor that has no context, both before either creates one, they
-- get different contexts, and the descriptor keeps only the second's.
pub get_race :
    (stat stat' : Stat) (fd : ℕ) (m : FdManager)
    → IsValid m
    → known m fd ≡ none
    → (find fd true m ≡ none)
      × ((m1 : FdManager) × (m2 : FdManager) × (a : ℕ) × (b : ℕ) × (create stat fd m
            ≡ some (m1, some a))
          × (create stat' fd m1 ≡ some (m2, some b))
          × (a ≢ b)
          × (known m2 fd ≡ some b))
get_race stat stat' fd m v h =
    let (m1, e1, v1, k1, o1) = create_result stat fd m v in
    let (m2, e2, v2, k2, o2) = create_result stat' fd m1 v1 in
    let eq_self : (fd == fd) ≡ true = ground arith in
    let grows : length m1.objects ≡ length m.objects + 1 =
      ap length o1 ∙ length-append m.objects (fd_ctx stat fd ∷ []) ∙ omega arith in
    (
      find_lem fd true m ∙ rw h refl,
      (
        m1,
        m2,
        length m.objects,
        length m1.objects,
        e1,
        e2,
        λ q. omega (arith, grows, q),
        k2 fd ∙ rw eq_self refl,
      ),
    )
