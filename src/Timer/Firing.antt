-- ===== src/Timer/Firing.antt =====
-- The loop of `listExpiredCb` of src/Timer.cpp over the timers that it took out of the set.
use routn.Base.{
  ℕ, ◌≡◌, refl, ap, ◌∙◌, sym, inl, inr, Bool-cases, true, false, ◌&&◌, ◌||◌, List, [], ◌∷◌, map,
  ◌==◌, if◌then◌else◌, arith, Option, none,
}
use routn.Timer.{Timer, TimerManager, Callback, assign, insert, has_callback, add64, rearm, fire}
use routn.Timer.OrderedSet.{contains, Sorted, contains-insert, Sorted-same}
use routn.Timer.Invariant.{IsValid, insert_changed}

-- What one timer of the loop, and the loop, leave: `xs` are still to come.
pub record Firing (m : TimerManager) (xs : List ℕ) : Type 0 where
  pub sorted : Sorted m.objects m.timers
  pub live : (a : ℕ) → (contains a xs || contains a m.timers) ≡ has_callback (m.objects a)
  pub apart : (a : ℕ) → (contains a xs && contains a m.timers) ≡ false

abbrev pub Distinct : List ℕ → Type 0
Distinct [] = Unit {0}
Distinct (x ∷ xs) = (contains x xs ≡ false) × Distinct xs

rearm-Firing :
    (now a : ℕ) (xs : List ℕ) (m : TimerManager)
    → contains a xs ≡ false
    → Firing m (a ∷ xs)
    → Firing (rearm now a m) xs
unfolding rearm contains
rearm-Firing now a xs m d f = elim (Bool-cases (m.objects a).recurring) [
  | inl again ↦
      let t : Timer = record (m.objects a) { next = add64 now (m.objects a).ms } in
      let out : contains a m.timers ≡ false = ground (arith, f.apart a) in
      let q : rearm now a m ≡ record m {
        objects = assign a t m.objects;
        timers = insert (assign a t m.objects) a m.timers;
      } =
        ground arith in
      rw q (record {
        sorted = insert_changed a t m.objects m.timers f.sorted out;
        live = λ b.
            rw (contains-insert (assign a t m.objects) a b m.timers) (ground (arith, f.live b));
        apart = λ b.
            rw (contains-insert (assign a t m.objects) a b m.timers) (ground (arith, f.apart b, d));
      })
  | inr once ↦
      let t : Timer = record (m.objects a) { callback = none } in
      let q : rearm now a m ≡ record m { objects = assign a t m.objects } = ground arith in
      rw q (record {
        sorted = Sorted-same m.objects a t refl m.timers f.sorted;
        live = λ b. ground (arith, f.live b, f.apart b);
        apart = λ b. ground (arith, f.apart b);
      })
]

-- What a timer becomes whose callback is handed out.
abbrev pub spent : ℕ → Timer → Timer
spent now t =
    if t.recurring then record t { next = add64 now t.ms } else record t { callback = none }

pub record Fired (now : ℕ) (xs : List ℕ) (m n : TimerManager) (cbs : List (Option Callback))
    : Type 0 where
  pub valid : IsValid n
  pub handed_out : cbs ≡ map (λ a. (m.objects a).callback) xs
  pub objects_eq :
      (b : ℕ) → n.objects b ≡ (if contains b xs then spent now (m.objects b) else m.objects b)

rearm-objects :
    (now a b : ℕ) (m : TimerManager)
    → (rearm now a m).objects b ≡ (if a == b then spent now (m.objects b) else m.objects b)
unfolding rearm
rearm-objects now a b m = elim (Bool-cases (a == b)) [
  | inl e ↦ let e' : a ≡ b = ground (arith, e) in rw e' (ground arith)
  | inr n ↦ ground arith
]

map-callbacks :
    (f g : ℕ → Timer) (xs : List ℕ)
    → ((b : ℕ) → contains b xs ≡ true → f b ≡ g b)
    → map (λ a. (f a).callback) xs ≡ map (λ a. (g a).callback) xs
unfolding contains
map-callbacks f g [] h = refl
map-callbacks f g (x ∷ xs) h =
    let e : f x ≡ g x = h x (ground arith) in
    let r = map-callbacks f g xs (λ b c. h b (ground (arith, c))) in λ i. (e i).callback ∷ r i

-- One timer more: the change to it and the changes to those that follow, of which it is none.
apart :
    (now a b : ℕ) (xs : List ℕ)
    → contains a xs ≡ false
    → contains b xs ≡ true
    → (t : Timer) → (if a == b then spent now t else t) ≡ t
apart now a b xs o c t = elim (Bool-cases (a == b)) [
  | inl e ↦ let e' : a ≡ b = ground (arith, e) in absurd (cc (ap (λ (k : ℕ). contains k xs) e' ∙ c))
  | inr n ↦ rw n refl
]

spent_once :
    (now a b : ℕ) (xs : List ℕ) (s t : Timer)
    → contains a xs ≡ false
    → s ≡ (if a == b then spent now t else t)
    → (if contains b xs then spent now s else s) ≡ (if contains b (a ∷ xs) then spent now t else t)
unfolding contains
spent_once now a b xs s t o e = elim (Bool-cases (a == b)) [
  | inl q ↦
      let q' : a ≡ b = ground (arith, q) in
      let o' : contains b xs ≡ false = ap (λ (k : ℕ). contains k xs) (sym q') ∙ o in
      let e' : s ≡ spent now t = e ∙ rw q refl in rw (o', q, e') refl
  | inr n ↦ let e' : s ≡ t = e ∙ rw n refl in rw (n, e') refl
]

pub fire-Fired :
    (now : ℕ) (xs : List ℕ) (m : TimerManager)
    → Distinct xs
    → Firing m xs
    → Fired now xs m (fire now xs m).0 (fire now xs m).1
unfolding fire
fire-Fired now [] m d f = record {
  valid = record { sorted = f.sorted; live = λ a. unfold contains in f.live a };
  handed_out = refl;
  objects_eq = λ b. unfold contains in refl;
}
fire-Fired now (a ∷ xs) m (out, d) f =
    let r = fire-Fired now xs (rearm now a m) d (rearm-Firing now a xs m out f) in
    record {
      valid = r.valid;
      handed_out = ap (◌∷◌ (m.objects a).callback) (
          r.handed_out
          ∙ map-callbacks (rearm now a m).objects m.objects xs
              (λ b c. rearm-objects now a b m ∙ apart now a b xs out c (m.objects b)));
      objects_eq =
          λ b. r.objects_eq b ∙ spent_once now a b xs _ (m.objects b) out (rearm-objects now a b m);
    }
