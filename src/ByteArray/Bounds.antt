-- ===== src/ByteArray/Bounds.antt =====
-- Where `read` and `setPosition` of src/ByteArray.cpp fail, and how.
use routn.Base.{
  ℕ, zero, suc, ◌%◌, ◌≤◌, ◌<◌, ◌≡◌, refl, ◌∙◌, sym, inl, inr, false, Bool-cases, ltb, List, [], ◌∷◌,
  length, drop, arith, length-drop, drop_all, ◌↔◌, if◌then◌else◌,
}
use routn.ByteArray.{
  ByteArray, Node, Outcome, ok, oor, fault, read_chain, read, set_position, get_read_size,
}
use routn.ByteArray.Invariant.{IsValid}
use routn.ByteArray.Cursor.{read-Taken, set_position-Moved}

-- The outcomes are different.
ok-not_oor {ℓ} : {A : Type ℓ} {a : A} → ¬ (ok a ≡ oor)
ok-not_oor {a = a} e = cc

fault-not_oor {ℓ} : {A : Type ℓ} (o : Outcome A) → o ≡ fault → ¬ (o ≡ oor)
fault-not_oor o e q = cc

ok-not_fault {ℓ} : {A : Type ℓ} {a : A} → ¬ (ok a ≡ fault)
ok-not_fault {a = a} e = cc

not_below : (a b : ℕ) → ltb a b ≡ false → b ≤ a
not_below a b h = ground arith

-- On a valid byte array `setPosition` throws exactly past the capacity.
pub set_position-oor_iff :
    (at : ℕ) (b : ByteArray) → IsValid b → (set_position at b ≡ oor) ↔ (b.capacity < at)
set_position-oor_iff at b v = elim (Bool-cases (ltb b.capacity at)) [
  | inl past ↦ ((λ e. ground arith), (λ h. unfold set_position in ground arith))
  | inr within ↦
      let (c, e, _) = set_position-Moved at b v (ground arith) in
      ((λ q. absurd (ok-not_oor (sym e ∙ q))), (λ h. absurd (ground arith)))
]

read_chain_zero : (ns : List Node) (npos : ℕ) → 0 < length ns → read_chain ns npos 0 ≡ ok ([], 0)
unfolding read_chain
read_chain_zero [] npos h = absurd (omega arith)
read_chain_zero (n ∷ ns) npos h = refl

inside : (b : ByteArray) → IsValid b → b.position < b.capacity → read 0 b ≡ ok ([], b)
unfolding read
inside b v h =
    let here : b.cur < length b.nodes = grind (arith, v.cur_le, v.cap_eq, v.base_pos) in
    let e =
      read_chain_zero (drop b.cur b.nodes) (b.position % b.base_size)
        (omega (arith, length-drop b.cur b.nodes)) in
    rw e (ground arith)

behind : (b : ByteArray) → IsValid b → b.position ≡ b.capacity → read 0 b ≡ fault
unfolding read
behind b v h =
    let last : length b.nodes ≤ b.cur = grind (arith, v.cur_next, v.cap_eq, v.base_pos) in
    rw (drop_all b.cur b.nodes last) (unfold read_chain in ground arith)

-- On a valid byte array a read of no bytes changes nothing while the position is below the capacity,
-- and goes through a null pointer at the capacity.
pub read_nothing :
    (b : ByteArray)
    → IsValid b
    → read 0 b ≡ (if ltb b.position b.capacity then ok ([], b) else fault)
read_nothing b v = elim (Bool-cases (ltb b.position b.capacity)) [
  | inl in_block ↦ rw in_block (inside b v (ground arith))
  | inr at_end ↦ rw at_end (behind b v (ground (arith, v.pos_le, v.size_le)))
]

read-oor_iff : (n : ℕ) (b : ByteArray) → IsValid b → (read n b ≡ oor) ↔ (get_read_size b < n)
read-oor_iff zero b v = elim (Bool-cases (ltb b.position b.capacity)) [
  | inl in_block ↦
      let e : read 0 b ≡ ok ([], b) = read_nothing b v ∙ rw in_block refl in
      ((λ q. absurd (ok-not_oor (sym e ∙ q))), (λ h. absurd (omega arith)))
  | inr at_end ↦
      let e : read 0 b ≡ fault = read_nothing b v ∙ rw at_end refl in
      ((λ q. absurd (fault-not_oor (read 0 b) e q)), (λ h. absurd (omega arith)))
]
read-oor_iff (suc n) b v = elim (Bool-cases (ltb (get_read_size b) (suc n))) [
  | inl past ↦ ((λ e. ground arith), (λ h. unfold read in ground arith))
  | inr within ↦
      let (c, e, _) = read-Taken (suc n) b v (omega arith) (ground arith) in
      ((λ q. absurd (ok-not_oor (sym e ∙ q))), (λ h. absurd (ground arith)))
]

read-fault_iff :
    (n : ℕ) (b : ByteArray) → IsValid b → (read n b ≡ fault) ↔ ((n ≡ 0) × (b.position ≡ b.capacity))
read-fault_iff zero b v = (
  (λ q. elim (Bool-cases (ltb b.position b.capacity)) [
    | inl in_block ↦
        let e : read 0 b ≡ ok ([], b) = read_nothing b v ∙ rw in_block refl in
        absurd (ok-not_fault (sym e ∙ q))
    | inr at_end ↦
        (refl, omega (arith, v.pos_le, v.size_le, not_below b.position b.capacity at_end))
  ]),
  (λ h. behind b v h.1),
)
read-fault_iff (suc n) b v = elim (Bool-cases (ltb (get_read_size b) (suc n))) [
  | inl past ↦
      let e : read (suc n) b ≡ oor = unfold read in ground arith in
      ((λ q. absurd (fault-not_oor (read (suc n) b) q e)), (λ h. absurd (omega (arith, h.0))))
  | inr within ↦
      let (c, e, _) = read-Taken (suc n) b v (omega arith) (ground arith) in
      ((λ q. absurd (ok-not_fault (sym e ∙ q))), (λ h. absurd (omega (arith, h.0))))
]

-- On a valid byte array `read` throws exactly where more bytes are asked for than there are ahead, and goes
-- through a null pointer exactly where no bytes are asked for and the position is at the capacity.
pub read_failures :
    (n : ℕ) (b : ByteArray)
    → IsValid b
    → ((read n b ≡ oor) ↔ (get_read_size b < n))
      × ((read n b ≡ fault) ↔ ((n ≡ 0) × (b.position ≡ b.capacity)))
read_failures n b v = (read-oor_iff n b v, read-fault_iff n b v)
