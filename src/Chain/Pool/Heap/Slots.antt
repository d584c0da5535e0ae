-- ===== src/Chain/Pool/Heap/Slots.antt =====
-- Reads after writes in the slice of a heap, and how often a number stands in it.
use relayer.Base.{
  ℕ, zero, suc, ◌+◌, ◌<◌, ◌≤◌, List, [], ◌∷◌, ◌++◌, ◌==◌, if◌then◌else◌, length, take, ◌≡◌, refl,
  ap, arith, ◌∙◌, ℕ_discrete,
}
use relayer.Chain.Pool.Heap.{slot, write, swap}

unfoldable pub count : ℕ → List ℕ → ℕ
count v [] = 0
count v (x ∷ h) = (if x == v then 1 else 0) + count v h

pub length-write : (h : List ℕ) (i v : ℕ) → length (write h i v) ≡ length h
unfolding write
length-write [] i v = refl
length-write (x ∷ h) zero v = refl
length-write (x ∷ h) (suc i) v = ap suc (length-write h i v)

pub slot-write :
    (h : List ℕ) (i j v : ℕ)
    → i < length h
    → slot (write h i v) j ≡ (if i == j then v else slot h j)
unfolding slot write
slot-write [] i j v le = absurd (omega arith)
slot-write (x ∷ h) zero zero v le = refl
slot-write (x ∷ h) zero (suc j) v le = ground arith
slot-write (x ∷ h) (suc i) zero v le = ground arith
slot-write (x ∷ h) (suc i) (suc j) v le = ground (arith, slot-write h i j v)

count-write :
    (u : ℕ) (h : List ℕ) (i v : ℕ)
    → i < length h
    → count u (write h i v) + (if slot h i == u then 1 else 0)
      ≡ count u h + (if v == u then 1 else 0)
unfolding count slot write
count-write u [] i v le = absurd (omega arith)
count-write u (x ∷ h) zero v le = omega arith
count-write u (x ∷ h) (suc i) v le = omega (arith, count-write u h i v (omega arith))

pub length-swap : (h : List ℕ) (i j : ℕ) → length (swap h i j) ≡ length h
unfolding swap
length-swap h i j = length-write (write h i (slot h j)) j (slot h i) ∙ length-write h i (slot h j)

module _ (h : List ℕ) (i j : ℕ) (hi : i < length h) (hj : j < length h) where
  pub slot-swap :
      (k : ℕ)
      → slot (swap h i j) k ≡ (if j == k then slot h i else if i == k then slot h j else slot h k)
  unfolding swap
  slot-swap k = ground (
    arith,
    length-write h i (slot h j),
    slot-write (write h i (slot h j)) j k (slot h i),
    slot-write h i k (slot h j) hi,
  )

  pub count-swap : (u : ℕ) → count u (swap h i j) ≡ count u h
  unfolding swap
  count-swap u = ground (
    arith,
    length-write h i (slot h j),
    count-write u (write h i (slot h j)) j (slot h i),
    count-write u h i (slot h j) hi,
    slot-write h i j (slot h j) hi,
  )

pub slot-append : (h t : List ℕ) (i : ℕ) → i < length h → slot (h ++ t) i ≡ slot h i
unfolding slot
slot-append [] t i le = absurd (omega arith)
slot-append (x ∷ h) t zero le = refl
slot-append (x ∷ h) t (suc i) le = slot-append h t i (omega arith)

pub slot-take : (n : ℕ) (h : List ℕ) (i : ℕ) → i < n → slot (take n h) i ≡ slot h i
unfolding slot
slot-take zero h i le = absurd (omega arith)
slot-take (suc n) [] i le = refl
slot-take (suc n) (x ∷ h) zero le = refl
slot-take (suc n) (x ∷ h) (suc i) le = slot-take n h i (omega arith)

pub length-take : (n : ℕ) (h : List ℕ) → n ≤ length h → length (take n h) ≡ n
length-take zero h le = refl
length-take (suc n) [] le = absurd (omega arith)
length-take (suc n) (x ∷ h) le = ap suc (length-take n h (omega arith))

pub count-append : (u : ℕ) (h t : List ℕ) → count u (h ++ t) ≡ count u h + count u t
unfolding count
count-append u [] t = omega arith
count-append u (x ∷ h) t = omega (arith, count-append u h t)

-- To drop the last entry is to count it once less.
pub count-take :
    (u n : ℕ) (h : List ℕ)
    → length h ≡ suc n
    → count u (take n h) + (if slot h n == u then 1 else 0) ≡ count u h
unfolding count slot
count-take u n [] e = absurd (omega arith)
count-take u zero (x ∷ []) e = omega arith
count-take u zero (x ∷ y ∷ h) e = absurd (omega arith)
count-take u (suc n) (x ∷ h) e = omega (arith, count-take u n h (omega arith))

pub count-slot : (h : List ℕ) (i : ℕ) → i < length h → 0 < count (slot h i) h
unfolding count slot
count-slot [] i le = absurd (omega arith)
count-slot (x ∷ h) zero le = ground arith
count-slot (x ∷ h) (suc i) le = omega (arith, count-slot h i (omega arith))

-- What is counted stands somewhere.
pub find_slot : (u : ℕ) (h : List ℕ) → 0 < count u h → (i : ℕ) × (i < length h) × (slot h i ≡ u)
unfolding count slot
find_slot u [] p = absurd (omega arith)
find_slot u (x ∷ h) p = elim (ℕ_discrete x u) [
  | yes here ↦ (0, omega arith, here)
  | no other ↦
      let (i, inside, e) = find_slot u h (ground arith) in (suc i, omega (arith, inside), e)
]
