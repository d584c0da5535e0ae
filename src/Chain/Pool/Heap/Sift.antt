-- ===== src/Chain/Pool/Heap/Sift.antt =====
-- What `up`, `down`, `Push` and `Pop` of container/heap do to the heap of nonces.
use relayer.Base.{
  ℕ, zero, suc, ◌+◌, ◌-◌, ◌*◌, ◌/◌, ◌<◌, ◌≤◌, List, [], ◌∷◌, ◌++◌, not, ltb, leb, ◌==◌, ◌||◌, ◌&&◌,
  if◌then◌else◌, length, length-append, ◌≡◌, ◌≢◌, refl, ◌∙◌, arith, Bool-cases, inl, inr, ◌⊎◌,
}
use relayer.Chain.Pool.Heap.{
  slot, less, swap, push_last, pop_last, up, child, down, heap_push, heap_pop,
}
use relayer.Chain.Pool.Heap.Slots.{
  count, length-swap, slot-swap, count-swap, slot-append, slot-take, length-take, count-append,
  count-take,
}
use relayer.Chain.Pool.Heap.Order.{IsHeap}

-- Everything is in order but the entry j and its parent; the children of j are in order with the
-- parent of j.
record RisesAt (h : List ℕ) (j : ℕ) : Type 0 where
  inside : j < length h
  others : (k : ℕ) → 0 < k → k < length h → k ≢ j → slot h ((k - 1) / 2) ≤ slot h k
  below : (k : ℕ) → 0 < k → k < length h → (k - 1) / 2 ≡ j → 0 < j → slot h ((j - 1) / 2) ≤ slot h k

-- The slice h' is a heap of the entries of h.
pub record Heaps (h h' : List ℕ) : Type 0 where
  pub ordered : IsHeap h'
  pub size : length h' ≡ length h
  pub same : (u : ℕ) → count u h' ≡ count u h

Heaps-swap :
    (h h' : List ℕ) (i j : ℕ) → i < length h → j < length h → Heaps (swap h i j) h' → Heaps h h'
Heaps-swap h h' i j hi hj s = record {
  ordered = s.ordered;
  size = s.size ∙ length-swap h i j;
  same = λ u. s.same u ∙ count-swap h i j hi hj u;
}

up-step :
    (fuel : ℕ) (h : List ℕ) (j : ℕ)
    → ((j ≡ 0) ⊎ (slot h ((j - 1) / 2) ≤ slot h j)) × (up (suc fuel) h j ≡ h)
      ⊎ (0 < j)
        × (slot h j < slot h ((j - 1) / 2))
        × (up (suc fuel) h j ≡ up fuel (swap h ((j - 1) / 2) j) ((j - 1) / 2))
unfolding up less
up-step fuel h j =
    elim (Bool-cases ((((j - 1) / 2) == j) || not (ltb (slot h j) (slot h ((j - 1) / 2))))) [
      | inl stop ↦ inl (ground arith, rw stop refl)
      | inr go ↦ inr (ground arith, ground arith, rw go refl)
    ]

up-Heaps : (fuel : ℕ) (h : List ℕ) (j : ℕ) → j < fuel → RisesAt h j → Heaps h (up fuel h j)
up-Heaps zero h j f v = absurd (omega arith)
up-Heaps (suc fuel) h j f v = elim (up-step fuel h j) [
  | inl (settled, e) ↦
      rw e (record { ordered = λ k p q. ground (arith, v.others k); size = refl; same = λ u. refl })
  | inr (positive, under, e) ↦
      let i = (j - 1) / 2 in
      let hi : i < length h = omega (arith, v.inside) in
      let at = slot-swap h i j hi v.inside in
      let size = length-swap h i j in
      rw e (
        Heaps-swap h _ i j hi v.inside (
          up-Heaps fuel (swap h i j) i (omega arith) (record {
            inside = omega arith;
            others = λ k p q n. ground (arith, at k, at ((k - 1) / 2), v.others k, v.below k);
            below = λ k p q n m. ground (arith, at k, at ((i - 1) / 2), v.others k, v.others i);
          })))
]

-- Below n everything is in order but the entry i and its children, and these are in order with the
-- parent of i.
record SinksAt (h : List ℕ) (i n : ℕ) : Type 0 where
  fits : n ≤ length h
  others : (k : ℕ) → 0 < k → k < n → (k - 1) / 2 ≢ i → slot h ((k - 1) / 2) ≤ slot h k
  above : (k : ℕ) → 0 < k → k < n → (k - 1) / 2 ≡ i → 0 < i → slot h ((i - 1) / 2) ≤ slot h k

-- The slice h' has the entries of h, in order below n and untouched from there on.
record Sinks (n : ℕ) (h h' : List ℕ) : Type 0 where
  ordered : (k : ℕ) → 0 < k → k < n → slot h' ((k - 1) / 2) ≤ slot h' k
  size : length h' ≡ length h
  same : (u : ℕ) → count u h' ≡ count u h
  rest : (k : ℕ) → n ≤ k → slot h' k ≡ slot h k

-- The child that is compared is the lesser one.
record IsLesserChild (h : List ℕ) (i n j : ℕ) : Type 0 where
  inside : j < n
  child_of : (j ≡ 2 * i + 1) ⊎ (j ≡ 2 * i + 2)
  least : (k : ℕ) → 0 < k → k < n → (k - 1) / 2 ≡ i → slot h j ≤ slot h k

child-IsLesserChild : (h : List ℕ) (i n : ℕ) → 2 * i + 1 < n → IsLesserChild h i n (child h i n)
unfolding child less
child-IsLesserChild h i n lt =
    elim (Bool-cases (ltb (2 * i + 2) n && ltb (slot h (2 * i + 2)) (slot h (2 * i + 1)))) [
      | inl right ↦ rw right (record {
        inside = ground arith;
        child_of = inr refl;
        least =
            λ k p q e. let two : (k ≡ 2 * i + 1) ⊎ (k ≡ 2 * i + 2) = omega arith in ground arith;
      })
      | inr left ↦ rw left (record {
        inside = lt;
        child_of = inl refl;
        least =
            λ k p q e. let two : (k ≡ 2 * i + 1) ⊎ (k ≡ 2 * i + 2) = omega arith in ground arith;
      })
    ]

down-step :
    (fuel : ℕ) (h : List ℕ) (i n : ℕ)
    → (n ≤ 2 * i + 1) × (down (suc fuel) h i n ≡ h)
      ⊎ (2 * i + 1 < n) × (slot h i ≤ slot h (child h i n)) × (down (suc fuel) h i n ≡ h)
      ⊎ (2 * i + 1 < n)
        × (slot h (child h i n) < slot h i)
        × (down (suc fuel) h i n ≡ down fuel (swap h i (child h i n)) (child h i n) n)
unfolding down less
down-step fuel h i n = elim (Bool-cases (leb n (2 * i + 1))) [
  | inl leaf ↦ inl (ground arith, rw leaf refl)
  | inr more ↦ elim (Bool-cases (ltb (slot h (child h i n)) (slot h i))) [
    | inl go ↦ inr (inr (ground arith, ground arith, rw (more, go) refl))
    | inr stop ↦ inr (inl (ground arith, ground arith, rw (more, stop) refl))
  ]
]

down-zero : (h : List ℕ) (i n : ℕ) → down 0 h i n ≡ h
unfolding down
down-zero h i n = refl

-- Where the children are in order too, the slice stays.
settled-Sinks :
    (h : List ℕ) (i n : ℕ)
    → SinksAt h i n
    → ((k : ℕ) → 0 < k → k < n → (k - 1) / 2 ≡ i → slot h i ≤ slot h k)
    → Sinks n h h
settled-Sinks h i n v c = record {
  ordered = λ k p q. ground (arith, v.others k, c k);
  size = refl;
  same = λ u. refl;
  rest = λ k le. refl;
}

down-Sinks :
    (fuel : ℕ) (h : List ℕ) (i n : ℕ) → n < fuel + i → SinksAt h i n → Sinks n h (down fuel h i n)
down-Sinks zero h i n f v =
    rw (down-zero h i n) (settled-Sinks h i n v (λ k p q m. absurd (omega arith)))
down-Sinks (suc fuel) h i n f v = elim (down-step fuel h i n) [
  | inl (leaf, e) ↦ rw e (settled-Sinks h i n v (λ k p q m. absurd (omega arith)))
  | inr (inl (more, stays, e)) ↦
      let c = child-IsLesserChild h i n more in
      rw e (settled-Sinks h i n v (λ k p q m. omega (arith, c.least k p q m)))
  | inr (inr (more, over, e)) ↦
      let j = child h i n in
      let c = child-IsLesserChild h i n more in
      let hi : i < length h = omega (arith, v.fits) in
      let hj : j < length h = omega (arith, v.fits, c.inside) in
      let at = slot-swap h i j hi hj in
      let parent : (j - 1) / 2 ≡ i = ground (arith, c.child_of) in
      let later : i < j = ground (arith, c.child_of) in
      let next : SinksAt (swap h i j) j n = record {
        fits = omega (arith, v.fits, length-swap h i j);
        others =
            λ k p q m. ground (arith, at k, at ((k - 1) / 2), v.others k, v.above j, c.least k);
        above = λ k p q m z. ground (arith, at k, at ((j - 1) / 2), v.others k);
      } in
      let s = down-Sinks fuel (swap h i j) j n (omega arith) next in
      rw e (record {
        ordered = s.ordered;
        size = s.size ∙ length-swap h i j;
        same = λ u. s.same u ∙ count-swap h i j hi hj u;
        rest = λ k le. s.rest k le ∙ ground (arith, at k, c.inside);
      })
]

-- `heap.Push` gives a heap with one entry more.
pub heap_push_lem :
    (x : ℕ) (h : List ℕ)
    → IsHeap h
    → IsHeap (heap_push x h)
      × (length (heap_push x h) ≡ length h + 1)
      × ((u : ℕ) → count u (heap_push x h) ≡ count u h + (if x == u then 1 else 0))
unfolding heap_push push_last count
heap_push_lem x h o =
    let grown = h ++ (x ∷ []) in
    let size = length-append h (x ∷ []) in
    let s = up-Heaps (length h + 1) grown (length h) (omega arith) (record {
      inside = omega arith;
      others = λ k p q n. omega (
        arith,
        o k p (omega arith),
        slot-append h (x ∷ []) k (omega arith),
        slot-append h (x ∷ []) ((k - 1) / 2) (omega arith),
      );
      below = λ k p q n m. absurd (omega arith);
    }) in
    (s.ordered, omega (arith, s.size), λ u. s.same u ∙ omega (arith, count-append u h (x ∷ [])))

-- `heap.Pop` of a heap that is not empty returns its first entry, and gives a heap without it.
pub heap_pop_lem :
    (h : List ℕ)
    → IsHeap h
    → 0 < length h
    → ((heap_pop h).0 ≡ slot h 0)
      × IsHeap (heap_pop h).1
      × (length (heap_pop h).1 + 1 ≡ length h)
      × ((u : ℕ) → count u (heap_pop h).1 + (if slot h 0 == u then 1 else 0) ≡ count u h)
unfolding heap_pop pop_last
heap_pop_lem h o p =
    let n = length h - 1 in
    let at = slot-swap h 0 n (omega arith) (omega arith) in
    let swapped = swap h 0 n in
    let size = length-swap h 0 n in
    let s = down-Sinks (n + 1) swapped 0 n (omega arith) (record {
      fits = omega arith;
      others = λ k q r m. ground (arith, at k, at ((k - 1) / 2), o k);
      above = λ k q r m z. absurd (omega arith);
    }) in
    let sunk = down (n + 1) swapped 0 n in
    let whole : length sunk ≡ suc n = omega (arith, s.size) in
    let end : length sunk - 1 ≡ n = omega arith in
    let last : slot sunk n ≡ slot h 0 = s.rest n (omega arith) ∙ ground (arith, at n) in
    rw end (
      last,
      λ k q r.
          let inside : k < n = omega (arith, length-take n sunk (omega arith)) in
          omega (
            arith,
            s.ordered k q inside,
            slot-take n sunk k inside,
            slot-take n sunk ((k - 1) / 2) (omega arith),
          ),
      omega (arith, length-take n sunk (omega arith)),
      λ u. ground (
        arith,
        count-take u n sunk whole,
        last,
        s.same u,
        count-swap h 0 n (omega arith) (omega arith) u,
      ),
    )
