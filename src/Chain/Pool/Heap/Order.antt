-- ===== src/Chain/Pool/Heap/Order.antt =====
-- The order that container/heap keeps in the slice of nonceHeap.
use relayer.Base.{ℕ, zero, suc, ◌-◌, ◌/◌, ◌<◌, ◌≤◌, List, length, arith}
use relayer.Chain.Pool.Heap.{slot}
use relayer.Chain.Pool.Heap.Slots.{count, find_slot}

-- No entry is below its parent.
abbrev pub IsHeap : List ℕ → Type 0
IsHeap h = (k : ℕ) → 0 < k → k < length h → slot h ((k - 1) / 2) ≤ slot h k

first_below :
    (bound : ℕ) (h : List ℕ) (i : ℕ) → IsHeap h → i < bound → i < length h → slot h 0 ≤ slot h i
first_below zero h i o b le = absurd (omega arith)
first_below (suc bound) h i o b le = ground (arith, o i, first_below bound h ((i - 1) / 2) o)

-- The first entry is the least.
pub first_least : (h : List ℕ) (u : ℕ) → IsHeap h → 0 < count u h → slot h 0 ≤ u
first_least h u o p =
    let (i, inside, e) = find_slot u h p in
    omega (arith, first_below (suc i) h i o (omega arith) inside, e)
