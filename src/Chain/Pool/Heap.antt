-- ===== src/Chain/Pool/Heap.antt =====
-- nonceHeap of chain/tx_list.go, and what container/heap of Go's library does with it. The slice is
-- a list; every index that the code forms lies inside, and what is read elsewhere is 0.
pub mod Slots
pub mod Order
pub mod Sift
use relayer.Base.{
  ℕ, zero, suc, ◌+◌, ◌-◌, ◌*◌, ◌/◌, List, [], ◌∷◌, ◌++◌, Bool, true, false, ltb, leb, ◌==◌, ◌||◌,
  ◌&&◌, not, if◌then◌else◌, length, take,
}

-- `h[i]`
unfoldable pub slot : List ℕ → ℕ → ℕ
slot [] i = 0
slot (x ∷ h) zero = x
slot (x ∷ h) (suc i) = slot h i

-- `h[i] = v`
unfoldable pub write : List ℕ → ℕ → ℕ → List ℕ
write [] i v = []
write (x ∷ h) zero v = v ∷ h
write (x ∷ h) (suc i) v = x ∷ write h i v

-- `Less`
unfoldable pub less : List ℕ → ℕ → ℕ → Bool
less h i j = ltb (slot h i) (slot h j)

-- `Swap`
unfoldable pub swap : List ℕ → ℕ → ℕ → List ℕ
swap h i j = write (write h i (slot h j)) j (slot h i)

-- the methods `Push` and `Pop` of the heap itself
unfoldable pub push_last : ℕ → List ℕ → List ℕ
push_last x h = h ++ (x ∷ [])

unfoldable pub pop_last : List ℕ → ℕ × List ℕ
pop_last h = (slot h (length h - 1), take (length h - 1) h)

-- `up` of container/heap, on fuel: at most as many rounds as the index
unfoldable pub up : ℕ → List ℕ → ℕ → List ℕ
up zero h j = h
up (suc fuel) h j =
    let i = (j - 1) / 2 in
    let rest = up fuel (swap h i j) i in if (i == j) || not (less h j i) then h else rest

-- the child of `i` that `down` compares with it
unfoldable pub child : List ℕ → ℕ → ℕ → ℕ
child h i n = if ltb (2 * i + 2) n && less h (2 * i + 2) (2 * i + 1) then 2 * i + 2 else 2 * i + 1

-- `down` of container/heap, on fuel: the index grows in each round, up to n
unfoldable pub down : ℕ → List ℕ → ℕ → ℕ → List ℕ
down zero h i n = h
down (suc fuel) h i n =
    let j = child h i n in
    let rest = down fuel (swap h i j) j n in
    if leb n (2 * i + 1) then h else if not (less h j i) then h else rest

-- `heap.Push`
unfoldable pub heap_push : ℕ → List ℕ → List ℕ
heap_push x h = let grown = push_last x h in up (length h + 1) grown (length h)

-- `heap.Pop`, of a heap that is not empty
unfoldable pub heap_pop : List ℕ → ℕ × List ℕ
heap_pop h = let n = length h - 1 in pop_last (down (n + 1) (swap h 0 n) 0 n)
