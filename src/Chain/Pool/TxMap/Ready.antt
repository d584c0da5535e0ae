-- ===== src/Chain/Pool/TxMap/Ready.antt =====
-- What `Ready` of txSortedMap (chain/tx_list.go) takes out: the run of nonces from the least one on.
use relayer.Base.{
  ℕ, zero, suc, ◌+◌, ◌%◌, ◌^◌, ◌<◌, ◌≤◌, ◌==◌, leb, ltb, ◌&&◌, ◌||◌, not, List, [], ◌∷◌, Option,
  none, some, true, false, length, if◌then◌else◌, ◌≡◌, refl, ap, ap₂, ◌∙◌, arith, ◌⊎◌, inl, inr,
  Option-cases, Bool-cases, ℕ_discrete,
}
use relayer.Base.Dict
use relayer.Chain.Pool.Heap.{slot, heap_pop}
use relayer.Chain.Pool.Heap.Slots.{count, count-slot, find_slot}
use relayer.Chain.Pool.Heap.Order.{first_least}
use relayer.Chain.Pool.Heap.Sift.{heap_pop_lem}
use relayer.Chain.Pool.TxMap.{TxSortedMap, get, ready_loop, ready}
use relayer.Chain.Pool.TxMap.Invariant.{Indexed, IsTxMap, found}

module _ {Tx : Type 0} where
  -- The transactions with the nonces from `first` on, as many as given.
  unfoldable pub run_from : ℕ → ℕ → List (ℕ × Tx) → List (Option Tx)
  run_from zero first items = []
  run_from (suc k) first items = Dict.get ℕ_discrete first items ∷ run_from k (suc first) items

  -- `txs` is the run from `first` on, as far as it goes, and `rest` is left.
  pub record Takes (first : ℕ) (items : List (ℕ × Tx)) (txs : List (Option Tx))
      (rest : List (ℕ × Tx)) : Type 0 where
    pub taken : txs ≡ run_from (length txs) first items
    pub present :
        (n : ℕ)
        → first ≤ n
        → n < first + length txs
        → (tx : Tx) × (Dict.get ℕ_discrete n items ≡ some tx)
    pub maximal :
        (first + length txs ≡ 2 ^ 64) ⊎ (Dict.get ℕ_discrete (first + length txs) items ≡ none)
    pub left :
        (n : ℕ)
        → Dict.get ℕ_discrete n rest ≡ (
            if leb first n && ltb n (first + length txs) then none else Dict.get ℕ_discrete n items)

  pop-Indexed :
      (items : List (ℕ × Tx)) (index : List ℕ) (next : ℕ)
      → Indexed items index
      → 0 < length index
      → slot index 0 ≡ next
      → Indexed (Dict.delete ℕ_discrete next items) (heap_pop index).1
        × (length (heap_pop index).1 + 1 ≡ length index)
        × ((tx : Tx) × (Dict.get ℕ_discrete next items ≡ some tx))
  pop-Indexed items index next h p e =
      let (top, o, size, c) = heap_pop_lem index h.ordered p in
      let there : found (Dict.get ℕ_discrete next items) ≡ 1 =
        ground (arith, h.counted next, e, count-slot index 0 p) in
      (
        record {
          keyed = Dict.delete-Keyed ℕ_discrete next items h.keyed;
          ordered = o;
          counted = λ n.
              ground (arith, c n, e, there, h.counted n, Dict.get-delete ℕ_discrete n next items);
          fits = λ n tx f. ground (arith, h.fits n tx, Dict.get-delete ℕ_discrete n next items);
        },
        size,
        ground (arith, there),
      )

  -- What stands first in the index is among the items.
  first_present :
      (items : List (ℕ × Tx)) (index : List ℕ)
      → Indexed items index
      → 0 < length index
      → (tx : Tx) × (Dict.get ℕ_discrete (slot index 0) items ≡ some tx)
  first_present items index h p =
      let there : found (Dict.get ℕ_discrete (slot index 0) items) ≡ 1 =
        ground (arith, h.counted (slot index 0), count-slot index 0 p) in
      ground (arith, there)

  ready_loop-stops :
      (fuel next : ℕ) (items : List (ℕ × Tx)) (index : List ℕ)
      → (not (length index == 0) && (slot index 0 == next)) ≡ false
      → ready_loop fuel next items index ≡ ([], items, index)
  unfolding ready_loop
  ready_loop-stops zero next items index e = refl
  ready_loop-stops (suc fuel) next items index e = rw e refl

  ready_loop-takes :
      (fuel next : ℕ) (items : List (ℕ × Tx)) (index : List ℕ)
      → (not (length index == 0) && (slot index 0 == next)) ≡ true
      → (let rest =
            ready_loop fuel
              ((next + 1) % 2 ^ 64)
              (Dict.delete ℕ_discrete next items)
              (heap_pop index).1 in
          ready_loop (suc fuel) next items index
          ≡ (Dict.get ℕ_discrete next items ∷ rest.0, rest.1, rest.2))
  unfolding ready_loop
  ready_loop-takes fuel next items index e = rw e refl

  Takes-none :
      (first : ℕ) (items : List (ℕ × Tx))
      → (first ≡ 2 ^ 64) ⊎ (Dict.get ℕ_discrete first items ≡ none)
      → Takes first items [] items
  unfolding run_from
  Takes-none first items m = record {
    taken = refl;
    present = λ n p q. absurd (omega arith);
    maximal = ground arith;
    left = λ n. ground arith;
  }

  run_from-delete :
      (k first gone : ℕ) (items : List (ℕ × Tx))
      → gone < first
      → run_from k first (Dict.delete ℕ_discrete gone items) ≡ run_from k first items
  unfolding run_from
  run_from-delete zero first gone items p = refl
  run_from-delete (suc k) first gone items p =
      ap₂ ◌∷◌ (ground (arith, Dict.get-delete ℕ_discrete first gone items))
        (run_from-delete k (suc first) gone items (omega arith))

  Takes-more :
      (first : ℕ) (items : List (ℕ × Tx)) (tx : Tx) (txs : List (Option Tx)) (rest : List (ℕ × Tx))
      → Dict.get ℕ_discrete first items ≡ some tx
      → Takes (suc first) (Dict.delete ℕ_discrete first items) txs rest
      → Takes first items (Dict.get ℕ_discrete first items ∷ txs) rest
  unfolding run_from
  Takes-more first items tx txs rest e t = record {
    taken =
        ap (λ r. Dict.get ℕ_discrete first items ∷ r)
          (t.taken ∙ run_from-delete (length txs) (suc first) first items (omega arith));
    present = λ n p q. elim (ℕ_discrete n first) [
      | yes same ↦ (tx, ap (λ m. Dict.get ℕ_discrete m items) same ∙ e)
      | no other ↦
          let (u, f) = t.present n (omega (arith, other)) (omega arith) in
          (u, ground (arith, f, other, Dict.get-delete ℕ_discrete n first items))
    ];
    maximal =
        ground (arith, t.maximal, Dict.get-delete ℕ_discrete (suc first + length txs) first items);
    left = λ n. ground (arith, t.left n, e, Dict.get-delete ℕ_discrete n first items);
  }

  least_below :
      (items : List (ℕ × Tx)) (index : List ℕ)
      → Indexed items index
      → (n : ℕ) (tx : Tx) → Dict.get ℕ_discrete n items ≡ some tx
      → (0 < length index) × (slot index 0 ≤ n)
  least_below items index h n tx e =
      let c : count n index ≡ 1 = h.counted n ∙ ap found e in
      let (i, inside, at) = find_slot n index (omega (arith, c)) in
      (omega (arith, inside), first_least index n h.ordered (omega (arith, c)))

  ready_loop-stopped :
      (first : ℕ) (items : List (ℕ × Tx)) (index : List ℕ)
      → first ≤ 2 ^ 64
      → Indexed items index
      → ((n : ℕ) (tx : Tx) → Dict.get ℕ_discrete n items ≡ some tx → first ≤ n)
      → (not (length index == 0) && (slot index 0 == first % 2 ^ 64)) ≡ false
      → (first ≡ 2 ^ 64) ⊎ (Dict.get ℕ_discrete first items ≡ none)
  ready_loop-stopped first items index small h low stop =
      elim (Option-cases (Dict.get ℕ_discrete first items)) [
        | inl gone ↦ inr gone
        | inr (tx, e) ↦
            let (p, b) = least_below items index h first tx e in
            let (u, there) = first_present items index h p in
            inl (ground (arith, b, low (slot index 0) u there, stop, h.fits first tx e))
      ]

  ready_loop-goes :
      (fuel first : ℕ) (items : List (ℕ × Tx)) (index : List ℕ)
      → first < 2 ^ 64
      → (not (length index == 0) && (slot index 0 == first % 2 ^ 64)) ≡ true
      → (let rest =
            ready_loop fuel
              (suc first % 2 ^ 64)
              (Dict.delete ℕ_discrete first items)
              (heap_pop index).1 in
          ready_loop (suc fuel) (first % 2 ^ 64) items index
          ≡ (Dict.get ℕ_discrete first items ∷ rest.0, rest.1, rest.2))
  ready_loop-goes fuel first items index small go =
      let same : first % 2 ^ 64 ≡ first = omega arith in
      let next : (first + 1) % 2 ^ 64 ≡ suc first % 2 ^ 64 = omega arith in
      let round : ℕ → ℕ → List (Option Tx) × List (ℕ × Tx) × List ℕ = λ a b.
        let rest = ready_loop fuel b (Dict.delete ℕ_discrete a items) (heap_pop index).1 in
        (Dict.get ℕ_discrete a items ∷ rest.0, rest.1, rest.2) in
      ready_loop-takes fuel (first % 2 ^ 64) items index go
      ∙ ap (λ a. round a ((a + 1) % 2 ^ 64)) same
      ∙ ap (round first) next

  -- The loop takes out the run from its first nonce on.
  ready_loop_lem :
      (fuel first : ℕ) (items : List (ℕ × Tx)) (index : List ℕ)
      → length index ≤ fuel
      → first ≤ 2 ^ 64
      → Indexed items index
      → ((n : ℕ) (tx : Tx) → Dict.get ℕ_discrete n items ≡ some tx → first ≤ n)
      → (let r = ready_loop fuel (first % 2 ^ 64) items index in
          Takes first items r.0 r.1 × Indexed r.1 r.2)
  ready_loop_lem zero first items index f small h low =
      let stop : (not (length index == 0) && (slot index 0 == first % 2 ^ 64)) ≡ false =
        ground arith in
      rw (ready_loop-stops zero (first % 2 ^ 64) items index stop)
        (Takes-none first items (ready_loop-stopped first items index small h low stop), h)
  ready_loop_lem (suc fuel) first items index f small h low =
      elim (Bool-cases (not (length index == 0) && (slot index 0 == first % 2 ^ 64))) [
        | inl go ↦
            let p : 0 < length index = ground (arith, go) in
            let (u, there) = first_present items index h p in
            let least : slot index 0 ≡ first =
              ground (arith, go, low (slot index 0) u there, h.fits (slot index 0) u there) in
            let (kept, size, (tx, e)) = pop-Indexed items index first h p least in
            let (taken, rest) =
              ready_loop_lem fuel (suc first) (Dict.delete ℕ_discrete first items)
                (heap_pop index).1 (omega (arith, size)) (omega (arith, h.fits first tx e)) kept
                (λ n v q. ground (arith, low n v, Dict.get-delete ℕ_discrete n first items)) in
            rw (ready_loop-goes fuel first items index (h.fits first tx e) go)
              (Takes-more first items tx _ _ e taken, rest)
        | inr stop ↦
            rw (ready_loop-stops (suc fuel) (first % 2 ^ 64) items index stop)
              (Takes-none first items (ready_loop-stopped first items index small h low stop), h)
      ]

  -- The entries that stay are those that were there.
  Takes-kept :
      (first : ℕ) (items : List (ℕ × Tx)) (txs : List (Option Tx)) (rest : List (ℕ × Tx))
      → Takes first items txs rest
      → (n : ℕ) (tx : Tx) → Dict.get ℕ_discrete n rest ≡ some tx
      → Dict.get ℕ_discrete n items ≡ some tx
  Takes-kept first items txs rest t n tx e = ground (arith, t.left n, e)

  ready-stops :
      (start : ℕ) (m : TxSortedMap Tx)
      → ((length m.index == 0) || ltb start (slot m.index 0)) ≡ true
      → ready start m ≡ ([], m)
  unfolding ready
  ready-stops start m stop = rw stop refl

  ready-goes :
      (start : ℕ) (m : TxSortedMap Tx)
      → ((length m.index == 0) || ltb start (slot m.index 0)) ≡ false
      → slot m.index 0 < 2 ^ 64
      → (let r = ready_loop (length m.index) (slot m.index 0 % 2 ^ 64) m.items m.index in
          ready start m ≡ (r.0, record { items = r.1; index = r.2; cache = none }))
  unfolding ready
  ready-goes start m go small =
      let same : slot m.index 0 % 2 ^ 64 ≡ slot m.index 0 = omega arith in rw go (rw same refl)

module _ {Tx : Type 0} (nonce : Tx → ℕ) where
  -- `Ready` returns nothing and leaves the map when every nonce is above its start. Otherwise it
  -- takes out the run of consecutive nonces from the least one on, which is at most the start, as
  -- far as the run goes; the rest stays, and so does the invariant.
  pub ready_lem :
      (start : ℕ) (m : TxSortedMap Tx)
      → IsTxMap nonce m
      → ((ready start m ≡ ([], m)) × ((n : ℕ) (tx : Tx) → get n m ≡ some tx → start < n))
        ⊎ ((first : ℕ) × (first ≤ start)
            × ((tx : Tx) × (get first m ≡ some tx))
            × ((n : ℕ) (tx : Tx) → get n m ≡ some tx → first ≤ n)
            × (Takes first m.items (ready start m).0 (ready start m).1.items
                × IsTxMap nonce (ready start m).1))
  unfolding get
  ready_lem start m h = elim (Bool-cases ((length m.index == 0) || ltb start (slot m.index 0))) [
    | inl stop ↦ inl (
      ready-stops start m stop,
      λ n tx e. ground (arith, stop, least_below m.items m.index h.indexed n tx e),
    )
    | inr go ↦
        let p : 0 < length m.index = ground (arith, go) in
        let low : (n : ℕ) (tx : Tx) → get n m ≡ some tx → slot m.index 0 ≤ n =
          λ n tx e. (least_below m.items m.index h.indexed n tx e).1 in
        let there = first_present m.items m.index h.indexed p in
        let small = h.indexed.fits (slot m.index 0) there.0 there.1 in
        let (t, i) =
          ready_loop_lem (length m.index) (slot m.index 0) m.items m.index (omega arith)
            (omega (arith, small)) h.indexed low in
        inr (
          slot m.index 0,
          ground (arith, go),
          there,
          low,
          rw (ready-goes start m go small) (
            t,
            record {
              indexed = i;
              own = λ n tx e. h.own n tx (Takes-kept (slot m.index 0) m.items _ _ t n tx e);
              cached = λ txs e. cc;
            },
          ),
        )
  ]
