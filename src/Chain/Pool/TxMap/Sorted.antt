-- ===== src/Chain/Pool/TxMap/Sorted.antt =====
-- The order by nonce of chain/tx_list.go.
use relayer.Base.{
  ℕ, ◌<◌, List, [], ◌∷◌, none, some, false, ltb, ◌≡◌, ◌≢◌, ◌⊎◌, ◌↔◌, inl, inr, refl, sym, arith, In,
  Bool-cases, subst, ℕ_discrete,
}
use relayer.Base.Dict
use relayer.Chain.Pool.TxMap.{values, insert_by_nonce, sort_by_nonce}

module _ {Tx : Type 0} (nonce : Tx → ℕ) where
  -- The nonces ascend.
  abbrev pub Ascending : List Tx → Type 0
  Ascending [] = Unit {0}
  Ascending (t ∷ ts) = ((u : Tx) → In u ts → nonce t < nonce u) × Ascending ts

  insert_by_nonce-step :
      (tx t : Tx) (ts : List Tx)
      → ((nonce t < nonce tx)
          × (insert_by_nonce nonce tx (t ∷ ts) ≡ t ∷ insert_by_nonce nonce tx ts))
        ⊎ ((ltb (nonce t) (nonce tx) ≡ false) × (insert_by_nonce nonce tx (t ∷ ts) ≡ tx ∷ t ∷ ts))
  unfolding insert_by_nonce
  insert_by_nonce-step tx t ts = elim (Bool-cases (ltb (nonce t) (nonce tx))) [
    | inl e ↦ inl (ground arith, rw e refl)
    | inr e ↦ inr (e, rw e refl)
  ]

  insert_by_nonce-In :
      (tx u : Tx) (ts : List Tx) → In u (insert_by_nonce nonce tx ts) ↔ ((tx ≡ u) ⊎ In u ts)
  unfolding insert_by_nonce
  insert_by_nonce-In tx u [] = ground arith
  insert_by_nonce-In tx u (t ∷ ts) = ground (arith, insert_by_nonce-In tx u ts)

  insert_by_nonce-Ascending :
      (tx : Tx) (ts : List Tx)
      → Ascending ts
      → ((u : Tx) → In u ts → nonce u ≢ nonce tx)
      → Ascending (insert_by_nonce nonce tx ts)
  unfolding insert_by_nonce
  insert_by_nonce-Ascending tx [] a fresh = (λ u i. absurd i, tt)
  insert_by_nonce-Ascending tx (t ∷ ts) a fresh = elim (insert_by_nonce-step tx t ts) [
    | inl (lt, e) ↦ subst Ascending (sym e) (
      λ u i. elim ((insert_by_nonce-In tx u ts).0 i) [
        | inl here ↦ subst (λ v. nonce t < nonce v) here lt
        | inr later ↦ a.0 u later
      ],
      insert_by_nonce-Ascending tx ts a.1 (λ u i. fresh u (inr i)),
    )
    | inr (ge, e) ↦
        let first : nonce tx < nonce t = ground (arith, fresh t (inl refl)) in
        subst Ascending (sym e) (
          λ u i. elim i [
            | inl here ↦ subst (λ v. nonce tx < nonce v) here first
            | inr later ↦ omega (arith, first, a.0 u later)
          ],
          a,
        )
  ]

  pub sort_by_nonce-In : (u : Tx) (ts : List Tx) → In u (sort_by_nonce nonce ts) ↔ In u ts
  unfolding sort_by_nonce
  sort_by_nonce-In u [] = (λ i. i, λ i. i)
  sort_by_nonce-In u (t ∷ ts) =
      ground (arith, insert_by_nonce-In t u (sort_by_nonce nonce ts), sort_by_nonce-In u ts)

  -- No two entries have the same nonce.
  abbrev pub Apart : List Tx → Type 0
  Apart [] = Unit {0}
  Apart (t ∷ ts) = ((u : Tx) → In u ts → nonce u ≢ nonce t) × Apart ts

  pub sort_by_nonce-Ascending : (ts : List Tx) → Apart ts → Ascending (sort_by_nonce nonce ts)
  unfolding sort_by_nonce
  sort_by_nonce-Ascending [] a = tt
  sort_by_nonce-Ascending (t ∷ ts) a =
      insert_by_nonce-Ascending t (sort_by_nonce nonce ts) (sort_by_nonce-Ascending ts a.1)
        (λ u i. a.0 u ((sort_by_nonce-In u ts).0 i))

  -- Every transaction stands under its own nonce.
  abbrev pub OwnNonce : List (ℕ × Tx) → Type 0
  OwnNonce items = (n : ℕ) (tx : Tx) → Dict.get ℕ_discrete n items ≡ some tx → nonce tx ≡ n

  OwnNonce-tail :
      (k : ℕ) (tx : Tx) (items : List (ℕ × Tx))
      → Dict.get ℕ_discrete k items ≡ none
      → OwnNonce ((k, tx) ∷ items)
      → OwnNonce items
  unfolding Dict.get
  OwnNonce-tail k tx items fresh own n u e = ground (arith, own n u)

  -- The values of a map are what is found in it.
  pub values-In :
      (u : Tx) (items : List (ℕ × Tx))
      → Dict.Keyed ℕ_discrete items
      → OwnNonce items
      → In u (values items) ↔ (Dict.get ℕ_discrete (nonce u) items ≡ some u)
  unfolding values Dict.get
  values-In u [] k own = (λ i. absurd i, λ e. cc)
  values-In u ((n, tx) ∷ items) k own =
      let rest = values-In u items k.1 (OwnNonce-tail n tx items k.0 own) in
      let here : nonce tx ≡ n = own n tx (ground arith) in ground (arith, rest, k.0)

  pub values-Apart :
      (items : List (ℕ × Tx)) → Dict.Keyed ℕ_discrete items → OwnNonce items → Apart (values items)
  unfolding values Dict.get
  values-Apart [] k own = tt
  values-Apart ((n, tx) ∷ items) k own =
      let tail = OwnNonce-tail n tx items k.0 own in
      let here : nonce tx ≡ n = own n tx (ground arith) in
      (λ u i. ground (arith, (values-In u items k.1 tail).0 i, k.0), values-Apart items k.1 tail)
