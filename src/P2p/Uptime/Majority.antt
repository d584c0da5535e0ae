-- ===== src/P2p/Uptime/Majority.antt =====
-- Whom the list of libp2p/rpc/uptime/client.go names: the peers that more than half of the reports
-- on them find within the window.
use relayer.Base.{
  ℕ, suc, ◌+◌, ◌/◌, ◌<◌, List, [], ◌∷◌, ◌++◌, Option, none, some, ite, if◌then◌else◌, length, ◌≡◌,
  ◌⊎◌, ◌↔◌, refl, sym, ◌∙◌, ap, arith, subst, inl, inr, In, Bool-cases, Option-cases,
}
use relayer.Base.Int.{ℤ, pos}
use relayer.Base.Dict
use relayer.P2p.Uptime.{
  UpTime, in_window, tally, append_uptime, add_own, add_result, add_results, res_list, uptime,
}

-- How many of the durations are within the window.
unfoldable pub in_window_count : ℕ → ℕ → List ℤ → ℕ
in_window_count interval ticker [] = 0
in_window_count interval ticker (d ∷ ds) =
    let rest = in_window_count interval ticker ds in
    if in_window interval ticker d then suc rest else rest

tally-count :
    (interval ticker : ℕ) (ds : List ℤ) (cnt : ℕ) (dur : ℤ)
    → (tally interval ticker ds cnt dur).0 ≡ cnt + in_window_count interval ticker ds
unfolding tally in_window_count
tally-count interval ticker [] cnt dur = omega arith
tally-count interval ticker (d ∷ ds) cnt dur = elim (Bool-cases (in_window interval ticker d)) [
  | inl e ↦ rw e (tally-count interval ticker ds (suc cnt) _ ∙ omega arith)
  | inr e ↦ rw e (tally-count interval ticker ds cnt dur)
]

-- More than half of the durations are within the window.
abbrev pub HasMajority : ℕ → ℕ → List ℤ → Type 0
HasMajority interval ticker ds = length ds / 2 < in_window_count interval ticker ds

abbrev known : Option (List ℤ) → List ℤ
known none = []
known (some ds) = ds

abbrev pub named : {Peer : Type 0} → List (UpTime Peer) → List Peer
named [] = []
named (u ∷ us) = u.peer_id ∷ named us

module _ {Peer : Type 0} (dec : Discrete Peer) where
  -- All reports that arrive, the leader's own first.
  unfoldable pub own_reports : List (Option (UpTime Peer)) → List (UpTime Peer)
  own_reports [] = []
  own_reports (none ∷ ms) = own_reports ms
  own_reports (some u ∷ ms) = u ∷ own_reports ms

  unfoldable pub other_reports : List (Option (List (UpTime Peer))) → List (UpTime Peer)
  other_reports [] = []
  other_reports (none ∷ rs) = other_reports rs
  other_reports (some us ∷ rs) = us ++ other_reports rs

  -- The durations that are reported of one peer.
  unfoldable pub durations_of : Peer → List (UpTime Peer) → List ℤ
  durations_of id [] = []
  durations_of id (u ∷ us) =
      ite (dec u.peer_id id) (u.dur ∷ durations_of id us) (durations_of id us)

  add_own-eq :
      (ms : List (Option (UpTime Peer))) (m : List (Peer × List ℤ))
      → add_own dec ms m ≡ add_result dec (own_reports ms) m
  unfolding add_own add_result own_reports
  add_own-eq [] m = refl
  add_own-eq (none ∷ ms) m = add_own-eq ms m
  add_own-eq (some u ∷ ms) m = add_own-eq ms _

  add_result-append :
      (us vs : List (UpTime Peer)) (m : List (Peer × List ℤ))
      → add_result dec (us ++ vs) m ≡ add_result dec vs (add_result dec us m)
  unfolding add_result
  add_result-append [] vs m = refl
  add_result-append (u ∷ us) vs m = add_result-append us vs _

  add_results-eq :
      (rs : List (Option (List (UpTime Peer)))) (m : List (Peer × List ℤ))
      → add_results dec rs m ≡ add_result dec (other_reports rs) m
  unfolding add_results other_reports add_result
  add_results-eq [] m = refl
  add_results-eq (none ∷ rs) m = add_results-eq rs m
  add_results-eq (some us ∷ rs) m =
      add_results-eq rs (add_result dec us m) ∙ sym (add_result-append us (other_reports rs) m)

  get-append_uptime :
      (id : Peer) (u : UpTime Peer) (m : List (Peer × List ℤ))
      → Dict.get dec id (append_uptime dec u.peer_id u.dur m)
        ≡ ite
            (dec u.peer_id id)
            (some (known (Dict.get dec u.peer_id m) ++ (u.dur ∷ [])))
            (Dict.get dec id m)
  unfolding append_uptime
  get-append_uptime id u m = elim (Option-cases (Dict.get dec u.peer_id m)) [
    | inl e ↦ rw (append_uptime, e) (Dict.get-put dec id u.peer_id (u.dur ∷ []) m)
    | inr (ds, e) ↦ rw (append_uptime, e) (Dict.get-put dec id u.peer_id (ds ++ (u.dur ∷ [])) m)
  ]

  append_uptime-Keyed :
      (id : Peer) (d : ℤ) (m : List (Peer × List ℤ))
      → Dict.Keyed dec m
      → Dict.Keyed dec (append_uptime dec id d m)
  unfolding append_uptime
  append_uptime-Keyed id d m k = elim (Option-cases (Dict.get dec id m)) [
    | inl e ↦ rw (append_uptime, e) (Dict.put-Keyed dec id (d ∷ []) m k)
    | inr (ds, e) ↦ rw (append_uptime, e) (Dict.put-Keyed dec id (ds ++ (d ∷ [])) m k)
  ]

  add_result-Keyed :
      (us : List (UpTime Peer)) (m : List (Peer × List ℤ))
      → Dict.Keyed dec m
      → Dict.Keyed dec (add_result dec us m)
  unfolding add_result
  add_result-Keyed [] m k = k
  add_result-Keyed (u ∷ us) m k = add_result-Keyed us _ (append_uptime-Keyed u.peer_id u.dur m k)

  append_assoc : (xs ys zs : List ℤ) → (xs ++ ys) ++ zs ≡ xs ++ (ys ++ zs)
  append_assoc [] ys zs = refl
  append_assoc (x ∷ xs) ys zs = ap (◌∷◌ x) (append_assoc xs ys zs)

  append_nil : (xs : List ℤ) → xs ++ [] ≡ xs
  append_nil [] = refl
  append_nil (x ∷ xs) = ap (◌∷◌ x) (append_nil xs)

  -- The map holds for each peer what was reported of it.
  get-add_result :
      (id : Peer) (us : List (UpTime Peer)) (m : List (Peer × List ℤ))
      → known (Dict.get dec id (add_result dec us m))
        ≡ known (Dict.get dec id m) ++ durations_of id us
  unfolding add_result durations_of
  get-add_result id [] m = sym (append_nil (known (Dict.get dec id m)))
  get-add_result id (u ∷ us) m =
      get-add_result id us (append_uptime dec u.peer_id u.dur m)
      ∙ ap (λ o. known o ++ durations_of id us) (get-append_uptime id u m)
      ∙ by_peer (dec u.peer_id id)
    where
      by_peer :
          (same : Dec (u.peer_id ≡ id))
          → known (
                ite same
                  (some (known (Dict.get dec u.peer_id m) ++ (u.dur ∷ [])))
                  (Dict.get dec id m))
              ++ durations_of id us
            ≡ known (Dict.get dec id m)
              ++ ite same (u.dur ∷ durations_of id us) (durations_of id us)
      by_peer (yes p) =
          subst
            (λ x.
              (known (Dict.get dec u.peer_id m) ++ (u.dur ∷ [])) ++ durations_of id us
              ≡ known (Dict.get dec x m) ++ (u.dur ∷ durations_of id us))
            p (append_assoc (known (Dict.get dec u.peer_id m)) (u.dur ∷ []) (durations_of id us))
      by_peer (no n) = refl

  module _ (interval ticker : ℕ) where
    head_listed :
        (id k : Peer) (ds : List ℤ) (m : List (Peer × List ℤ))
        → In id (named (res_list dec interval ticker ((k, ds) ∷ m))) ↔ (
            ((k ≡ id) × HasMajority interval ticker ds)
            ⊎ In id (named (res_list dec interval ticker m)))
    unfolding res_list
    head_listed id k ds m = ground (arith, tally-count interval ticker ds 0 (pos 0))

    no_majority : HasMajority interval ticker [] → ⊥
    unfolding in_window_count
    no_majority h = omega (arith, h)

    one_entry :
        (id j : Peer) (ds : List ℤ) (m : List (Peer × List ℤ))
        → Dict.get dec j m ≡ none
        → In id (named (res_list dec interval ticker m))
          ↔ HasMajority interval ticker (known (Dict.get dec id m))
        → (same : Dec (j ≡ id))
        → (((j ≡ id) × HasMajority interval ticker ds)
            ⊎ In id (named (res_list dec interval ticker m)))
          ↔ HasMajority interval ticker (known (ite same (some ds) (Dict.get dec id m)))
    one_entry id j ds m fresh rest (yes p) = (
      λ s. elim s [
        | inl h ↦ h.1
        | inr i ↦ absurd (
            no_majority (
              subst (λ o. HasMajority interval ticker (known o))
                (subst (λ x. Dict.get dec x m ≡ none) p fresh) (rest.0 i)))
      ],
      λ h. inl (p, h),
    )
    one_entry id j ds m fresh rest (no n) =
        (λ s. elim s [ inl h ↦ absurd (n h.0) | inr i ↦ rest.0 i ], λ h. inr (rest.1 h))

    nothing_listed : (id : Peer) → In id (named (res_list dec interval ticker [])) → ⊥
    unfolding res_list
    nothing_listed id i = i

    res_list_iff :
        (id : Peer) (m : List (Peer × List ℤ))
        → Dict.Keyed dec m
        → In id (named (res_list dec interval ticker m))
          ↔ HasMajority interval ticker (known (Dict.get dec id m))
    unfolding Dict.get
    res_list_iff id [] k = (λ i. absurd (nothing_listed id i), λ h. absurd (no_majority h))
    res_list_iff id ((j, ds) ∷ m) k =
        let (there, back) = head_listed id j ds m in
        let (down, up) = one_entry id j ds m k.0 (res_list_iff id m k.1) (dec j id) in
        (λ i. down (there i), λ h. back (up h))

    -- A peer stands in the list that `Uptime` returns exactly if more than half of the durations
    -- that are reported of it, by the leader's own meters and by the nodes that answered, lie
    -- within the window.
    pub uptime-HasMajority_iff :
        (id : Peer) (meters : List (Option (UpTime Peer)))
        (results : List (Option (List (UpTime Peer))))
        → In id (named (uptime dec interval ticker meters results))
          ↔ HasMajority interval ticker
              (durations_of id (own_reports meters ++ other_reports results))
    unfolding uptime Dict.get
    uptime-HasMajority_iff id meters results =
        let reports = own_reports meters ++ other_reports results in
        let same : add_results dec results (add_own dec meters []) ≡ add_result dec reports [] =
          add_results-eq results (add_own dec meters [])
          ∙ ap (add_result dec (other_reports results)) (add_own-eq meters [])
          ∙ sym (add_result-append (own_reports meters) (other_reports results) []) in
        subst
          (λ m.
            In id (named (res_list dec interval ticker m))
            ↔ HasMajority interval ticker (durations_of id reports))
          (sym same)
          (subst
            (λ ds.
              In id (named (res_list dec interval ticker (add_result dec reports [])))
              ↔ HasMajority interval ticker ds)
            (get-add_result id reports [])
            (res_list_iff id (add_result dec reports []) (add_result-Keyed reports [] tt)))
