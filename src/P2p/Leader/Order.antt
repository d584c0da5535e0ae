-- ===== src/P2p/Leader/Order.antt =====
-- The order of strings, and the first element of a sorted list.
use relayer.Base.{
  List, [], ◌∷◌, true, false, ◌≡◌, refl, subst, ap₂, inl, inr, arith, Bool-cases, In, Bytes,
}
use relayer.P2p.Leader.{less, insert_text, sort_texts}

pub less_irrefl : (x : Bytes) → less x x ≡ false
unfolding less
less_irrefl [] = refl
less_irrefl (x ∷ xs) = ground (arith, less_irrefl xs)

less_asymm : (x y : Bytes) → less x y ≡ true → less y x ≡ false
unfolding less
less_asymm [] [] h = cc
less_asymm [] (y ∷ ys) h = refl
less_asymm (x ∷ xs) [] h = cc
less_asymm (x ∷ xs) (y ∷ ys) h = ground (arith, less_asymm xs ys)

-- That x does not come before y is transitive.
less_negtrans : (x y z : Bytes) → less x y ≡ false → less y z ≡ false → less x z ≡ false
unfolding less
less_negtrans [] [] [] h k = refl
less_negtrans [] [] (z ∷ zs) h k = cc
less_negtrans [] (y ∷ ys) z h k = cc
less_negtrans (x ∷ xs) y [] h k = refl
less_negtrans (x ∷ xs) [] (z ∷ zs) h k = cc
less_negtrans (x ∷ xs) (y ∷ ys) (z ∷ zs) h k = ground (arith, less_negtrans xs ys zs)

pub less_antisymm : (x y : Bytes) → less x y ≡ false → less y x ≡ false → x ≡ y
unfolding less
less_antisymm [] [] h k = refl
less_antisymm [] (y ∷ ys) h k = cc
less_antisymm (x ∷ xs) [] h k = cc
less_antisymm (x ∷ xs) (y ∷ ys) h k =
    ap₂ ◌∷◌ (ground arith) (less_antisymm xs ys (ground arith) (ground arith))

-- A text of the list that no other comes before.
pub record IsFirst (h : Bytes) (xs : List Bytes) : Type 0 where
  pub member : In h xs
  pub first : (y : Bytes) → In y xs → less y h ≡ false

abbrev pub SortedHead : List Bytes → Type 0
SortedHead xs = (h : Bytes) × (t : List Bytes) × (sort_texts xs ≡ h ∷ t) × IsFirst h xs

insert_text-below :
    (x h : Bytes) (t : List Bytes) → less h x ≡ true → insert_text x (h ∷ t) ≡ h ∷ insert_text x t
unfolding insert_text
insert_text-below x h t e = ground arith

insert_text-above :
    (x h : Bytes) (t : List Bytes) → less h x ≡ false → insert_text x (h ∷ t) ≡ x ∷ h ∷ t
unfolding insert_text
insert_text-above x h t e = ground arith

pub sort_texts_head : (x : Bytes) (xs : List Bytes) → SortedHead (x ∷ xs)
unfolding sort_texts insert_text
sort_texts_head x [] = (
  x,
  [],
  refl,
  record {
    member = inl refl;
    first = λ y i. elim i [ inl e ↦ rw e (less_irrefl y) | inr n ↦ absurd n ];
  },
)
sort_texts_head x (y ∷ ys) =
    let (h, t, e, f) = sort_texts_head y ys in
    elim (Bool-cases (less h x)) [
      | inl below ↦ (
        h,
        insert_text x t,
        rw (e, insert_text-below x h t below) refl,
        record {
          member = inr f.member;
          first = λ z i. elim i [
            | inl here ↦ subst (λ w. less w h ≡ false) here (less_asymm h x below)
            | inr later ↦ f.first z later
          ];
        },
      )
      | inr above ↦ (
        x,
        h ∷ t,
        rw (e, insert_text-above x h t above) refl,
        record {
          member = inl refl;
          first = λ z i. elim i [
            | inl here ↦ rw here (less_irrefl z)
            | inr later ↦ less_negtrans z h x (f.first z later) above
          ];
        },
      )
    ]
