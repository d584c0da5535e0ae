-- ===== src/Base/Dict.antt =====
-- Go's maps, as association lists over a key type with decidable equality. A key stands at most
-- once in a map that `put` and `delete` have built (`Keyed`), so `length` is the map's `len`.
use relayer.Base.Lists.{length}
use Prim.Native.Nat.{suc, ◌+◌}
use mathlib.Core.Path.{◌≡◌, refl, ap}
use mathlib.Core.Logic.{ite, if_pos}
use mathlib.Core.List.{List, [], ◌∷◌}
use mathlib.Core.Option.{Option, none, some}
use native.Mathlib.Omega.{arith}

module _ {K V : Type 0} (dec : Discrete K) where
  -- `v, ok := m[k]`
  unfoldable pub get : K → List (K × V) → Option V
  get k [] = none
  get k ((j, v) ∷ m) = ite (dec j k) (some v) (get k m)

  -- `delete(m, k)`
  unfoldable pub delete : K → List (K × V) → List (K × V)
  delete k [] = []
  delete k ((j, v) ∷ m) = ite (dec j k) (delete k m) ((j, v) ∷ delete k m)

  -- `m[k] = v`
  unfoldable pub put : K → V → List (K × V) → List (K × V)
  put k v m = (k, v) ∷ delete k m

  pub get-delete : (j k : K) (m : List (K × V)) → get j (delete k m) ≡ ite (dec k j) none (get j m)
  unfolding get delete
  get-delete j k [] = ground arith
  get-delete j k ((i, v) ∷ m) = ground (arith, get-delete j k m)

  pub get-put :
      (j k : K) (v : V) (m : List (K × V)) → get j (put k v m) ≡ ite (dec k j) (some v) (get j m)
  unfolding get put
  get-put j k v m = ground (arith, get-delete j k m)

  -- No key stands twice.
  abbrev pub Keyed : List (K × V) → Type 0
  Keyed [] = Unit {0}
  Keyed ((k, v) ∷ m) = (get k m ≡ none) × Keyed m

  pub delete-Keyed : (k : K) (m : List (K × V)) → Keyed m → Keyed (delete k m)
  unfolding delete
  delete-Keyed k [] h = tt
  delete-Keyed k ((j, v) ∷ m) h = ground (arith, delete-Keyed k m h.1, get-delete j k m)

  pub put-Keyed : (k : K) (v : V) (m : List (K × V)) → Keyed m → Keyed (put k v m)
  unfolding put
  put-Keyed k v m h = (rw (get-delete k k m) (if_pos (dec k k) refl _ _), delete-Keyed k m h)

  pub delete_absent : (k : K) (m : List (K × V)) → get k m ≡ none → delete k m ≡ m
  unfolding get delete
  delete_absent k [] h = refl
  delete_absent k ((j, v) ∷ m) h = ground (arith, delete_absent k m)

  pub length-delete :
      (k : K) (m : List (K × V)) (v : V)
      → Keyed m
      → get k m ≡ some v
      → length (delete k m) + 1 ≡ length m
  unfolding get delete
  length-delete k [] v w h = cc
  length-delete k ((j, u) ∷ m) v w h = ground (arith, length-delete k m v w.1, delete_absent k m)

  pub length-put :
      (k : K) (v : V) (m : List (K × V)) → get k m ≡ none → length (put k v m) ≡ suc (length m)
  unfolding put
  length-put k v m h = rw (delete_absent k m h) refl

  -- An entry that is overwritten might as well be deleted first.
  pub put-delete : (k : K) (v : V) (m : List (K × V)) → put k v (delete k m) ≡ put k v m
  unfolding put
  put-delete k v m =
      ap (◌∷◌ (k, v))
        (delete_absent k (delete k m) (rw (get-delete k k m) (if_pos (dec k k) refl _ _)))

  -- a map with one entry
  pub get_one : (k : K) (v : V) → get k ((k, v) ∷ []) ≡ some v
  unfolding get
  get_one k v = if_pos (dec k k) refl (some v) none

  pub delete_one : (k : K) (v : V) → delete k ((k, v) ∷ []) ≡ []
  unfolding delete
  delete_one k v = if_pos (dec k k) refl [] ((k, v) ∷ [])
