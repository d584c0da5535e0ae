-- ===== src/Base/Strings.antt =====
-- Go's strings and byte slices, as the lists of their bytes.
use Prim.Native.Nat.{ℕ, zero, suc}
use mathlib.Core.Path.{refl, ap₂}
use mathlib.Core.List.{List, [], ◌∷◌}
use native.Mathlib.Decide.{ℕ_discrete}

abbrev pub Bytes : Type 0
Bytes = List ℕ

-- `make([]byte, n)`
abbrev pub zeros : ℕ → Bytes
zeros zero = []
zeros (suc n) = 0 ∷ zeros n

unfoldable pub bytes_discrete : Discrete Bytes
bytes_discrete [] [] = yes refl
bytes_discrete [] (y ∷ ys) = no (λ e. cc)
bytes_discrete (x ∷ xs) [] = no (λ e. cc)
bytes_discrete (x ∷ xs) (y ∷ ys) = elim (ℕ_discrete x y) [
  | yes p ↦ elim (bytes_discrete xs ys) [ yes q ↦ yes (ap₂ ◌∷◌ p q) | no n ↦ no (λ e. n cc) ]
  | no n ↦ no (λ e. n cc)
]
