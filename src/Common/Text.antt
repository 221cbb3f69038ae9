-- ===== src/Common/Text.antt =====
-- The C library's `strncpy`, on byte arrays. A source text is its bytes before the NUL.
use Prim.Native.Nat.{ℕ, zero, suc}
use mathlib.Core.List.{List, [], ◌∷◌}

-- `strncpy(dst, src, n)`: the first `n` bytes of the text, filled up with NUL bytes; the bytes of
-- `dst` from `n` on stay.
unfoldable pub strncpy : List ℕ → List ℕ → ℕ → List ℕ
strncpy dst src zero = dst
strncpy [] src (suc n) = []
strncpy (d ∷ dst) [] (suc n) = 0 ∷ strncpy dst [] n
strncpy (d ∷ dst) (c ∷ src) (suc n) = c ∷ strncpy dst src n
