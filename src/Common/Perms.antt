-- ===== src/Common/Perms.antt =====
-- What two lists of numbers share that hold the same ones in another order.
use Prim.Native.Nat.{ℕ, suc, ◌+◌}
use mathlib.Core.Path.{◌≡◌, refl, ap, ◌∙◌}
use mathlib.Core.Logic.{∥∥₁_elim}
use mathlib.Core.List.{List, [], ◌∷◌, ◌++◌, Perm, Permᴰ}
use native.Mathlib.Omega.{arith}
use native.Mathlib.Nat.{ℕ_set}
use kuberne_tsn.Common.Lists.{length}
use kuberne_tsn.Common.Tests.{◌==◌, if◌then◌else◌}

-- how often `a` stands in a list
abbrev pub occurs : ℕ → List ℕ → ℕ
occurs a [] = 0
occurs a (x ∷ xs) = (if x == a then 1 else 0) + occurs a xs

pub occurs-append : (a : ℕ) (xs ys : List ℕ) → occurs a (xs ++ ys) ≡ occurs a xs + occurs a ys
occurs-append a [] ys = omega arith
occurs-append a (x ∷ xs) ys = omega (arith, occurs-append a xs ys)

occurs-Permᴰ : (a : ℕ) {xs ys : List ℕ} → Permᴰ xs ys → occurs a xs ≡ occurs a ys
occurs-Permᴰ a Permᴰ.nil = refl
occurs-Permᴰ a (Permᴰ.cons e p) = rw e (omega (arith, occurs-Permᴰ a p))
occurs-Permᴰ a (Permᴰ.swap e e') = rw (e, e') (omega arith)
occurs-Permᴰ a (Permᴰ.trans p q) = occurs-Permᴰ a p ∙ occurs-Permᴰ a q

pub occurs-Perm : (a : ℕ) {xs ys : List ℕ} → Perm xs ys → occurs a xs ≡ occurs a ys
occurs-Perm a {xs} {ys} p = ∥∥₁_elim p (ℕ_set (occurs a xs) (occurs a ys)) (occurs-Permᴰ a)

length-Permᴰ : {xs ys : List ℕ} → Permᴰ xs ys → length xs ≡ length ys
length-Permᴰ Permᴰ.nil = refl
length-Permᴰ (Permᴰ.cons e p) = ap suc (length-Permᴰ p)
length-Permᴰ (Permᴰ.swap e e') = refl
length-Permᴰ (Permᴰ.trans p q) = length-Permᴰ p ∙ length-Permᴰ q

pub length-Perm : {xs ys : List ℕ} → Perm xs ys → length xs ≡ length ys
length-Perm {xs} {ys} p = ∥∥₁_elim p (ℕ_set (length xs) (length ys)) length-Permᴰ
