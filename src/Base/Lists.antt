-- ===== src/Base/Lists.antt =====
-- Lists measured and indexed by native numbers, under the library's names; JavaScript's arrays.
use Prim.Native.Nat.{ℕ, zero, suc, ◌+◌, ◌-◌, ◌≤◌, min}
use mathlib.Core.Path.{◌≡◌, refl, ap, subst}
use mathlib.Core.Logic.{◌≢◌}
use mathlib.Core.Bool.{Bool, true, ◌&&◌}
use mathlib.Core.List.{List, [], ◌∷◌, ◌++◌}
use mathlib.Core.Option.{Option, none, some, some-injective}
use native.Mathlib.Omega.{arith}

module _ {ℓ} {A : Type ℓ} where
  abbrev pub length : List A → ℕ
  length [] = 0
  length (x ∷ xs) = suc (length xs)

  -- `xs[i]`, with `none` for `undefined`.
  abbrev pub get_elem? : List A → ℕ → Option A
  get_elem? [] i = none
  get_elem? (x ∷ xs) zero = some x
  get_elem? (x ∷ xs) (suc i) = get_elem? xs i

  -- `xs.slice(0, n)`
  abbrev pub take : ℕ → List A → List A
  take zero xs = []
  take (suc n) [] = []
  take (suc n) (x ∷ xs) = x ∷ take n xs

  -- `xs[0]`
  abbrev pub head? : List A → Option A
  head? [] = none
  head? (x ∷ xs) = some x

  -- `xs[xs.length - 1]`
  abbrev pub get_last? : List A → Option A
  get_last? [] = none
  get_last? (x ∷ []) = some x
  get_last? (x ∷ y ∷ xs) = get_last? (y ∷ xs)

  -- what `xs.pop()` leaves
  abbrev pub drop_last : List A → List A
  drop_last [] = []
  drop_last (x ∷ []) = []
  drop_last (x ∷ y ∷ xs) = x ∷ drop_last (y ∷ xs)

  abbrev pub remove_at : List A → ℕ → List A
  remove_at [] i = []
  remove_at (x ∷ xs) zero = xs
  remove_at (x ∷ xs) (suc i) = x ∷ remove_at xs i

  abbrev pub all : (A → Bool) → List A → Bool
  all p [] = true
  all p (x ∷ xs) = p x && all p xs

  pub length-append : (xs ys : List A) → length (xs ++ ys) ≡ length xs + length ys
  length-append [] ys = omega arith
  length-append (x ∷ xs) ys = omega (arith, length-append xs ys)

  pub length-take : (n : ℕ) (xs : List A) → length (take n xs) ≡ min n (length xs)
  length-take zero xs = omega arith
  length-take (suc n) [] = omega arith
  length-take (suc n) (x ∷ xs) = omega (arith, length-take n xs)

  pub take_of_length_le : (n : ℕ) (xs : List A) → length xs ≤ n → take n xs ≡ xs
  take_of_length_le zero [] h = refl
  take_of_length_le zero (x ∷ xs) h = absurd (omega arith)
  take_of_length_le (suc n) [] h = refl
  take_of_length_le (suc n) (x ∷ xs) h = ap (x ∷◌) (take_of_length_le n xs (omega arith))

  pub length-drop_last : (xs : List A) → length (drop_last xs) ≡ length xs - 1
  length-drop_last [] = refl
  length-drop_last (x ∷ []) = refl
  length-drop_last (x ∷ y ∷ xs) = omega (arith, length-drop_last (y ∷ xs))

  pub head?-append : (xs ys : List A) {x : A} → head? xs ≡ some x → head? (xs ++ ys) ≡ some x
  head?-append [] ys h = cc
  head?-append (y ∷ xs) ys h = h

  pub head?-take : (n : ℕ) (xs : List A) → head? (take (suc n) xs) ≡ head? xs
  head?-take n [] = refl
  head?-take n (x ∷ xs) = refl

  -- What is left after a `pop` has the same first element.
  pub head?-drop_last :
      (xs : List A) {x : A} → get_last? (drop_last xs) ≡ some x → head? (drop_last xs) ≡ head? xs
  head?-drop_last [] h = cc
  head?-drop_last (y ∷ []) h = cc
  head?-drop_last (y ∷ z ∷ xs) h = refl

  pub append_ne_nil : (xs : List A) (y : A) → xs ++ y ∷ [] ≢ []
  append_ne_nil [] y e = cc
  append_ne_nil (x ∷ xs) y e = cc

  pub get_last?-append : (xs : List A) (y : A) → get_last? (xs ++ y ∷ []) ≡ some y
  get_last?-append [] y = refl
  get_last?-append (x ∷ []) y = refl
  get_last?-append (x ∷ z ∷ xs) y = get_last?-append (z ∷ xs) y

  pub drop_last-append : (xs : List A) (y : A) → drop_last (xs ++ y ∷ []) ≡ xs
  drop_last-append [] y = refl
  drop_last-append (x ∷ []) y = refl
  drop_last-append (x ∷ z ∷ xs) y = ap (x ∷◌) (drop_last-append (z ∷ xs) y)

  pub get_last?-take :
      (xs : List A) (i : ℕ) {x : A} → get_elem? xs i ≡ some x → get_last? (take (suc i) xs) ≡ some x
  get_last?-take [] i h = cc
  get_last?-take (x ∷ xs) zero h = h
  get_last?-take (x ∷ []) (suc i) h = cc
  get_last?-take (x ∷ y ∷ xs) (suc i) h = get_last?-take (y ∷ xs) i h

module _ {ℓ κ} {A : Type ℓ} (P : A → Type κ) where
  abbrev pub All : List A → Type κ
  All [] = Unit
  All (x ∷ xs) = P x × All xs

  pub All-append : (xs ys : List A) → All xs → All ys → All (xs ++ ys)
  All-append [] ys h k = k
  All-append (x ∷ xs) ys (p, h) k = (p, All-append xs ys h k)

  pub All-take : (n : ℕ) (xs : List A) → All xs → All (take n xs)
  All-take zero xs h = tt
  All-take (suc n) [] h = tt
  All-take (suc n) (x ∷ xs) (p, h) = (p, All-take n xs h)

  pub All-remove_at : (xs : List A) (i : ℕ) → All xs → All (remove_at xs i)
  All-remove_at [] i h = tt
  All-remove_at (x ∷ xs) zero (p, h) = h
  All-remove_at (x ∷ xs) (suc i) (p, h) = (p, All-remove_at xs i h)

  pub All-get_elem? : (xs : List A) (i : ℕ) {x : A} → All xs → get_elem? xs i ≡ some x → P x
  All-get_elem? [] i h e = cc
  All-get_elem? (x ∷ xs) zero (p, h) e = subst P (some-injective _ _ e) p
  All-get_elem? (x ∷ xs) (suc i) (p, h) e = All-get_elem? xs i h e

pub All-imp {ℓ κ μ} :
    {A : Type ℓ} (P : A → Type κ) (Q : A → Type μ) (xs : List A)
    → ((x : A) → P x → Q x)
    → All P xs
    → All Q xs
All-imp P Q [] f h = tt
All-imp P Q (x ∷ xs) f (p, h) = (f x p, All-imp P Q xs f h)
