-- ===== src/Common/Result.antt =====
-- Go's `(value, error)` where the value is read only if the error is nil: an error is its text.
use Prim.Native.String.{String}
use mathlib.Core.List.{List, [], ◌∷◌}
use crobe.Common.Lists.{All}

pub data Result {ℓ} (A : Type ℓ) : Type ℓ where
  err : String → Result A
  ok : A → Result A

infixl 5 ◌>>=◌
abbrev pub ◌>>=◌ {ℓ κ} : {A : Type ℓ} {B : Type κ} → Result A → (A → Result B) → Result B
err message >>= body = err message
ok value >>= body = body value

-- A loop over a slice whose body can fail: it stops at the first error.
unfoldable pub traverse {ℓ κ} :
    {A : Type ℓ} {B : Type κ} → (A → Result B) → List A → Result (List B)
traverse f [] = ok []
traverse f (x ∷ xs) = f x >>= λ y. traverse f xs >>= λ ys. ok (y ∷ ys)

-- What holds of the value, if there is one.
abbrev pub Ensures {ℓ κ} : {A : Type ℓ} → (A → Type κ) → Result A → Type κ
Ensures P (ok a) = P a
Ensures P (err e) = Unit

pub Ensures-bind {ℓ κ μ ν} :
    {A : Type ℓ} {B : Type κ} (P : A → Type μ) (Q : B → Type ν) (m : Result A) (f : A → Result B)
    → Ensures P m
    → ((a : A) → P a → Ensures Q (f a))
    → Ensures Q (m >>= f)
Ensures-bind P Q (ok a) f p k = k a p
Ensures-bind P Q (err e) f p k = tt

-- Two lists of one length, related place by place.
abbrev pub All₂ {ℓ κ} : {A : Type ℓ} {B : Type κ} → (A → B → Type 0) → List A → List B → Type 0
All₂ R [] [] = Unit
All₂ R [] (y ∷ ys) = ⊥
All₂ R (x ∷ xs) [] = ⊥
All₂ R (x ∷ xs) (y ∷ ys) = R x y × All₂ R xs ys

pub Ensures-traverse :
    {A B : Type 0} (R : A → B → Type 0) (f : A → Result B)
    → ((a : A) → Ensures (R a) (f a))
    → (xs : List A) → Ensures (All₂ R xs) (traverse f xs)
unfolding traverse
Ensures-traverse R f h [] = tt
Ensures-traverse R f h (x ∷ xs) =
    Ensures-bind (R x) (All₂ R (x ∷ xs)) (f x) (λ y. traverse f xs >>= λ ys. ok (y ∷ ys)) (h x)
      (λ y p.
        Ensures-bind (All₂ R xs) (All₂ R (x ∷ xs)) (traverse f xs) (λ ys. ok (y ∷ ys))
          (Ensures-traverse R f h xs) (λ ys q. (p, q)))

pub Ensures-traverse-All :
    {A B : Type 0} (P : B → Type 0) (f : A → Result B)
    → ((a : A) → Ensures P (f a))
    → (xs : List A) → Ensures (All P) (traverse f xs)
unfolding traverse
Ensures-traverse-All P f h [] = tt
Ensures-traverse-All P f h (x ∷ xs) =
    Ensures-bind P (All P) (f x) (λ y. traverse f xs >>= λ ys. ok (y ∷ ys)) (h x)
      (λ y p.
        Ensures-bind (All P) (All P) (traverse f xs) (λ ys. ok (y ∷ ys))
          (Ensures-traverse-All P f h xs) (λ ys q. (p, q)))
