-- ===== src/Base/Lists.antt =====
-- Lists measured and indexed by the native numbers, under the library's names.
use Prim.Native.Nat.{ℕ, zero, suc, ◌+◌, ◌<◌, ◌≤◌}
use mathlib.Core.Path.{◌≡◌, refl, ap, subst}
use mathlib.Core.Bool.{Bool, true, false, ◌&&◌, ◌||◌}
use mathlib.Core.Option.{Option, none, some}
use mathlib.Core.List.{List, [], ◌∷◌, ◌++◌, map}
use native.Mathlib.Omega.{arith}
use mathlib.Core.Logic.{inl, inr}
use trace_graph.Base.Tests.{if◌then◌else◌, Bool-cases}

module _ {ℓ} {A : Type ℓ} where
  abbrev pub length : List A → ℕ
  length [] = 0
  length (x ∷ xs) = suc (length xs)

  abbrev pub get_elem? : List A → ℕ → Option A
  get_elem? [] i = none
  get_elem? (x ∷ xs) zero = some x
  get_elem? (x ∷ xs) (suc i) = get_elem? xs i

  abbrev pub take : ℕ → List A → List A
  take zero xs = []
  take (suc n) [] = []
  take (suc n) (x ∷ xs) = x ∷ take n xs

  abbrev pub drop : ℕ → List A → List A
  drop zero xs = xs
  drop (suc n) [] = []
  drop (suc n) (x ∷ xs) = drop n xs

  abbrev pub all : (A → Bool) → List A → Bool
  all p [] = true
  all p (x ∷ xs) = p x && all p xs

  abbrev pub any : (A → Bool) → List A → Bool
  any p [] = false
  any p (x ∷ xs) = p x || any p xs

  -- `Array.prototype.find`
  abbrev pub find : (A → Bool) → List A → Option A
  find p [] = none
  find p (x ∷ xs) = if p x then some x else find p xs

  -- `Array.prototype.filter`
  abbrev pub filter : (A → Bool) → List A → List A
  filter p [] = []
  filter p (x ∷ xs) = if p x then x ∷ filter p xs else filter p xs

  pub take-append_drop : (n : ℕ) (xs : List A) → take n xs ++ drop n xs ≡ xs
  take-append_drop zero xs = refl
  take-append_drop (suc n) [] = refl
  take-append_drop (suc n) (x ∷ xs) = ap (λ ys. x ∷ ys) (take-append_drop n xs)

  pub drop-all : (n : ℕ) (xs : List A) → n ≡ length xs → drop n xs ≡ []
  drop-all zero [] h = refl
  drop-all zero (x ∷ xs) h = absurd (omega arith)
  drop-all (suc n) [] h = refl
  drop-all (suc n) (x ∷ xs) h = drop-all n xs (omega arith)

  pub length-take : (n : ℕ) (xs : List A) → n ≤ length xs → length (take n xs) ≡ n
  length-take zero xs h = refl
  length-take (suc n) [] h = absurd (omega arith)
  length-take (suc n) (x ∷ xs) h = ap suc (length-take n xs (omega arith))

  pub length-append : (xs ys : List A) → length (xs ++ ys) ≡ length xs + length ys
  length-append [] ys = omega arith
  length-append (x ∷ xs) ys = omega (arith, length-append xs ys)

module _ {ℓ κ} {A : Type ℓ} (P : A → Type κ) where
  abbrev pub All : List A → Type κ
  All [] = Unit
  All (x ∷ xs) = P x × All xs

  pub All-append : (xs ys : List A) → All xs → All ys → All (xs ++ ys)
  All-append [] ys h k = k
  All-append (x ∷ xs) ys (p, h) k = (p, All-append xs ys h k)

-- A search succeeds where an element of the list passes the test, and what it finds passes it.
pub find-get_elem? {ℓ} :
    {A : Type ℓ} (p : A → Bool) (xs : List A) (k : ℕ) (x : A)
    → get_elem? xs k ≡ some x
    → p x ≡ true
    → (y : A) × (find p xs ≡ some y) × (p y ≡ true)
find-get_elem? p [] k x e t = cc
find-get_elem? p (z ∷ xs) zero x e t = (z, rw here refl, here)
  where
    here : p z ≡ true
    here = cc
find-get_elem? p (z ∷ xs) (suc k) x e t = elim (Bool-cases (p z)) [
  | inl here ↦ (z, rw here refl, here)
  | inr there ↦ let (y, f, q) = find-get_elem? p xs k x e t in (y, rw there f, q)
]

pub get_elem?-bound {ℓ} :
    {A : Type ℓ} (xs : List A) (k : ℕ) (x : A) → get_elem? xs k ≡ some x → k < length xs
get_elem?-bound [] k x e = cc
get_elem?-bound (y ∷ xs) zero x e = omega arith
get_elem?-bound (y ∷ xs) (suc k) x e = omega (arith, get_elem?-bound xs k x e)

pub get_elem?-in_range {ℓ} :
    {A : Type ℓ} (xs : List A) (k : ℕ) → k < length xs → (x : A) × (get_elem? xs k ≡ some x)
get_elem?-in_range [] k h = absurd (omega arith)
get_elem?-in_range (x ∷ xs) zero h = (x, refl)
get_elem?-in_range (x ∷ xs) (suc k) h = get_elem?-in_range xs k (omega arith)

-- What a search finds has what every element has.
pub All-find {ℓ κ} :
    {A : Type ℓ} (P : A → Type κ) (p : A → Bool) (xs : List A) (x : A)
    → All P xs
    → find p xs ≡ some x
    → P x
All-find P p [] x h e = cc
All-find P p (y ∷ xs) x (a, h) e = elim (Bool-cases (p y)) [
  | inl t ↦ subst P (found t e) a
  | inr f ↦ All-find P p xs x h (later f e)
]
  where
    found : p y ≡ true → find p (y ∷ xs) ≡ some x → y ≡ x
    found t e = cc (t, e)

    later : p y ≡ false → find p (y ∷ xs) ≡ some x → find p xs ≡ some x
    later f e = ground (arith, f, e)

pub length-map {ℓ κ} :
    {A : Type ℓ} {B : Type κ} (f : A → B) (xs : List A) → length (map f xs) ≡ length xs
length-map f [] = refl
length-map f (x ∷ xs) = ap suc (length-map f xs)
