-- ===== src/Common/Results.antt =====
-- Results of code that throws, with the error as a value.
use mathlib.Core.Path.{◌≡◌, refl}
use mathlib.Core.Bool.{Bool, true, false}
use mathlib.Core.Option.{Option, none, some}
use mathlib.Core.List.{List, [], ◌∷◌, ◌++◌, Memᴰ}
use mathlib.Core.Logic.{◌⊎◌, inl, inr}
use Prim.Native.Nat.{ℕ, zero, suc}
use lsfg_vk_android.Common.Lists.{take, drop, set}
use lsfg_vk_android.Common.Tests.{Bool-cases}

pub data Result {ℓ} (E A : Type ℓ) : Type ℓ where
  ok : A → Result E A
  err : E → Result E A

infixl 5 ◌>>=◌ ◌>>◌
abbrev pub ◌>>=◌ {ℓ} : {E A B : Type ℓ} → Result E A → (A → Result E B) → Result E B
ok a >>= f = f a
err e >>= f = err e

abbrev pub ◌>>◌ {ℓ} : {E A B : Type ℓ} → Result E A → Result E B → Result E B
m >> k = m >>= λ _. k

-- `if (test) throw error;`
abbrev pub throw_if : {E : Type 0} → Bool → E → Result E (Unit {0})
throw_if true e = err e
throw_if false e = ok tt

abbrev pub or_throw {ℓ} : {E A : Type ℓ} → Option A → E → Result E A
or_throw none e = err e
or_throw (some a) e = ok a

-- The first element that passes a test.
abbrev pub find {ℓ} : {A : Type ℓ} → (A → Bool) → List A → Option A
find p [] = none
find p (x ∷ xs) = elim (p x) [ true ↦ some x | false ↦ find p xs ]

abbrev pub All {ℓ κ} : {A : Type ℓ} → (A → Type κ) → List A → Type κ
All P [] = Unit
All P (x ∷ xs) = P x × All P xs

-- Whatever the code returns satisfies a predicate.
abbrev pub Yields {ℓ κ} : {E A : Type ℓ} → (A → Type κ) → Result E A → Type κ
Yields P (ok a) = P a
Yields P (err e) = Unit

pub throw_if-Yields {κ} :
    {E A : Type 0} (P : A → Type κ) (test : Bool) (e : E) (rest : Result E A)
    → (test ≡ false → Yields P rest)
    → Yields P (throw_if test e >> rest)
throw_if-Yields P true e rest h = tt
throw_if-Yields P false e rest h = h refl

pub bind-Yields {ℓ κ μ} :
    {E A B : Type ℓ} (Q : A → Type κ) (P : B → Type μ) (m : Result E A) (k : A → Result E B)
    → Yields Q m
    → ((a : A) → Q a → Yields P (k a))
    → Yields P (m >>= k)
bind-Yields Q P (ok a) k q h = h a q
bind-Yields Q P (err e) k q h = tt

pub or_throw-Yields {ℓ κ} :
    {E A B : Type ℓ} (P : B → Type κ) (o : Option A) (e : E) (k : A → Result E B)
    → ((a : A) → Yields P (k a))
    → Yields P (or_throw o e >>= k)
or_throw-Yields P none e k h = tt
or_throw-Yields P (some a) e k h = h a

-- The search finds an element that passes the test, or none does.
pub find-cases {ℓ} :
    {A : Type ℓ} (p : A → Bool) (xs : List A)
    → ((x : A) × (find p xs ≡ some x) × Memᴰ x xs × (p x ≡ true))
      ⊎ ((find p xs ≡ none) × All (λ x. p x ≡ false) xs)
find-cases p [] = inr (refl, tt)
find-cases p (y ∷ ys) = elim (Bool-cases (p y)) [
  | inl h ↦ inl (y, rw (h, find) refl, Memᴰ.head refl, h)
  | inr h ↦ elim (find-cases p ys) [
    | inl (x, e, m, q) ↦ inl (x, rw (h, find) e, Memᴰ.tail m, q)
    | inr (e, q) ↦ inr (rw (h, find) e, (h, q))
  ]
]

-- What holds of every element holds of all.
pub All-of {ℓ κ} :
    {A : Type ℓ} (P : A → Type κ) (xs : List A) → ((x : A) → Memᴰ x xs → P x) → All P xs
All-of P [] h = tt
All-of P (x ∷ xs) h = (h x (Memᴰ.head refl), All-of P xs λ y m. h y (Memᴰ.tail m))

pub All-Memᴰ {ℓ κ} :
    {A : Type ℓ} (P : A → Type κ) (xs : List A) (x : A) → All P xs → Memᴰ x xs → P x
All-Memᴰ P [] x h m = elim m [ ]
All-Memᴰ P (y ∷ ys) x h (Memᴰ.head e) = rw e h.0
All-Memᴰ P (y ∷ ys) x h (Memᴰ.tail m) = All-Memᴰ P ys x h.1 m

pub All-append {ℓ κ} :
    {A : Type ℓ} (P : A → Type κ) (xs ys : List A) → All P xs → All P ys → All P (xs ++ ys)
All-append P [] ys h g = g
All-append P (x ∷ xs) ys h g = (h.0, All-append P xs ys h.1 g)

pub All-take {ℓ κ} :
    {A : Type ℓ} (P : A → Type κ) (n : ℕ) (xs : List A) → All P xs → All P (take n xs)
All-take P zero xs h = tt
All-take P (suc n) [] h = tt
All-take P (suc n) (x ∷ xs) h = (h.0, All-take P n xs h.1)

pub All-drop {ℓ κ} :
    {A : Type ℓ} (P : A → Type κ) (n : ℕ) (xs : List A) → All P xs → All P (drop n xs)
All-drop P zero xs h = h
All-drop P (suc n) [] h = tt
All-drop P (suc n) (x ∷ xs) h = All-drop P n xs h.1

pub All-set {ℓ κ} :
    {A : Type ℓ} (P : A → Type κ) (xs : List A) (i : ℕ) (v : A)
    → All P xs
    → P v
    → All P (set xs i v)
All-set P [] i v h p = tt
All-set P (x ∷ xs) zero v h p = (p, h.1)
All-set P (x ∷ xs) (suc i) v h p = (h.0, All-set P xs i v h.1 p)
