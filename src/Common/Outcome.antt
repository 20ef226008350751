-- ===== src/Common/Outcome.antt =====
-- What a piece of C code does: it returns a value, it touches memory outside an object, or it has
-- not returned within its fuel.
use Prim.Native.Nat.{ℕ, ◌≤◌, ◌<◌}
use mathlib.Core.Path.{◌≡◌, refl}
use mathlib.Core.Bool.{Bool, true, false}
use mathlib.Core.List.{List}
use mathlib.Core.Option.{none, some}
use exynos.Common.Lists.{get_elem?, get_or, length, get_elem?-eq-get_or, get_elem?-of_ge}

-- No value, at any level.
pub data Never {ℓ} : Type ℓ where

pub data Run {ℓ} (A : Type ℓ) : Type ℓ where
  done : A → Run A
  fault : Run A
  hang : Run A

infixl 5 ◌>>=◌ ◌>>◌
abbrev pub ◌>>=◌ {ℓ κ} : {A : Type ℓ} {B : Type κ} → Run A → (A → Run B) → Run B
done a >>= f = f a
fault >>= f = fault
hang >>= f = hang

abbrev pub ◌>>◌ {ℓ κ} : {A : Type ℓ} {B : Type κ} → Run A → Run B → Run B
m >> k = m >>= λ _. k

-- `buf[i]`: a read past the end of the object is a fault.
abbrev pub read_at {ℓ} : {A : Type ℓ} → List A → ℕ → Run A
read_at xs i = elim (get_elem? xs i) [ none ↦ fault | some a ↦ done a ]

-- The code returns, and its value has the property.
abbrev pub Ensures {ℓ κ} : {A : Type ℓ} → (A → Type κ) → Run A → Type κ
Ensures P (done a) = P a
Ensures P fault = Never
Ensures P hang = Never

-- The rule for `>>=`.
pub Ensures-bind {ℓ κ ι} :
    {A : Type ℓ} {B : Type κ} (P : A → Type ι) (Q : B → Type ι) (m : Run A) (f : A → Run B)
    → Ensures P m
    → ((a : A) → P a → Ensures Q (f a))
    → Ensures Q (m >>= f)
Ensures-bind P Q (done a) f h k = k a h
Ensures-bind P Q fault f h k = elim h [ ]
Ensures-bind P Q hang f h k = elim h [ ]

pub Ensures-mono {ℓ κ} :
    {A : Type ℓ} (P Q : A → Type κ) (m : Run A) → Ensures P m → ((a : A) → P a → Q a) → Ensures Q m
Ensures-mono P Q (done a) h k = k a h
Ensures-mono P Q fault h k = elim h [ ]
Ensures-mono P Q hang h k = elim h [ ]

-- The code does not run on for ever, and what it returns has the property.
abbrev pub Meets {ℓ} : {A : Type ℓ} → (A → Type 0) → Run A → Type 0
Meets P (done a) = P a
Meets P fault = Unit
Meets P hang = Never

-- It stops.
abbrev pub Ends {ℓ} : {A : Type ℓ} → Run A → Type 0
Ends m = Meets (λ _. Unit) m

pub Meets-bind {ℓ κ} :
    {A : Type ℓ} {B : Type κ} (P : A → Type 0) (Q : B → Type 0) (m : Run A) (f : A → Run B)
    → Meets P m
    → ((a : A) → P a → Meets Q (f a))
    → Meets Q (m >>= f)
Meets-bind P Q (done a) f h k = k a h
Meets-bind P Q fault f h k = tt
Meets-bind P Q hang f h k = elim h [ ]

pub Meets-mono {ℓ} :
    {A : Type ℓ} (P Q : A → Type 0) (m : Run A) → Meets P m → ((a : A) → P a → Q a) → Meets Q m
Meets-mono P Q (done a) h k = k a h
Meets-mono P Q fault h k = tt
Meets-mono P Q hang h k = elim h [ ]

pub Ends-bind {ℓ κ} :
    {A : Type ℓ} {B : Type κ} (m : Run A) (f : A → Run B)
    → Ends m
    → ((a : A) → Ends (f a))
    → Ends (m >>= f)
Ends-bind (done a) f h k = k a
Ends-bind fault f h k = tt
Ends-bind hang f h k = elim h [ ]

-- What returns has a value.
pub done_of_Ensures {ℓ κ} :
    {A : Type ℓ} (P : A → Type κ) (m : Run A) → Ensures P m → (a : A) × (m ≡ done a) × P a
done_of_Ensures P (done a) h = (a, refl, h)
done_of_Ensures P fault h = elim h [ ]
done_of_Ensures P hang h = elim h [ ]

pub >>=-eq-done {ℓ κ} :
    {A : Type ℓ} {B : Type κ} (m : Run A) (f : A → Run B) {b : B}
    → (m >>= f) ≡ done b
    → (a : A) × (m ≡ done a) × (f a ≡ done b)
>>=-eq-done (done a) f h = (a, refl, h)
>>=-eq-done fault f h = cc
>>=-eq-done hang f h = cc

-- A read inside the object.
pub read_at-of_lt {ℓ} :
    {A : Type ℓ} (xs : List A) (i : ℕ) (d : A) → i < length xs → read_at xs i ≡ done (get_or xs i d)
read_at-of_lt xs i d h = rw (get_elem?-eq-get_or xs i d h, read_at)

-- The same first part.
pub >>=-congr {ℓ κ} :
    {A : Type ℓ} {B : Type κ} (m : Run A) {f g : A → Run B}
    → ((a : A) → f a ≡ g a)
    → (m >>= f) ≡ (m >>= g)
>>=-congr (done a) h = h a
>>=-congr fault h = refl
>>=-congr hang h = refl

-- The same test.
pub elim-congr {ℓ} :
    {A : Type ℓ} (b : Bool) {x y u v : A}
    → x ≡ y
    → u ≡ v
    → elim b [ false ↦ x | true ↦ u ] ≡ elim b [ false ↦ y | true ↦ v ]
elim-congr false p q = p
elim-congr true p q = q

-- A read past the end.
pub read_at-of_ge {ℓ} : {A : Type ℓ} (xs : List A) (i : ℕ) → length xs ≤ i → read_at xs i ≡ fault
read_at-of_ge xs i h = rw (get_elem?-of_ge xs i h, read_at) refl
