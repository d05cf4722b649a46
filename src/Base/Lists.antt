-- ===== src/Base/Lists.antt =====
-- Lists of native length, and lists of names as the code's arrays and sets of ids.
use Prim.Native.Nat.{ℕ, zero, suc, ◌+◌, ◌≤◌, min}
use Prim.Native.String.{String}
use mathlib.Core.Path.{◌≡◌, refl}
use mathlib.Core.Bool.{Bool, true, false, not, ◌&&◌, ◌||◌}
use mathlib.Core.List.{List, [], ◌∷◌, ◌++◌}
use native.Mathlib.Omega.{arith}
use text.Mathlib.Text.{◌==◌ as str_eq}
use text.Mathlib.TextEquality.{eq_iff}
use arbiter_backend.Base.Tests.{if◌then◌else◌}

module _ {ℓ} {A : Type ℓ} where
  abbrev pub length : List A → ℕ
  length [] = 0
  length (x ∷ xs) = suc (length xs)

  abbrev pub take : ℕ → List A → List A
  take zero xs = []
  take (suc n) [] = []
  take (suc n) (x ∷ xs) = x ∷ take n xs

  -- `Array.prototype.filter` with a Boolean test.
  abbrev pub keep : (A → Bool) → List A → List A
  keep p [] = []
  keep p (x ∷ xs) = let rest = keep p xs in if p x then x ∷ rest else rest

  -- `Array.prototype.some`.
  abbrev pub exists : (A → Bool) → List A → Bool
  exists p [] = false
  exists p (x ∷ xs) = p x || exists p xs

  abbrev pub All {κ} : (A → Type κ) → List A → Type κ
  All P [] = Unit
  All P (x ∷ xs) = P x × All P xs

module _ {ℓ} {A : Type ℓ} where
  pub length-append : (xs ys : List A) → length (xs ++ ys) ≡ length xs + length ys
  length-append [] ys = omega arith
  length-append (x ∷ xs) ys = omega (arith, length-append xs ys)

  pub length-take : (n : ℕ) (xs : List A) → length (take n xs) ≡ min n (length xs)
  length-take zero xs = omega arith
  length-take (suc n) [] = omega arith
  length-take (suc n) (x ∷ xs) = omega (arith, length-take n xs)

  pub take-all : (n : ℕ) (xs : List A) → length xs ≤ n → take n xs ≡ xs
  take-all zero [] h = refl
  take-all zero (x ∷ xs) h = absurd (omega arith)
  take-all (suc n) [] h = refl
  take-all (suc n) (x ∷ xs) h = λ i. x ∷ take-all n xs (omega arith) i

  pub length-keep : (p : A → Bool) (xs : List A) → length (keep p xs) ≤ length xs
  length-keep p [] = omega arith
  length-keep p (x ∷ xs) = ground (arith, length-keep p xs)

-- `Array.prototype.includes` and `Set.prototype.has` on strings.
abbrev pub includes : List String → String → Bool
includes [] a = false
includes (x ∷ xs) a = str_eq x a || includes xs a

-- `arr.filter((x) => x !== a)`.
abbrev pub without : String → List String → List String
without a [] = []
without a (x ∷ xs) = let rest = without a xs in if str_eq x a then rest else x ∷ rest

-- No string twice.
abbrev pub distinct : List String → Bool
distinct [] = true
distinct (x ∷ xs) = not (includes xs x) && distinct xs

-- `[...new Set(xs)]`: each string once, where it first stood.
abbrev pub unique : List String → List String
unique [] = []
unique (x ∷ xs) = x ∷ without x (unique xs)

pub includes-append :
    (xs ys : List String) (a : String) → includes (xs ++ ys) a ≡ (includes xs a || includes ys a)
includes-append [] ys a = refl
includes-append (x ∷ xs) ys a = ground (arith, includes-append xs ys a)

pub includes-without :
    (b : String) (xs : List String) (a : String)
    → includes (without b xs) a ≡ (includes xs a && not (str_eq b a))
includes-without b [] a = refl
includes-without b (x ∷ xs) a =
    ground (arith, includes-without b xs a, eq_iff x b, eq_iff x a, eq_iff b a)

pub includes-take :
    (n : ℕ) (xs : List String) (a : String) → includes (take n xs) a ≡ true → includes xs a ≡ true
includes-take zero xs a h = ground arith
includes-take (suc n) [] a h = h
includes-take (suc n) (x ∷ xs) a h = ground (arith, includes-take n xs a)

pub distinct-without :
    (b : String) (xs : List String) → distinct xs ≡ true → distinct (without b xs) ≡ true
distinct-without b [] h = refl
distinct-without b (x ∷ xs) h = ground (arith, distinct-without b xs, includes-without b xs x)

pub distinct-take : (n : ℕ) (xs : List String) → distinct xs ≡ true → distinct (take n xs) ≡ true
distinct-take zero xs h = refl
distinct-take (suc n) [] h = refl
distinct-take (suc n) (x ∷ xs) h = ground (arith, distinct-take n xs, includes-take n xs x)

pub distinct-unique : (xs : List String) → distinct (unique xs) ≡ true
distinct-unique [] = refl
distinct-unique (x ∷ xs) = ground (
  arith,
  distinct-without x (unique xs),
  distinct-unique xs,
  includes-without x (unique xs) x,
  eq_iff x x,
)

pub includes-unique : (xs : List String) (a : String) → includes (unique xs) a ≡ includes xs a
includes-unique [] a = refl
includes-unique (x ∷ xs) a =
    ground (arith, includes-without x (unique xs) a, includes-unique xs a, eq_iff x a)

pub length-without : (a : String) (xs : List String) → length (without a xs) ≤ length xs
length-without a [] = omega arith
length-without a (x ∷ xs) = ground (arith, length-without a xs)

-- Equal names pass the same tests.
ap-test : (p : String → Bool) (a b : String) → str_eq a b ≡ true → p a ≡ p b
ap-test p a b h = λ i. p ((eq_iff a b).0 h i)

pub keep-test :
    (p : String → Bool) (xs : List String) (a : String) → includes (keep p xs) a ≡ true → p a ≡ true
keep-test p [] a h = ground arith
keep-test p (x ∷ xs) a h = ground (arith, keep-test p xs a, ap-test p x a)

pub includes-keep :
    (p : String → Bool) (xs : List String) (a : String)
    → includes (keep p xs) a ≡ (includes xs a && p a)
includes-keep p [] a = refl
includes-keep p (x ∷ xs) a = ground (arith, includes-keep p xs a, ap-test p x a)

pub distinct-keep :
    (p : String → Bool) (xs : List String) → distinct xs ≡ true → distinct (keep p xs) ≡ true
distinct-keep p [] h = refl
distinct-keep p (x ∷ xs) h = ground (arith, distinct-keep p xs, includes-keep p xs x)
