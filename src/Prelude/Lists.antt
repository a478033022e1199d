-- ===== src/Prelude/Lists.antt =====
-- Lists measured by native numbers, under the library's names, and predicates over lists.
use Prim.Native.Nat.{ℕ, zero, suc, ◌+◌, ◌<◌}
use loggerlib.Prelude.Tests.{◌==◌, if◌then◌else◌}
use mathlib.Core.List.{List, [], ◌∷◌, ◌++◌}
use mathlib.Core.Option.{Option, none, some}
use mathlib.Core.Path.{◌≡◌, refl, ap, sym, ◌∙◌}
use native.Mathlib.Omega.{arith}

module _ {ℓ} {A : Type ℓ} where
  abbrev pub length : List A → ℕ
  length [] = 0
  length (x ∷ xs) = suc (length xs)

  abbrev pub get_elem? : List A → ℕ → Option A
  get_elem? [] i = none
  get_elem? (x ∷ xs) zero = some x
  get_elem? (x ∷ xs) (suc i) = get_elem? xs i

  -- `xs[i] = f(xs[i])`; out of range nothing changes
  abbrev pub modify : ℕ → (A → A) → List A → List A
  modify i f [] = []
  modify zero f (x ∷ xs) = f x ∷ xs
  modify (suc i) f (x ∷ xs) = x ∷ modify i f xs

  abbrev pub take : ℕ → List A → List A
  take zero xs = []
  take (suc n) [] = []
  take (suc n) (x ∷ xs) = x ∷ take n xs

  abbrev pub drop : ℕ → List A → List A
  drop zero xs = xs
  drop (suc n) [] = []
  drop (suc n) (x ∷ xs) = drop n xs

  abbrev pub replicate : ℕ → A → List A
  replicate zero a = []
  replicate (suc n) a = a ∷ replicate n a

  pub length-append : (xs ys : List A) → length (xs ++ ys) ≡ length xs + length ys
  length-append [] ys = omega arith
  length-append (x ∷ xs) ys = omega (arith, length-append xs ys)

  pub take-length : (xs ys : List A) → take (length xs) (xs ++ ys) ≡ xs
  take-length [] ys = refl
  take-length (x ∷ xs) ys = ap (◌∷◌ x) (take-length xs ys)

  pub drop-length : (xs ys : List A) → drop (length xs) (xs ++ ys) ≡ ys
  drop-length [] ys = refl
  drop-length (x ∷ xs) ys = drop-length xs ys

  pub drop_past : (k : ℕ) (xs ys : List A) → drop (length xs + k) (xs ++ ys) ≡ drop k ys
  drop_past k [] ys = ap (λ n. drop n ys) (omega arith)
  drop_past k (x ∷ xs) ys =
      let e : suc (length xs) + k ≡ suc (length xs + k) = omega arith in rw e (drop_past k xs ys)

  pub take_at : (n : ℕ) (xs ys : List A) → length xs ≡ n → take n (xs ++ ys) ≡ xs
  take_at n xs ys e = ap (λ k. take k (xs ++ ys)) (sym e) ∙ take-length xs ys

  pub drop_at : (n : ℕ) (xs ys : List A) → length xs ≡ n → drop n (xs ++ ys) ≡ ys
  drop_at n xs ys e = ap (λ k. drop k (xs ++ ys)) (sym e) ∙ drop-length xs ys

  pub take_all : (xs : List A) → take (length xs) xs ≡ xs
  take_all [] = refl
  take_all (x ∷ xs) = ap (◌∷◌ x) (take_all xs)

module _ {ℓ} {A : Type ℓ} where
  pub length-modify : (i : ℕ) (f : A → A) (xs : List A) → length (modify i f xs) ≡ length xs
  length-modify i f [] = refl
  length-modify zero f (x ∷ xs) = refl
  length-modify (suc i) f (x ∷ xs) = ap suc (length-modify i f xs)

  pub get_elem?-modify :
      (i j : ℕ) (f : A → A) (xs : List A) (x : A)
      → get_elem? xs j ≡ some x
      → get_elem? (modify i f xs) j ≡ some (if i == j then f x else x)
  get_elem?-modify i j f [] x h = cc
  get_elem?-modify zero zero f (y ∷ xs) x h = ground arith
  get_elem?-modify zero (suc j) f (y ∷ xs) x h = ground arith
  get_elem?-modify (suc i) zero f (y ∷ xs) x h = ground arith
  get_elem?-modify (suc i) (suc j) f (y ∷ xs) x h = ground (arith, get_elem?-modify i j f xs x)

  pub get_elem?-modify_back :
      (i j : ℕ) (f : A → A) (xs : List A) (y : A)
      → get_elem? (modify i f xs) j ≡ some y
      → (x : A) × (get_elem? xs j ≡ some x) × (y ≡ (if i == j then f x else x))
  get_elem?-modify_back i j f [] y h = cc
  get_elem?-modify_back zero zero f (x ∷ xs) y h = (x, refl, ground arith)
  get_elem?-modify_back zero (suc j) f (x ∷ xs) y h = (y, h, ground arith)
  get_elem?-modify_back (suc i) zero f (x ∷ xs) y h = (x, refl, ground arith)
  get_elem?-modify_back (suc i) (suc j) f (x ∷ xs) y h =
      let (x', at_j, same) = get_elem?-modify_back i j f xs y h in (x', at_j, ground arith)

  pub lt-length : (xs : List A) (i : ℕ) (x : A) → get_elem? xs i ≡ some x → i < length xs
  lt-length [] i x h = cc
  lt-length (y ∷ xs) zero x h = omega arith
  lt-length (y ∷ xs) (suc i) x h = omega (arith, lt-length xs i x h)

  pub get_elem_lt : (xs : List A) (i : ℕ) → i < length xs → (x : A) × (get_elem? xs i ≡ some x)
  get_elem_lt [] i h = elim h [ ]
  get_elem_lt (x ∷ xs) zero h = (x, refl)
  get_elem_lt (x ∷ xs) (suc i) h = get_elem_lt xs i (omega arith)

  pub length-replicate : (n : ℕ) (x : A) → length (replicate n x) ≡ n
  length-replicate zero x = refl
  length-replicate (suc n) x = ap suc (length-replicate n x)

  pub replicate_eq : (k i : ℕ) (x y : A) → get_elem? (replicate k x) i ≡ some y → y ≡ x
  replicate_eq zero i x y h = cc
  replicate_eq (suc k) zero x y h = cc
  replicate_eq (suc k) (suc i) x y h = replicate_eq k i x y h

module _ {ℓ κ} {A : Type ℓ} (P : A → Type κ) where
  abbrev pub All : List A → Type κ
  All [] = Unit
  All (x ∷ xs) = P x × All xs

  pub All-append : (xs ys : List A) → All xs → All ys → All (xs ++ ys)
  All-append [] ys _ hy = hy
  All-append (x ∷ xs) ys (px, hx) hy = (px, All-append xs ys hx hy)

abbrev pub flatten {ℓ} : {A : Type ℓ} → List (List A) → List A
flatten [] = []
flatten (xs ∷ xss) = xs ++ flatten xss
