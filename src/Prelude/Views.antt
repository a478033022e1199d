-- ===== src/Prelude/Views.antt =====
-- Texts as lists of bytes, with the searches of `std::string_view` as the program calls them.
-- A position that is not found (`npos`) is `none`.
use Prim.Native.Char.{code}
use Prim.Native.Nat.{ℕ, suc}
use Prim.Native.String.{String}
use mathlib.Core.Bool.{Bool, true, false, ◌&&◌}
use mathlib.Core.List.{List, [], ◌∷◌, ◌++◌}
use mathlib.Core.Logic.{◌≢◌, ◌↔◌, inl, inr}
use mathlib.Core.Option
use mathlib.Core.Option.{Option, none, some}
use mathlib.Core.Path.{◌≡◌, refl, ap}
use native.Mathlib.Omega.{arith}
use loggerlib.Prelude.Lists.{All, take, drop, length}
use loggerlib.Prelude.Tests.{◌==◌, if◌then◌else◌, Bool-cases, ==_iff}

abbrev pub Bytes : Type 0
Bytes = List ℕ

-- The code points of a literal; these are its bytes when the text is ASCII.
abbrev pub codes : String → Bytes
codes String.[] = []
codes (String.◌∷◌ c s) = code c ∷ codes s

abbrev pub Lacks : ℕ → Bytes → Type 0
Lacks b = All (λ c. c ≢ b)

-- Equality of texts, `operator==`.
unfoldable pub equal : Bytes → Bytes → Bool
equal [] [] = true
equal (x ∷ xs) (y ∷ ys) = x == y && equal xs ys
equal _ _ = false

pub equal_iff : (s t : Bytes) → (equal s t ≡ true) ↔ (s ≡ t)
unfolding equal
equal_iff [] [] = ground arith
equal_iff (x ∷ s) (y ∷ t) = ground (arith, equal_iff s t)
equal_iff _ _ = ground arith

-- `text.find(c)`
unfoldable pub find : ℕ → Bytes → Option ℕ
find c [] = none
find c (x ∷ xs) = if x == c then some 0 else Option.map suc (find c xs)

-- `text.rfind(c)`
unfoldable pub rfind : ℕ → Bytes → Option ℕ
rfind c [] = none
rfind c (x ∷ xs) = elim (rfind c xs) [
  | some i ↦ some (suc i)
  | none ↦ if x == c then some 0 else none
]

-- `text.find("ab")`, the first place where two given bytes stand side by side
unfoldable pub find_pair : ℕ → ℕ → Bytes → Option ℕ
find_pair a b [] = none
find_pair a b (x ∷ []) = none
find_pair a b (x ∷ y ∷ xs) =
    if x == a && y == b then some 0 else Option.map suc (find_pair a b (y ∷ xs))

-- `text.substr(pos, count)`
abbrev pub substr : ℕ → ℕ → Bytes → Bytes
substr pos count text = take count (drop pos text)

-- Lines put behind each other, each with its newline.
unfoldable pub joined : List Bytes → Bytes
joined [] = []
joined (line ∷ lines) = line ++ (b'\n' ∷ joined lines)

-- What `find` says of a text: the byte does not stand in it, or it stands first behind `front`.
pub data Cut (c : ℕ) (text : Bytes) : Type 0 where
  absent : Lacks c text → find c text ≡ none → Cut c text
  at :
      (front back : Bytes)
      → text ≡ front ++ c ∷ back
      → Lacks c front
      → find c text ≡ some (length front)
      → Cut c text

pub find-Cut : (c : ℕ) (text : Bytes) → Cut c text
unfolding find
find-Cut c [] = absent tt refl
find-Cut c (x ∷ text) = elim (Bool-cases (x == c)) [
  | inl here ↦ at [] text (ap (λ y. y ∷ text) ((==_iff x c).0 here)) tt (rw here)
  | inr other ↦ elim (find-Cut c text) [
    | absent lacks nowhere ↦ absent (ground arith, lacks) (rw (other, nowhere))
    | at front back splits lacks place ↦
        at (x ∷ front) back (ap (◌∷◌ x) splits) (ground arith, lacks) (rw (other, place))
  ]
]
