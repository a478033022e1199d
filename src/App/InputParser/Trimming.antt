-- ===== src/App/InputParser/Trimming.antt =====
-- What `trim` of app/core/InputParser.cpp leaves of a line.
use loggerlib.App.InputParser.{trim, find_first_not_of, is_space, find_last_not_of}
use mathlib.Core.Path.{subst}
use loggerlib.Prelude.{
  ℕ, ◌+◌, ◌-◌, ◌≡◌, refl, sym, ap, ◌∙◌, ◌≢◌, ◌⊎◌, inl, inr, true, false, none, some, [], ◌∷◌, ◌++◌,
  append-nil, arith, Bytes, All, length, length-append, take_at, Bool-cases,
}

-- A text that neither begins nor ends with a space or a tab.
pub record IsTrimmed (text : Bytes) : Type 0 where
  pub begins : (c : ℕ) (rest : Bytes) → text ≡ c ∷ rest → is_space c ≡ false
  pub ends : (front : Bytes) (c : ℕ) → text ≡ front ++ (c ∷ []) → is_space c ≡ false

abbrev pub Spaces : Bytes → Type 0
Spaces = All (λ c. is_space c ≡ true)

snoc_view : (c : ℕ) (rest : Bytes) → (front : Bytes) × (d : ℕ) × (c ∷ rest ≡ front ++ (d ∷ []))
snoc_view c [] = ([], c, refl)
snoc_view c (b ∷ rest) = let (front, d, e) = snoc_view b rest in (c ∷ front, d, ap (◌∷◌ c) e)

find_last_not_of-Spaces :
    (front back : Bytes) → Spaces back → find_last_not_of (front ++ back) ≡ find_last_not_of front
unfolding find_last_not_of
find_last_not_of-Spaces [] [] h = refl
find_last_not_of-Spaces [] (c ∷ back) h = ground (arith, find_last_not_of-Spaces [] back h.1)
find_last_not_of-Spaces (c ∷ front) back h = rw (find_last_not_of-Spaces front back h)

find_last_not_of-end :
    (front : Bytes) (c : ℕ)
    → is_space c ≡ false
    → find_last_not_of (front ++ (c ∷ [])) ≡ some (length front)
unfolding find_last_not_of
find_last_not_of-end [] c h = rw h
find_last_not_of-end (b ∷ front) c h = rw (find_last_not_of-end front c h)

find_first_not_of-none :
    (line : Bytes) → find_first_not_of line ≡ none → find_last_not_of line ≡ none
unfolding find_first_not_of find_last_not_of
find_first_not_of-none [] h = refl
find_first_not_of-none (c ∷ line) h = ground (arith, find_first_not_of-none line)

find_last_not_of-none :
    (line : Bytes) → find_last_not_of line ≡ none → find_first_not_of line ≡ none
unfolding find_first_not_of find_last_not_of
find_last_not_of-none [] h = refl
find_last_not_of-none (c ∷ line) h = ground (arith, find_last_not_of-none line)

trim-space : (c : ℕ) (line : Bytes) → is_space c ≡ true → trim (c ∷ line) ≡ trim line
unfolding trim find_first_not_of find_last_not_of
trim-space c line h = ground (arith, find_last_not_of-none line)

pub trim-Spaces : (front line : Bytes) → Spaces front → trim (front ++ line) ≡ trim line
trim-Spaces [] line h = refl
trim-Spaces (c ∷ front) line h = trim-space c (front ++ line) h.0 ∙ trim-Spaces front line h.1

trim_all : (back : Bytes) → Spaces back → trim back ≡ []
unfolding trim find_first_not_of
trim_all [] h = refl
trim_all (c ∷ back) h = trim-space c back h.0 ∙ trim_all back h.1

trim-core : (core back : Bytes) → IsTrimmed core → Spaces back → trim (core ++ back) ≡ core
unfolding trim find_first_not_of
trim-core [] back t h = trim_all back h
trim-core (c ∷ rest) back t h =
    let (front, d, e) = snoc_view c rest in
    let last : find_last_not_of (c ∷ (rest ++ back)) ≡ some (length front) =
      find_last_not_of-Spaces (c ∷ rest) back h
      ∙ ap find_last_not_of e
      ∙ find_last_not_of-end front d (t.ends front d e) in
    let size : length (c ∷ rest) ≡ length front + 1 = ap length e ∙ length-append front (d ∷ []) in
    let first : find_first_not_of (c ∷ (rest ++ back)) ≡ some 0 = rw (t.begins c rest refl) in
    rw (trim, first, last) (take_at (length front - 0 + 1) (c ∷ rest) back (omega arith))

-- Only the text between the outer spaces is left, and it is determined by that.
pub trim_unique :
    (front core back : Bytes)
    → Spaces front
    → Spaces back
    → IsTrimmed core
    → trim (front ++ (core ++ back)) ≡ core
trim_unique front core back f b t = trim-Spaces front (core ++ back) f ∙ trim-core core back t b

-- A line taken apart at its outer spaces.
pub record Trimming (line : Bytes) : Type 0 where
  pub front : Bytes
  pub core : Bytes
  pub back : Bytes
  pub front_spaces : Spaces front
  pub back_spaces : Spaces back
  pub splits : line ≡ front ++ (core ++ back)
  pub trimmed : IsTrimmed core

record EndTrimming (line : Bytes) : Type 0 where
  core : Bytes
  back : Bytes
  back_spaces : Spaces back
  splits : line ≡ core ++ back
  ends : (front : Bytes) (c : ℕ) → core ≡ front ++ (c ∷ []) → is_space c ≡ false

no_end : (front : Bytes) (c : ℕ) → [] ≢ front ++ (c ∷ [])
no_end [] c h = ground arith
no_end (b ∷ front) c h = ground arith

ends_more :
    (c : ℕ) (core : Bytes)
    → ((core ≡ []) → is_space c ≡ false)
    → ((front : Bytes) (d : ℕ) → core ≡ front ++ (d ∷ []) → is_space d ≡ false)
    → (front : Bytes) (d : ℕ) → c ∷ core ≡ front ++ (d ∷ [])
    → is_space d ≡ false
ends_more c core one more [] d h = ground (arith, one)
ends_more c core one more (b ∷ front) d h = more front d (ground arith)

nothing_ends : (front : Bytes) (c : ℕ) → [] ≡ front ++ (c ∷ []) → is_space c ≡ false
nothing_ends front c h = absurd (no_end front c h)

-- One more byte in front of a text that is taken apart.
extend_end :
    (c : ℕ) (line core back : Bytes)
    → Spaces back
    → line ≡ core ++ back
    → ((front : Bytes) (d : ℕ) → core ≡ front ++ (d ∷ []) → is_space d ≡ false)
    → (is_space c ≡ true) ⊎ (is_space c ≡ false)
    → EndTrimming (c ∷ line)
extend_end c line [] back spaces splits ends (inl space) = record {
  core = [];
  back = c ∷ back;
  back_spaces = (space, spaces);
  splits = ap (◌∷◌ c) splits;
  ends = nothing_ends;
}
extend_end c line (b ∷ core) back spaces splits ends (inl space) = record {
  core = c ∷ b ∷ core;
  back = back;
  back_spaces = spaces;
  splits = ap (◌∷◌ c) splits;
  ends = ends_more c (b ∷ core) (λ h. absurd (ground arith)) ends;
}
extend_end c line core back spaces splits ends (inr solid) = record {
  core = c ∷ core;
  back = back;
  back_spaces = spaces;
  splits = ap (◌∷◌ c) splits;
  ends = ends_more c core (λ _. solid) ends;
}

end_trimming : (line : Bytes) → EndTrimming line
end_trimming [] = record {
  core = [];
  back = [];
  back_spaces = tt;
  splits = refl;
  ends = nothing_ends;
}
end_trimming (c ∷ line) =
    let s = end_trimming line in
    extend_end c line s.core s.back s.back_spaces s.splits s.ends (Bool-cases (is_space c))

trimming : (line : Bytes) → Trimming line
trimming [] = record {
  front = [];
  core = [];
  back = [];
  front_spaces = tt;
  back_spaces = tt;
  splits = refl;
  trimmed = record { begins = λ c rest h. absurd (ground arith); ends = nothing_ends };
}
trimming (c ∷ line) = elim (Bool-cases (is_space c)) [
  | inl space ↦
      let s = trimming line in
      record {
        front = c ∷ s.front;
        core = s.core;
        back = s.back;
        front_spaces = (space, s.front_spaces);
        back_spaces = s.back_spaces;
        splits = ap (◌∷◌ c) s.splits;
        trimmed = s.trimmed;
      }
  | inr solid ↦
      let s = end_trimming line in
      record {
        front = [];
        core = c ∷ s.core;
        back = s.back;
        front_spaces = tt;
        back_spaces = s.back_spaces;
        splits = ap (◌∷◌ c) s.splits;
        trimmed = record {
          begins = λ d rest h. ground arith;
          ends = ends_more c s.core (λ _. solid) s.ends;
        };
      }
]

Trimming-trim : (line : Bytes) (s : Trimming line) → s.core ≡ trim line
Trimming-trim line s =
    sym
      (ap trim s.splits ∙ trim_unique s.front s.core s.back s.front_spaces s.back_spaces s.trimmed)

pub trim-IsTrimmed : (line : Bytes) → IsTrimmed (trim line)
trim-IsTrimmed line = let s = trimming line in subst IsTrimmed (Trimming-trim line s) s.trimmed

-- `trim` takes the spaces and tabs from both ends of a line, and nothing else.
pub trim_lem :
    (line : Bytes)
    → (front : Bytes) × (back : Bytes) × Spaces front
      × Spaces back
      × IsTrimmed (trim line)
      × (line ≡ front ++ (trim line ++ back))
trim_lem line =
    let s = trimming line in
    (
      s.front,
      s.back,
      s.front_spaces,
      s.back_spaces,
      trim-IsTrimmed line,
      s.splits ∙ ap (λ core. s.front ++ (core ++ s.back)) (Trimming-trim line s),
    )

-- A text that is trimmed is left as it is.
pub trim_trimmed : (core : Bytes) → IsTrimmed core → trim core ≡ core
trim_trimmed core t = ap trim (sym (append-nil core)) ∙ trim-core core [] t tt
