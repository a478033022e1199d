-- ===== src/Common/Text/Case.antt =====
-- Comparing without case is comparing the lower-cased texts.
use loggerlib.Prelude.{ℕ, true, [], ◌∷◌, map, ◌≡◌, refl, arith, Bytes, length, equal}
use loggerlib.Common.Text.{to_lower_case, same_letters, equals_ignore_case}

abbrev pub lower : Bytes → Bytes
lower = map to_lower_case

pub to_lower_case_idem : (c : ℕ) → to_lower_case (to_lower_case c) ≡ to_lower_case c
unfolding to_lower_case
to_lower_case_idem c = ground arith

pub lower_idem : (s : Bytes) → lower (lower s) ≡ lower s
lower_idem [] = refl
lower_idem (c ∷ s) = cc (to_lower_case_idem c, lower_idem s)

pub length-lower : (s : Bytes) → length (lower s) ≡ length s
length-lower [] = refl
length-lower (c ∷ s) = ground (arith, length-lower s)

same_letters-equal :
    (s t : Bytes) → length s ≡ length t → same_letters s t ≡ equal (lower s) (lower t)
unfolding same_letters equal
same_letters-equal [] [] h = refl
same_letters-equal [] (y ∷ t) h = absurd (omega arith)
same_letters-equal (x ∷ s) [] h = absurd (omega arith)
same_letters-equal (x ∷ s) (y ∷ t) h = ground (arith, same_letters-equal s t)

equal-lengths : (s t : Bytes) → equal (lower s) (lower t) ≡ true → length s ≡ length t
unfolding equal
equal-lengths [] [] h = refl
equal-lengths [] (y ∷ t) h = cc
equal-lengths (x ∷ s) [] h = cc
equal-lengths (x ∷ s) (y ∷ t) h = ground (arith, equal-lengths s t)

-- `equalsIgnoreCase` compares the lower-cased texts byte by byte, for all texts.
pub equals_ignore_case-equal : (s t : Bytes) → equals_ignore_case s t ≡ equal (lower s) (lower t)
unfolding equals_ignore_case
equals_ignore_case-equal s t = ground (arith, same_letters-equal s t, equal-lengths s t)
