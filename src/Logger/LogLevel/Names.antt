-- ===== src/Logger/LogLevel/Names.antt =====
-- Level names are read back in any case, and nothing else is read.
use loggerlib.Common.Text.Case.{lower, equals_ignore_case-equal}
use loggerlib.Common.Text.{to_lower_case}
use loggerlib.Logger.LogLevel.{
  LogLevel, LevelName, level_names, is_valid_level, level_to_string, find_level, string_to_level,
}
use loggerlib.Prelude.{
  true, List, [], ◌∷◌, Option, none, some, ◌≡◌, ◌↔◌, ◌∙◌, ap, refl, sym, arith, Bytes, codes, equal,
  equal_iff, if◌then◌else◌,
}

-- The search of `string2level` over the lower-cased text.
pick : List LevelName → Bytes → Option LogLevel
pick [] low = none
pick (entry ∷ table) low = if equal (lower entry.name) low then some entry.level else pick table low

find_level-pick :
    (table : List LevelName) (str : Bytes) → find_level table str ≡ pick table (lower str)
unfolding find_level pick
find_level-pick [] str = refl
find_level-pick (entry ∷ table) str =
    ground (arith, equals_ignore_case-equal entry.name str, find_level-pick table str)

pick_valid :
    (low : Bytes) (level : LogLevel)
    → pick level_names low ≡ some level
    → (is_valid_level level ≡ true) × (low ≡ lower (level_to_string level))
unfolding pick level_to_string
pick_valid low level h = ground (
  arith,
  equal_iff (lower (codes "DEBUG")) low,
  equal_iff (lower (codes "INFO")) low,
  equal_iff (lower (codes "WARN")) low,
  equal_iff (lower (codes "ERROR")) low,
  equal_iff (lower (codes "FATAL")) low,
)

pick_name :
    (level : LogLevel)
    → is_valid_level level ≡ true
    → pick level_names (lower (level_to_string level)) ≡ some level
unfolding pick level_to_string equal to_lower_case
pick_name LogLevel.count h = cc
pick_name (LogLevel.beyond n) h = absurd (ground arith)
pick_name _ h = refl

-- `string2level` accepts exactly the names that `level2string` gives the valid levels, in any case,
-- and returns that level.
pub string_to_level_iff :
    (str : Bytes) (level : LogLevel)
    → (string_to_level str ≡ some level)
      ↔ ((is_valid_level level ≡ true) × (lower str ≡ lower (level_to_string level)))
unfolding string_to_level
string_to_level_iff str level = (
  λ h. pick_valid (lower str) level (sym (find_level-pick level_names str) ∙ h),
  λ (valid, same).
      find_level-pick level_names str ∙ ap (pick level_names) same ∙ pick_name level valid,
)
