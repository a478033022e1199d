-- ===== src/App/InputParser.antt =====
-- app/core/InputParser.hpp and app/core/InputParser.cpp: one line of input.
pub mod Trimming
pub mod Messages
use loggerlib.Logger.LogLevel.{LogLevel, string_to_level}
use mathlib.Core.Option
use loggerlib.Prelude.{
  ℕ, suc, ◌+◌, ◌-◌, Bool, not, ◌||◌, Option, none, some, [], ◌∷◌, ◌++◌, Bytes, codes, take, drop,
  equal, substr, ◌==◌, if◌then◌else◌,
}

pub data UserInput : Type 0 where
  message : LogLevel → Bytes → UserInput
  level_command : LogLevel → UserInput
  quit_command : UserInput
  help_command : UserInput
  empty_line : UserInput
  error : Bytes → UserInput

-- `kSpaces`
unfoldable pub is_space : ℕ → Bool
is_space c = c == b' ' || c == b'\t'

-- `line.find_first_not_of(kSpaces)`
unfoldable pub find_first_not_of : Bytes → Option ℕ
unfolding is_space
find_first_not_of [] = none
find_first_not_of (c ∷ line) =
    if not (is_space c) then some 0 else Option.map suc (find_first_not_of line)

-- `line.find_first_of(kSpaces)`
unfoldable pub find_first_of : Bytes → Option ℕ
unfolding is_space
find_first_of [] = none
find_first_of (c ∷ line) = if is_space c then some 0 else Option.map suc (find_first_of line)

-- `line.find_last_not_of(kSpaces)`
unfoldable pub find_last_not_of : Bytes → Option ℕ
unfolding is_space
find_last_not_of [] = none
find_last_not_of (c ∷ line) = elim (find_last_not_of line) [
  | some i ↦ some (suc i)
  | none ↦ if not (is_space c) then some 0 else none
]

-- The text from `first` to `last`; a `last` that is not found is `npos`, up to the end.
abbrev up_to : ℕ → Option ℕ → Bytes → Bytes
up_to first none line = drop first line
up_to first (some last) line = substr first (last - first + 1) line

unfoldable pub trim : Bytes → Bytes
trim line = elim (find_first_not_of line) [
  | none ↦ []
  | some first ↦ up_to first (find_last_not_of line) line
]

unfoldable pub split_first_word : Bytes → Bytes × Bytes
split_first_word line = elim (find_first_of line) [
  | none ↦ (line, [])
  | some end ↦ (take end line, drop end line)
]

abbrev level_of_argument : Bytes → Option LogLevel → UserInput
level_of_argument argument none = error (codes "unknown level: " ++ argument)
level_of_argument argument (some level) = level_command level

abbrev level_argument : Bytes → UserInput
level_argument [] = error (codes "usage: /level <name>")
level_argument (c ∷ argument) = level_of_argument (c ∷ argument) (string_to_level (c ∷ argument))

unfoldable pub parse_command : Bytes → UserInput
parse_command line =
    let (name, tail) = split_first_word line in
    if equal name (codes "/quit")
    then quit_command
    else if equal name (codes "/help")
    then help_command
    else if not (equal name (codes "/level"))
    then error (codes "unknown command: " ++ (name ++ codes " (type /help)"))
    else level_argument (trim tail)

-- The text behind the level that the first word names.
abbrev message_at : LogLevel → Bytes → UserInput
message_at level [] = error (codes "message text is missing")
message_at level (c ∷ text) = message level (c ∷ text)

abbrev message_of : LogLevel → Bytes → Bytes → Option LogLevel → UserInput
message_of default_level line tail none = message default_level line
message_of default_level line tail (some level) = message_at level (trim tail)

-- A line that begins with the slash `c`.
abbrev pub after_slash : LogLevel → ℕ → Bytes → UserInput
after_slash default_level c [] = parse_command (c ∷ [])
after_slash default_level c (d ∷ rest) =
    if d == b'/' then message default_level (d ∷ rest) else parse_command (c ∷ d ∷ rest)

-- A line that is trimmed and not empty.
unfoldable pub parse_trimmed : LogLevel → ℕ → Bytes → UserInput
parse_trimmed default_level c line =
    if c == b'/'
    then after_slash default_level c line
    else let (word, tail) = split_first_word (c ∷ line) in
      message_of default_level (c ∷ line) tail (string_to_level word)

unfoldable pub parse_user_input : Bytes → LogLevel → UserInput
parse_user_input line default_level = elim (trim line) [
  | [] ↦ empty_line
  | c ∷ rest ↦ parse_trimmed default_level c rest
]
