-- ===== src/Logger/LogLevel.antt =====
-- logger/include/logger/LogLevel.hpp and logger/src/LogLevel.cpp.
pub mod Names
use loggerlib.Common.Text.{equals_ignore_case}
use loggerlib.Prelude.{
  ℕ, zero, suc, ◌+◌, Bool, List, [], ◌∷◌, Option, none, some, Bytes, codes, get_elem?, ltb,
  if◌then◌else◌,
}

-- The enumeration is stored in a byte, so a cast may give a value beyond `Count`: `beyond n` is
-- the value 6 + n.
pub data LogLevel : Type 0 where
  debug info warn error fatal count : LogLevel
  beyond : ℕ → LogLevel

-- `static_cast<std::size_t>(level)`
abbrev pub index : LogLevel → ℕ
index LogLevel.debug = 0
index LogLevel.info = 1
index LogLevel.warn = 2
index LogLevel.error = 3
index LogLevel.fatal = 4
index LogLevel.count = 5
index (LogLevel.beyond n) = 6 + n

-- `static_cast<ELogLevel>(i)`
abbrev pub from_index : ℕ → LogLevel
from_index zero = LogLevel.debug
from_index (suc zero) = LogLevel.info
from_index (suc (suc zero)) = LogLevel.warn
from_index (suc (suc (suc zero))) = LogLevel.error
from_index (suc (suc (suc (suc zero)))) = LogLevel.fatal
from_index (suc (suc (suc (suc (suc zero))))) = LogLevel.count
from_index (suc (suc (suc (suc (suc (suc n)))))) = LogLevel.beyond n

-- `kLevelNames`
pub record LevelName : Type 0 where
  pub level : LogLevel
  pub name : Bytes

abbrev pub level_names : List LevelName
level_names =
    record { level = LogLevel.debug; name = codes "DEBUG" }
    ∷ record { level = LogLevel.info; name = codes "INFO" }
    ∷ record { level = LogLevel.warn; name = codes "WARN" }
    ∷ record { level = LogLevel.error; name = codes "ERROR" }
    ∷ record { level = LogLevel.fatal; name = codes "FATAL" }
    ∷ []

unfoldable pub is_valid_level : LogLevel → Bool
is_valid_level level = ltb (index level) (index LogLevel.count)

-- an index past the end of the table is never read; the fallback name stands for it
abbrev name_at : Option LevelName → Bytes
name_at none = codes "UNKNOWN"
name_at (some entry) = entry.name

unfoldable pub level_to_string : LogLevel → Bytes
unfolding is_valid_level
level_to_string level =
    if is_valid_level level then name_at (get_elem? level_names (index level)) else codes "UNKNOWN"

unfoldable pub find_level : List LevelName → Bytes → Option LogLevel
find_level [] str = none
find_level (entry ∷ table) str =
    if equals_ignore_case entry.name str then some entry.level else find_level table str

unfoldable pub string_to_level : Bytes → Option LogLevel
string_to_level str = find_level level_names str
