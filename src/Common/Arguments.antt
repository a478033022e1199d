-- ===== src/Common/Arguments.antt =====
-- The loop over the command line that app/core/Options.cpp and collector/core/Options.cpp share. What
-- an argument does to the scan is a parameter, which each program fills.
pub mod Invariant
use loggerlib.Prelude.{
  ℕ, zero, suc, ◌+◌, ◌-◌, ◌*◌, ◌/◌, ◌%◌, ◌^◌, ◌≤◌, ◌<◌, min, max, ◌≡◌, refl, sym, ap, ◌∙◌, ◌≢◌, ◌↔◌,
  ◌⊎◌, inl, inr, Bool, true, false, not, ◌&&◌, ◌||◌, Option, none, some, List, [], ◌∷◌, ◌++◌, map,
  append_assoc, append-nil, arith, Bytes, codes, Lacks, All, All-append, length, get_elem?, take,
  drop, replicate, length-replicate, modify, flatten, length-append, take-length, take_at, drop_at,
  drop-length, drop_past, take_all, equal, equal_iff, find, rfind, find_pair, substr, Cut, absent,
  at, find-Cut, ltb, leb, ◌==◌, if◌then◌else◌, ltb→lt, leb→le, ltb→le, lt→ltb, le→ltb, ==_iff,
  ==_refl, ==_ne, Bool-cases, Option-cases, every_below, every_below_at,
}

-- What a handler does: it goes on with the scan, it returns an `SUsageError`, or `std::get` throws.
pub data Scanned (S : Type 0) : Type 0 where
  scanned : S → Scanned S
  refused : (text : Bytes) → Scanned S
  threw : Scanned S

-- `TOptions`, or an exception.
pub data Options (R : Type 0) : Type 0 where
  runs : R → Options R
  shows_help : Options R
  usage_error : (text : Bytes) → Options R
  throws : Options R

abbrev pub Handler : Type 0 → Type 0
Handler S = Bytes → S → Scanned S

abbrev pub and_then : {S R : Type 0} → Scanned S → (S → Options R) → Options R
and_then (scanned s) next = next s
and_then (refused text) next = usage_error text
and_then threw next = throws

-- How the loop reads an argument.
pub data Reading (S : Type 0) : Type 0 where
  ends_options : Reading S
  is_positional : Reading S
  asks_help : Reading S
  takes_value : Handler S → Reading S
  is_unknown : Reading S

-- `argument.empty() || argument.front() != '-'`
abbrev pub no_dash : Bytes → Bool
no_dash [] = true
no_dash (c ∷ text) = not (c == b'-')

abbrev pub reading_of : {S : Type 0} → Option (Handler S) → Reading S
reading_of none = is_unknown
reading_of (some handler) = takes_value handler

module _ {S : Type 0} {R : Type 0} (positional : Handler S)
    (handler_for : Bytes → Option (Handler S)) (build_run : S → Options R) where
  unfoldable pub read_argument : Bool → Bytes → Reading S
  read_argument options_ended argument =
      if not options_ended && equal argument (codes "--")
      then ends_options
      else if options_ended || no_dash argument
      then is_positional
      else if equal argument (codes "--help") || equal argument (codes "-h")
      then asks_help
      else reading_of (handler_for argument)

  -- The loop; an option that stands before its value is kept with its handler.
  unfoldable pub scan_arguments : List Bytes → Bool → Option (Bytes × Handler S) → S → Options R
  scan_arguments [] options_ended none scan = build_run scan
  scan_arguments [] options_ended (some (argument, handler)) scan =
      usage_error (codes "missing value for " ++ argument)
  scan_arguments (text ∷ rest) options_ended (some (argument, handler)) scan =
      and_then (handler text scan) (scan_arguments rest options_ended none)
  scan_arguments (argument ∷ rest) options_ended none scan =
      elim (read_argument options_ended argument) [
        | ends_options ↦ scan_arguments rest true none scan
        | is_positional ↦
            and_then (positional argument scan) (scan_arguments rest options_ended none)
        | asks_help ↦ shows_help
        | takes_value handler ↦ scan_arguments rest options_ended (some (argument, handler)) scan
        | is_unknown ↦ usage_error (codes "unknown option: " ++ argument)
      ]
