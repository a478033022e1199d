-- ===== src/Common/Arguments/Invariant.antt =====
-- What every handler keeps, the whole loop over the command line keeps.
use loggerlib.Common.Arguments.{
  ends_options, is_positional, asks_help, is_unknown, Reading, takes_value, usage_error,
  read_argument, refused, shows_help, runs, and_then, scanned, scan_arguments, Options, Handler,
  Scanned,
}
use loggerlib.Prelude.{
  ◌≡◌, refl, inl, inr, Bool, true, Option, none, some, List, [], ◌∷◌, arith, Bytes, Option-cases,
}

-- A handler goes on with a scan that keeps `P`, or refuses; it does not throw.
pub data Keeps {S : Type 0} (P : S → Type 0) : Scanned S → Type 0 where
  keeps : {s : S} → P s → Keeps P (scanned s)
  refuses : {text : Bytes} → Keeps P (refused text)

-- What a command line ends in: a run that satisfies `Q`, the help, or an error with its text.
pub data Ends {R : Type 0} (Q : R → Type 0) : Options R → Type 0 where
  ends_run : {r : R} → Q r → Ends Q (runs r)
  ends_help : Ends Q shows_help
  ends_usage : {text : Bytes} → Ends Q (usage_error text)

module _ {S : Type 0} {R : Type 0} (positional : Handler S)
    (handler_for : Bytes → Option (Handler S)) (build_run : S → Options R) (P : S → Type 0)
    (Q : R → Type 0) (keeps_positional : (text : Bytes) (s : S) → P s → Keeps P (positional text s))
    (keeps_option : (argument : Bytes) (handler : Handler S)
      → handler_for argument ≡ some handler
      → (text : Bytes) (s : S) → P s
      → Keeps P (handler text s))
    (ends_build : (s : S) → P s → Ends Q (build_run s)) where
  abbrev pub IsKept : Option (Bytes × Handler S) → Type 0
  IsKept none = Unit
  IsKept (some (argument, handler)) = (text : Bytes) (s : S) → P s → Keeps P (handler text s)

  and_then-Ends :
      (o : Scanned S) (next : S → Options R)
      → Keeps P o
      → ((s : S) → P s → Ends Q (next s))
      → Ends Q (and_then o next)
  and_then-Ends _ next (keeps p) after = after _ p
  and_then-Ends _ next refuses after = ends_usage

  read_argument-option :
      (options_ended : Bool) (argument : Bytes) (handler : Handler S)
      → read_argument positional handler_for build_run options_ended argument ≡ takes_value handler
      → handler_for argument ≡ some handler
  unfolding read_argument
  read_argument-option options_ended argument handler h =
      elim (Option-cases (handler_for argument)) [
        | inl nothing ↦ absurd (ground arith)
        | inr (found, e) ↦ ground arith
      ]

  -- The loop does not throw, and a run that it ends in satisfies `Q`.
  pub scan_arguments-Ends :
      (arguments : List Bytes) (options_ended : Bool) (pending : Option (Bytes × Handler S)) (s : S)
      → IsKept pending
      → P s
      → Ends Q (scan_arguments positional handler_for build_run arguments options_ended pending s)
  unfolding scan_arguments
  scan_arguments-Ends [] options_ended none s kept p = ends_build s p
  scan_arguments-Ends [] options_ended (some (argument, handler)) s kept p = ends_usage
  scan_arguments-Ends (text ∷ rest) options_ended (some (argument, handler)) s kept p =
      and_then-Ends (handler text s)
        (scan_arguments positional handler_for build_run rest options_ended none) (kept text s p)
        (λ t q. scan_arguments-Ends rest options_ended none t tt q)
  scan_arguments-Ends (argument ∷ rest) options_ended none s kept p =
      at_reading (read_argument positional handler_for build_run options_ended argument) refl
        (scan_arguments-Ends rest)
    where
      at_reading :
          (reading : Reading S)
          → read_argument positional handler_for build_run options_ended argument ≡ reading
          → ((ended : Bool) (pending : Option (Bytes × Handler S)) (t : S)
              → IsKept pending
              → P t
              → Ends Q (scan_arguments positional handler_for build_run rest ended pending t))
          → Ends Q (
              scan_arguments positional handler_for build_run
                (argument ∷ rest)
                options_ended
                none
                s)
      at_reading ends_options e rest_ends = rw (scan_arguments, e) (rest_ends true none s tt p)
      at_reading is_positional e rest_ends =
          rw (scan_arguments, e)
            (and_then-Ends (positional argument s)
              (scan_arguments positional handler_for build_run rest options_ended none)
              (keeps_positional argument s p) (λ t q. rest_ends options_ended none t tt q))
      at_reading asks_help e rest_ends = rw (scan_arguments, e) ends_help
      at_reading (takes_value handler) e rest_ends =
          rw (scan_arguments, e)
            (rest_ends options_ended (some (argument, handler)) s
              (keeps_option argument handler
                (read_argument-option options_ended argument handler e))
              p)
      at_reading is_unknown e rest_ends = rw (scan_arguments, e) ends_usage
