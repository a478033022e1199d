-- ===== src/App/InputParser/Messages.antt =====
-- Which lines of input become messages, app/core/InputParser.cpp.
use loggerlib.Logger.LogLevel.Names.{string_to_level_iff}
use loggerlib.App.InputParser.Trimming.{
  trim-IsTrimmed, trim_trimmed, trim-Spaces, trim_unique, IsTrimmed, Spaces,
}
use loggerlib.Common.Text.{to_lower_case, same_letters, equals_ignore_case}
use loggerlib.App.InputParser.{
  empty_line, after_slash, Option, message_of, parse_command, parse_trimmed, parse_user_input, trim,
  message, message_at, is_space, find_first_of, split_first_word,
}
use loggerlib.Logger.LogLevel.{is_valid_level, find_level, LogLevel, string_to_level}
use mathlib.Core.Path.{subst}
use loggerlib.Prelude.{
  Option, ◌⊎◌, ℕ, ◌≡◌, refl, sym, ap, ◌∙◌, ◌≢◌, inl, inr, true, false, none, some, [], ◌∷◌, ◌++◌,
  append_assoc, arith, Bytes, All, length, take-length, drop-length, ◌==◌, ==_iff, Bool-cases,
}

abbrev pub Solid : Bytes → Type 0
Solid = All (λ c. is_space c ≡ false)

abbrev pub IsEmpty : Bytes → Type 0
IsEmpty text = text ≡ []

find_first_of_word :
    (word : Bytes) (c : ℕ) (rest : Bytes)
    → Solid word
    → is_space c ≡ true
    → find_first_of (word ++ (c ∷ rest)) ≡ some (length word)
unfolding find_first_of
find_first_of_word [] c rest solid space = rw space
find_first_of_word (b ∷ word) c rest solid space =
    rw (solid.0, find_first_of_word word c rest solid.1 space)

find_first_of-Solid : (word : Bytes) → Solid word → find_first_of word ≡ none
unfolding find_first_of
find_first_of-Solid [] solid = refl
find_first_of-Solid (b ∷ word) solid = rw (solid.0, find_first_of-Solid word solid.1)

split_first_word_lem :
    (word : Bytes) (c : ℕ) (rest : Bytes)
    → Solid word
    → is_space c ≡ true
    → split_first_word (word ++ (c ∷ rest)) ≡ (word, c ∷ rest)
unfolding split_first_word
split_first_word_lem word c rest solid space =
    rw
      (
        split_first_word,
        find_first_of_word word c rest solid space,
        take-length word (c ∷ rest),
        drop-length word (c ∷ rest),
      )
      refl

-- No level is spelled with a slash.
no_slash : (rest : Bytes) (level : LogLevel) → string_to_level (b'/' ∷ rest) ≢ some level
unfolding string_to_level find_level equals_ignore_case same_letters to_lower_case
no_slash rest level h = ground arith

not_empty : (level : LogLevel) → string_to_level [] ≢ some level
unfolding string_to_level find_level equals_ignore_case
not_empty level h = ground arith

not_slash :
    (c : ℕ) (rest : Bytes) (level : LogLevel)
    → string_to_level (c ∷ rest) ≡ some level
    → (c == b'/') ≡ false
not_slash c rest level h = elim (Bool-cases (c == b'/')) [
  | inl slash ↦ absurd (
      no_slash rest level
        (ap (λ x. string_to_level (x ∷ rest)) (sym ((==_iff c b'/').0 slash)) ∙ h))
  | inr other ↦ other
]

message_at_text :
    (level : LogLevel) (text : Bytes) → text ≢ [] → message_at level text ≡ message level text
message_at_text level [] h = absurd (h refl)
message_at_text level (c ∷ text) h = refl

ends_join :
    (xs text : Bytes)
    → text ≢ []
    → ((front : Bytes) (d : ℕ) → text ≡ front ++ (d ∷ []) → is_space d ≡ false)
    → (front : Bytes) (d : ℕ) → xs ++ text ≡ front ++ (d ∷ [])
    → is_space d ≡ false
ends_join [] text full ends front d h = ends front d h
ends_join (x ∷ []) [] full ends [] d h = absurd (full refl)
ends_join (x ∷ xs) text full ends [] d h = absurd (tail_not xs text full (ground arith))
  where
    tail_not : (xs text : Bytes) → text ≢ [] → xs ++ text ≢ []
    tail_not [] text full h = full h
    tail_not (x ∷ xs) text full h = ground arith
ends_join (x ∷ xs) text full ends (b ∷ front) d h =
    ends_join xs text full ends front d (ground arith)

IsTrimmed-joined :
    (b : ℕ) (word text : Bytes)
    → is_space b ≡ false
    → IsTrimmed text
    → text ≢ []
    → IsTrimmed (b ∷ (word ++ text))
IsTrimmed-joined b word text solid trimmed full = record {
  begins = λ d rest h. ground arith;
  ends = ends_join (b ∷ word) text full trimmed.ends;
}

parse_at :
    (line : Bytes) (default_level : LogLevel) (c : ℕ) (rest : Bytes)
    → trim line ≡ c ∷ rest
    → parse_user_input line default_level ≡ parse_trimmed default_level c rest
unfolding parse_user_input
parse_at line default_level c rest h = rw (parse_user_input, h) refl

-- A line of a level's name, in any case, and a text, with spaces and tabs between them and around
-- them, is a message of that level, and the text between the spaces is the message.
pub parse_leveled :
    (default_level level : LogLevel) (front word gap text back : Bytes) (c : ℕ)
    → string_to_level word ≡ some level
    → Solid word
    → Spaces front
    → Spaces (c ∷ gap)
    → Spaces back
    → IsTrimmed text
    → text ≢ []
    → parse_user_input (front ++ ((word ++ (c ∷ (gap ++ text))) ++ back)) default_level
      ≡ message level text
unfolding parse_trimmed
parse_leveled default_level level front [] gap text back c named solid f g b trimmed full =
    absurd (not_empty level named)
parse_leveled default_level level front (w ∷ word) gap text back c named solid f g b trimmed full =
    let core : Bytes = word ++ (c ∷ (gap ++ text)) in
    let whole : IsTrimmed (w ∷ core) =
      subst (λ s. IsTrimmed (w ∷ s)) (append_assoc word (c ∷ gap) text)
        (IsTrimmed-joined w (word ++ (c ∷ gap)) text solid.0 trimmed full) in
    parse_at (front ++ ((w ∷ core) ++ back)) default_level w core
      (trim_unique front (w ∷ core) back f b whole)
    ∙ rw
        (
          parse_trimmed,
          not_slash w word level named,
          split_first_word_lem (w ∷ word) c (gap ++ text) solid g.0,
          named,
          trim-Spaces (c ∷ gap) text g,
          trim_trimmed text trimmed,
        )
        (message_at_text level text full)

-- Any text that begins with a slash is written with one slash more, and then is a message of the
-- default level, spaces and tabs around it left out.
pub parse_slashed :
    (default_level : LogLevel) (front text back : Bytes)
    → Spaces front
    → Spaces back
    → IsTrimmed (b'/' ∷ text)
    → parse_user_input (front ++ ((b'/' ∷ b'/' ∷ text) ++ back)) default_level
      ≡ message default_level (b'/' ∷ text)
unfolding parse_trimmed
parse_slashed default_level front text back f b trimmed =
    let whole : IsTrimmed (b'/' ∷ b'/' ∷ text) = record {
      begins = λ d rest h. trimmed.begins d text (ground arith);
      ends = ends_join (b'/' ∷ []) (b'/' ∷ text) (λ h. absurd (ground arith)) trimmed.ends;
    } in
    parse_at (front ++ ((b'/' ∷ b'/' ∷ text) ++ back)) default_level b'/' (b'/' ∷ text)
      (trim_unique front (b'/' ∷ b'/' ∷ text) back f b whole)

-- What is true of each message that a line gives.
abbrev pub IsEntered : LogLevel → LogLevel → Bytes → Type 0
IsEntered default_level level text =
    IsTrimmed text × (text ≢ []) × ((level ≡ default_level) ⊎ (is_valid_level level ≡ true))

command_not_message :
    (line : Bytes) (level : LogLevel) (text : Bytes) → parse_command line ≢ message level text
unfolding parse_command
command_not_message line level text h = ground arith

IsEntered-as :
    (default_level given level : LogLevel) (c : ℕ) (line text : Bytes)
    → IsTrimmed (c ∷ line)
    → (given ≡ default_level) ⊎ (is_valid_level given ≡ true)
    → message given (c ∷ line) ≡ message level text
    → IsEntered default_level level text
IsEntered-as default_level given level c line text trimmed known h =
    let same : c ∷ line ≡ text = ground arith in
    let as_given : given ≡ level = ground arith in
    (
      subst IsTrimmed same trimmed,
      ground arith,
      subst (λ (l : LogLevel). (l ≡ default_level) ⊎ (is_valid_level l ≡ true)) as_given known,
    )

message_at-IsEntered :
    (default_level given level : LogLevel) (tail text : Bytes)
    → IsTrimmed tail
    → is_valid_level given ≡ true
    → message_at given tail ≡ message level text
    → IsEntered default_level level text
message_at-IsEntered default_level given level [] text trimmed valid h = absurd (ground arith)
message_at-IsEntered default_level given level (c ∷ tail) text trimmed valid h =
    IsEntered-as default_level given level c tail text trimmed (inr valid) h

message_of-IsEntered :
    (default_level level : LogLevel) (c : ℕ) (line tail word text : Bytes) (found : Option LogLevel)
    → string_to_level word ≡ found
    → IsTrimmed (c ∷ line)
    → message_of default_level (c ∷ line) tail found ≡ message level text
    → IsEntered default_level level text
message_of-IsEntered default_level level c line tail word text none e trimmed h =
    IsEntered-as default_level default_level level c line text trimmed (inl refl) h
message_of-IsEntered default_level level c line tail word text (some named) e trimmed h =
    message_at-IsEntered default_level named level (trim tail) text (trim-IsTrimmed tail)
      ((string_to_level_iff word named).0 e).0 h

slash_solid : (b : ℕ) → b ≡ b'/' → is_space b ≡ false
unfolding is_space
slash_solid b h = ground arith

slash-IsEntered :
    (default_level level : LogLevel) (c d : ℕ) (rest text : Bytes)
    → IsTrimmed (c ∷ d ∷ rest)
    → after_slash default_level c (d ∷ rest) ≡ message level text
    → IsEntered default_level level text
slash-IsEntered default_level level c d rest text trimmed h = elim (Bool-cases (d == b'/')) [
  | inr other ↦ absurd (command_not_message (c ∷ d ∷ rest) level text (ground arith))
  | inl slash ↦
      IsEntered-as default_level default_level level d rest text
        (record {
          begins = λ b tail e. slash_solid b (ground arith);
          ends = λ front b e. trimmed.ends (c ∷ front) b (ap (◌∷◌ c) e);
        })
        (inl refl) (ground arith)
]

parse_trimmed-IsEntered :
    (default_level level : LogLevel) (c : ℕ) (rest text : Bytes)
    → IsTrimmed (c ∷ rest)
    → parse_trimmed default_level c rest ≡ message level text
    → IsEntered default_level level text
unfolding parse_trimmed
parse_trimmed-IsEntered default_level level c rest text trimmed h = elim (Bool-cases (c == b'/')) [
  | inl slash ↦ slashed rest trimmed (ground arith)
  | inr other ↦
      message_of-IsEntered default_level level c rest (split_first_word (c ∷ rest)).1
        (split_first_word (c ∷ rest)).0 text (string_to_level (split_first_word (c ∷ rest)).0) refl
        trimmed (ground arith)
]
  where
    slashed :
        (rest : Bytes)
        → IsTrimmed (c ∷ rest)
        → after_slash default_level c rest ≡ message level text
        → IsEntered default_level level text
    slashed [] trimmed h = absurd (command_not_message (c ∷ []) level text h)
    slashed (d ∷ rest) trimmed h = slash-IsEntered default_level level c d rest text trimmed h

parse_none :
    (line : Bytes) (default_level : LogLevel)
    → trim line ≡ []
    → parse_user_input line default_level ≡ empty_line
unfolding parse_user_input
parse_none line default_level h = rw (parse_user_input, h) refl

-- A message that a line gives is trimmed and not empty, and its level is the default one or a valid
-- one.
pub parse-IsEntered :
    (line : Bytes) (default_level level : LogLevel) (text : Bytes)
    → parse_user_input line default_level ≡ message level text
    → IsTrimmed text × (text ≢ []) × ((level ≡ default_level) ⊎ (is_valid_level level ≡ true))
parse-IsEntered line default_level level text h = entered (trim line) refl
  where
    entered : (core : Bytes) → trim line ≡ core → IsEntered default_level level text
    entered [] e = absurd (ground (arith, parse_none line default_level e))
    entered (c ∷ rest) e =
        parse_trimmed-IsEntered default_level level c rest text
          (subst IsTrimmed e (trim-IsTrimmed line)) (sym (parse_at line default_level c rest e) ∙ h)
