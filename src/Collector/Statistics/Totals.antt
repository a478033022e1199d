-- ===== src/Collector/Statistics/Totals.antt =====
-- The counters of collector/core/Statistics.cpp against the history of the records.
use loggerlib.Collector.Statistics.{Statistics, new_statistics, add, word}
use loggerlib.Logger.LogLevel.{is_valid_level, LogLevel, index}
use loggerlib.Prelude.Int.{ℤ}
use loggerlib.Prelude.{
  lt-length, get_elem?-modify, replicate_eq, get_elem?-modify_back, ℕ, ◌+◌, ◌^◌, ◌≤◌, ◌<◌, min, max,
  ◌≡◌, refl, ap, ◌∙◌, inl, inr, true, some, List, [], ◌∷◌, arith, length, get_elem?, ltb, ◌==◌,
  if◌then◌else◌, Bool-cases,
}

-- One record, as `add` is told of it.
pub record Event : Type 0 where
  pub level : LogLevel
  pub len : ℕ
  pub now : ℤ

unfoldable pub add_all : Statistics → List Event → Statistics
add_all s [] = s
add_all s (e ∷ es) = add_all (add s e.level e.len e.now) es

-- How many of the records have the level with this index.
abbrev pub count_level : ℕ → List Event → ℕ
count_level i [] = 0
count_level i (e ∷ es) = (if index e.level == i then 1 else 0) + count_level i es

abbrev pub sum_lengths : List Event → ℕ
sum_lengths [] = 0
sum_lengths (e ∷ es) = e.len + sum_lengths es

-- The smallest length among some records and `n`, and the largest.
abbrev pub min_from : ℕ → List Event → ℕ
min_from n [] = n
min_from n (e ∷ es) = min_from (min n e.len) es

abbrev pub max_from : ℕ → List Event → ℕ
max_from n [] = n
max_from n (e ∷ es) = max_from (max n e.len) es

-- No level was counted more often than all records together.
abbrev IsValid : Statistics → Type 0
IsValid s = (i n : ℕ) → get_elem? s.by_level i ≡ some n → n ≤ s.total

-- `t` is `s` after the records `es`, with no counter wrapped.
record Counted (s : Statistics) (es : List Event) (t : Statistics) : Type 0 where
  pub total : t.total ≡ s.total + length es
  pub malformed : t.malformed ≡ s.malformed
  pub total_length : t.total_length ≡ s.total_length + sum_lengths es
  pub max_length : t.max_length ≡ max_from s.max_length es
  pub min_length : 0 < s.total → t.min_length ≡ min_from s.min_length es
  pub by_level :
      (i n : ℕ)
      → get_elem? s.by_level i ≡ some n
      → get_elem? t.by_level i ≡ some (n + count_level i es)

module _ (s : Statistics) (e : Event) where
  abbrev after : Statistics
  after = add s e.level e.len e.now

  add-level :
      (i n : ℕ)
      → s.total + 1 < 2 ^ 64
      → n ≤ s.total
      → get_elem? s.by_level i ≡ some n
      → get_elem? after.by_level i ≡ some (n + (if index e.level == i then 1 else 0))
  unfolding add
  add-level i n room small h = ground (
    arith,
    get_elem?-modify (index e.level) i (λ n. word (n + 1)) s.by_level n h,
    lt-length s.by_level i n h,
  )

  add-total : s.total + 1 < 2 ^ 64 → after.total ≡ s.total + 1
  unfolding add
  add-total room = omega arith

  add-length : s.total_length + e.len < 2 ^ 64 → after.total_length ≡ s.total_length + e.len
  unfolding add
  add-length room = omega arith

  add-min : s.total + 1 < 2 ^ 64 → 0 < s.total → after.min_length ≡ min s.min_length e.len
  unfolding add
  add-min room some_before = ground arith

  add-first : s.total ≡ 0 → after.min_length ≡ e.len
  unfolding add
  add-first first = ground arith

  add-max : (after.max_length ≡ max s.max_length e.len) × (after.malformed ≡ s.malformed)
  unfolding add
  add-max = (refl, refl)

  add-level_back :
      (i n : ℕ)
      → get_elem? after.by_level i ≡ some n
      → (m : ℕ) × (get_elem? s.by_level i ≡ some m) × (n ≤ m + 1)
  unfolding add
  add-level_back i n h = elim (Bool-cases (ltb (index e.level) (length s.by_level))) [
    | inl inside ↦
        let (m, old, same) =
          get_elem?-modify_back (index e.level) i (λ n. word (n + 1)) s.by_level n
            (rw inside at h) in
        (m, old, ground arith)
    | inr outside ↦ (n, rw outside at h, omega arith)
  ]

  add-IsValid : s.total + 1 < 2 ^ 64 → IsValid s → IsValid after
  add-IsValid room v i n h =
      let (m, old, grows) = add-level_back i n h in omega (arith, v i m old, add-total room)

add_all-Counted :
    (es : List Event) (s : Statistics)
    → IsValid s
    → s.total + length es < 2 ^ 64
    → s.total_length + sum_lengths es < 2 ^ 64
    → Counted s es (add_all s es)
unfolding add_all
add_all-Counted [] s v room space = record {
  total = omega arith;
  malformed = refl;
  total_length = omega arith;
  max_length = refl;
  min_length = λ _. refl;
  by_level = λ i n h. h ∙ ap some (omega arith);
}
add_all-Counted (e ∷ es) s v room space =
    let s' = after s e in
    let total' = add-total s e (omega arith) in
    let length' = add-length s e (omega arith) in
    let ih = add_all-Counted es s' (add-IsValid s e (omega arith) v) (omega arith) (omega arith) in
    record {
      total = omega arith;
      malformed = ih.malformed ∙ (add-max s e).1;
      total_length = omega arith;
      max_length = ih.max_length ∙ ap (λ n. max_from n es) (add-max s e).0;
      min_length = λ some_before.
          ih.min_length (omega arith)
          ∙ ap (λ n. min_from n es) (add-min s e (omega arith) some_before);
      by_level = λ i n h.
          let bumped = add-level s e i n (omega arith) (v i n h) h in
          ih.by_level i (n + (if index e.level == i then 1 else 0)) bumped ∙ ap some (omega arith);
    }

new-IsValid : IsValid new_statistics
new-IsValid i n h = omega (arith, replicate_eq 5 i 0 n h)

new-level :
    (level : LogLevel)
    → is_valid_level level ≡ true
    → get_elem? new_statistics.by_level (index level) ≡ some 0
unfolding is_valid_level
new-level LogLevel.count h = cc
new-level (LogLevel.beyond n) h = absurd (ground arith)
new-level _ h = refl

-- After any records, fewer than 2 ^ 64 of them and with fewer than 2 ^ 64 bytes, each counter has
-- the value that the history gives it: the number of records, of those of each level, the sum of
-- the lengths, and the smallest and the largest length.
pub add_all-exact :
    (e : Event) (es : List Event)
    → length (e ∷ es) < 2 ^ 64
    → sum_lengths (e ∷ es) < 2 ^ 64
    → (let t = add_all new_statistics (e ∷ es) in
        (t.total ≡ length (e ∷ es))
        × (t.malformed ≡ 0)
        × (t.total_length ≡ sum_lengths (e ∷ es))
        × (t.min_length ≡ min_from e.len es)
        × (t.max_length ≡ max_from 0 (e ∷ es))
        × ((level : LogLevel)
            → is_valid_level level ≡ true
            → get_elem? t.by_level (index level) ≡ some (count_level (index level) (e ∷ es))))
unfolding add_all
add_all-exact e es room space =
    let all = add_all-Counted (e ∷ es) new_statistics new-IsValid (omega arith) (omega arith) in
    let first = after new_statistics e in
    let total' = add-total new_statistics e (omega arith) in
    let length' = add-length new_statistics e (omega arith) in
    let later =
      add_all-Counted es first (add-IsValid new_statistics e (omega arith) new-IsValid)
        (omega arith) (omega arith) in
    (
      omega arith,
      all.malformed,
      omega arith,
      later.min_length (omega arith) ∙ ap (λ n. min_from n es) (add-first new_statistics e refl),
      all.max_length,
      λ level valid. all.by_level (index level) 0 (new-level level valid) ∙ ap some (omega arith),
    )
