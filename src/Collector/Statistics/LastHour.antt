-- ===== src/Collector/Statistics/LastHour.antt =====
-- The ring of minutes in collector/core/Statistics.cpp against the history: the report counts the
-- records of the last sixty minutes, though the ring keeps sixty numbers.
use loggerlib.Collector.Statistics.{
  modify, Bucket, buckets, count_minute, count_since, Statistics, new_statistics, add, word,
  minute_of, to_uint64, nanos_per_minute, snapshot,
}
use loggerlib.Collector.Statistics.Totals.{Event, add_all}
use loggerlib.Prelude.Int.{ℤ, pos, negsuc, ◌+ℤ◌, ◌-ℤ◌, leb_ℤ}
use mathlib.Core.Path.{subst}
use loggerlib.Prelude.{
  get_elem_lt, replicate_eq, get_elem?-modify_back, length-modify, ℕ, zero, suc, ◌+◌, ◌/◌, ◌%◌, ◌^◌,
  ◌≤◌, ◌<◌, ◌≡◌, refl, sym, ap, ◌∙◌, ◌⊎◌, inl, inr, Bool, false, some, List, [], ◌∷◌, arith, length,
  get_elem?, replicate, leb, ◌==◌, if◌then◌else◌, Bool-cases,
}

-- What a bucket adds to a report made in minute `m`, and what the ring adds.
weight : ℕ → Bucket → ℕ
weight m bucket = if leb_ℤ (pos m -ℤ pos buckets +ℤ pos 1) bucket.minute then bucket.count else 0

weights : ℕ → List Bucket → ℕ
weights m [] = 0
weights m (bucket ∷ ring) = weight m bucket + weights m ring

-- The bucket at index `i` is unused, or it counts a minute that belongs there and is not after
-- `last`.
abbrev Slot : ℕ → ℕ → Bucket → Type 0
Slot i last bucket =
    ((bucket.minute ≡ negsuc 0) × (bucket.count ≡ 0))
    ⊎ ((j : ℕ) × (bucket.minute ≡ pos j) × (j % 60 ≡ i) × (j ≤ last))

-- The ring after `count` records up to minute `last`.
record IsRing (last count : ℕ) (ring : List Bucket) : Type 0 where
  size : length ring ≡ 60
  slot : (i : ℕ) (bucket : Bucket) → get_elem? ring i ≡ some bucket → Slot i last bucket
  counted : (i : ℕ) (bucket : Bucket) → get_elem? ring i ≡ some bucket → bucket.count ≤ count

weight-count_minute :
    (m k last : ℕ) (bucket : Bucket)
    → k ≤ m
    → last ≤ k
    → bucket.count + 1 < 2 ^ 64
    → Slot (k % 60) last bucket
    → weight m (count_minute (pos k) bucket) ≡ weight m bucket + (if leb m (k + 59) then 1 else 0)
unfolding weight count_minute ◌+ℤ◌ ◌-ℤ◌
weight-count_minute m k last bucket before order room (inl (unused, zero_count)) = ground arith
weight-count_minute m k last bucket before order room (inr (j, at_j, same, old)) = ground arith

weights-modify :
    (m i : ℕ) (f : Bucket → Bucket) (ring : List Bucket) (bucket : Bucket)
    → get_elem? ring i ≡ some bucket
    → weights m (modify i f ring) + weight m bucket ≡ weights m ring + weight m (f bucket)
unfolding weights
weights-modify m i f [] bucket h = cc
weights-modify m zero f (b ∷ ring) bucket h = ground arith
weights-modify m (suc i) f (b ∷ ring) bucket h = omega (arith, weights-modify m i f ring bucket h)

-- One round of the loop in `snapshot`, where the sum does not wrap.
round-weight :
    (m n : ℕ) (b : Bucket)
    → n + weight m b < 2 ^ 64
    → (if leb_ℤ (pos m -ℤ pos buckets +ℤ pos 1) b.minute then word (n + b.count) else n)
      ≡ n + weight m b
unfolding weight
round-weight m n b room = ground arith

count_since-weights :
    (m : ℕ) (ring : List Bucket) (n : ℕ)
    → n + weights m ring < 2 ^ 64
    → count_since (pos m -ℤ pos buckets +ℤ pos 1) ring n ≡ n + weights m ring
unfolding count_since weights
count_since-weights m [] n room = omega arith
count_since-weights m (b ∷ ring) n room =
    ap (count_since (pos m -ℤ pos buckets +ℤ pos 1) ring) (round-weight m n b (omega arith))
    ∙ count_since-weights m ring (n + weight m b) (omega arith)
    ∙ omega arith

IsRing-count_minute :
    (last k count : ℕ) (ring : List Bucket)
    → IsRing last count ring
    → last ≤ k
    → IsRing k (count + 1) (modify (k % 60) (count_minute (pos k)) ring)
unfolding count_minute
IsRing-count_minute last k count ring r order = record {
  size = length-modify (k % 60) (count_minute (pos k)) ring ∙ r.size;
  slot = λ i bucket h.
      let (x, old, same) = get_elem?-modify_back (k % 60) i (count_minute (pos k)) ring bucket h in
      slot_after i bucket x same (r.slot i x old);
  counted = λ i bucket h.
      let (x, old, same) = get_elem?-modify_back (k % 60) i (count_minute (pos k)) ring bucket h in
      let before = r.counted i x old in ground arith;
}
  where
    slot_after :
        (i : ℕ) (bucket x : Bucket)
        → bucket ≡ (if k % 60 == i then count_minute (pos k) x else x)
        → Slot i last x
        → Slot i k bucket
    slot_after i bucket x same old = elim (Bool-cases (k % 60 == i)) [
      | inl here ↦ inr (k, ground arith, ground arith, omega arith)
      | inr other ↦ elim old [
        | inl (unused, zero_count) ↦ inl (ground arith, ground arith)
        | inr (j, at_j, belongs, before) ↦ inr (j, ground arith, belongs, omega arith)
      ]
    ]

-- The times of the records do not decrease, from `from` up to `until`, and are not negative.
abbrev pub Ascending : ℕ → ℕ → List Event → Type 0
Ascending from until [] = from ≤ until
Ascending from until (e ∷ es) = (t : ℕ) × (e.now ≡ pos t) × (from ≤ t) × Ascending t until es

-- A record at this time counts in a report made in minute `m`: at most 59 minutes lie between.
abbrev pub is_recent : ℕ → ℤ → Bool
is_recent m (pos t) = leb m (t / nanos_per_minute + 59)
is_recent m (negsuc t) = false

abbrev pub count_recent : ℕ → List Event → ℕ
count_recent m [] = 0
count_recent m (e ∷ es) = (if is_recent m e.now then 1 else 0) + count_recent m es

Ascending-le : (from until : ℕ) (es : List Event) → Ascending from until es → from ≤ until
Ascending-le from until [] h = h
Ascending-le from until (e ∷ es) (t, at_t, later, rest) =
    omega (arith, Ascending-le t until es rest)

minutes-add :
    (s : Statistics) (e : Event) (t : ℕ)
    → e.now ≡ pos t
    → t < 2 ^ 63
    → (add s e.level e.len e.now).minutes
      ≡ modify (t / nanos_per_minute % 60) (count_minute (pos (t / nanos_per_minute))) s.minutes
unfolding add minute_of
minutes-add s e t at_t fits =
    ap
      (λ now. modify (to_uint64 (minute_of now) % buckets) (count_minute (minute_of now)) s.minutes)
      at_t
    ∙ ap (λ n. modify (n % buckets) (count_minute (pos (t / nanos_per_minute))) s.minutes)
        (omega arith)

weights-add_all :
    (es : List Event) (s : Statistics) (from until count : ℕ)
    → IsRing (from / nanos_per_minute) count s.minutes
    → Ascending from until es
    → until < 2 ^ 63
    → count + length es < 2 ^ 64
    → weights (until / nanos_per_minute) (add_all s es).minutes
      ≡ weights (until / nanos_per_minute) s.minutes + count_recent (until / nanos_per_minute) es
unfolding add_all
weights-add_all [] s from until count r h fits room = omega arith
weights-add_all (e ∷ es) s from until count r (t, at_t, later, rest) fits room =
    let m = until / nanos_per_minute in
    let k = t / nanos_per_minute in
    let s' = add s e.level e.len e.now in
    let order = Ascending-le t until es rest in
    let ring = minutes-add s e t at_t (omega arith) in
    let (b, at_k) = get_elem_lt s.minutes (k % 60) (omega (arith, r.size)) in
    let counted = r.counted (k % 60) b at_k in
    let moved = weights-modify m (k % 60) (count_minute (pos k)) s.minutes b at_k in
    let grown =
      weight-count_minute m k (from / nanos_per_minute) b (omega arith) (omega arith) (omega arith)
        (r.slot (k % 60) b at_k) in
    let r' =
      subst (IsRing k (count + 1)) (sym ring)
        (IsRing-count_minute (from / nanos_per_minute) k count s.minutes r (omega arith)) in
    let ih = weights-add_all es s' t until (count + 1) r' rest fits (omega arith) in
    let same : ◌≡◌ {A = ℕ} (if is_recent m e.now then 1 else 0) (if leb m (k + 59) then 1 else 0) =
      ap (λ now. if is_recent m now then 1 else 0) at_t in
    omega (arith, ap (weights m) ring)

new-IsRing : IsRing 0 0 new_statistics.minutes
new-IsRing = record {
  size = refl;
  slot = λ i bucket h.
      let e = replicate_eq buckets i (record { minute = negsuc 0; count = 0 }) bucket h in
      inl (ap (λ b. b.minute) e, ap (λ b. b.count) e);
  counted = λ i bucket h.
      let e = replicate_eq buckets i (record { minute = negsuc 0; count = 0 }) bucket h in
      ground arith;
}

count_recent-le : (m : ℕ) (es : List Event) → count_recent m es ≤ length es
count_recent-le m [] = omega arith
count_recent-le m (e ∷ es) = ground (arith, count_recent-le m es)

weights-replicate :
    (m n : ℕ) → weights m (replicate n (record { minute = negsuc 0; count = 0 })) ≡ 0
unfolding weights weight
weights-replicate m zero = refl
weights-replicate m (suc n) = ground (arith, weights-replicate m n)

-- From a fresh start, whatever the records, if the clock never runs back and has not run over: the
-- report's last hour is the number of records whose minute is at most 59 before the report's.
pub last_hour_exact :
    {Double : Type 0} (zero_double : Double) (divide : ℕ → ℕ → Double) (es : List Event) (now : ℕ)
    → Ascending 0 now es
    → now < 2 ^ 63
    → length es < 2 ^ 64
    → (snapshot zero_double divide (add_all new_statistics es) (pos now)).last_hour
      ≡ count_recent (now / nanos_per_minute) es
unfolding snapshot minute_of
last_hour_exact zero_double divide es now h fits room =
    let m = now / nanos_per_minute in
    let exact = weights-add_all es new_statistics 0 now 0 new-IsRing h fits (omega arith) in
    let bound = count_recent-le m es in
    let none_before = weights-replicate m buckets in
    count_since-weights m (add_all new_statistics es).minutes 0 (omega arith) ∙ omega arith
