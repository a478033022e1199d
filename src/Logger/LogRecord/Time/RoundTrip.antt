-- ===== src/Logger/LogRecord/Time/RoundTrip.antt =====
-- A stamp that was written is read back to the millisecond, whatever the calendar, as long as it
-- keeps what the C library documents.
use loggerlib.Common.Text.Numbers.{IsDigit}
use loggerlib.Logger.LogRecord.Time.Padded.{padded-Field, Field}
use loggerlib.Logger.LogRecord.Time.{
  millis_of, nanos_per_milli, floor_seconds, scale, parse_timestamp, sym, to_time, format_stamp,
  padded, same_parts, stamp_text, eq_ℤ, ◌+ℤ◌, Tm, Calendar, unknown_stamp, nanos_per_second,
  matches_shape, read_fields,
}
use loggerlib.Prelude.Int.{scale, ◌+ℤ◌, eq_ℤ_iff, ℤ, pos, ◌-ℤ◌}
use loggerlib.Prelude.{
  ◌*◌, ◌%◌, sym, ◌+◌, ◌<◌, ℕ, zero, suc, ◌-◌, ◌/◌, ◌^◌, ◌≤◌, ◌≡◌, refl, ap, ◌∙◌, true, some, [],
  ◌∷◌, ◌++◌, arith, Bytes, codes, All, length, replicate, length-append,
}

-- The parts of a time from 1970 to 2262, the years that a `system_clock` in nanoseconds reaches.
pub record InRange (p : Tm) : Type 0 where
  pub year : ℕ
  pub year_is : p.tm_year ≡ pos year
  pub year_le : year ≤ 8099
  pub month : ℕ
  pub month_is : p.tm_mon ≡ pos month
  pub month_le : month ≤ 11
  pub mday : ℕ
  pub mday_is : p.tm_mday ≡ pos mday
  pub mday_le : mday ≤ 31
  pub hour : ℕ
  pub hour_is : p.tm_hour ≡ pos hour
  pub hour_le : hour ≤ 23
  pub min : ℕ
  pub min_is : p.tm_min ≡ pos min
  pub min_le : min ≤ 59
  pub sec : ℕ
  pub sec_is : p.tm_sec ≡ pos sec
  pub sec_le : sec ≤ 60

-- `gmtime_r` answers with parts in their documented ranges for each second up to the last that the
-- clock reaches, and `timegm` is its inverse and leaves such parts as they are.
pub record IsCalendar (calendar : Calendar) : Type 0 where
  pub answers :
      (t : ℕ)
      → t ≤ (2 ^ 63 - 1) / nanos_per_second
      → (p : Tm) × (calendar.gmtime (pos t) ≡ some p) × InRange p
  pub inverse : (t : ℤ) (p : Tm) → calendar.gmtime t ≡ some p → calendar.timegm p ≡ (t, p)

-- A text of known length, byte by byte.
two : (s : Bytes) → length s ≡ 2 → (a : ℕ) × (b : ℕ) × (s ≡ a ∷ b ∷ [])
two [] h = absurd (omega arith)
two (a ∷ []) h = absurd (omega arith)
two (a ∷ b ∷ []) h = (a, b, refl)
two (a ∷ b ∷ c ∷ s) h = absurd (omega arith)

three : (s : Bytes) → length s ≡ 3 → (a : ℕ) × (b : ℕ) × (c : ℕ) × (s ≡ a ∷ b ∷ c ∷ [])
three [] h = absurd (omega arith)
three (a ∷ s) h = let (b, c, e) = two s (omega arith) in (a, b, c, ap (◌∷◌ a) e)

four : (s : Bytes) → length s ≡ 4 → (a : ℕ) × (b : ℕ) × (c : ℕ) × (d : ℕ) × (s ≡ a ∷ b ∷ c ∷ d ∷ [])
four [] h = absurd (omega arith)
four (a ∷ s) h = let (b, c, d, e) = three s (omega arith) in (a, b, c, d, ap (◌∷◌ a) e)

-- Seven texts with the separators of a stamp between them.
abbrev joined : Bytes → Bytes → Bytes → Bytes → Bytes → Bytes → Bytes → Bytes
joined y mo d h mi s ms =
    y
    ++ (b'-'
        ∷ (mo
            ++ (b'-'
                ∷ (d
                    ++ (b' '
                        ∷ (h ++ (b':' ∷ (mi ++ (b':' ∷ (s ++ (b'.' ∷ (ms ++ b'Z' ∷ []))))))))))))

shape_digits :
    (width : ℕ) (s shape rest : Bytes)
    → length s ≡ width
    → All IsDigit s
    → matches_shape (replicate width b'0' ++ shape) (s ++ rest) ≡ matches_shape shape rest
unfolding matches_shape
shape_digits zero [] shape rest h all = refl
shape_digits zero (c ∷ s) shape rest h all = absurd (omega arith)
shape_digits (suc width) [] shape rest h all = absurd (omega arith)
shape_digits (suc width) (c ∷ s) shape rest h (digit, all) =
    ground (arith, shape_digits width s shape rest (omega arith) all)

module _ {y mo d h mi s ms : ℕ} {fy fmo fd fh fmi fs fms : Bytes} (year : Field 4 y fy)
    (month : Field 2 mo fmo) (mday : Field 2 d fd) (hour : Field 2 h fh) (min' : Field 2 mi fmi)
    (sec : Field 2 s fs) (millis : Field 3 ms fms) where
  joined-shape : matches_shape unknown_stamp (joined fy fmo fd fh fmi fs fms) ≡ true
  unfolding matches_shape
  joined-shape =
      shape_digits 4 fy (codes "-00-00 00:00:00.000Z") _ year.size year.digits
      ∙ shape_digits 2 fmo (codes "-00 00:00:00.000Z") _ month.size month.digits
      ∙ shape_digits 2 fd (codes " 00:00:00.000Z") _ mday.size mday.digits
      ∙ shape_digits 2 fh (codes ":00:00.000Z") _ hour.size hour.digits
      ∙ shape_digits 2 fmi (codes ":00.000Z") _ min'.size min'.digits
      ∙ shape_digits 2 fs (codes ".000Z") _ sec.size sec.digits
      ∙ shape_digits 3 fms (codes "Z") _ millis.size millis.digits

  joined-size : length (joined fy fmo fd fh fmi fs fms) ≡ 24
  joined-size = omega (
    arith,
    length-append {0},
    year.size,
    month.size,
    mday.size,
    hour.size,
    min'.size,
    sec.size,
    millis.size,
  )

  joined-fields :
      read_fields (joined fy fmo fd fh fmi fs fms)
      ≡ some (record {
        requested = record {
          tm_year = pos y -ℤ pos 1900;
          tm_mon = pos mo -ℤ pos 1;
          tm_mday = pos d;
          tm_hour = pos h;
          tm_min = pos mi;
          tm_sec = pos s;
        };
        millis = pos ms;
      })
  unfolding read_fields
  joined-fields =
      let (y1, y2, y3, y4, ey) = four fy year.size in
      let (m1, m2, em) = two fmo month.size in
      let (d1, d2, ed) = two fd mday.size in
      let (h1, h2, eh) = two fh hour.size in
      let (i1, i2, ei) = two fmi min'.size in
      let (s1, s2, es) = two fs sec.size in
      let (k1, k2, k3, ek) = three fms millis.size in
      ap (λ t. read_fields (joined t fmo fd fh fmi fs fms)) ey
      ∙ ap (λ t. read_fields (joined (y1 ∷ y2 ∷ y3 ∷ y4 ∷ []) t fd fh fmi fs fms)) em
      ∙ (λ j.
          read_fields
            (joined (y1 ∷ y2 ∷ y3 ∷ y4 ∷ []) (m1 ∷ m2 ∷ []) (ed j) (eh j) (ei j) (es j) (ek j)))
      ∙ rw (
        read_fields,
        (rw ey at year.reads),
        (rw em at month.reads),
        (rw ed at mday.reads),
        (rw eh at hour.reads),
        (rw ei at min'.reads),
        (rw es at sec.reads),
        (rw ek at millis.reads),
      )

pos_sum : (a b : ℕ) → pos a +ℤ pos b ≡ pos (a + b)
unfolding ◌+ℤ◌
pos_sum a b = ground arith

pos_diff : (a b : ℕ) → pos (a + b) -ℤ pos b ≡ pos a
unfolding ◌-ℤ◌
pos_diff a b = ground arith

eq_ℤ_refl : (a : ℤ) → eq_ℤ a a ≡ true
eq_ℤ_refl a = (eq_ℤ_iff a a).1 refl

same_parts_refl : (p : Tm) → same_parts p p ≡ true
unfolding same_parts
same_parts_refl p = ground (
  arith,
  eq_ℤ_refl p.tm_year,
  eq_ℤ_refl p.tm_mon,
  eq_ℤ_refl p.tm_mday,
  eq_ℤ_refl p.tm_hour,
  eq_ℤ_refl p.tm_min,
  eq_ℤ_refl p.tm_sec,
)

module _ {p : Tm} (r : InRange p) (k : ℕ) (small : k ≤ 999) where
  abbrev digits_of : Bytes
  digits_of =
      joined (padded 4 (pos (r.year + 1900))) (padded 2 (pos (r.month + 1))) (padded 2 (pos r.mday))
        (padded 2 (pos r.hour)) (padded 2 (pos r.min)) (padded 2 (pos r.sec)) (padded 3 (pos k))

  field4 : Field 4 (r.year + 1900) (padded 4 (pos (r.year + 1900)))
  field4 =
      padded-Field 4 (r.year + 1900) (omega arith) (omega (arith, r.year_le))
        (omega (arith, r.year_le))

  field2 : (n : ℕ) → n < 100 → Field 2 n (padded 2 (pos n))
  field2 n h = padded-Field 2 n (omega arith) (omega arith) (omega arith)

  field3 : Field 3 k (padded 3 (pos k))
  field3 = padded-Field 3 k (omega arith) (omega arith) (omega arith)

  stamp_text-joined : stamp_text p k ≡ digits_of
  unfolding stamp_text
  stamp_text-joined = rw (
    r.year_is,
    r.month_is,
    r.mday_is,
    r.hour_is,
    r.min_is,
    r.sec_is,
    pos_sum r.year 1900,
    pos_sum r.month 1,
  )

  size_digits : length digits_of ≡ 24
  size_digits =
      joined-size field4 (field2 (r.month + 1) (omega (arith, r.month_le)))
        (field2 r.mday (omega (arith, r.mday_le))) (field2 r.hour (omega (arith, r.hour_le)))
        (field2 r.min (omega (arith, r.min_le))) (field2 r.sec (omega (arith, r.sec_le))) field3

  shape_of_digits : matches_shape unknown_stamp digits_of ≡ true
  shape_of_digits =
      joined-shape field4 (field2 (r.month + 1) (omega (arith, r.month_le)))
        (field2 r.mday (omega (arith, r.mday_le))) (field2 r.hour (omega (arith, r.hour_le)))
        (field2 r.min (omega (arith, r.min_le))) (field2 r.sec (omega (arith, r.sec_le))) field3

  fields_digits : read_fields digits_of ≡ some (record { requested = p; millis = pos k })
  fields_digits =
      joined-fields field4 (field2 (r.month + 1) (omega (arith, r.month_le)))
        (field2 r.mday (omega (arith, r.mday_le))) (field2 r.hour (omega (arith, r.hour_le)))
        (field2 r.min (omega (arith, r.min_le))) (field2 r.sec (omega (arith, r.sec_le))) field3
      ∙ (λ i. some (record {
        requested = record {
          tm_year = (pos_diff r.year 1900 ∙ sym r.year_is) i;
          tm_mon = (pos_diff r.month 1 ∙ sym r.month_is) i;
          tm_mday = sym r.mday_is i;
          tm_hour = sym r.hour_is i;
          tm_min = sym r.min_is i;
          tm_sec = sym r.sec_is i;
        };
        millis = pos k;
      }))

to_time_exact :
    (calendar : Calendar) (p : Tm) (t : ℕ)
    → calendar.timegm p ≡ (pos (t / nanos_per_second), p)
    → t < 2 ^ 63
    → to_time calendar
        (record { requested = p; millis = pos (t % nanos_per_second / nanos_per_milli) })
      ≡ some (pos (t / nanos_per_milli * nanos_per_milli))
unfolding to_time scale
to_time_exact calendar p t back fits =
    rw
      (
        back,
        to_time,
        pos_sum (t / nanos_per_second * 1000) (t % nanos_per_second / nanos_per_milli),
        same_parts_refl p,
      )
      (ground arith)

-- A time that the clock can hold, from the epoch on, is read back from its stamp, cut to the
-- millisecond.
pub parse-format_stamp :
    (calendar : Calendar) (t : ℕ)
    → IsCalendar calendar
    → t < 2 ^ 63
    → parse_timestamp calendar (format_stamp calendar (pos t))
      ≡ some (pos (t / nanos_per_milli * nanos_per_milli))
unfolding format_stamp parse_timestamp floor_seconds millis_of
parse-format_stamp calendar t c fits =
    let (p, ans, r) = c.answers (t / nanos_per_second) (omega arith) in
    let k = t % nanos_per_second / nanos_per_milli in
    let small : k ≤ 999 = omega arith in
    rw (ans, format_stamp, stamp_text-joined r k small, size_digits r k small)
      (rw
        (parse_timestamp, size_digits r k small, shape_of_digits r k small, fields_digits r k small)
        (to_time_exact calendar p t (c.inverse _ p ans) fits))
