-- ===== src/Telldus/Reading.antt =====
-- What is read from a line of `tdtool`.
use homecontrol_server.Common.{
  ℕ, true, false, Text, [], ◌∷◌, ◌++◌, some, ◌≡◌, ◌≢◌, refl, ap, ◌∙◌, arith, All,
}
use homecontrol_server.Data.Devices.{Double}
use homecontrol_server.StringTools.{is_digit, span_digits, string_to_int}
use homecontrol_server.Telldus.{
  filter_ids, skip_to_digit, int_match, read_int, with_fraction, fraction, double_match,
  read_double, read_sensor_data,
}

abbrev pub Digits : Text → Type 0
Digits = All (λ c. is_digit c ≡ true)

abbrev pub NoDigits : Text → Type 0
NoDigits = All (λ c. is_digit c ≡ false)

-- The text does not go on with a digit.
abbrev pub EndsNumber : Text → Type 0
EndsNumber [] = Unit {0}
EndsNumber (c ∷ s) = is_digit c ≡ false

skip-append : (ws s : Text) → NoDigits ws → skip_to_digit (ws ++ s) ≡ skip_to_digit s
unfolding skip_to_digit
skip-append [] s h = refl
skip-append (c ∷ ws) s h = ground (arith, skip-append ws s h.1)

skip_digit : (c : ℕ) (s : Text) → is_digit c ≡ true → skip_to_digit (c ∷ s) ≡ c ∷ s
unfolding skip_to_digit
skip_digit c s h = ground arith

span_digits-append :
    (ds rest : Text) → Digits ds → EndsNumber rest → span_digits (ds ++ rest) ≡ (ds, rest)
unfolding span_digits
span_digits-append [] [] h e = refl
span_digits-append [] (c ∷ rest) h e = ground arith
span_digits-append (c ∷ ds) rest h e = ground (arith, span_digits-append ds rest h.1 e)

-- The first number of a text, whole.
span_number :
    (ws : Text) (c : ℕ) (ds rest : Text)
    → NoDigits ws
    → Digits (c ∷ ds)
    → EndsNumber rest
    → span_digits (skip_to_digit (ws ++ (c ∷ ds ++ rest))) ≡ (c ∷ ds, rest)
span_number ws c ds rest h d e =
    ap span_digits (skip-append ws _ h ∙ skip_digit c (ds ++ rest) d.0)
    ∙ span_digits-append (c ∷ ds) rest d e

read_int_number :
    (ws : Text) (c : ℕ) (ds rest : Text)
    → NoDigits ws
    → Digits (c ∷ ds)
    → EndsNumber rest
    → read_int (ws ++ (c ∷ ds ++ rest)) ≡ some (string_to_int (c ∷ ds), rest)
unfolding read_int
read_int_number ws c ds rest h d e = ap int_match (span_number ws c ds rest h d e)

fraction-Digits :
    (ds : Text) (f : ℕ) (fs rest : Text)
    → Digits (f ∷ fs)
    → EndsNumber rest
    → fraction ds (b'.' ∷ f ∷ fs ++ rest) ≡ (ds ++ b'.' ∷ f ∷ fs, rest)
unfolding fraction
fraction-Digits ds f fs rest d e =
    ap (with_fraction ds (b'.' ∷ f ∷ fs ++ rest)) (span_digits-append (f ∷ fs) rest d e)

point_EndsNumber : (s : Text) → EndsNumber (b'.' ∷ s)
unfolding is_digit
point_EndsNumber s = refl

NoDigits-EndsNumber : (ws rest : Text) → NoDigits ws → ws ≢ [] → EndsNumber (ws ++ rest)
NoDigits-EndsNumber [] rest h n = absurd (n refl)
NoDigits-EndsNumber (c ∷ ws) rest h n = h.0

skip_minus : (s : Text) → skip_to_digit (b'-' ∷ s) ≡ skip_to_digit s
unfolding skip_to_digit is_digit
skip_minus s = refl

module _ (to_double : Text → Double) where
  read_double_number :
      (ws : Text) (c : ℕ) (ds : Text) (f : ℕ) (fs rest : Text)
      → NoDigits ws
      → Digits (c ∷ ds)
      → Digits (f ∷ fs)
      → EndsNumber rest
      → read_double to_double (ws ++ (c ∷ ds ++ (b'.' ∷ f ∷ fs ++ rest)))
        ≡ some (to_double (c ∷ ds ++ b'.' ∷ f ∷ fs), rest)
  unfolding read_double
  read_double_number ws c ds f fs rest h d g e =
      ap (double_match to_double)
        (span_number ws c ds (b'.' ∷ f ∷ fs ++ rest) h d (point_EndsNumber (f ∷ fs ++ rest)))
      ∙ ap (λ (r : Text × Text). some (to_double r.0, r.1)) (fraction-Digits (c ∷ ds) f fs rest g e)

  -- A sensor line behind the name of the model: an id that is let through, a temperature with a
  -- fraction and a humidity, each behind characters that are no digits, are read as they stand,
  -- whatever follows.
  pub read_sensor_data_numbers :
      (w₁ : Text) (i : ℕ) (is w₂ : Text) (t : ℕ) (ts : Text) (f : ℕ) (fs w₃ : Text) (u : ℕ)
      (us rest : Text)
      → NoDigits w₁
      → Digits (i ∷ is)
      → NoDigits w₂
      → Digits (t ∷ ts)
      → Digits (f ∷ fs)
      → NoDigits w₃
      → Digits (u ∷ us)
      → EndsNumber rest
      → w₂ ≢ []
      → w₃ ≢ []
      → filter_ids (string_to_int (i ∷ is)) ≡ true
      → read_sensor_data to_double
          (w₁ ++ (i ∷ is ++ (w₂ ++ (t ∷ ts ++ (b'.' ∷ f ∷ fs ++ (w₃ ++ (u ∷ us ++ rest)))))))
        ≡ some (string_to_int (i ∷ is), to_double (t ∷ ts ++ b'.' ∷ f ∷ fs), string_to_int (u ∷ us))
  unfolding read_sensor_data
  read_sensor_data_numbers w₁ i is w₂ t ts f fs w₃ u us rest a b c d e g h j n₂ n₃ k = ground (
    arith,
    read_int_number w₁ i is (w₂ ++ (t ∷ ts ++ (b'.' ∷ f ∷ fs ++ (w₃ ++ (u ∷ us ++ rest))))) a b
        (NoDigits-EndsNumber w₂ (t ∷ ts ++ (b'.' ∷ f ∷ fs ++ (w₃ ++ (u ∷ us ++ rest)))) c n₂),
    read_double_number w₂ t ts f fs (w₃ ++ (u ∷ us ++ rest)) c d e
        (NoDigits-EndsNumber w₃ (u ∷ us ++ rest) g n₃),
    read_int_number w₃ u us rest g h j,
  )

  -- A minus sign before the temperature is skipped like any other character that is no digit: the
  -- line reads as the same line without the sign, so a negative temperature is reported as positive.
  pub minus_is_lost :
      (w₁ : Text) (i : ℕ) (is w₂ rest : Text)
      → NoDigits w₁
      → Digits (i ∷ is)
      → NoDigits w₂
      → w₂ ≢ []
      → read_sensor_data to_double (w₁ ++ (i ∷ is ++ (w₂ ++ b'-' ∷ rest)))
        ≡ read_sensor_data to_double (w₁ ++ (i ∷ is ++ (w₂ ++ rest)))
  unfolding read_sensor_data read_double
  minus_is_lost w₁ i is w₂ rest a b c n = ground (
    arith,
    read_int_number w₁ i is (w₂ ++ b'-' ∷ rest) a b (NoDigits-EndsNumber w₂ (b'-' ∷ rest) c n),
    read_int_number w₁ i is (w₂ ++ rest) a b (NoDigits-EndsNumber w₂ rest c n),
    skip-append w₂ (b'-' ∷ rest) c,
    skip-append w₂ rest c,
    skip_minus rest,
  )
