-- ===== src/Policy/Patterns.antt =====
-- The regular expressions of packages/policy/src/index.ts and its tests of texts, as functions over
-- code points.
use Prim.Native.Char.{code}
use ai_software_engineering.Prelude.{
  ℕ, zero, suc, ◌+◌, ◌-◌, ◌*◌, ◌%◌, String, Bool, true, false, not, ◌&&◌, ◌||◌, Option, none, some,
  List, [], ◌∷◌, leb, nat_eq, if◌then◌else◌,
}

abbrev pub is_digit : ℕ → Bool
is_digit c = leb b'0' c && leb c b'9'

abbrev pub is_upper : ℕ → Bool
is_upper c = leb b'A' c && leb c b'Z'

abbrev pub is_lower : ℕ → Bool
is_lower c = leb b'a' c && leb c b'z'

-- `[0-9a-f]`
abbrev pub is_hex : ℕ → Bool
is_hex c = is_digit c || (leb b'a' c && leb c b'f')

-- `[89ab]`
abbrev is_variant : ℕ → Bool
is_variant c = leb b'8' c && leb c b'9' || (leb b'a' c && leb c b'b')

-- `[0-9A-Za-z.-]`
abbrev is_label : ℕ → Bool
is_label c = is_digit c || is_upper c || is_lower c || nat_eq c b'.' || nat_eq c b'-'

abbrev is_dash : ℕ → Bool
is_dash c = nat_eq c b'-'

-- A text of just these characters, one test for each.
unfoldable pub fits : List (ℕ → Bool) → String → Bool
fits [] String.[] = true
fits [] (String.◌∷◌ c s) = false
fits (p ∷ ps) String.[] = false
fits (p ∷ ps) (String.◌∷◌ c s) = p (code c) && fits ps s

unfoldable pub every_code : (ℕ → Bool) → String → Bool
every_code p String.[] = true
every_code p (String.◌∷◌ c s) = p (code c) && every_code p s

abbrev pub repeated : ℕ → (ℕ → Bool) → List (ℕ → Bool) → List (ℕ → Bool)
repeated zero p ps = ps
repeated (suc n) p ps = p ∷ repeated n p ps

-- `uuidV7`
unfoldable pub uuid_v7 : String → Bool
unfolding fits
uuid_v7 = fits (
    repeated 8 is_hex (
      is_dash
      ∷ repeated 4 is_hex (
          is_dash
          ∷ (λ c. nat_eq c b'7')
          ∷ repeated 3 is_hex
              (is_dash ∷ is_variant ∷ repeated 3 is_hex (is_dash ∷ repeated 12 is_hex [])))))

-- `/^[0-9a-f]{64}$/u`
unfoldable pub sha256_text : String → Bool
unfolding fits
sha256_text = fits (repeated 64 is_hex [])

-- What is left after the longest prefix of such characters.
unfoldable pub skip_while : (ℕ → Bool) → String → String
skip_while p String.[] = ""
skip_while p (String.◌∷◌ c s) =
    let rest = skip_while p s in if p (code c) then rest else String.◌∷◌ c s

-- `(0|[1-9][0-9]*)`: what is left after it.
unfoldable pub after_number : String → Option String
unfolding skip_while
after_number String.[] = none
after_number (String.◌∷◌ c s) =
    if nat_eq (code c) b'0'
    then some s
    else if is_digit (code c)
    then some (skip_while is_digit s)
    else none

abbrev pub after_code : ℕ → String → Option String
after_code n String.[] = none
after_code n (String.◌∷◌ c s) = if nat_eq (code c) n then some s else none

-- `[0-9A-Za-z.-]+`: what is left after it.
unfoldable pub after_label : String → Option String
unfolding skip_while
after_label String.[] = none
after_label (String.◌∷◌ c s) = if is_label (code c) then some (skip_while is_label s) else none

infixl 5 ◌>>=◌
abbrev ◌>>=◌ : {A B : Type 0} → Option A → (A → Option B) → Option B
none >>= next = none
some a >>= next = next a

-- `(?:\+[0-9A-Za-z.-]+)?$`
abbrev ends_with_build : String → Bool
ends_with_build String.[] = true
ends_with_build (String.◌∷◌ c s) =
    nat_eq (code c) b'+' && elim (after_label s) [ some String.[] ↦ true | _ ↦ false ]

-- `(?:-[0-9A-Za-z.-]+)?`, and what follows it.
unfoldable pub ends_with_labels : String → Bool
unfolding after_label
ends_with_labels String.[] = true
ends_with_labels (String.◌∷◌ c s) =
    if is_dash (code c)
    then elim (after_label s) [ none ↦ false | some rest ↦ ends_with_build rest ]
    else ends_with_build (String.◌∷◌ c s)

-- `semver`
unfoldable pub semver : String → Bool
unfolding after_number ends_with_labels
semver s =
    let rest : Option String = do
      s1 ← after_number s
      s2 ← after_code b'.' s1
      s3 ← after_number s2
      s4 ← after_code b'.' s3
      after_number s4
    in elim rest [ none ↦ false | some labels ↦ ends_with_labels labels ]

-- `(?:SEPARATOR[CLASS]+)*$` after characters of the class; `fresh` just after a separator.
unfoldable pub words_from : (ℕ → Bool) → ℕ → Bool → String → Bool
words_from p separator fresh String.[] = not fresh
words_from p separator fresh (String.◌∷◌ c s) =
    let rest = words_from p separator (nat_eq (code c) separator) s in
    if nat_eq (code c) separator then not fresh && rest else p (code c) && rest

-- `stableCode`
unfoldable pub stable_code : String → Bool
unfolding words_from
stable_code String.[] = false
stable_code (String.◌∷◌ c s) =
    is_upper (code c) && words_from (λ d. is_upper d || is_digit d) b'_' false s

-- `ruleIdPattern`
unfoldable pub rule_id_pattern : String → Bool
unfolding words_from
rule_id_pattern String.[] = false
rule_id_pattern (String.◌∷◌ c s) =
    is_lower (code c) && words_from (λ d. is_lower d || is_digit d) b'-' false s

-- `/^[A-Z][A-Z0-9_]*$/u`
unfoldable pub constant_name : String → Bool
unfolding every_code
constant_name String.[] = false
constant_name (String.◌∷◌ c s) =
    is_upper (code c) && every_code (λ d. is_upper d || is_digit d || nat_eq d b'_') s

-- `\d{n}` as a number, and what is left after it.
unfoldable pub digits : ℕ → ℕ → String → Option (ℕ × String)
digits zero value s = some (value, s)
digits (suc n) value String.[] = none
digits (suc n) value (String.◌∷◌ c s) =
    let rest = digits n (value * 10 + (code c - b'0')) s in if is_digit (code c) then rest else none

-- `(?:\.[0-9]+)?`
unfoldable pub after_fraction : String → Option String
unfolding skip_while
after_fraction String.[] = some ""
after_fraction (String.◌∷◌ c String.[]) =
    if nat_eq (code c) b'.' then none else some (String.◌∷◌ c "")
after_fraction (String.◌∷◌ c (String.◌∷◌ d s)) =
    if nat_eq (code c) b'.'
    then if is_digit (code d) then some (skip_while is_digit s) else none
    else some (String.◌∷◌ c (String.◌∷◌ d s))

-- `(\d{2}):(\d{2})$`
unfoldable pub hours_and_minutes : String → Option (ℕ × ℕ)
unfolding digits
hours_and_minutes s = do
  (hours, s1) ← digits 2 0 s
  s2 ← after_code b':' s1
  (minutes, s3) ← digits 2 0 s2
  elim s3 [ String.[] ↦ some (hours, minutes) | _ ↦ none ]

-- `(?:[Zz]|([+-])(\d{2}):(\d{2}))$`: the hours and the minutes of the offset.
unfoldable pub offset : String → Option (ℕ × ℕ)
unfolding hours_and_minutes
offset String.[] = none
offset (String.◌∷◌ c s) =
    if nat_eq (code c) b'Z' || nat_eq (code c) b'z'
    then elim s [ String.[] ↦ some (0, 0) | _ ↦ none ]
    else if nat_eq (code c) b'+' || nat_eq (code c) b'-'
    then hours_and_minutes s
    else none

abbrev pub is_leap_year : ℕ → Bool
is_leap_year year = nat_eq (year % 4) 0 && (not (nat_eq (year % 100) 0) || nat_eq (year % 400) 0)

-- `daysByMonth[month - 1] ?? 0`
unfoldable pub days_of_month : ℕ → ℕ → ℕ
days_of_month year month =
    if nat_eq month 2
    then (if is_leap_year year then 29 else 28)
    else if nat_eq month 4 || nat_eq month 6 || nat_eq month 9 || nat_eq month 11
    then 30
    else if leb 1 month && leb month 12
    then 31
    else 0

-- What the regular expression of `isRfc3339DateTime` matches.
pub record DateTime : Type 0 where
  pub year : ℕ
  pub month : ℕ
  pub day : ℕ
  pub hour : ℕ
  pub minute : ℕ
  pub second : ℕ
  pub offset_hour : ℕ
  pub offset_minute : ℕ

unfoldable pub match_date_time : String → Option DateTime
unfolding digits after_fraction offset
match_date_time s = do
  (year, s1) ← digits 4 0 s
  s2 ← after_code b'-' s1
  (month, s3) ← digits 2 0 s2
  s4 ← after_code b'-' s3
  (day, s5) ← digits 2 0 s4
  s6 ← (elim (after_code b'T' s5) [ some rest ↦ some rest | none ↦ after_code b't' s5 ])
  (hour, s7) ← digits 2 0 s6
  s8 ← after_code b':' s7
  (minute, s9) ← digits 2 0 s8
  s10 ← after_code b':' s9
  (second, s11) ← digits 2 0 s10
  s12 ← after_fraction s11
  (offset_hour, offset_minute) ← offset s12
  some (record {
    year = year;
    month = month;
    day = day;
    hour = hour;
    minute = minute;
    second = second;
    offset_hour = offset_hour;
    offset_minute = offset_minute;
  })

-- `isRfc3339DateTime`
unfoldable pub is_rfc3339_date_time : String → Bool
unfolding match_date_time days_of_month
is_rfc3339_date_time s = elim (match_date_time s) [
  | none ↦ false
  | some t ↦
      leb 1 t.month
      && leb t.month 12
      && leb 1 t.day
      && leb t.day (days_of_month t.year t.month)
      && leb t.hour 23
      && leb t.minute 59
      && leb t.second 60
      && leb t.offset_hour 23
      && leb t.offset_minute 59
]
