-- ===== src/Cli/Format/Duration.antt =====
-- format_duration of packages/rosbag2_dynamic_recorder_cli/rosbag2_dynamic_recorder_cli/format.py read
-- back.
use Prim.Native.Char.{Char, code}
use Prim.Native.String.{◌∷◌ as char_cons}
use rosbag2_dynamic_recorder.Base.{
  ℕ, zero, suc, ◌+◌, ◌-◌, ◌*◌, ◌/◌, ◌%◌, ◌≤◌, ◌==◌, ◌≡◌, refl, ap, ◌∙◌, String, true, false,
  Bool-cases, inl, inr, arith, ltb, if◌then◌else◌,
}
use rosbag2_dynamic_recorder.Base.Int.{pos}
use rosbag2_dynamic_recorder.Base.Text.{
  append, str, value, with_zeros, copies, is_digit, is_digits, is_digits-str, value-str, len,
}
use rosbag2_dynamic_recorder.Cli.Format.{hours_minutes, format_duration}

-- The seconds that a text of hours, minutes and seconds stands for, after `total` seconds and a number
-- whose unit is still to come.
abbrev pub read_duration : ℕ → ℕ → String → ℕ
unfolding is_digit
read_duration total number String.[] = total
read_duration total number (String.◌∷◌ c s) =
    if is_digit (code c)
    then read_duration total (10 * number + (code c - 48)) s
    else if code c == b'h'
    then read_duration (total + number * 3600) 0 s
    else if code c == b'm'
    then read_duration (total + number * 60) 0 s
    else if code c == b's'
    then read_duration (total + number) 0 s
    else read_duration total number s

is_digits-first :
    (c : Char) (s : String)
    → is_digits (char_cons c s) ≡ true
    → (is_digit (code c) ≡ true) × (is_digits s ≡ true)
unfolding is_digits is_digit
is_digits-first c s h = ground (arith, h)

read_duration-digits :
    (total number : ℕ) (s t : String)
    → is_digits s ≡ true
    → read_duration total number (append s t) ≡ read_duration total (value number s) t
unfolding read_duration append value
read_duration-digits total number String.[] t h = refl
read_duration-digits total number (String.◌∷◌ c s) t h =
    let (first, rest) = is_digits-first c s h in
    rw first (read_duration-digits total (10 * number + (code c - 48)) s t rest)

read_duration-str :
    (total n : ℕ) (t : String) → read_duration total 0 (append (str n) t) ≡ read_duration total n t
read_duration-str total n t =
    read_duration-digits total 0 (str n) t (is_digits-str n)
    ∙ ap (λ v. read_duration total v t) (value-str n)

append-append : (s t u : String) → append (append s t) u ≡ append s (append t u)
unfolding append
append-append String.[] t u = refl
append-append (String.◌∷◌ c s) t u = ap (char_cons c) (append-append s t u)

read_duration-copies :
    (k total : ℕ) (t : String)
    → read_duration total 0 (append (copies k "0") t) ≡ read_duration total 0 t
unfolding copies append read_duration is_digit
read_duration-copies zero total t = refl
read_duration-copies (suc k) total t = read_duration-copies k total t

read_duration-with_zeros :
    (k total n : ℕ) (t : String)
    → read_duration total 0 (append (with_zeros k n) t) ≡ read_duration total n t
unfolding with_zeros
read_duration-with_zeros k total n t =
    ap (read_duration total 0) (append-append (copies (k - len (str n)) "0") (str n) t)
    ∙ read_duration-copies (k - len (str n)) total (append (str n) t)
    ∙ read_duration-str total n t

-- The minutes, which are read, and then the seconds.
minutes_tail : ℕ → String
minutes_tail seconds = append "m " (append (with_zeros 2 seconds) "s")

read_duration-minutes_tail :
    (total minutes seconds : ℕ)
    → read_duration total minutes (minutes_tail seconds) ≡ total + minutes * 60 + seconds
unfolding minutes_tail append read_duration is_digit
read_duration-minutes_tail total minutes seconds =
    read_duration-with_zeros 2 (total + minutes * 60) seconds "s"

read_duration-hours :
    (total hours : ℕ) (t : String)
    → read_duration total hours (append "h " t) ≡ read_duration (total + hours * 3600) 0 t
unfolding append read_duration is_digit
read_duration-hours total hours t = refl

long : ℕ → ℕ → ℕ → String
long hours minutes seconds =
    append (str hours) (append "h " (append (with_zeros 2 minutes) (minutes_tail seconds)))

read_duration-long :
    (hours minutes seconds : ℕ)
    → read_duration 0 0 (long hours minutes seconds) ≡ 0 + hours * 3600 + minutes * 60 + seconds
unfolding long
read_duration-long hours minutes seconds =
    let rest = append (with_zeros 2 minutes) (minutes_tail seconds) in
    read_duration-str 0 hours (append "h " rest)
    ∙ read_duration-hours 0 hours rest
    ∙ read_duration-with_zeros 2 (0 + hours * 3600) minutes (minutes_tail seconds)
    ∙ read_duration-minutes_tail (0 + hours * 3600) minutes seconds

hours_minutes-eq :
    (n : ℕ)
    → hours_minutes n ≡ (
        if n / 3600 == 0
        then append (str (n % 3600 / 60)) (minutes_tail (n % 3600 % 60))
        else long (n / 3600) (n % 3600 / 60) (n % 3600 % 60))
unfolding hours_minutes minutes_tail long
hours_minutes-eq n = refl

read_duration-hours_minutes : (n : ℕ) → read_duration 0 0 (hours_minutes n) ≡ n
read_duration-hours_minutes n =
    let minutes = n % 3600 / 60 in
    let seconds = n % 3600 % 60 in
    ap (read_duration 0 0) (hours_minutes-eq n) ∙ elim (Bool-cases (n / 3600 == 0)) [
      | inl none ↦ rw none (
          read_duration-str 0 minutes (minutes_tail seconds)
          ∙ read_duration-minutes_tail 0 minutes seconds
          ∙ ground (arith, none))
      | inr some ↦ rw some (read_duration-long (n / 3600) minutes seconds ∙ omega arith)
    ]

-- A duration of a minute or more, written in hours, minutes and seconds, reads as its whole seconds.
pub format_duration-read :
    (n d : ℕ)
    → 60 * d ≤ n
    → read_duration 0 0 (format_duration (record { num = pos n; den = d })) ≡ n / d
unfolding format_duration
format_duration-read n d h =
    let long : ltb n (60 * d) ≡ false = ground (arith, h) in
    rw long (read_duration-hours_minutes (n / d))
