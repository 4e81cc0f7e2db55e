-- ===== src/Base/Text.antt =====
-- The functions of Rust's `char`, `str` and integers that the program uses on text.
use Prim.Native.Char.{Char, char, code, IsScalar}
use Prim.Native.String.{String, ◌++◌ as append}
use Prim.Native.Nat.{ℕ, ◌+◌, ◌≤◌}
use mathlib.Core.Path.{◌≡◌, refl}
use mathlib.Core.Bool.{Bool, true, false, ◌&&◌, ◌||◌}
use mathlib.Core.List.{List, [], ◌∷◌}
use mathlib.Core.Option.{Option, none, some}
use native.Mathlib.Omega.{arith}
use text.Mathlib.Text.{starts_with}
use text.Mathlib.TextPositions.{starts_with-append}
use text.Mathlib.TextLemmas.{nil-append, cons-append}
use native.Mathlib.Decide.{dec_le}
use egressy.Base.Tests.{ltb, leb, ◌==◌, if◌then◌else◌}

abbrev pub in_range : ℕ → ℕ → Char → Bool
in_range low high c = leb low (code c) && leb (code c) high

abbrev pub is_ascii_digit : Char → Bool
is_ascii_digit = in_range 48 57

abbrev pub is_ascii_lowercase : Char → Bool
is_ascii_lowercase = in_range 97 122

abbrev pub is_ascii_uppercase : Char → Bool
is_ascii_uppercase = in_range 65 90

abbrev pub is_ascii_alphanumeric : Char → Bool
is_ascii_alphanumeric c = is_ascii_digit c || (is_ascii_uppercase c || is_ascii_lowercase c)

abbrev pub is_ascii_hexdigit : Char → Bool
is_ascii_hexdigit c = is_ascii_digit c || (in_range 65 70 c || in_range 97 102 c)

-- `char::is_whitespace`.
abbrev pub is_whitespace : Char → Bool
is_whitespace c =
    in_range 9 13 c
    || (code c == 32
        || (code c == 133
            || (code c == 160
                || (code c == 5760
                    || (in_range 8192 8202 c
                        || (in_range 8232 8233 c
                            || (code c == 8239 || (code c == 8287 || code c == 12288))))))))

abbrev pub is_char : ℕ → Char → Bool
is_char n c = code c == n

pub upper_fits : (n : ℕ) → 65 ≤ n → n ≤ 90 → IsScalar (n + 32)
upper_fits n low high = ground arith

unfoldable pub lower_at : (n : ℕ) → IsScalar n → Dec (65 ≤ n) → Dec (n ≤ 90) → Char
lower_at n s (yes low) (yes high) = char (n + 32) (upper_fits n low high)
lower_at n s (yes low) (no _) = char n s
lower_at n s (no _) d = char n s

unfoldable pub lower_char : Char → Char
unfolding lower_at dec_le
lower_char (char n s) = lower_at n s (dec_le 65 n) (dec_le n 90)

-- `to_ascii_lowercase`.
unfoldable pub lower : String → String
unfolding lower_char
lower String.[] = ""
lower (String.◌∷◌ c s) = String.◌∷◌ (lower_char c) (lower s)

abbrev pub is_empty : String → Bool
is_empty String.[] = true
is_empty (String.◌∷◌ c s) = false

-- The bytes of a character in UTF-8, and `len` of a text.
abbrev pub utf8_len : Char → ℕ
utf8_len c =
    if ltb (code c) 128
    then 1
    else (if ltb (code c) 2048 then 2 else (if ltb (code c) 65536 then 3 else 4))

abbrev pub byte_len : String → ℕ
byte_len String.[] = 0
byte_len (String.◌∷◌ c s) = utf8_len c + byte_len s

-- `chars().all(..)` and `contains` of a character.
abbrev pub all_chars : (Char → Bool) → String → Bool
all_chars p String.[] = true
all_chars p (String.◌∷◌ c s) = let rest = all_chars p s in p c && rest

abbrev pub any_char : (Char → Bool) → String → Bool
any_char p String.[] = false
any_char p (String.◌∷◌ c s) = let rest = any_char p s in p c || rest

abbrev pub starts_with_char : ℕ → String → Bool
starts_with_char n String.[] = false
starts_with_char n (String.◌∷◌ c s) = is_char n c

abbrev pub ends_with_char : ℕ → String → Bool
ends_with_char n String.[] = false
ends_with_char n (String.◌∷◌ c s) =
    let rest = ends_with_char n s in if is_empty s then is_char n c else rest

-- `strip_suffix` of a character, else the text.
abbrev pub without_last : ℕ → String → String
without_last n String.[] = ""
without_last n (String.◌∷◌ c s) =
    let rest = without_last n s in if is_empty s && is_char n c then "" else String.◌∷◌ c rest

abbrev pub trim_start : String → String
trim_start String.[] = ""
trim_start (String.◌∷◌ c s) =
    let rest = trim_start s in if is_whitespace c then rest else String.◌∷◌ c s

abbrev pub trim_end : String → String
trim_end String.[] = ""
trim_end (String.◌∷◌ c s) =
    let rest = trim_end s in if is_empty rest && is_whitespace c then "" else String.◌∷◌ c rest

unfoldable pub trim : String → String
trim s = trim_end (trim_start s)

-- `split_once` at a character, from the left and from the right.
unfoldable pub split_once : ℕ → String → Option (String × String)
split_once n String.[] = none
split_once n (String.◌∷◌ c s) =
    let later = split_once n s in
    if is_char n c
    then some ("", s)
    else (elim later [ none ↦ none | some (left, right) ↦ some (String.◌∷◌ c left, right) ])

unfoldable pub rsplit_once : ℕ → String → Option (String × String)
rsplit_once n String.[] = none
rsplit_once n (String.◌∷◌ c s) =
    let later = rsplit_once n s in
    elim later [
      | some (left, right) ↦ some (String.◌∷◌ c left, right)
      | none ↦ if is_char n c then some ("", s) else none
    ]

-- A character before the first part.
abbrev pub onto_first : Char → List String → List String
onto_first c [] = String.◌∷◌ c "" ∷ []
onto_first c (part ∷ parts) = String.◌∷◌ c part ∷ parts

-- `split` at a character: one part more than there are of it.
unfoldable pub split : ℕ → String → List String
split n String.[] = "" ∷ []
split n (String.◌∷◌ c s) =
    let rest = split n s in if is_char n c then "" ∷ rest else onto_first c rest

-- `lines`, of the parts between the line feeds: an empty last part is none, and a carriage return
-- goes only before a line feed.
abbrev pub lines_of : List String → List String
lines_of [] = []
lines_of (part ∷ []) = if is_empty part then [] else part ∷ []
lines_of (part ∷ more ∷ parts) = let rest = lines_of (more ∷ parts) in without_last 13 part ∷ rest

unfoldable pub lines : String → List String
unfolding split
lines s = lines_of (split 10 s)

abbrev pub join : String → List String → String
join separator [] = ""
join separator (part ∷ []) = part
join separator (part ∷ more ∷ parts) =
    let rest = join separator (more ∷ parts) in append part (append separator rest)

-- The pieces of a `format!`.
abbrev pub concat : List String → String
concat [] = ""
concat (part ∷ parts) = append part (concat parts)

-- `contains` of a text.
unfoldable pub contains : String → String → Bool
contains needle String.[] = starts_with "" needle
contains needle (String.◌∷◌ c s) =
    let later = contains needle s in starts_with (String.◌∷◌ c s) needle || later

contains_of_start : (needle s : String) → starts_with s needle ≡ true → contains needle s ≡ true
unfolding contains
contains_of_start needle String.[] e = e
contains_of_start needle (String.◌∷◌ c s) e = rw e refl

-- What stands between two texts is found.
pub contains-append :
    (before needle after : String) → contains needle (append before (append needle after)) ≡ true
unfolding contains
contains-append String.[] needle after =
    rw nil-append (contains_of_start needle (append needle after) (starts_with-append needle after))
contains-append (String.◌∷◌ c before) needle after =
    rw (cons-append c before (append needle after)) (
      later (starts_with (String.◌∷◌ c (append before (append needle after))) needle)
        (contains-append before needle after))
  where
    later :
        (b : Bool)
        → contains needle (append before (append needle after)) ≡ true
        → (b || contains needle (append before (append needle after))) ≡ true
    later b found = ground arith

lower_at_kept :
    (n : ℕ) (s : IsScalar n) (d : Dec (65 ≤ n)) (e : Dec (n ≤ 90))
    → ((65 ≤ n) × (n ≤ 90) → ⊥)
    → lower_at n s d e ≡ char n s
unfolding lower_at
lower_at_kept n s (yes low) (yes high) out = absurd (out (low, high))
lower_at_kept n s (yes low) (no _) out = refl
lower_at_kept n s (no _) e out = refl

lower_at_twice :
    (n : ℕ) (s : IsScalar n) (d : Dec (65 ≤ n)) (e : Dec (n ≤ 90))
    → lower_char (lower_at n s d e) ≡ lower_at n s d e
unfolding lower_at lower_char
lower_at_twice n s (yes low) (yes high) =
    lower_at_kept (n + 32) (upper_fits n low high) (dec_le 65 (n + 32)) (dec_le (n + 32) 90)
      (λ m. omega arith)
lower_at_twice n s (yes low) (no above) =
    lower_at_kept n s (dec_le 65 n) (dec_le n 90) (λ m. above m.1)
lower_at_twice n s (no below) e = lower_at_kept n s (dec_le 65 n) (dec_le n 90) (λ m. below m.0)

lower_char_twice : (c : Char) → lower_char (lower_char c) ≡ lower_char c
unfolding lower_char
lower_char_twice (char n s) = lower_at_twice n s (dec_le 65 n) (dec_le n 90)

pub lower_twice : (s : String) → lower (lower s) ≡ lower s
unfolding lower
lower_twice String.[] = refl
lower_twice (String.◌∷◌ c s) = ground (arith, lower_char_twice c, lower_twice s)

-- A text without the separator is what stands before the first one.
pub split_once-append :
    (n : ℕ) (before : String) (c : Char) (after : String)
    → any_char (is_char n) before ≡ false
    → is_char n c ≡ true
    → split_once n (append before (String.◌∷◌ c after)) ≡ some (before, after)
unfolding split_once
split_once-append n String.[] c after free at = rw nil-append (rw at refl)
split_once-append n (String.◌∷◌ d before) c after free at =
    let ih : split_once n (append before (String.◌∷◌ c after)) ≡ some (before, after) =
      split_once-append n before c after (ground (arith, free)) at in
    let other : is_char n d ≡ false = ground (arith, free) in
    rw (cons-append d before (String.◌∷◌ c after)) (rw other (rw ih refl))
