-- ===== src/Common/Text.antt =====
-- What the code uses of Go's packages `strings` and `strconv`. A Go string is a text: bytes that are
-- no UTF-8 do not occur.
use Prim.Native.Nat.{ℕ, zero, suc, ◌/◌, ◌%◌}
use Prim.Native.Char.{Char, char, code}
use Prim.Native.String.{String, ◌++◌}
use mathlib.Core.Bool.{Bool, true, false, ◌&&◌, ◌||◌}
use mathlib.Core.Path.{◌≡◌, refl, sym, ap, ◌∙◌}
use mathlib.Core.List.{List}
use mathlib.Core.Logic.{◌≢◌, inl, inr}
use native.Mathlib.Omega.{arith}
use text.Mathlib.Text.{starts_with}
use text.Mathlib.TextEquality.{starts_with_iff}
use text.Mathlib.TextLemmas.{cons-ne-nil, cons-append}
use crobe.Common.Tests.{◌==◌, ltb, leb, eqb, is_empty, if◌then◌else◌, Bool-cases, if-elim}
pub mod Decimal

-- `unicode.IsSpace`
unfoldable pub is_space : Char → Bool
is_space c =
    let n = code c in
    leb 9 n && leb n 13
    || eqb n 32
    || eqb n 0x85
    || eqb n 0xa0
    || eqb n 0x1680
    || leb 0x2000 n && leb n 0x200a
    || eqb n 0x2028
    || eqb n 0x2029
    || eqb n 0x202f
    || eqb n 0x205f
    || eqb n 0x3000

trim_left : String → String
trim_left String.[] = ""
trim_left (String.◌∷◌ c s) = let rest = trim_left s in if is_space c then rest else String.◌∷◌ c s

trim_right : String → String
trim_right String.[] = ""
trim_right (String.◌∷◌ c s) =
    let rest = trim_right s in if is_space c && is_empty rest then "" else String.◌∷◌ c rest

-- `strings.TrimSpace`
unfoldable pub trim_space : String → String
unfolding trim_left trim_right
trim_space s = trim_right (trim_left s)

-- A text that begins with a character which is no white space does not trim to the empty text.
trim_right-cons :
    (c : Char) (s : String)
    → is_space c ≡ false
    → trim_right (String.◌∷◌ c s) ≡ String.◌∷◌ c (trim_right s)
unfolding trim_right
trim_right-cons c s h = ground arith

trim_space-cons : (c : Char) (s : String) → is_space c ≡ false → trim_space (String.◌∷◌ c s) ≢ ""
unfolding trim_space
trim_space-cons c s h e =
    let e' = rw h at e in cons-ne-nil c (trim_right s) (sym (trim_right-cons c s h) ∙ e')

pub trim_space-https : (s : String) → starts_with s "https://" ≡ true → trim_space s ≢ ""
unfolding is_space
trim_space-https s h =
    let (u, e) = (starts_with_iff s "https://").0 h in
    let e' = sym (cons-append "h" "ttps://" u) ∙ e in
    rw (← e') (trim_space-cons "h" ("ttps://" ++ u) refl)

-- Begins with no white space.
abbrev IsLeft : String → Type 0
IsLeft String.[] = Unit
IsLeft (String.◌∷◌ c s) = is_space c ≡ false

trim_left-IsLeft : (s : String) → IsLeft (trim_left s)
unfolding trim_left
trim_left-IsLeft String.[] = tt
trim_left-IsLeft (String.◌∷◌ c s) =
    if-elim IsLeft (is_space c) (trim_left s) (String.◌∷◌ c s) (λ e. trim_left-IsLeft s) (λ e. e)

trim_right_idem : (s : String) → trim_right (trim_right s) ≡ trim_right s
unfolding trim_right
trim_right_idem String.[] = refl
trim_right_idem (String.◌∷◌ c s) = elim (Bool-cases (is_space c && is_empty (trim_right s))) [
  | inl e ↦ rw e refl
  | inr e ↦ rw e (rw (trim_right_idem s, e) refl)
]

trim_left-trim_right : (s : String) → IsLeft s → trim_left (trim_right s) ≡ trim_right s
unfolding trim_left trim_right
trim_left-trim_right String.[] h = refl
trim_left-trim_right (String.◌∷◌ c s) h = rw h (rw h refl)

pub trim_space_idem : (s : String) → trim_space (trim_space s) ≡ trim_space s
unfolding trim_space
trim_space_idem s =
    ap trim_right (trim_left-trim_right (trim_left s) (trim_left-IsLeft s))
    ∙ trim_right_idem (trim_left s)

-- What holds of every character of a text holds of every character of the trimmed text.
abbrev pub Every : (Char → Type 0) → String → Type 0
Every P String.[] = Unit
Every P (String.◌∷◌ c s) = P c × Every P s

trim_left-Every : (P : Char → Type 0) (s : String) → Every P s → Every P (trim_left s)
unfolding trim_left
trim_left-Every P String.[] h = tt
trim_left-Every P (String.◌∷◌ c s) h =
    if-elim (Every P) (is_space c) (trim_left s) (String.◌∷◌ c s) (λ e. trim_left-Every P s h.1)
      (λ e. h)

trim_right-Every : (P : Char → Type 0) (s : String) → Every P s → Every P (trim_right s)
unfolding trim_right
trim_right-Every P String.[] h = tt
trim_right-Every P (String.◌∷◌ c s) h =
    if-elim (Every P) (is_space c && is_empty (trim_right s)) "" (String.◌∷◌ c (trim_right s))
      (λ e. tt) (λ e. (h.0, trim_right-Every P s h.1))

pub trim_space-Every : (P : Char → Type 0) (s : String) → Every P s → Every P (trim_space s)
unfolding trim_space
trim_space-Every P s h = trim_right-Every P (trim_left s) (trim_left-Every P s h)

-- `strings.Join`
unfoldable pub join : String → List String → String
join sep List.[] = ""
join sep (List.◌∷◌ s List.[]) = s
join sep (List.◌∷◌ s (List.◌∷◌ t ts)) = s ++ sep ++ join sep (List.◌∷◌ t ts)

-- `strings.HasSuffix`
unfoldable pub ends_with : String → String → Bool
ends_with String.[] suffix = is_empty suffix
ends_with (String.◌∷◌ c s) suffix =
    let rest = ends_with s suffix in String.◌∷◌ c s == suffix || rest

-- The pieces of a formatted text, one after the other.
unfoldable pub concat : List String → String
concat List.[] = ""
concat (List.◌∷◌ s ss) = s ++ concat ss

-- U+FE0F, which the console's warning signs end in.
abbrev pub variation : String
variation = String.◌∷◌ (char 65039 tt) ""

digit : ℕ → String
digit n =
    if eqb n 0
    then "0"
    else if eqb n 1
    then "1"
    else if eqb n 2
    then "2"
    else if eqb n 3
    then "3"
    else if eqb n 4
    then "4"
    else if eqb n 5
    then "5"
    else if eqb n 6
    then "6"
    else if eqb n 7
    then "7"
    else if eqb n 8
    then "8"
    else "9"

-- The decimal digits of a number, on fuel: a number has fewer digits than its successor.
decimal : ℕ → ℕ → String
unfolding digit
decimal zero n = ""
decimal (suc fuel) n =
    let front = decimal fuel (n / 10) in if ltb n 10 then digit n else front ++ digit (n % 10)

-- `%d` of a number that is not negative.
unfoldable pub itoa : ℕ → String
unfolding decimal
itoa n = decimal (suc n) n
