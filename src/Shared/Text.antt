-- ===== src/Shared/Text.antt =====
-- Texts as lists of code points, and the regular expressions of the source that ask for a fixed
-- number of characters of one class.
use Prim.Native.Nat.{ℕ, zero, suc, ◌-◌, ◌≤◌}
use Prim.Native.Char.{Char, code}
use Prim.Native.String.{String}
use mathlib.Core.Path.{◌≡◌, refl}
use mathlib.Core.Logic.{◌↔◌}
use mathlib.Core.Bool.{Bool, true, false, ◌&&◌}
use mathlib.Core.List.{List, [], ◌∷◌}
use native.Mathlib.Omega.{arith}
use training_travel_booking.Shared.Tests.{leb, if◌then◌else◌}

abbrev pub codes : String → List ℕ
codes String.[] = []
codes (String.◌∷◌ c s) = code c ∷ codes s

abbrev pub is_upper : ℕ → Bool
is_upper c = leb b'A' c && leb c b'Z'

abbrev pub is_digit : ℕ → Bool
is_digit c = leb b'0' c && leb c b'9'

-- `/^[class]{n}$/`
unfoldable pub matches_exactly : (ℕ → Bool) → ℕ → List ℕ → Bool
matches_exactly p zero [] = true
matches_exactly p zero (c ∷ cs) = false
matches_exactly p (suc n) [] = false
matches_exactly p (suc n) (c ∷ cs) = p c && matches_exactly p n cs

-- `/^[A-Z]{3}$/`
unfoldable pub is_three_capitals : String → Bool
unfolding matches_exactly
is_three_capitals s = matches_exactly is_upper 3 (codes s)

abbrev pub InRange : ℕ → ℕ → ℕ → Type 0
InRange lo hi c = (lo ≤ c) × (c ≤ hi)

-- A text of three capital letters, described without the matcher.
pub record ThreeCapitals (s : String) : Type 0 where
  pub first : ℕ
  pub second : ℕ
  pub third : ℕ
  pub spelled : codes s ≡ first ∷ second ∷ third ∷ []
  pub first_capital : InRange b'A' b'Z' first
  pub second_capital : InRange b'A' b'Z' second
  pub third_capital : InRange b'A' b'Z' third

matches_three :
    (cs : List ℕ)
    → matches_exactly is_upper 3 cs ≡ true
    → (a : ℕ) × (b : ℕ) × (c : ℕ) × (cs ≡ a ∷ b ∷ c ∷ [])
      × InRange b'A' b'Z' a
      × InRange b'A' b'Z' b
      × InRange b'A' b'Z' c
unfolding matches_exactly
matches_three [] h = ground arith
matches_three (a ∷ []) h = ground arith
matches_three (a ∷ b ∷ []) h = ground arith
matches_three (a ∷ b ∷ c ∷ []) h = (a, b, c, refl, ground arith, ground arith, ground arith)
matches_three (a ∷ b ∷ c ∷ d ∷ cs) h = ground arith

three_matches :
    (a b c : ℕ)
    → InRange b'A' b'Z' a
    → InRange b'A' b'Z' b
    → InRange b'A' b'Z' c
    → matches_exactly is_upper 3 (a ∷ b ∷ c ∷ []) ≡ true
unfolding matches_exactly
three_matches a b c p q r = ground arith

pub is_three_capitals_iff : (s : String) → (is_three_capitals s ≡ true) ↔ ThreeCapitals s
unfolding is_three_capitals
is_three_capitals_iff s = (to, from)
  where
    to : is_three_capitals s ≡ true → ThreeCapitals s
    to h =
        let (a, b, c, e, p, q, r) = matches_three (codes s) h in
        record {
          first = a;
          second = b;
          third = c;
          spelled = e;
          first_capital = p;
          second_capital = q;
          third_capital = r;
        }

    from : ThreeCapitals s → is_three_capitals s ≡ true
    from t =
        rw t.spelled
          (three_matches t.first t.second t.third t.first_capital t.second_capital t.third_capital)

-- The character at a position, or `c` past the end.
unfoldable pub char_at : ℕ → String → Char → Char
char_at n String.[] c = c
char_at zero (String.◌∷◌ x s) c = x
char_at (suc n) (String.◌∷◌ x s) c = char_at n s c

-- `toLowerCase()` of a text without letters beyond ASCII.
unfoldable pub to_lower_case : String → String
unfolding char_at
to_lower_case String.[] = String.[]
to_lower_case (String.◌∷◌ c s) =
    String.◌∷◌
      (if is_upper (code c) then char_at (code c - b'A') "abcdefghijklmnopqrstuvwxyz" c else c)
      (to_lower_case s)

to_lower_case_example : to_lower_case "USD" ≡ "usd"
unfolding to_lower_case char_at
to_lower_case_example = refl
