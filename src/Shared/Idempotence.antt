-- ===== src/Shared/Idempotence.antt =====
-- The trimming and the capitals of Shared/Trim, applied again.
use Prim.Native.Nat.{ℕ, zero, suc, ◌-◌, ◌<◌}
use Prim.Native.Char.{Char, code}
use Prim.Native.String.{String}
use mathlib.Core.Path.{◌≡◌, refl, sym, ap, ◌∙◌}
use mathlib.Core.Logic.{◌⊎◌, inl, inr}
use mathlib.Core.Bool.{Bool, true, false, ◌&&◌}
use native.Mathlib.Omega.{arith}
use training_travel_booking.Shared.Tests.{if◌then◌else◌, Bool-cases}
use training_travel_booking.Shared.Text.{char_at, is_upper}
use training_travel_booking.Shared.Trim.{
  is_lower, is_space, is_empty, cut_before, trim_end, trim_start, trim, upper, to_upper_case,
}

all_upper : String → Bool
all_upper String.[] = true
all_upper (String.◌∷◌ c s) = is_upper (code c) && all_upper s

size : String → ℕ
size String.[] = 0
size (String.◌∷◌ c s) = suc (size s)

char_at-Upper :
    (n : ℕ) (s : String) (c : Char)
    → all_upper s ≡ true
    → n < size s
    → is_upper (code (char_at n s c)) ≡ true
unfolding all_upper size char_at
char_at-Upper n String.[] c h l = ground arith
char_at-Upper zero (String.◌∷◌ x s) c h l = ground arith
char_at-Upper (suc n) (String.◌∷◌ x s) c h l = char_at-Upper n s c (ground arith) (omega arith)

-- Any character that is not a small letter is kept, and a capital is neither small nor a space.
upper-cases :
    (c : Char) → (upper c ≡ c) ⊎ ((is_lower (code c) ≡ true) × (is_upper (code (upper c)) ≡ true))
unfolding all_upper size
upper-cases c = elim (Bool-cases (is_lower (code c))) [
  | inl h ↦
      inr
        (h, rw h (char_at-Upper (code c - b'a') "ABCDEFGHIJKLMNOPQRSTUVWXYZ" c refl (ground arith)))
  | inr h ↦ inl (rw h refl)
]

upper_kept : (c : Char) → is_upper (code c) ≡ true → upper c ≡ c
upper_kept c h = ground arith

upper-upper : (c : Char) → upper (upper c) ≡ upper c
upper-upper c = elim (upper-cases c) [ inl e ↦ ap upper e | inr (l, u) ↦ upper_kept (upper c) u ]

lower_not_space : (n : ℕ) → is_lower n ≡ true → is_space n ≡ false
lower_not_space n h = ground arith

upper_not_space : (n : ℕ) → is_upper n ≡ true → is_space n ≡ false
upper_not_space n h = ground arith

is_space-upper : (c : Char) → is_space (code (upper c)) ≡ is_space (code c)
is_space-upper c = elim (upper-cases c) [
  | inl e ↦ ap (λ x. is_space (code x)) e
  | inr (l, u) ↦ upper_not_space (code (upper c)) u ∙ sym (lower_not_space (code c) l)
]

cut_before-upper :
    (c : Char) (s : String)
    → cut_before (upper c) (to_upper_case s) ≡ to_upper_case (cut_before c s)
unfolding to_upper_case
cut_before-upper c String.[] =
    rw (is_space-upper c)
      (elim (Bool-cases (is_space (code c))) [ inl h ↦ rw h refl | inr h ↦ rw h refl ])
cut_before-upper c (String.◌∷◌ d s) = elim (Bool-cases (is_space (code c))) [
  | inl h ↦ rw (is_space-upper c, h) refl
  | inr h ↦ rw (is_space-upper c, h) refl
]

trim_end-upper : (s : String) → trim_end (to_upper_case s) ≡ to_upper_case (trim_end s)
unfolding to_upper_case trim_end
trim_end-upper String.[] = refl
trim_end-upper (String.◌∷◌ c s) =
    ap (cut_before (upper c)) (trim_end-upper s) ∙ cut_before-upper c (trim_end s)

trim_start-upper : (s : String) → trim_start (to_upper_case s) ≡ to_upper_case (trim_start s)
unfolding to_upper_case trim_start
trim_start-upper String.[] = refl
trim_start-upper (String.◌∷◌ c s) = elim (Bool-cases (is_space (code c))) [
  | inl h ↦ rw (is_space-upper c, h) (trim_start-upper s)
  | inr h ↦ rw (is_space-upper c, h) refl
]

pub trim-to_upper_case : (s : String) → trim (to_upper_case s) ≡ to_upper_case (trim s)
unfolding trim
trim-to_upper_case s = ap trim_start (trim_end-upper s) ∙ trim_start-upper (trim_end s)

pub to_upper_case-to_upper_case : (s : String) → to_upper_case (to_upper_case s) ≡ to_upper_case s
unfolding to_upper_case
to_upper_case-to_upper_case String.[] = refl
to_upper_case-to_upper_case (String.◌∷◌ c s) =
    rw (upper-upper c, to_upper_case-to_upper_case s) refl

trim_end-cut_before :
    (c : Char) (s : String) → trim_end s ≡ s → trim_end (cut_before c s) ≡ cut_before c s
unfolding trim_end
trim_end-cut_before c s h = elim (Bool-cases (is_space (code c) && is_empty s)) [
  | inl e ↦ rw e refl
  | inr e ↦ rw e (rw (h, e) refl)
]

trim_end-trim_end : (s : String) → trim_end (trim_end s) ≡ trim_end s
unfolding trim_end
trim_end-trim_end String.[] = refl
trim_end-trim_end (String.◌∷◌ c s) = trim_end-cut_before c (trim_end s) (trim_end-trim_end s)

trim_start-trim_start : (s : String) → trim_start (trim_start s) ≡ trim_start s
unfolding trim_start
trim_start-trim_start String.[] = refl
trim_start-trim_start (String.◌∷◌ c s) = elim (Bool-cases (is_space (code c))) [
  | inl h ↦ rw h (trim_start-trim_start s)
  | inr h ↦ rw h (rw h refl)
]

tail : String → String
tail String.[] = String.[]
tail (String.◌∷◌ c s) = s

cut_before-tail : (c : Char) (s t : String) → cut_before c t ≡ String.◌∷◌ c s → t ≡ s
unfolding tail
cut_before-tail c s t h = elim (Bool-cases (is_space (code c) && is_empty t)) [
  | inl e ↦ ground arith
  | inr e ↦ sym (ap (λ b. tail (if b then String.[] else String.◌∷◌ c t)) e) ∙ ap tail h
]

trim_end-trim_start : (s : String) → trim_end s ≡ s → trim_end (trim_start s) ≡ trim_start s
unfolding trim_start trim_end
trim_end-trim_start String.[] h = refl
trim_end-trim_start (String.◌∷◌ c s) h = elim (Bool-cases (is_space (code c))) [
  | inl e ↦ rw e (trim_end-trim_start s (cut_before-tail c s (trim_end s) h))
  | inr e ↦ rw e h
]

pub trim-trim : (s : String) → trim (trim s) ≡ trim s
unfolding trim
trim-trim s =
    ap trim_start (trim_end-trim_start (trim_end s) (trim_end-trim_end s))
    ∙ trim_start-trim_start (trim_end s)
