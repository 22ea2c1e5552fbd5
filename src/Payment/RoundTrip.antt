-- ===== src/Payment/RoundTrip.antt =====
-- Storing a payment and reading it again, and what the amounts of money are.
use training_travel_booking.Shared.{
  ℕ, ◌+◌, ◌*◌, ◌≤◌, String, true, [], ◌≡◌, refl, ap, ◌∙◌, inl, inr, arith, Number, nan, finite, pos,
  negsuc, cents, round_hundredths, Result, ok, Bool-cases,
}
use training_travel_booking.Shared.Doubles.{half_cent_lem, round_hundredths-near}
use training_travel_booking.Shared.Numbers.{minus_infinity, infinity}
use training_travel_booking.Shared.Text.{is_three_capitals, is_three_capitals_iff, ThreeCapitals}
use training_travel_booking.Payment.Values.{Money, new_money}
use training_travel_booking.Payment.Aggregate.{Payment}

-- What the constructor of Money makes: an amount above zero, rounded to a nearest whole number of
-- cents; half a cent alone becomes one.
pub record Rounded (amount : Number) (currency : String) (m : Money) : Type 0 where
  pub mills : ℕ
  pub hundredths : ℕ
  pub given : amount ≡ finite (pos mills)
  pub above_zero : 1 ≤ mills
  pub stored : m.amount ≡ cents hundredths
  pub not_below : 10 * hundredths ≤ mills + 5
  pub not_above : mills ≤ 10 * hundredths + 5
  pub half_cent : mills ≡ 5 → hundredths ≡ 1
  pub spelled : ThreeCapitals currency
  pub kept : m.currency ≡ currency

new_money-finite :
    (mills : ℕ) (currency : String) (m : Money)
    → new_money (finite (pos mills)) currency ≡ ok m
    → (1 ≤ mills)
      × (is_three_capitals currency ≡ true)
      × (m.amount ≡ cents (round_hundredths mills))
      × (m.currency ≡ currency)
unfolding new_money
new_money-finite mills currency m h = elim (Bool-cases (is_three_capitals currency)) [
  | inl e ↦ (ground arith, e, ground arith, ground arith)
  | inr e ↦ ground arith
]

-- A Money object is made only of a finite amount, in thousandths, above zero and three capital letters, and it keeps
-- the currency and a whole number of cents that is nearest to the amount. An amount with a half cent
-- may go either way, as its double does, but half a cent alone becomes one cent.
pub new_money-Rounded :
    (amount : Number) (currency : String) (m : Money)
    → new_money amount currency ≡ ok m
    → Rounded amount currency m
unfolding new_money
new_money-Rounded (finite (pos mills)) currency m h =
    let (above, capitals, amount, kept) = new_money-finite mills currency m h in
    record {
      mills = mills;
      hundredths = round_hundredths mills;
      given = refl;
      above_zero = above;
      stored = amount;
      not_below = (round_hundredths-near mills).0;
      not_above = (round_hundredths-near mills).1;
      half_cent = λ e. ap round_hundredths e ∙ half_cent_lem;
      spelled = (is_three_capitals_iff currency).0 capitals;
      kept = kept;
    }
new_money-Rounded (finite (negsuc n)) currency m h = ground arith
new_money-Rounded nan currency m h = ground arith
new_money-Rounded minus_infinity currency m h = ground arith
new_money-Rounded infinity currency m h = ground arith

-- What the database gives back for the payment `p`, at the times it keeps.
abbrev pub Reread : Payment → ℕ → ℕ → Result Payment → Type 0
Reread p created_at updated_at r =
    (p' : Payment) × (r ≡ ok p')
    × (p' ≡ record p {
      created_at = created_at;
      updated_at = updated_at;
      uncommitted_events = [];
      version = 0;
    })
