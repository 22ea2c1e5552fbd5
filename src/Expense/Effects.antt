-- ===== src/Expense/Effects.antt =====
-- What the expense service committed and sent, told from the calls it made.
use training_travel_booking.Shared.{List, [], ◌∷◌, ◌++◌, ◌≡◌}
use training_travel_booking.Shared.Effect.{World, Method, Ends}
use training_travel_booking.Expense.Calls.{
  ExpenseEvent, Call, begin, commit, rollback, save_receipt, save_expense, save_processed, send,
  metric,
}

-- How the transaction ended that the calls before belong to, if there is one.
pub data Mode : Type 0 where
  outside taken dropped : Mode

-- A commit that is followed by a rollback did not succeed.
abbrev pub committing : Mode → Mode
committing outside = taken
committing taken = taken
committing dropped = dropped

abbrev pub kept : Mode → Call → List Call → List Call
kept outside c cs = cs
kept taken c cs = c ∷ cs
kept dropped c cs = cs

abbrev pub committed_from : Mode → List Call → List Call
committed_from mode [] = []
committed_from mode (begin ∷ t) = committed_from outside t
committed_from mode (commit ∷ t) = committed_from (committing mode) t
committed_from mode (rollback ∷ t) = committed_from dropped t
committed_from mode (save_receipt r ∷ t) = kept mode (save_receipt r) (committed_from mode t)
committed_from mode (save_expense e ∷ t) = kept mode (save_expense e) (committed_from mode t)
committed_from mode (save_processed i y ∷ t) =
    kept mode (save_processed i y) (committed_from mode t)
committed_from mode (send e ∷ t) = committed_from mode t
committed_from mode (metric m ∷ t) = committed_from mode t

-- The writes that were committed, the newest first.
abbrev pub committed : List Call → List Call
committed t = committed_from outside t

-- The events that were given to the broker, the newest first.
abbrev pub sent : List Call → List ExpenseEvent
sent [] = []
sent (send e ∷ t) = e ∷ sent t
sent (begin ∷ t) = sent t
sent (commit ∷ t) = sent t
sent (rollback ∷ t) = sent t
sent (save_receipt r ∷ t) = sent t
sent (save_expense e ∷ t) = sent t
sent (save_processed i y ∷ t) = sent t
sent (metric m ∷ t) = sent t

-- Nothing was committed or sent from `t` to `v`.
abbrev pub Quiet : List Call → List Call → Type 0
Quiet t v = (committed v ≡ committed t) × (sent v ≡ sent t)

-- `xs` was committed and nothing sent.
abbrev pub Commits : List Call → List Call → List Call → Type 0
Commits xs t v = (committed v ≡ xs ++ committed t) × (sent v ≡ sent t)

-- Inside a transaction: `xs` is committed if the transaction is taken, and nothing if it is dropped.
abbrev pub Pending : List Call → List Call → List Call → Type 0
Pending xs t v =
    (committed_from taken v ≡ xs ++ committed t)
    × (committed_from dropped v ≡ committed t)
    × (sent v ≡ sent t)

abbrev pub Droppable : List Call → List Call → Type 0
Droppable t v = (committed_from dropped v ≡ committed t) × (sent v ≡ sent t)

-- How the function of a transaction ends that started at `t`: with writes of which `Q` holds.
abbrev pub Body :
    {A : Type 0}
    → (A → List Call → Type 0)
    → List Call
    → (Method Call (Unit {0}) A)
    → World Call (Unit {0})
    → Type 0
Body {A} Q t m w =
    Ends (λ a v. (xs : List Call) × Q a xs × Pending xs t v.trace) (λ e v. Droppable t v.trace)
      (m w)
