-- ===== src/Base/Outcome.antt =====
-- Go errors as values. `wrap` is `fmt.Errorf("%w: %w", sentinel, err)` and the error types of the
-- repository that carry an inner error; `join` is `errors.Join`.
use Prim.Native.String.{String}
use mathlib.Core.Path.{◌≡◌, refl}
use mathlib.Core.Logic.{◌⊎◌, inl, inr}
use mathlib.Core.Bool.{Bool, true, false, ◌||◌}

pub data Err : Type 0 where
  canceled deadline_exceeded iterator_done not_accessible unsupported : Err
  message : String → Err
  wrap : String → Err → Err
  join : Err → Err → Err

-- errors.Is(err, context.Canceled)
unfoldable pub is_canceled : Err → Bool
is_canceled canceled = true
is_canceled (wrap _ e) = is_canceled e
is_canceled (join e f) = is_canceled e || is_canceled f
is_canceled _ = false

-- errors.Is(err, context.DeadlineExceeded)
unfoldable pub is_deadline_exceeded : Err → Bool
is_deadline_exceeded deadline_exceeded = true
is_deadline_exceeded (wrap _ e) = is_deadline_exceeded e
is_deadline_exceeded (join e f) = is_deadline_exceeded e || is_deadline_exceeded f
is_deadline_exceeded _ = false

-- errors.Is(err, ErrIteratorDone)
unfoldable pub is_iterator_done : Err → Bool
is_iterator_done iterator_done = true
is_iterator_done (wrap _ e) = is_iterator_done e
is_iterator_done (join e f) = is_iterator_done e || is_iterator_done f
is_iterator_done _ = false

-- errors.Is(err, ErrNotAccessible)
unfoldable pub is_not_accessible : Err → Bool
is_not_accessible not_accessible = true
is_not_accessible (wrap _ e) = is_not_accessible e
is_not_accessible (join e f) = is_not_accessible e || is_not_accessible f
is_not_accessible _ = false

pub data Result {ℓ} (A : Type ℓ) : Type ℓ where
  ok : A → Result A
  err : Err → Result A

infixl 5 ◌>>=◌
abbrev pub ◌>>=◌ {ℓ κ} : {A : Type ℓ} {B : Type κ} → Result A → (A → Result B) → Result B
◌>>=◌ r next = elim r [ ok value ↦ next value | err failure ↦ err failure ]

-- What `err != nil` tells of a pair `(value, err)`.
abbrev pub is_ok {ℓ} : {A : Type ℓ} → Result A → Bool
is_ok (ok _) = true
is_ok (err _) = false

pub Result-cases {ℓ} :
    {A : Type ℓ} (r : Result A) → ((a : A) × (r ≡ ok a)) ⊎ ((e : Err) × (r ≡ err e))
Result-cases (ok a) = inl (a, refl)
Result-cases (err e) = inr (e, refl)
