-- ===== src/Breaker/Invariant.antt =====
-- The breaker's state against its failure count, over every sequence of events.
use mathlib.Core.List.{foldl}
use reinforce_spec.Prelude.{
  ℕ, suc, ◌+◌, ◌≤◌, ◌<◌, ◌≡◌, refl, ◌∙◌, ◌↔◌, Bool, true, false, List, [], ◌∷◌, arith,
  if◌then◌else◌,
}
use reinforce_spec.Breaker.{
  CircuitState, CircuitBreaker, Event, checks, succeeds, fails, init, step, open_at,
}

-- What each state says of the failure count.
abbrev pub Agrees : CircuitState → ℕ → ℕ → Type 0
Agrees CircuitState.closed count threshold = count < threshold
Agrees CircuitState.opened count threshold = threshold ≤ count
Agrees CircuitState.half_open count threshold = threshold ≤ count

pub record IsValid (cb : CircuitBreaker) : Type 0 where
  pub positive : 0 < cb.threshold
  pub agrees : Agrees cb.state cb.failure_count cb.threshold

abbrev pub run : CircuitBreaker → List Event → CircuitBreaker
run = foldl step

pub init-IsValid : (threshold cooldown : ℕ) → 0 < threshold → IsValid (init threshold cooldown)
init-IsValid threshold cooldown h = record { positive = h; agrees = h }

open_at-IsValid :
    (s : CircuitState) (now : ℕ) (cb : CircuitBreaker)
    → 0 < cb.threshold
    → Agrees s cb.failure_count cb.threshold
    → cb.state ≡ s
    → IsValid (open_at s now cb).1
unfolding open_at
open_at-IsValid CircuitState.opened now cb p a e = ground arith
open_at-IsValid CircuitState.closed now cb p a e = ground arith
open_at-IsValid CircuitState.half_open now cb p a e = ground arith

step-IsValid : (cb : CircuitBreaker) (e : Event) → IsValid cb → IsValid (step cb e)
unfolding step
step-IsValid cb (checks now) v =
    ground (arith, open_at-IsValid cb.state now cb v.positive v.agrees refl)
step-IsValid cb succeeds v = record { positive = v.positive; agrees = v.positive }
step-IsValid cb (fails now) v = ground arith

-- Whatever the tasks do, a closed breaker has counted fewer failures than its threshold, and an
-- open or half-open one at least as many.
pub run-IsValid : (cb : CircuitBreaker) (es : List Event) → IsValid cb → IsValid (run cb es)
run-IsValid cb [] v = v
run-IsValid cb (e ∷ es) v = run-IsValid (step cb e) es (step-IsValid cb e v)

-- The specification reads the history alone: the failures after the last success.
abbrev pub has_success : List Event → Bool
has_success [] = false
has_success (succeeds ∷ es) = true
has_success (checks now ∷ es) = has_success es
has_success (fails now ∷ es) = has_success es

abbrev pub count_fails : List Event → ℕ
count_fails [] = 0
count_fails (succeeds ∷ es) = count_fails es
count_fails (checks now ∷ es) = count_fails es
count_fails (fails now ∷ es) = suc (count_fails es)

abbrev pub fails_since_success : List Event → ℕ
fails_since_success [] = 0
fails_since_success (e ∷ es) =
    if has_success es then fails_since_success es else count_fails (e ∷ es)

failure_count-checks :
    (cb : CircuitBreaker) (now : ℕ) → (step cb (checks now)).failure_count ≡ cb.failure_count
unfolding step
failure_count-checks cb now = ground arith

failure_count-run :
    (cb : CircuitBreaker) (es : List Event)
    → (run cb es).failure_count
      ≡ (if has_success es then fails_since_success es else cb.failure_count + count_fails es)
unfolding step
failure_count-run cb [] = omega arith
failure_count-run cb (checks now ∷ es) =
    let cb' = step cb (checks now) in
    ground (arith, failure_count-run cb' es, failure_count-checks cb now)
failure_count-run cb (succeeds ∷ es) = ground (arith, failure_count-run (step cb succeeds) es)
failure_count-run cb (fails now ∷ es) = ground (arith, failure_count-run (step cb (fails now)) es)

threshold-step : (cb : CircuitBreaker) (e : Event) → (step cb e).threshold ≡ cb.threshold
unfolding step
threshold-step cb (checks now) = ground arith
threshold-step cb succeeds = refl
threshold-step cb (fails now) = refl

threshold-run : (cb : CircuitBreaker) (es : List Event) → (run cb es).threshold ≡ cb.threshold
threshold-run cb [] = refl
threshold-run cb (e ∷ es) = threshold-run (step cb e) es ∙ threshold-step cb e

closed_iff-count :
    (cb : CircuitBreaker)
    → IsValid cb
    → (cb.state ≡ CircuitState.closed) ↔ (cb.failure_count < cb.threshold)
closed_iff-count cb v = go cb.state v.agrees
  where
    go :
        (s : CircuitState)
        → Agrees s cb.failure_count cb.threshold
        → (s ≡ CircuitState.closed) ↔ (cb.failure_count < cb.threshold)
    go CircuitState.closed a = (λ _. a, λ _. refl)
    go CircuitState.opened a = (λ e. cc, λ h. absurd (omega arith))
    go CircuitState.half_open a = (λ e. cc, λ h. absurd (omega arith))

fails_since-no_success :
    (es : List Event) → has_success es ≡ false → fails_since_success es ≡ count_fails es
fails_since-no_success [] h = refl
fails_since-no_success (checks now ∷ es) h = ground arith
fails_since-no_success (succeeds ∷ es) h = cc
fails_since-no_success (fails now ∷ es) h = ground arith

failure_count-history :
    (t c : ℕ) (es : List Event) → (run (init t c) es).failure_count ≡ fails_since_success es
failure_count-history t c es =
    ground (arith, failure_count-run (init t c) es, fails_since-no_success es)

-- A new breaker with a positive threshold is closed after any events exactly when fewer than
-- `threshold` failures came after the last success: the breaker implements that specification,
-- whatever the clock says.
pub closed_iff-fails_since_success :
    (threshold cooldown : ℕ) (es : List Event)
    → 0 < threshold
    → ((run (init threshold cooldown) es).state ≡ CircuitState.closed)
      ↔ (fails_since_success es < threshold)
closed_iff-fails_since_success t c es h =
    let cb = run (init t c) es in
    let e = failure_count-history t c es in
    let f = threshold-run (init t c) es in
    let iff = closed_iff-count cb (run-IsValid (init t c) es (init-IsValid t c h)) in
    (λ p. omega (arith, e, f, iff.0 p), λ p. iff.1 (omega (arith, e, f)))
