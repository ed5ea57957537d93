-- ===== src/SdkHttp/Retries.antt =====
-- When the client sends again, and what comes out.
use reinforce_spec.Prelude.{
  if-holds, some, ℕ, zero, suc, ◌+◌, ◌<◌, ◌≤◌, ◌≡◌, refl, ap, ◌∙◌, Bool, true, false, List, [],
  Option, none, length, nat_beq, arith, Bool-cases, inl, inr, subst, ◌⊎◌,
}
use reinforce_spec.SdkHttp.Defs.{
  Handled, parsed, success, Response, Details, fields, no_object, raised, Sent, responds, raises,
  exception_from_response, handle_response, should_retry, HttpClient, Caught, done, last_exception,
  rethrown, caught, attempted, Result, attempt_from, request, ended, followed,
}

-- Whether an attempt that ended so is followed by another one, if there is one left.
abbrev pub goes_on {ℓ} : {J : Type ℓ} → Caught J → Bool
goes_on (done v) = false
goes_on (rethrown e) = false
goes_on (last_exception e) = should_retry e

module _ {ℓ} {J : Type ℓ} (empty : J) where
  goes_on-code :
      (code : ℕ) (after : Option ℕ)
      → goes_on (caught {J = J} (raises (exception_from_response code after))) ≡ nat_beq code 429
  unfolding exception_from_response caught should_retry
  goes_on-code code after = ground arith

  goes_on-raised :
      (code : ℕ) (details : Details)
      → goes_on (caught {J = J} (raised code details)) ≡ true
      → code ≡ 429
  unfolding raised caught should_retry
  goes_on-raised code (fields after) h = ground (arith, h, goes_on-code code after)
  goes_on-raised code no_object h = ground (arith, h, goes_on-code code none)

  goes_on-parsed : (json : Option J) → goes_on (caught (parsed json)) ≡ false
  unfolding caught
  goes_on-parsed none = unfold should_retry in refl
  goes_on-parsed (some value) = refl

  goes_on-limited :
      (r : Response J) → goes_on (caught (handle_response empty r)) ≡ true → r.status_code ≡ 429
  unfolding handle_response caught
  goes_on-limited r =
      let P = λ (x : Handled J). goes_on (caught x) ≡ true → r.status_code ≡ 429 in
      if-holds P (success r.status_code)
        (λ ok.
          if-holds P (nat_beq r.status_code 204) (λ empty_there h. ground (arith, h))
            (λ some_there h. ground (arith, h, goes_on-parsed r.json)))
        (λ failed.
          if-holds P (nat_beq r.status_code 429) (λ is h. ground (arith, is))
            (λ other. goes_on-raised r.status_code r.details))

  -- Only a 429 is followed by another attempt.
  goes_on-sent :
      (s : Sent J)
      → goes_on (attempted empty s) ≡ true
      → (r : Response J) × ((s ≡ responds r) × (r.status_code ≡ 429))
  unfolding attempted should_retry
  goes_on-sent (responds r) h = (r, (refl, goes_on-limited r h))
  goes_on-sent Sent.times_out h = ground (arith, h)
  goes_on-sent Sent.cannot_connect h = ground (arith, h)
  goes_on-sent Sent.fails_otherwise h = ground (arith, h)

module _ {ℓ} {J : Type ℓ} where
  followed-sleeps :
      (c : HttpClient) (jitter attempt : ℕ) (x : Caught J) (rest : Result J × List ℕ)
      → ((followed c jitter attempt x rest).1 ≡ [])
        ⊎ ((goes_on x ≡ true) × (length (followed c jitter attempt x rest).1 ≡ suc (length rest.1)))
  unfolding followed
  followed-sleeps c jitter attempt (done v) rest = inl refl
  followed-sleeps c jitter attempt (rethrown e) rest = inl refl
  followed-sleeps c jitter attempt (last_exception e) (result, sleeps) =
      elim (Bool-cases (should_retry e)) [
        | inl again ↦ rw again (inr (refl, refl))
        | inr no_more ↦ rw no_more (inl refl)
      ]

  ended-sleeps : (x : Caught J) → (ended x).1 ≡ []
  ended-sleeps (done v) = refl
  ended-sleeps (rethrown e) = refl
  ended-sleeps (last_exception e) = refl

-- The attempt was answered with a 429.
abbrev pub Limited {ℓ} : {J : Type ℓ} → Sent J → Type ℓ
Limited {J = J} s = (r : Response J) × ((s ≡ responds r) × (r.status_code ≡ 429))

module _ {ℓ} {J : Type ℓ} (empty : J) (c : HttpClient) (send : ℕ → Sent J) (jitter : ℕ → ℕ) where
  same_attempt : (i j : ℕ) → i ≡ j → Limited (send i) → Limited (send j)
  same_attempt i j e l = subst (λ k. Limited (send k)) e l

  first_and_later :
      (attempt n : ℕ)
      → Limited (send attempt)
      → ((j : ℕ) → j < n → Limited (send (attempt + 1 + j)))
      → (j : ℕ) → j < suc n
      → Limited (send (attempt + j))
  first_and_later attempt n l ls zero h = same_attempt attempt (attempt + 0) (omega arith) l
  first_and_later attempt n l ls (suc j) h =
      same_attempt (attempt + 1 + j) (attempt + suc j) (omega arith) (ls j (omega arith))

  attempt_from-sleeps :
      (left attempt : ℕ)
      → (length (attempt_from empty c send jitter left attempt).1 ≤ left)
        × ((j : ℕ)
            → j < length (attempt_from empty c send jitter left attempt).1
            → Limited (send (attempt + j)))
  unfolding attempt_from
  attempt_from-sleeps zero attempt =
      let e = ap length (ended-sleeps (attempted empty (send attempt))) in
      (omega (arith, e), λ j h. absurd (omega (arith, e, h)))
  attempt_from-sleeps (suc left) attempt =
      let (few, before) = attempt_from-sleeps left (attempt + 1) in
      elim (followed-sleeps c (jitter attempt) attempt (attempted empty (send attempt))
        (attempt_from empty c send jitter left (attempt + 1))) [
          | inl none_left ↦
              let e = ap length none_left in (omega (arith, e), λ j h. absurd (omega (arith, e, h)))
          | inr (again, e) ↦ (
            omega (arith, e, few),
            λ j h.
                first_and_later attempt
                  (length (attempt_from empty c send jitter left (attempt + 1)).1)
                  (goes_on-sent empty (send attempt) again) before j (omega (arith, e, h)),
          )
        ]

  -- The client sends again at most `max_retries` times, and only after a 429: every attempt that
  -- was followed by a sleep and another one had been answered with that code.
  pub request-sleeps :
      (length (request empty c send jitter).1 ≤ c.max_retries)
      × ((j : ℕ) → j < length (request empty c send jitter).1 → Limited (send j))
  unfolding request
  request-sleeps =
      let (few, limited) = attempt_from-sleeps c.max_retries 0 in
      (few, λ j h. same_attempt (0 + j) j (omega arith) (limited j h))

  followed_again :
      (attempt : ℕ) (x : Caught J) (rest : Result J × List ℕ)
      → goes_on x ≡ true
      → (followed c (jitter attempt) attempt x rest).0 ≡ rest.0
  unfolding followed
  followed_again attempt (done v) rest h = cc
  followed_again attempt (rethrown e) rest h = cc
  followed_again attempt (last_exception e) (result, sleeps) h = rw h

  followed_not :
      (attempt : ℕ) (x : Caught J) (rest : Result J × List ℕ)
      → goes_on x ≡ false
      → (followed c (jitter attempt) attempt x rest).0 ≡ (ended x).0
  unfolding followed
  followed_not attempt (done v) rest h = refl
  followed_not attempt (rethrown e) rest h = refl
  followed_not attempt (last_exception e) (result, sleeps) h = rw h

  -- What the attempt returns or raises, and whether it may be followed by another one.
  abbrev pub outcome : ℕ → Result J
  outcome j = (ended (attempted empty (send j))).0

  abbrev pub again : ℕ → Bool
  again j = goes_on (attempted empty (send j))

  same_outcome : (i j : ℕ) → i ≡ j → outcome i ≡ outcome j
  same_outcome i j e = ap outcome e

  same_again : (i j : ℕ) → i ≡ j → again i ≡ again j
  same_again i j e = ap again e

  attempt_from-result :
      (k left attempt : ℕ)
      → k ≤ left
      → ((j : ℕ) → j < k → again (attempt + j) ≡ true)
      → (k ≡ left) ⊎ (again (attempt + k) ≡ false)
      → (attempt_from empty c send jitter left attempt).0 ≡ outcome (attempt + k)
  unfolding attempt_from
  attempt_from-result zero zero attempt h before stop =
      same_outcome attempt (attempt + 0) (omega arith)
  attempt_from-result (suc k) zero attempt h before stop = elim h [ ]
  attempt_from-result zero (suc left) attempt h before (inl e) = absurd (omega (arith, e))
  attempt_from-result zero (suc left) attempt h before (inr e) =
      followed_not attempt (attempted empty (send attempt))
        (attempt_from empty c send jitter left (attempt + 1))
        (same_again attempt (attempt + 0) (omega arith) ∙ e)
      ∙ same_outcome attempt (attempt + 0) (omega arith)
  attempt_from-result (suc k) (suc left) attempt h before stop =
      followed_again attempt (attempted empty (send attempt))
        (attempt_from empty c send jitter left (attempt + 1))
        (same_again attempt (attempt + 0) (omega arith) ∙ before 0 (omega arith))
      ∙ attempt_from-result k left (attempt + 1) (omega arith)
          (λ j l.
            same_again (attempt + 1 + j) (attempt + suc j) (omega arith)
            ∙ before (suc j) (omega arith))
          (elim stop [
            | inl e ↦ inl (omega (arith, e))
            | inr e ↦ inr (same_again (attempt + 1 + k) (attempt + suc k) (omega arith) ∙ e)
          ])
      ∙ same_outcome (attempt + 1 + k) (attempt + suc k) (omega arith)

  -- If the attempts before the k-th may all be followed by another one, and the k-th is the last
  -- that is allowed or may not, then what it returns or raises comes out of the call.
  pub request-outcome :
      (k : ℕ)
      → k ≤ c.max_retries
      → ((j : ℕ) → j < k → again j ≡ true)
      → (k ≡ c.max_retries) ⊎ (again k ≡ false)
      → (request empty c send jitter).0 ≡ outcome k
  unfolding request
  request-outcome k h before stop =
      attempt_from-result k c.max_retries 0 h
        (λ j l. same_again (0 + j) j (omega arith) ∙ before j l)
        (elim stop [ inl e ↦ inl e | inr e ↦ inr (same_again (0 + k) k (omega arith) ∙ e) ])
      ∙ same_outcome (0 + k) k (omega arith)

  none_at_all : (n : ℕ) → (0 < n → ⊥) → n ≡ 0
  none_at_all zero h = refl
  none_at_all (suc n) h = absurd (h (omega arith))

  -- A first attempt that times out or cannot connect is the only one, whatever `max_retries` is:
  -- the call raises and never sleeps.
  request-unreached :
      (send 0 ≡ Sent.times_out) ⊎ (send 0 ≡ Sent.cannot_connect)
      → (length (request empty c send jitter).1 ≡ 0) × ((request empty c send jitter).0 ≡ outcome 0)
  request-unreached down =
      let no : again 0 ≡ false = elim down [
        | inl e ↦ unfold attempted should_retry in rw e refl
        | inr e ↦ unfold attempted should_retry in rw e refl
      ] in
      (
        none_at_all (length (request empty c send jitter).1) (λ some_sleep.
            (let (r, (e, l)) = request-sleeps.1 0 some_sleep in
              elim down [ inl d ↦ ground (arith, d, e) | inr d ↦ ground (arith, d, e) ])),
        request-outcome 0 (omega arith) (λ j h. absurd (omega (arith, h))) (inr no),
      )
