-- ===== src/Environment/Replay.antt =====
-- What training on stored transitions sees.
use reinforce_spec.Prelude.{
  ℕ, zero, suc, ◌+◌, ◌%◌, ◌<◌, ◌≤◌, ◌≡◌, refl, ap, subst, ◌∙◌, List, [], ◌∷◌, Option, none, some,
  map, length, get_elem?, get_or, arith, All, length-map,
}
use native.Mathlib.Nat.{mod-lt}
use reinforce_spec.Prelude.Integers.{ℤ, ◌+ℤ◌}
use reinforce_spec.ReplayBuffer.Transitions.{Transition}
use reinforce_spec.Environment.Defs.{
  SpecSelectionEnv, load_transitions, set_feedback_signal, reset, step, stored, rewards_of, Stored,
  base_reward,
}

-- Before an episode a feedback may come in.
abbrev pub hear : Option ℤ → SpecSelectionEnv → SpecSelectionEnv
hear none e = e
hear (some signal) e = set_feedback_signal signal e

-- Episodes of a reset and one step each, as `learn` runs them: the observation of the reset and the
-- reward of the step.
abbrev pub episodes : List (Option ℤ × ℕ) → SpecSelectionEnv → List (List ℕ × Option (List ℕ × ℤ))
episodes [] e = []
episodes ((signal, action) ∷ rest) e =
    let (obs, e1) = reset (hear signal e) in
    let (answer, e2) = step action e1 in (obs, answer) ∷ episodes rest e2

get_elem?-get_or {ℓ} :
    {A : Type ℓ} (xs : List A) (i : ℕ) (d : A)
    → i < length xs
    → get_elem? xs i ≡ some (get_or xs i d)
get_elem?-get_or [] i d h = absurd (ground (arith, h))
get_elem?-get_or (x ∷ xs) zero d h = refl
get_elem?-get_or (x ∷ xs) (suc i) d h = get_elem?-get_or xs i d (omega (arith, h))

-- A reset forgets the feedback.
reset-hear : (signal : Option ℤ) (e : SpecSelectionEnv) → reset (hear signal e) ≡ reset e
unfolding reset set_feedback_signal
reset-hear none e = refl
reset-hear (some signal) e = refl

-- The state after a reset that served the stored transition.
abbrev showing : Stored → SpecSelectionEnv → SpecSelectionEnv
showing (obs, reward, rewards) e = record e {
  step_count = 0;
  total_reward = ℤ.pos 0;
  feedback_signal = none;
  episode_count = e.episode_count + 1;
  replay_idx = e.replay_idx + 1;
  current_obs = obs;
  replay_candidate_rewards = rewards;
}

reset-showing :
    (s : Stored) (queue : List Stored) (e : SpecSelectionEnv)
    → e.replay_queue ≡ some (s ∷ queue)
    → let served = get_or (s ∷ queue) (e.replay_idx % length (s ∷ queue)) s in
      reset e ≡ (served.0, showing served e)
unfolding reset
reset-showing s queue e loaded =
    let served = get_or (s ∷ queue) (e.replay_idx % length (s ∷ queue)) s in
    let found =
      get_elem?-get_or (s ∷ queue) (e.replay_idx % length (s ∷ queue)) s
        (mod-lt e.replay_idx (omega arith)) in
    rw (loaded, found)

-- The base reward is added to no feedback.
abbrev answered : Stored → ℕ → SpecSelectionEnv → SpecSelectionEnv
answered s reward e = record (showing s e) {
  step_count = 1;
  total_reward = ℤ.pos 0 +ℤ ℤ.pos reward;
}

step-showing :
    (s : Stored) (queue : List Stored) (served : Stored) (action : ℕ) (e : SpecSelectionEnv)
    → e.replay_queue ≡ some (s ∷ queue)
    → 0 < e.max_candidates
    → e.max_candidates ≤ length (served.2)
    → let reward = get_or (served.2) (action % e.max_candidates) 0 in
      step action (showing served e) ≡ (some (served.0, ℤ.pos reward), answered served reward e)
unfolding step base_reward
step-showing s queue served action e loaded positive wide =
    let inside = mod-lt action positive in
    let found =
      get_elem?-get_or (served.2) (action % e.max_candidates) 0 (omega (arith, inside, wide)) in
    rw (loaded, found)

All-get_or {ℓ} :
    {A : Type ℓ} (P : A → Type 0) (xs : List A) (i : ℕ) (d : A)
    → i < length xs
    → All P xs
    → P (get_or xs i d)
All-get_or P [] i d h a = absurd (ground (arith, h))
All-get_or P (x ∷ xs) zero d h (a, more) = a
All-get_or P (x ∷ xs) (suc i) d h (a, more) = All-get_or P xs i d (omega (arith, h)) more

-- The first episode on a loaded queue.
episodes-first :
    (s : Stored) (queue : List Stored) (signal : Option ℤ) (action : ℕ) (rest : List (Option ℤ × ℕ))
    (e : SpecSelectionEnv)
    → e.replay_queue ≡ some (s ∷ queue)
    → 0 < e.max_candidates
    → All (λ s. e.max_candidates ≤ length (s.2)) (s ∷ queue)
    → let served = get_or (s ∷ queue) (e.replay_idx % length (s ∷ queue)) s in
      let reward = get_or (served.2) (action % e.max_candidates) 0 in
      episodes ((signal, action) ∷ rest) e
      ≡ (served.0, some (served.0, ℤ.pos reward)) ∷ episodes rest (answered served reward e)
episodes-first s queue signal action rest e loaded positive wide =
    let place = e.replay_idx % length (s ∷ queue) in
    let served = get_or (s ∷ queue) place s in
    let inside =
      All-get_or (λ s. e.max_candidates ≤ length (s.2)) (s ∷ queue) place s
        (mod-lt e.replay_idx (omega arith)) wide in
    ap
      (λ shown.
        let (answer, later) = step action (shown.1) in (shown.0, answer) ∷ episodes rest later)
      (reset-hear signal e ∙ reset-showing s queue e loaded)
    ∙ ap (λ taken. (served.0, taken.0) ∷ episodes rest (taken.1))
        (step-showing s queue served action e loaded positive inside)

-- The i-th episode shows the stored transition at `k`, counted around the queue.
abbrev pub Shows : Stored → List Stored → List (Option ℤ × ℕ) → SpecSelectionEnv → ℕ → ℕ → Type 0
Shows s queue script e k i =
    let (obs, reward, rewards) = get_or (s ∷ queue) (k % length (s ∷ queue)) s in
    let (signal, action) = get_or script i (none, 0) in
    get_elem? (episodes script e) i
    ≡ some (obs, some (obs, ℤ.pos (get_or rewards (action % e.max_candidates) 0)))

episodes-Shows :
    (s : Stored) (queue : List Stored) (script : List (Option ℤ × ℕ)) (e : SpecSelectionEnv)
    (i k : ℕ)
    → e.replay_queue ≡ some (s ∷ queue)
    → 0 < e.max_candidates
    → All (λ s. e.max_candidates ≤ length (s.2)) (s ∷ queue)
    → i < length script
    → k ≡ e.replay_idx + i
    → Shows s queue script e k i
episodes-Shows s queue [] e i k loaded positive wide h at_k = absurd (ground (arith, h))
episodes-Shows s queue ((signal, action) ∷ rest) e zero k loaded positive wide h at_k =
    subst (λ k. Shows s queue ((signal, action) ∷ rest) e k 0) {x = e.replay_idx}
      (omega (arith, at_k))
      (ap (λ shown. get_elem? shown 0)
        (episodes-first s queue signal action rest e loaded positive wide))
episodes-Shows s queue ((signal, action) ∷ rest) e (suc i) k loaded positive wide h at_k =
    let served = get_or (s ∷ queue) (e.replay_idx % length (s ∷ queue)) s in
    let reward = get_or (served.2) (action % e.max_candidates) 0 in
    ap (λ shown. get_elem? shown (suc i))
      (episodes-first s queue signal action rest e loaded positive wide)
    ∙ episodes-Shows s queue rest (answered served reward e) i k loaded positive wide
        (omega (arith, h)) (omega (arith, at_k))

-- A transition with one reward for each action at least, or with none of them.
abbrev pub Wide : ℕ → Transition → Type 0
Wide n t = n ≤ length (rewards_of n t.candidate_rewards t.reward)

stored-Wide :
    (n : ℕ) (ts : List Transition)
    → All (Wide n) ts
    → All (λ s. n ≤ length (s.2)) (map (stored n) ts)
stored-Wide n [] w = tt
stored-Wide n (t ∷ ts) (w, more) = (w, stored-Wide n ts more)

map-get_or {ℓ κ} :
    {A : Type ℓ} {B : Type κ} (f : A → B) (xs : List A) (i : ℕ) (d : A)
    → get_or (map f xs) i (f d) ≡ f (get_or xs i d)
map-get_or f [] i d = refl
map-get_or f (x ∷ xs) zero d = refl
map-get_or f (x ∷ xs) (suc i) d = map-get_or f xs i d

-- On a non-empty batch of transitions that all have a reward for each action, or none, the i-th
-- episode shows the transition at i, counted around the batch, and its reward is that of the action
-- taken modulo `max_candidates`, whatever feedback comes in before the episodes.
pub replay-Shows :
    (t : Transition) (ts : List Transition) (script : List (Option ℤ × ℕ)) (e : SpecSelectionEnv)
    (i : ℕ)
    → 0 < e.max_candidates
    → All (Wide e.max_candidates) (t ∷ ts)
    → i < length script
    → let served = get_or (t ∷ ts) (i % length (t ∷ ts)) t in
      let rewards = rewards_of e.max_candidates served.candidate_rewards served.reward in
      let reward = get_or rewards ((get_or script i (none, 0)).1 % e.max_candidates) 0 in
      get_elem? (episodes script (load_transitions (t ∷ ts) e)) i
      ≡ some (served.observation, some (served.observation, ℤ.pos reward))
unfolding load_transitions
replay-Shows t ts script e i positive wide h =
    let n = e.max_candidates in
    let shown =
      episodes-Shows (stored n t) (map (stored n) ts) script (load_transitions (t ∷ ts) e) i i refl
        positive (stored-Wide n (t ∷ ts) wide) h (omega arith) in
    let action = (get_or script i (none, 0)).1 in
    shown
    ∙ ap (λ served. some (served.0, some (served.0, ℤ.pos (get_or (served.2) (action % n) 0))))
        (ap (λ m. get_or (map (stored n) (t ∷ ts)) (i % m) (stored n t))
            (length-map (stored n) (t ∷ ts))
          ∙ map-get_or (stored n) (t ∷ ts) (i % length (t ∷ ts)) t)
