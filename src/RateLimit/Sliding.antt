-- ===== src/RateLimit/Sliding.antt =====
-- The limit on every sliding minute.
use reinforce_spec.Prelude.{
  ℕ, ◌+◌, ◌≤◌, ◌≡◌, refl, sym, ap, ◌∙◌, false, String, List, [], ◌∷◌, ◌++◌, length, ltb, leb,
  if◌then◌else◌, arith, Bool-cases, inl, inr, string_eq, ◌==◌, length-append,
}
use reinforce_spec.Prelude.Dict.{lookup, insert, lookup-insert}
use reinforce_spec.RateLimit.Defs.{
  Limiter, init, recent, drop_stale, cleanup_stale_entries, window_of, count_request, dispatch,
}
use reinforce_spec.RateLimit.Windows.{
  Unique, length-drop_stale, length-recent, insert-Unique, drop_stale-Unique, recent-drop_stale,
  recent-recent, recent-append,
}

-- A limiter with the times at which requests of one client were passed on, in order.
pub record Watched : Type 0 where
  pub limiter : Limiter
  pub passed : List ℕ

unfoldable pub step : String → Watched → ℕ × String → Watched
step ip w (now, client_ip) =
    let (pass, limiter) = dispatch now client_ip w.limiter in
    record {
      limiter = limiter;
      passed =
          (if pass then (if client_ip == ip then w.passed ++ now ∷ [] else w.passed) else w.passed);
    }

-- All requests, each with its time and its client.
unfoldable pub run : String → Watched → List (ℕ × String) → Watched
run ip w [] = w
run ip w (request ∷ rest) = run ip (step ip w request) rest

-- The clock does not go back, and there are never more clients than `max_clients`, so that no
-- window is dropped to make room.
abbrev pub Orderly : String → ℕ → Watched → List (ℕ × String) → Type 0
Orderly ip clock w [] = Unit {0}
Orderly ip clock w ((now, client_ip) ∷ rest) =
    (clock ≤ now)
    × ((length (
            insert client_ip
              (recent now (window_of (lookup client_ip w.limiter.windows)) ++ now ∷ [])
              w.limiter.windows)
          ≤ w.limiter.max_clients)
        × Orderly ip now (step ip w (now, client_ip)) rest)

record Tracks (ip : String) (clock : ℕ) (w : Watched) : Type 0 where
  unique : Unique w.limiter.windows
  same :
      (later : ℕ)
      → clock ≤ later
      → recent later w.passed ≡ recent later (window_of (lookup ip w.limiter.windows))
  bound : length (recent clock w.passed) ≤ w.limiter.rpm

-- Counting a request and the cleanup of stale clients lose no recent request.
record Counted (now : ℕ) (l l' : Limiter) : Type 0 where
  unique : Unique l'.windows
  same :
      (ip : String) (later : ℕ)
      → now ≤ later
      → recent later (window_of (lookup ip l'.windows))
        ≡ recent later (window_of (lookup ip l.windows))
  rate : l'.rpm ≡ l.rpm

count_request-Counted :
    (now : ℕ) (l : Limiter)
    → Unique l.windows
    → length l.windows ≤ l.max_clients
    → Counted now l (count_request now l)
unfolding count_request cleanup_stale_entries
count_request-Counted now l u h = elim (Bool-cases (leb l.cleanup_interval (l.request_count + 1))) [
  | inr later ↦ rw later (record { unique = u; same = λ ip t g. refl; rate = refl })
  | inl due ↦
      let small : ltb l.max_clients (length (drop_stale now l.windows)) ≡ false =
        ground (arith, h, length-drop_stale now l.windows) in
      rw (due, small)
        (record {
          unique = drop_stale-Unique now l.windows u;
          same = λ ip t g. recent-drop_stale now t ip l.windows u g;
          rate = refl;
        })
]

module _ (ip : String) (clock now : ℕ) (client_ip : String) (w : Watched) (t : Tracks ip clock w)
    (onwards : clock ≤ now) where
  abbrev window : List ℕ
  window = recent now (window_of (lookup client_ip w.limiter.windows))

  abbrev entered : List ℕ → Limiter
  entered times = record w.limiter { windows = insert client_ip times w.limiter.windows }

  shrinks : length (recent now w.passed) ≤ w.limiter.rpm
  shrinks =
      let e = recent-recent clock now w.passed onwards in
      omega (arith, t.bound, length-recent now (recent clock w.passed), ap length e)

  -- What was passed on of the client whose window is pruned.
  pruned : (later : ℕ) → now ≤ later → client_ip ≡ ip → recent later window ≡ recent later w.passed
  pruned later h e =
      recent-recent now later (window_of (lookup client_ip w.limiter.windows)) h
      ∙ ap (λ k. recent later (window_of (lookup k w.limiter.windows))) e
      ∙ sym (t.same later (omega (arith, onwards, h)))

  rejected-Tracks : Tracks ip now (record { limiter = entered window; passed = w.passed })
  rejected-Tracks = record {
    unique = insert-Unique client_ip window w.limiter.windows t.unique;
    same = λ later h. elim (Bool-cases (client_ip == ip)) [
      | inl e ↦ rw (lookup-insert, e) (sym (pruned later h ((string_eq.same_iff client_ip ip).0 e)))
      | inr e ↦ rw (lookup-insert, e) (t.same later (omega (arith, onwards, h)))
    ];
    bound = shrinks;
  }

  entered-recent :
      (later : ℕ)
      → now ≤ later
      → recent later (if client_ip == ip then w.passed ++ now ∷ [] else w.passed)
        ≡ recent later (window_of (lookup ip (entered (window ++ now ∷ [])).windows))
  entered-recent later h = elim (Bool-cases (client_ip == ip)) [
    | inr e ↦ rw (lookup-insert, e) (t.same later (omega (arith, onwards, h)))
    | inl e ↦
        rw (lookup-insert, e)
          (recent-append later now w.passed
            ∙ ap (λ times. times ++ recent later (now ∷ []))
                (sym (pruned later h ((string_eq.same_iff client_ip ip).0 e)))
            ∙ sym (recent-append later now window))
  ]

  entered-bound :
      leb w.limiter.rpm (length window) ≡ false
      → length (recent now (if client_ip == ip then w.passed ++ now ∷ [] else w.passed))
        ≤ w.limiter.rpm
  entered-bound free = elim (Bool-cases (client_ip == ip)) [
    | inr e ↦ rw e shrinks
    | inl e ↦
        let times = pruned now (omega arith) ((string_eq.same_iff client_ip ip).0 e) in
        let one = length-recent now (now ∷ []) in
        let few = length-recent now window in
        rw
          (
            e,
            recent-append now now w.passed,
            sym times,
            length-append (recent now window) (recent now (now ∷ [])),
          )
          (ground (arith, free, one, few))
  ]

  step-Tracks :
      length (entered (window ++ now ∷ [])).windows ≤ w.limiter.max_clients
      → Tracks ip now (step ip w (now, client_ip))
        × ((step ip w (now, client_ip)).limiter.rpm ≡ w.limiter.rpm)
  unfolding step dispatch
  step-Tracks few = elim (Bool-cases (leb w.limiter.rpm (length window))) [
    | inl full ↦ rw full (rejected-Tracks, refl)
    | inr free ↦
        let l = entered (window ++ now ∷ []) in
        let c =
          count_request-Counted now l
            (insert-Unique client_ip (window ++ now ∷ []) w.limiter.windows t.unique) few in
        rw free (
          record {
            unique = c.unique;
            same = λ later h. entered-recent later h ∙ sym (c.same ip later h);
            bound = rw c.rate (entered-bound free);
          },
          c.rate,
        )
  ]

abbrev pub clock_after : ℕ → List (ℕ × String) → ℕ
clock_after clock [] = clock
clock_after clock ((now, client_ip) ∷ rest) = clock_after now rest

run-Tracks :
    (ip : String) (clock : ℕ) (w : Watched) (requests : List (ℕ × String))
    → Orderly ip clock w requests
    → Tracks ip clock w
    → Tracks ip (clock_after clock requests) (run ip w requests)
      × ((run ip w requests).limiter.rpm ≡ w.limiter.rpm)
unfolding run
run-Tracks ip clock w [] o t = (t, refl)
run-Tracks ip clock w ((now, client_ip) ∷ rest) (onwards, (few, o)) t =
    let (t', e) = step-Tracks ip clock now client_ip w t onwards few in
    let (t'', e') = run-Tracks ip now (step ip w (now, client_ip)) rest o t' in (t'', e' ∙ e)

abbrev pub watched : ℕ → ℕ → ℕ → Watched
watched rpm cleanup_interval max_clients = record {
  limiter = init rpm cleanup_interval max_clients;
  passed = [];
}

-- How many of these requests lie less than sixty seconds before `now`, or after it.
abbrev pub within_minute : ℕ → List ℕ → ℕ
within_minute now [] = 0
within_minute now (ts ∷ times) = (if ltb now (ts + 60) then 1 else 0) + within_minute now times

length-recent-within_minute :
    (now : ℕ) (times : List ℕ) → length (recent now times) ≡ within_minute now times
unfolding recent
length-recent-within_minute now [] = refl
length-recent-within_minute now (ts ∷ times) = ground (arith, length-recent-within_minute now times)

pub minute_bound :
    (rpm cleanup_interval max_clients : ℕ) (ip : String) (requests : List (ℕ × String))
    → Orderly ip 0 (watched rpm cleanup_interval max_clients) requests
    → within_minute
        (clock_after 0 requests)
        (run ip (watched rpm cleanup_interval max_clients) requests).passed
      ≤ rpm
unfolding init recent lookup
minute_bound rpm interval most ip requests o =
    let (t, e) =
      run-Tracks ip 0 (watched rpm interval most) requests o
        (record { unique = tt; same = λ later h. refl; bound = omega arith }) in
    let passed = (run ip (watched rpm interval most) requests).passed in
    omega (arith, t.bound, e, length-recent-within_minute (clock_after 0 requests) passed)
