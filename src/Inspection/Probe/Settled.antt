-- ===== src/Inspection/Probe/Settled.antt =====
-- The answer of a probe.
use posts_media.Common.{
  ℕ, ◌+◌, ◌≤◌, ◌≡◌, refl, ap, ◌∙◌, Bool, true, false, Option, List, [], ◌∷◌, ◌++◌, length, any, ltb,
  if◌then◌else◌, arith, Bool-cases, inl, inr,
}
use posts_media.Domain.Result.{Result, err}
use posts_media.Inspection.Documents.{ProbeDocument, corrupted_media}
use posts_media.Inspection.Probe.{
  Event, Probe, started, consume, step, run, probe, closed, validation_timeout,
  max_probe_output_bytes,
}

length-append : {A : Type 0} (xs ys : List A) → length (xs ++ ys) ≡ length xs + length ys
length-append [] ys = omega arith
length-append (x ∷ xs) ys = omega (arith, length-append xs ys)

module _ (parse : List ℕ → Option ProbeDocument) where
  -- The answer that a probe should give: that of the first event that decides. `n` bytes were
  -- captured, `out` of them from stdout.
  abbrev pub decided : ℕ → List ℕ → List Event → List (Result ProbeDocument)
  decided n out [] = []
  decided n out (Event.timeout ∷ es) = err validation_timeout ∷ []
  decided n out (Event.error ∷ es) = err corrupted_media ∷ []
  decided n out (Event.close code ∷ es) = closed parse code out ∷ []
  decided n out (Event.stdout_data chunk ∷ es) =
      let rest = decided (n + length chunk) (out ++ chunk) es in
      if ltb max_probe_output_bytes (n + length chunk) then err corrupted_media ∷ [] else rest
  decided n out (Event.stderr_data chunk ∷ es) =
      let rest = decided (n + length chunk) out es in
      if ltb max_probe_output_bytes (n + length chunk) then err corrupted_media ∷ [] else rest

  step-settled :
      (e : Event) (p : Probe)
      → p.settled ≡ true
      → ((step parse e p).settled ≡ true) × ((step parse e p).answers ≡ p.answers)
  unfolding step consume
  step-settled Event.timeout p h = ground arith
  step-settled Event.error p h = ground arith
  step-settled (Event.close code) p h = ground arith
  step-settled (Event.stdout_data chunk) p h = ground arith
  step-settled (Event.stderr_data chunk) p h = ground arith

  run-settled :
      (es : List Event) (p : Probe) → p.settled ≡ true → (run parse es p).answers ≡ p.answers
  unfolding run
  run-settled [] p h = refl
  run-settled (e ∷ es) p h =
      let (still, same) = step-settled e p h in run-settled es (step parse e p) still ∙ same

  -- a probe that is not settled
  abbrev waiting : ℕ → List ℕ → ℕ → Probe
  waiting n out kills = record {
    stdout = out;
    captured_bytes = n;
    settled = false;
    kills = kills;
    answers = [];
  }

  consume-over :
      (chunk : List ℕ) (capture : Bool) (n : ℕ) (out : List ℕ) (kills : ℕ)
      → ltb max_probe_output_bytes (n + length chunk) ≡ true
      → let p = consume chunk capture (waiting n out kills) in
        (p.settled ≡ true) × (p.answers ≡ err corrupted_media ∷ [])
  unfolding consume
  consume-over chunk capture n out kills h = rw h (refl, refl)

  consume-under :
      (chunk : List ℕ) (capture : Bool) (n : ℕ) (out : List ℕ) (kills : ℕ)
      → ltb max_probe_output_bytes (n + length chunk) ≡ false
      → consume chunk capture (waiting n out kills)
        ≡ waiting (n + length chunk) (if capture then out ++ chunk else out) kills
  unfolding consume
  consume-under chunk true n out kills h = rw h refl
  consume-under chunk false n out kills h = rw h refl

  run-decided :
      (es : List Event) (n : ℕ) (out : List ℕ) (kills : ℕ)
      → (run parse es (waiting n out kills)).answers ≡ decided n out es
  unfolding run step
  run-decided [] n out kills = refl
  run-decided (Event.timeout ∷ es) n out kills =
      run-settled es (step parse Event.timeout (waiting n out kills)) refl
  run-decided (Event.error ∷ es) n out kills =
      run-settled es (step parse Event.error (waiting n out kills)) refl
  run-decided (Event.close code ∷ es) n out kills =
      run-settled es (step parse (Event.close code) (waiting n out kills)) refl
  run-decided (Event.stdout_data chunk ∷ es) n out kills =
      elim (Bool-cases (ltb max_probe_output_bytes (n + length chunk))) [
        | inl over ↦
            let (settles, answer) = consume-over chunk true n out kills over in
            run-settled es (consume chunk true (waiting n out kills)) settles
            ∙ answer
            ∙ rw over refl
        | inr under ↦
            ap (λ p. (run parse es p).answers) (consume-under chunk true n out kills under)
            ∙ run-decided es (n + length chunk) (out ++ chunk) kills
            ∙ rw under refl
      ]
  run-decided (Event.stderr_data chunk ∷ es) n out kills =
      elim (Bool-cases (ltb max_probe_output_bytes (n + length chunk))) [
        | inl over ↦
            let (settles, answer) = consume-over chunk false n out kills over in
            run-settled es (consume chunk false (waiting n out kills)) settles
            ∙ answer
            ∙ rw over refl
        | inr under ↦
            ap (λ p. (run parse es p).answers) (consume-under chunk false n out kills under)
            ∙ run-decided es (n + length chunk) out kills
            ∙ rw under refl
      ]

  -- The process is started, and its listeners see these events: the promise is answered as the first
  -- event that decides says, and by no later one. If the process does not start, it is rejected.
  pub probe-decided :
      (spawned : Bool) (events : List Event)
      → probe parse spawned events
        ≡ (if spawned then decided 0 [] events else err corrupted_media ∷ [])
  unfolding probe
  probe-decided true events = run-decided events 0 [] 0
  probe-decided false events = refl

  -- an event after which nothing is waited for
  abbrev pub ends : Event → Bool
  ends Event.timeout = true
  ends Event.error = true
  ends (Event.close code) = true
  ends e = false

  decided-one :
      (events : List Event) (n : ℕ) (out : List ℕ)
      → any ends events ≡ true
      → length (decided n out events) ≡ 1
  decided-one [] n out h = ground arith
  decided-one (Event.timeout ∷ es) n out h = refl
  decided-one (Event.error ∷ es) n out h = refl
  decided-one (Event.close code ∷ es) n out h = refl
  decided-one (Event.stdout_data chunk ∷ es) n out h =
      let later = decided-one es (n + length chunk) (out ++ chunk) h in ground arith
  decided-one (Event.stderr_data chunk ∷ es) n out h =
      let later = decided-one es (n + length chunk) out h in ground arith

  -- When the events contain the timeout, an error or the end of the process, the promise of a started
  -- process is answered, exactly once.
  pub probe-one :
      (events : List Event) → any ends events ≡ true → length (probe parse true events) ≡ 1
  probe-one events h = ap length (probe-decided true events) ∙ decided-one events 0 [] h

  -- what is kept of stdout is not more than was captured, nor than the limit
  abbrev IsSmall : Probe → Type 0
  IsSmall p = (length p.stdout ≤ p.captured_bytes) × (length p.stdout ≤ max_probe_output_bytes)

  consume-IsSmall :
      (chunk : List ℕ) (capture : Bool) (p : Probe) → IsSmall p → IsSmall (consume chunk capture p)
  unfolding consume
  consume-IsSmall chunk true p h = ground (arith, length-append p.stdout chunk)
  consume-IsSmall chunk false p h = ground arith

  step-IsSmall : (e : Event) (p : Probe) → IsSmall p → IsSmall (step parse e p)
  unfolding step
  step-IsSmall Event.timeout p h = ground arith
  step-IsSmall Event.error p h = ground arith
  step-IsSmall (Event.close code) p h = ground arith
  step-IsSmall (Event.stdout_data chunk) p h = consume-IsSmall chunk true p h
  step-IsSmall (Event.stderr_data chunk) p h = consume-IsSmall chunk false p h

  run-IsSmall : (events : List Event) (p : Probe) → IsSmall p → IsSmall (run parse events p)
  unfolding run
  run-IsSmall [] p h = h
  run-IsSmall (e ∷ es) p h = run-IsSmall es (step parse e p) (step-IsSmall e p h)

  -- However much the process writes, and after its answer too, no more than 1 MiB of its output is
  -- kept.
  pub run-stdout-le :
      (events : List Event) → length (run parse events started).stdout ≤ max_probe_output_bytes
  run-stdout-le events = (run-IsSmall events started (omega arith, omega arith)).1
