-- ===== src/Inspection/Probe.antt =====
-- `probe` of libs/media/src/validation/av-inspector.service.ts: the events of the ffprobe process, in the
-- order in which they are delivered, and what the listeners make of them.
pub mod Settled
use posts_media.Common.{
  ℕ, ◌+◌, ◌*◌, Bool, true, false, Option, none, some, List, [], ◌∷◌, ◌++◌, length, ltb, nat_beq,
  if◌then◌else◌,
}
use posts_media.Domain.Errors.{DomainError, ErrorCode}
use posts_media.Domain.Result.{Result, ok, err}
use posts_media.Inspection.Documents.{ProbeDocument, corrupted_media}

-- A chunk is its bytes. A process that ends by a signal closes without a code.
pub data Event : Type 0 where
  timeout error : Event
  stdout_data stderr_data : List ℕ → Event
  close : Option ℕ → Event

-- the variables of the executor, how often the process was killed, and the calls of `resolve` and
-- `reject`, the latest first
pub record Probe : Type 0 where
  pub stdout : List ℕ
  pub captured_bytes : ℕ
  pub settled : Bool
  pub kills : ℕ
  pub answers : List (Result ProbeDocument)

abbrev pub max_probe_output_bytes : ℕ
max_probe_output_bytes = 1024 * 1024

abbrev pub validation_timeout : DomainError
validation_timeout = record {
  code = ErrorCode.media_validation_timeout;
  message = "Media validation exceeded the configured time limit.";
  http_status = 422;
  details = none;
}

abbrev pub started : Probe
started = record { stdout = []; captured_bytes = 0; settled = false; kills = 0; answers = [] }

abbrev pub killed : Probe → Probe
killed p = record p { kills = 1 + p.kills }

abbrev pub settle : Result ProbeDocument → Probe → Probe
settle r p = if p.settled then p else record p { settled = true; answers = r ∷ p.answers }

abbrev pub captured : List ℕ → Bool → Probe → Probe
captured chunk capture p = if capture then record p { stdout = p.stdout ++ chunk } else p

unfoldable pub consume : List ℕ → Bool → Probe → Probe
consume chunk capture p =
    let q = record p { captured_bytes = p.captured_bytes + length chunk } in
    if ltb max_probe_output_bytes q.captured_bytes
    then settle (err corrupted_media) (killed q)
    else captured chunk capture q

-- `parse` is `JSON.parse(stdout.toString('utf8'))`, where `none` is that it throws
module _ (parse : List ℕ → Option ProbeDocument) where
  abbrev pub parsed : Option ProbeDocument → Result ProbeDocument
  parsed none = err corrupted_media
  parsed (some document) = ok document

  abbrev pub closed : Option ℕ → List ℕ → Result ProbeDocument
  closed none stdout = err corrupted_media
  closed (some code) stdout = if nat_beq code 0 then parsed (parse stdout) else err corrupted_media

  -- `settle` clears the timer, so that it does not fire afterwards
  unfoldable pub step : Event → Probe → Probe
  step Event.timeout p = if p.settled then p else settle (err validation_timeout) (killed p)
  step Event.error p = settle (err corrupted_media) p
  step (Event.stdout_data chunk) p = consume chunk true p
  step (Event.stderr_data chunk) p = consume chunk false p
  step (Event.close code) p = settle (closed code p.stdout) p

  unfoldable pub run : List Event → Probe → Probe
  run [] p = p
  run (e ∷ es) p = run es (step e p)

  -- `spawned` is that the process was started
  unfoldable pub probe : Bool → List Event → List (Result ProbeDocument)
  probe spawned events = if spawned then (run events started).answers else err corrupted_media ∷ []
