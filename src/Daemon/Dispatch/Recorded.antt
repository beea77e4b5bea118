-- ===== src/Daemon/Dispatch/Recorded.antt =====
-- What `handle_frame` of crates/maestrod/src/fake_session.rs records of a frame, and what a batch of
-- frames leaves of the run.
use maestro_app.Prelude.{
  ℕ, ◌≡◌, refl, ap, String, true, List, [], ◌∷◌, Option, none, some, Result, ok, err, string_eq,
  get, arith, inl, inr, Bool-cases,
}
use maestro_app.Domain.Session.{starting, state_eq}
use maestro_app.Daemon.Bindings.{BindingWriter}
use maestro_app.Daemon.Events.{EventLog, EventEnvelope, EventError, publish}
use maestro_app.Daemon.Dispatch.{
  RunIdentity, Arrival, Handling, Handled, recorded, mark_started, and_then, field, publication,
  publish_frame, version_fits, is_supported_event_kind, handle_typed, handle_object, handle_frame,
  handle_frames,
}
use maestro_app.Daemon.Dispatch.Held.{IsHeld, Keeps, IsArm, handle_kind-IsArm}

module _ {Value : Type 0} (redact_json : Value → Value)
    (as_object : Value → Option (List (String × Value))) (as_str : Value → Option String)
    (as_u64 : Value → Option ℕ) (replay_events request_timeout : ℕ) (run : RunIdentity) where
  -- An object of a kind and a version that the supervisor knows.
  pub record IsKnown (value : Value) (object : List (String × Value)) (kind : String) : Type 0 where
    pub is_object : as_object value ≡ some object
    pub typed :
        field redact_json as_object as_str as_u64 replay_events request_timeout run object "type"
        ≡ some kind
    pub version :
        version_fits redact_json as_object as_str as_u64 replay_events request_timeout run
          (get object "protocol_version")
        ≡ true
    pub supported : is_supported_event_kind kind ≡ true

  abbrev pub published_as :
      Handling Value
      → String
      → List (String × Value)
      → Value
      → Arrival
      → EventLog Value × Result (EventEnvelope Value) EventError
  published_as s kind object value arrival = publish redact_json replay_events s.log (
      publication redact_json as_object as_str as_u64 replay_events request_timeout run kind object
        value arrival)

  -- One event after a success, none after a failure.
  abbrev pub IsPublished :
      Handling Value → String → List (String × Value) → Value → Arrival → Handled Value → Type 0
  IsPublished s kind object value arrival (s', ok tt) =
      (e : EventEnvelope Value) × (published_as s kind object value arrival ≡ (s'.log, ok e))
  IsPublished s kind object value arrival (s', err f) = s'.log ≡ s.log

  abbrev pub IsRecorded : Handling Value → Value → Arrival → Handled Value → Type 0
  IsRecorded s value arrival (s', ok tt) =
      (kind : String) × (object : List (String × Value)) × IsKnown value object kind
      × IsPublished s kind object value arrival (s', ok tt)
  IsRecorded s value arrival (s', err f) = s'.log ≡ s.log

  mark_started-log : (s : Handling Value) (kind : String) → (mark_started s kind).log ≡ s.log
  unfolding mark_started
  mark_started-log s kind = ground arith

  mark_started-Keeps : (s : Handling Value) (kind : String) → Keeps run s (mark_started s kind)
  unfolding mark_started
  mark_started-Keeps s kind = elim (Bool-cases (state_eq s.session.state starting)) [
    | inl at_start ↦
        rw at_start (
          (λ h. record { requests = h.requests; shown = h.shown; owned = h.owned }),
          λ b owner k. k,
        )
    | inr later ↦ rw later ((λ h. h), λ b owner k. k)
  ]

  publish_err :
      (s : Handling Value) (kind : String) (object : List (String × Value)) (value : Value)
      (arrival : Arrival) (e : EventError)
      → (published_as s kind object value arrival).1 ≡ err e
      → (published_as s kind object value arrival).0 ≡ s.log
  unfolding publish
  publish_err s kind object value arrival e h = ground (arith, h)

  recorded-IsPublished :
      (s : Handling Value) (kind : String) (object : List (String × Value)) (value : Value)
      (arrival : Arrival) (r : EventLog Value × Result (EventEnvelope Value) EventError)
      → published_as s kind object value arrival ≡ r
      → IsPublished s kind object value arrival (recorded s kind r)
  recorded-IsPublished s kind object value arrival (log, err e) h =
      cc (h, publish_err s kind object value arrival e (ap (λ r. r.1) h))
  recorded-IsPublished s kind object value arrival (log, ok e) h =
      (e, rw (mark_started-log (record s { log = log }) kind) h)

  recorded-Keeps :
      (s : Handling Value) (kind : String)
      (r : EventLog Value × Result (EventEnvelope Value) EventError)
      → Keeps run s (recorded s kind r).0
  recorded-Keeps s kind (log, err e) =
      ((λ h. record { requests = h.requests; shown = h.shown; owned = h.owned }), λ b owner k. k)
  recorded-Keeps s kind (log, ok e) =
      let (held, others) = mark_started-Keeps (record s { log = log }) kind in
      ((λ h. held (record { requests = h.requests; shown = h.shown; owned = h.owned })), others)

  published-IsRecorded :
      (s s' : Handling Value) (kind : String) (object : List (String × Value)) (value : Value)
      (arrival : Arrival) (r : Handled Value)
      → s'.log ≡ s.log
      → IsKnown value object kind
      → IsPublished s' kind object value arrival r
      → IsRecorded s value arrival r
  published-IsRecorded s s' kind object value arrival (s2, ok tt) e known (event, p) =
      (kind, object, known, (event, rw e at p))
  published-IsRecorded s s' kind object value arrival (s2, err f) e known p = cc (p, e)

  published_arm :
      (s : Handling Value) (kind : String) (object : List (String × Value)) (value : Value)
      (arrival : Arrival) (r : Handled Value)
      → IsArm run s r
      → IsKnown value object kind
      → IsRecorded s value arrival (
          and_then r (λ s'.
            publish_frame redact_json as_object as_str as_u64 replay_events request_timeout run s'
              kind object value arrival))
  unfolding publish_frame
  published_arm s kind object value arrival (s', err f) h known = h.0
  published_arm s kind object value arrival (s', ok tt) h known =
      published-IsRecorded s s' kind object value arrival
        (recorded s' kind (published_as s' kind object value arrival)) h.0 known
        (recorded-IsPublished s' kind object value arrival _ refl)

  published_arm-Keeps :
      (s : Handling Value) (kind : String) (object : List (String × Value)) (value : Value)
      (arrival : Arrival) (r : Handled Value)
      → Keeps run s r.0
      → Keeps run s
          (and_then r (λ s'.
            publish_frame redact_json as_object as_str as_u64 replay_events request_timeout run s'
              kind object value arrival)).0
  unfolding publish_frame
  published_arm-Keeps s kind object value arrival (s', err f) h = h
  published_arm-Keeps s kind object value arrival (s', ok tt) h =
      let (held, others) = recorded-Keeps s' kind (published_as s' kind object value arrival) in
      ((λ v. held (h.0 v)), λ b owner k. others b owner (h.1 b owner k))

  handle_typed-IsRecorded :
      (s : Handling Value) (value : Value) (object : List (String × Value)) (arrival : Arrival)
      (kind : Option String)
      → as_object value ≡ some object
      → field redact_json as_object as_str as_u64 replay_events request_timeout run object "type"
        ≡ kind
      → IsRecorded s value arrival (
          handle_typed redact_json as_object as_str as_u64 replay_events request_timeout run s value
            object arrival kind)
        × Keeps run s
            (handle_typed redact_json as_object as_str as_u64 replay_events request_timeout run s
              value object arrival kind).0
  handle_typed-IsRecorded s value object arrival none is_object typed =
      (refl, ((λ h. h), λ b owner k. k))
  handle_typed-IsRecorded s value object arrival (some kind) is_object typed =
      let fits =
        version_fits redact_json as_object as_str as_u64 replay_events request_timeout run
          (get object "protocol_version") in
      let arm =
        handle_kind-IsArm run redact_json as_object as_str as_u64 replay_events request_timeout s
          kind object arrival.now in
      elim (Bool-cases fits) [
        | inr other ↦ rw other (refl, ((λ h. h), λ b owner k. k))
        | inl version ↦ elim (Bool-cases (is_supported_event_kind kind)) [
          | inr unknown ↦ rw (version, unknown) (refl, ((λ h. h), λ b owner k. k))
          | inl supported ↦
              rw (version, supported)
                (
                  published_arm s kind object value arrival _ arm (record {
                    is_object = is_object;
                    typed = typed;
                    version = version;
                    supported = supported;
                  }),
                  published_arm-Keeps s kind object value arrival _ arm.1,
                )
        ]
      ]

  handle_object-IsRecorded :
      (s : Handling Value) (value : Value) (arrival : Arrival)
      (object : Option (List (String × Value)))
      → as_object value ≡ object
      → IsRecorded s value arrival (
          handle_object redact_json as_object as_str as_u64 replay_events request_timeout run s
            value arrival object)
        × Keeps run s
            (handle_object redact_json as_object as_str as_u64 replay_events request_timeout run s
              value arrival object).0
  handle_object-IsRecorded s value arrival none e = (refl, ((λ h. h), λ b owner k. k))
  handle_object-IsRecorded s value arrival (some object) e =
      handle_typed-IsRecorded s value object arrival _ e refl

  -- A frame is accepted only if it is an object of a supported kind that names no other version than
  -- the supported one, and then the session's events are what publishing that one event makes of
  -- them; a frame that is refused, at whatever step, records no event.
  pub handle_frame-IsRecorded :
      (s : Handling Value) (value : Value) (arrival : Arrival)
      → IsRecorded s value arrival (
          handle_frame redact_json as_object as_str as_u64 replay_events request_timeout run s value
            arrival)
  unfolding handle_frame
  handle_frame-IsRecorded s value arrival =
      (handle_object-IsRecorded s value arrival (as_object value) refl).0

  handle_frame-Keeps :
      (s : Handling Value) (value : Value) (arrival : Arrival)
      → Keeps run s
          (handle_frame redact_json as_object as_str as_u64 replay_events request_timeout run s
            value arrival).0
  unfolding handle_frame
  handle_frame-Keeps s value arrival =
      (handle_object-IsRecorded s value arrival (as_object value) refl).1

  then-Keeps :
      (s : Handling Value) (r : Handled Value) (rest : Handling Value → Handled Value)
      → Keeps run s r.0
      → ((s' : Handling Value) → Keeps run s' (rest s').0)
      → Keeps run s (and_then r rest).0
  then-Keeps s (s', err f) rest h k = h
  then-Keeps s (s', ok tt) rest h k =
      ((λ v. (k s').0 (h.0 v)), λ b owner e. (k s').1 b owner (h.1 b owner e))

  handle_frames-Keeps :
      (frames : List (Value × Arrival)) (s : Handling Value)
      → Keeps run s
          (handle_frames redact_json as_object as_str as_u64 replay_events request_timeout run s
            frames).0
  unfolding handle_frames
  handle_frames-Keeps [] s = ((λ h. h), λ b owner k. k)
  handle_frames-Keeps ((value, arrival) ∷ frames) s =
      then-Keeps s _ _ (handle_frame-Keeps s value arrival) (handle_frames-Keeps frames)

  -- Whatever a run writes to its stdout, up to the first frame that fails and with it: the requests
  -- stay well formed, the session shows the binding that the run leases, the run is the writer of that
  -- binding, and no writer, of whichever run, loses a binding.
  pub handle_frames-IsHeld :
      (frames : List (Value × Arrival)) (s : Handling Value) (binding : String)
      (owner : BindingWriter)
      → IsHeld run s
      → get s.binding_writers binding ≡ some owner
      → IsHeld run
          (handle_frames redact_json as_object as_str as_u64 replay_events request_timeout run s
            frames).0
        × (get
              (handle_frames redact_json as_object as_str as_u64 replay_events request_timeout run s
                frames).0.binding_writers
              binding
            ≡ some owner)
  handle_frames-IsHeld frames s binding owner held e =
      let (holds, others) = handle_frames-Keeps frames s in (holds held, others binding owner e)
