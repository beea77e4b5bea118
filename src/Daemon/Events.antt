-- ===== src/Daemon/Events.antt =====
-- The event stream of a session: `EventEnvelope` of crates/maestro-domain/src/event.rs, and
-- `EventLog`, `publish` and `subscribe` of crates/maestrod/src/fake_session.rs. A payload is of any
-- type `Value`, and `redact_json` of the redaction crate is a parameter here. The fresh id and the
-- clock's time of an envelope are arguments.
pub mod Retained
pub mod Replay
use maestro_app.Prelude.{
  ℕ, suc, ◌+◌, max, String, Bool, Option, none, some, List, [], ◌∷◌, ◌++◌, ltb, ◌==◌, if◌then◌else◌,
  length, Result, ok, err, u64_max,
}
use maestro_app.Daemon.Sequence.{after}

pub data EventSource : Type 0 where
  cli gui daemon hook pty : EventSource

pub data EventVisibility : Type 0 where
  user debug sensitive : EventVisibility

pub record NormalizedEvent (Value : Type 0) : Type 0 where
  pub kind : String
  pub visibility : EventVisibility
  pub payload : Value
  pub vendor_event_id : Option String
  pub raw_segment_reference : Option String

pub record EventEnvelope (Value : Type 0) : Type 0 where
  pub event_id : ℕ
  pub session_id : ℕ
  pub run_id : Option ℕ
  pub sequence : ℕ
  pub timestamp : ℕ
  pub source : EventSource
  pub event : NormalizedEvent Value

pub record EventLog (Value : Type 0) : Type 0 where
  pub retained : List (EventEnvelope Value)
  pub latest_sequence : ℕ
  pub dropped_through_sequence : ℕ

-- What a call of `publish` passes, with the id and the time of the new envelope.
pub record Publication (Value : Type 0) : Type 0 where
  pub session_id : ℕ
  pub run_id : Option ℕ
  pub source : EventSource
  pub event : NormalizedEvent Value
  pub event_id : ℕ
  pub now : ℕ

pub data EventError : Type 0 where
  sequence_exhausted cursor_newer : EventError

pub record ReplayGap : Type 0 where
  pub requested_after_sequence : ℕ
  pub available_after_sequence : ℕ

-- `FakeSessionSubscription` without the receiver of later envelopes.
pub record Subscription (Value : Type 0) : Type 0 where
  pub replay : List (EventEnvelope Value)
  pub gap : Option ReplayGap

module _ {Value : Type 0} where
  abbrev pub empty_log : EventLog Value
  empty_log = record { retained = []; latest_sequence = 0; dropped_through_sequence = 0 }

  -- The loop of `publish` that drops the oldest envelopes.
  unfoldable pub drop_retained : ℕ → ℕ → List (EventEnvelope Value) → ℕ → EventLog Value
  drop_retained limit latest [] dropped = record {
    retained = [];
    latest_sequence = latest;
    dropped_through_sequence = dropped;
  }
  drop_retained limit latest (e ∷ retained) dropped =
      let rest = drop_retained limit latest retained e.sequence in
      if ltb limit (length (e ∷ retained)) then rest else record {
        retained = e ∷ retained;
        latest_sequence = latest;
        dropped_through_sequence = dropped;
      }

  unfoldable pub subscribe : EventLog Value → ℕ → Result (Subscription Value) EventError
  unfolding after
  subscribe log after_sequence =
      let cursor = max after_sequence log.dropped_through_sequence in
      if ltb log.latest_sequence after_sequence
      then err cursor_newer
      else ok (record {
        replay = after (λ e. e.sequence) cursor log.retained;
        gap =
            if ltb after_sequence log.dropped_through_sequence
            then some (record {
              requested_after_sequence = after_sequence;
              available_after_sequence = log.dropped_through_sequence;
            })
            else none;
      })

module _ {Value : Type 0} (redact_json : Value → Value) (replay_events : ℕ) where
  abbrev pub envelope_of : Publication Value → ℕ → EventEnvelope Value
  envelope_of p sequence = record {
    event_id = p.event_id;
    session_id = p.session_id;
    run_id = p.run_id;
    sequence = sequence;
    timestamp = p.now;
    source = p.source;
    event = record p.event { payload = redact_json p.event.payload };
  }

  -- The envelope returned is the one sent to the live receivers.
  unfoldable pub publish :
      EventLog Value → Publication Value → EventLog Value × Result (EventEnvelope Value) EventError
  unfolding drop_retained
  publish log p =
      let envelope = envelope_of p (suc log.latest_sequence) in
      if log.latest_sequence == u64_max then (log, err sequence_exhausted) else (
        drop_retained replay_events (suc log.latest_sequence) (log.retained ++ envelope ∷ [])
            log.dropped_through_sequence,
        ok envelope,
      )
