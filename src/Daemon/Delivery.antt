-- ===== src/Daemon/Delivery.antt =====
-- `deliver_pending_response` and `expire_request` of crates/maestrod/src/fake_session.rs: an answer
-- goes to the vendor's process, with `encode_json` and `write_json_bytes`. What the printer of the
-- `serde_json` crate gives (`none` for an error), what the write to the process says, and the times at
-- which the clock is read, are arguments; no other task runs between.
pub mod Once
use maestro_app.Prelude.{
  ℕ, String, Bool, true, false, ◌||◌, not, List, [], ◌∷◌, ◌++◌, length, ltb, Option, none, some,
  if◌then◌else◌, Result, ok, err,
}
use maestro_app.Domain.Session.{SessionState}
use maestro_app.Daemon.Pending.{
  PendingKind, PendingTracker, PendingError, claim_active, restore_in_flight,
}
use maestro_app.Daemon.Pending.Resolve.{resolve_in_flight, mark_delivery_uncertain, expire}
use maestro_app.Daemon.Run.{update_waiting_state}
use maestro_app.Daemon.Events.{EventLog, EventEnvelope, Publication, EventError, publish}

-- The session's state and events with the run's requests and flag.
pub record Delivering (Value : Type 0) : Type 0 where
  pub pending : PendingTracker
  pub state : SessionState
  pub log : EventLog Value
  pub finalized : Bool
  pub stop_requested : Bool

-- `StructuredWriteError`, and success.
pub data WriteOutcome : Type 0 where
  written definite uncertain : WriteOutcome

-- The annotations of `annotate_delivery_error`, with whether a retry is allowed.
pub data DeliveryError : Type 0 where
  not_claimed : PendingError → DeliveryError
  not_delivered delivery_uncertain delivered_but_unrecorded : DeliveryError

-- The newline counts for the limit.
unfoldable pub encode_json : ℕ → Option (List ℕ) → Option (List ℕ)
encode_json maximum_input_bytes none = none
encode_json maximum_input_bytes (some bytes) =
    let line = bytes ++ b'\n' ∷ [] in
    if ltb maximum_input_bytes (length line) then none else some line

abbrev pub is_encoded : Option (List ℕ) → Bool
is_encoded none = false
is_encoded (some bytes) = true

-- The flags are read before and after the process is locked; the two reads are one here.
unfoldable pub write_json_bytes : {Value : Type 0} → Delivering Value → WriteOutcome → WriteOutcome
write_json_bytes s outcome = if s.finalized || s.stop_requested then definite else outcome

module _ {Value : Type 0} (redact_json : Value → Value)
    (replay_events maximum_input_bytes : ℕ) where
  abbrev pub waiting : Delivering Value → PendingTracker → Delivering Value
  waiting s pending = record s { pending = pending; state = update_waiting_state s.state pending }

  abbrev published : Delivering Value → Publication Value → Delivering Value
  published s p = record s { log = (publish redact_json replay_events s.log p).0 }

  abbrev expired : Delivering Value → Publication Value → PendingTracker × Bool → Delivering Value
  expired s notice (pending, false) = record s { pending = pending }
  expired s notice (pending, true) = waiting (published s notice) pending

  -- The cancelling write, whose result is ignored, changes no state.
  unfoldable pub expire_request :
      Delivering Value → String → PendingKind → ℕ → Publication Value → Delivering Value
  unfolding expire
  expire_request s request_id kind now notice =
      if s.finalized then s else expired s notice (expire s.pending request_id kind now)

  abbrev pub handed_back :
      Delivering Value
      → String
      → PendingKind
      → ℕ
      → Publication Value
      → PendingTracker × Bool
      → Delivering Value
  handed_back s request_id kind now notice (pending, restored) =
      let s' = record s { pending = pending } in
      if restored then expire_request s' request_id kind now notice else s'

  abbrev pub audit_result :
      Delivering Value
      → EventLog Value × Result (EventEnvelope Value) EventError
      → Delivering Value × Result (Unit {0}) DeliveryError
  audit_result s (log, ok e) = (record s { log = log }, ok tt)
  audit_result s (log, err e) = (record s { log = log }, err delivered_but_unrecorded)

  -- What follows a write that reached, or may have reached, the process.
  abbrev pub settled :
      Delivering Value
      → Publication Value
      → PendingTracker
      → Delivering Value × Result (Unit {0}) DeliveryError
  settled s audit pending =
      let s' = waiting s pending in audit_result s' (publish redact_json replay_events s'.log audit)

  abbrev pub completed_write :
      Delivering Value
      → Publication Value
      → PendingTracker × Result (Unit {0}) PendingError
      → Delivering Value × Result (Unit {0}) DeliveryError
  completed_write s audit (pending, ok tt) = settled s audit pending
  completed_write s audit (pending, err e) =
      (record s { pending = pending }, err delivered_but_unrecorded)

  abbrev pub marked_write :
      Delivering Value
      → Publication Value
      → PendingTracker × Bool
      → Delivering Value × Result (Unit {0}) DeliveryError
  marked_write s audit (pending, true) = settled s audit pending
  marked_write s audit (pending, false) = (waiting s pending, err delivery_uncertain)

  -- After the claim; an encoding that fails counts as a definite failure.
  abbrev pub after_claim :
      Delivering Value
      → String
      → PendingKind
      → ℕ
      → Bool
      → WriteOutcome
      → Publication Value
      → Publication Value
      → Delivering Value × Result (Unit {0}) DeliveryError
  after_claim s request_id kind later false outcome notice audit = (
    handed_back s request_id kind later notice (restore_in_flight s.pending request_id kind),
    err not_delivered,
  )
  after_claim s request_id kind later true definite notice audit = (
    handed_back s request_id kind later notice (restore_in_flight s.pending request_id kind),
    err not_delivered,
  )
  after_claim s request_id kind later true written notice audit =
      completed_write s audit (resolve_in_flight s.pending request_id kind)
  after_claim s request_id kind later true uncertain notice audit =
      marked_write s audit (mark_delivery_uncertain s.pending request_id kind)

  abbrev pub if_claimed :
      Delivering Value
      → String
      → PendingKind
      → ℕ
      → Bool
      → WriteOutcome
      → Publication Value
      → Publication Value
      → PendingTracker × Result (Unit {0}) PendingError
      → Delivering Value × Result (Unit {0}) DeliveryError
  if_claimed s request_id kind later encodes outcome notice audit (pending, err e) =
      (record s { pending = pending }, err (not_claimed e))
  if_claimed s request_id kind later encodes outcome notice audit (pending, ok tt) =
      after_claim (record s { pending = pending }) request_id kind later encodes outcome notice
        audit

  unfoldable pub deliver_pending_response :
      Delivering Value
      → String
      → PendingKind
      → ℕ
      → ℕ
      → Option (List ℕ)
      → WriteOutcome
      → Publication Value
      → Publication Value
      → Delivering Value × Result (Unit {0}) DeliveryError
  unfolding expire_request encode_json write_json_bytes
  deliver_pending_response s request_id kind now later response outcome notice audit =
      if_claimed s request_id kind later (is_encoded (encode_json maximum_input_bytes response))
        (write_json_bytes s outcome) notice audit (claim_active s.pending request_id kind now)
