-- ===== src/Daemon/Delivery/Once.antt =====
-- Repeated answers to one request through `deliver_pending_response` of
-- crates/maestrod/src/fake_session.rs.
use maestro_app.Prelude.{
  ℕ, ◌≡◌, ◌⊎◌, refl, String, Bool, true, false, Option, none, arith, List, Result, ok, err,
  string_eq, get,
}
use maestro_app.Daemon.Pending.{
  PendingKind, PendingTracker, PendingError, claim_active, unknown_or_used,
}
use maestro_app.Daemon.Pending.Resolve.{resolve_in_flight, mark_delivery_uncertain}
use maestro_app.Daemon.Pending.Settle.{call, completes, Call}
use maestro_app.Daemon.Pending.SingleUse.{call_idle, claimed_idle, refused}
use maestro_app.Daemon.Events.{EventLog, EventEnvelope, EventError, Publication, publish}
use maestro_app.Daemon.Delivery.{
  Delivering, WriteOutcome, written, definite, uncertain, DeliveryError, not_claimed,
  delivery_uncertain, delivered_but_unrecorded, waiting, audit_result, completed_write,
  marked_write, after_claim, if_claimed, encode_json, is_encoded, write_json_bytes,
  deliver_pending_response,
}

-- The answer reached the process, or may have.
abbrev pub IsSent : Result (Unit {0}) DeliveryError → Type 0
IsSent r = (r ≡ ok tt) ⊎ ((r ≡ err delivery_uncertain) ⊎ (r ≡ err delivered_but_unrecorded))

module _ {Value : Type 0} (redact_json : Value → Value)
    (replay_events maximum_input_bytes : ℕ) where
  abbrev IsIdle : String → Delivering Value × Result (Unit {0}) DeliveryError → Type 0
  IsIdle id (s, r) = get s.pending.active id ≡ none

  audit-IsIdle :
      (s : Delivering Value) (id : String)
      (r : EventLog Value × Result (EventEnvelope Value) EventError)
      → get s.pending.active id ≡ none
      → IsIdle id (audit_result redact_json replay_events maximum_input_bytes s r)
  audit-IsIdle s id (log, ok e) h = h
  audit-IsIdle s id (log, err e) h = h

  completed-IsIdle :
      (s : Delivering Value) (id : String) (audit : Publication Value)
      (r : PendingTracker × Result (Unit {0}) PendingError)
      → get r.0.active id ≡ none
      → IsIdle id (completed_write redact_json replay_events maximum_input_bytes s audit r)
  completed-IsIdle s id audit (pending, ok tt) h =
      audit-IsIdle (waiting redact_json replay_events maximum_input_bytes s pending) id
        (publish redact_json replay_events s.log audit) h
  completed-IsIdle s id audit (pending, err e) h = h

  marked-IsIdle :
      (s : Delivering Value) (id : String) (audit : Publication Value) (r : PendingTracker × Bool)
      → get r.0.active id ≡ none
      → IsIdle id (marked_write redact_json replay_events maximum_input_bytes s audit r)
  marked-IsIdle s id audit (pending, true) h =
      audit-IsIdle (waiting redact_json replay_events maximum_input_bytes s pending) id
        (publish redact_json replay_events s.log audit) h
  marked-IsIdle s id audit (pending, false) h = h

  after_claim-IsIdle :
      (s : Delivering Value) (id : String) (kind : PendingKind) (later : ℕ) (encodes : Bool)
      (outcome : WriteOutcome) (notice audit : Publication Value)
      → get s.pending.active id ≡ none
      → IsSent
          (after_claim redact_json replay_events maximum_input_bytes s id kind later encodes outcome
            notice audit).1
      → IsIdle id (
          after_claim redact_json replay_events maximum_input_bytes s id kind later encodes outcome
            notice audit)
  unfolding call
  after_claim-IsIdle s id kind later false outcome notice audit h sent =
      absurd (ground (arith, sent))
  after_claim-IsIdle s id kind later true definite notice audit h sent =
      absurd (ground (arith, sent))
  after_claim-IsIdle s id kind later true written notice audit h sent =
      completed-IsIdle s id audit (resolve_in_flight s.pending id kind)
        (call_idle s.pending id (completes id kind) refl h)
  after_claim-IsIdle s id kind later true uncertain notice audit h sent =
      marked-IsIdle s id audit (mark_delivery_uncertain s.pending id kind)
        (call_idle s.pending id (Call.uncertain id kind) refl h)

  if_claimed-IsIdle :
      (s : Delivering Value) (id : String) (kind : PendingKind) (later : ℕ) (encodes : Bool)
      (outcome : WriteOutcome) (notice audit : Publication Value)
      (r : PendingTracker × Result (Unit {0}) PendingError)
      → (r.1 ≡ ok tt → get r.0.active id ≡ none)
      → IsSent
          (if_claimed redact_json replay_events maximum_input_bytes s id kind later encodes outcome
            notice audit r).1
      → IsIdle id (
          if_claimed redact_json replay_events maximum_input_bytes s id kind later encodes outcome
            notice audit r)
  if_claimed-IsIdle s id kind later encodes outcome notice audit (pending, err e) h sent =
      absurd (ground (arith, sent))
  if_claimed-IsIdle s id kind later encodes outcome notice audit (pending, ok tt) h sent =
      after_claim-IsIdle (record s { pending = pending }) id kind later encodes outcome notice audit
        (h refl) sent

  refused_again :
      (s : Delivering Value) (id : String) (kind : PendingKind) (now later : ℕ)
      (response : Option (List ℕ)) (outcome : WriteOutcome) (notice audit : Publication Value)
      → get s.pending.active id ≡ none
      → (deliver_pending_response redact_json replay_events maximum_input_bytes s id kind now later
          response outcome notice audit).1
        ≡ err (not_claimed unknown_or_used)
  unfolding deliver_pending_response
  refused_again s id kind now later response outcome notice audit h =
      ground (arith, (refused s.pending id kind now h).0)

  -- If an answer was delivered, or may have been, then another answer to the same request is refused
  -- before anything is written, whichever kind it names, whatever its response and whatever the write would have said.
  pub deliver_pending_response_once :
      (s : Delivering Value) (id : String) (kind kind' : PendingKind) (now later now' later' : ℕ)
      (response response' : Option (List ℕ)) (outcome outcome' : WriteOutcome)
      (notice audit notice' audit' : Publication Value)
      → IsSent
          (deliver_pending_response redact_json replay_events maximum_input_bytes s id kind now
            later response outcome notice audit).1
      → (deliver_pending_response redact_json replay_events maximum_input_bytes
          (deliver_pending_response redact_json replay_events maximum_input_bytes s id kind now
            later response outcome notice audit).0
          id
          kind'
          now'
          later'
          response'
          outcome'
          notice'
          audit').1
        ≡ err (not_claimed unknown_or_used)
  deliver_pending_response_once s id kind kind' now later now' later' response response' outcome
        outcome' notice audit notice' audit' sent =
      refused_again _ id kind' now' later' response' outcome' notice' audit' (
        unfold deliver_pending_response in
        if_claimed-IsIdle s id kind later (is_encoded (encode_json maximum_input_bytes response))
          (write_json_bytes s outcome) notice audit (claim_active s.pending id kind now)
          (claimed_idle s.pending id kind now) sent)
