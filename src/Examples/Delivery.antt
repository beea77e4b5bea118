-- ===== src/Examples/Delivery.antt =====
-- `deliver_pending_response` of crates/maestrod/src/fake_session.rs at a concrete request.
use maestro_app.Prelude.{
  ℕ, ◌≡◌, refl, suc, false, Option, none, some, List, [], ◌∷◌, inl, ok, err, string_eq, get, insert,
  remove, contains, with_key,
}
use maestro_app.Domain.Session.{awaiting_permission, running, transition_to, can_transition_to}
use maestro_app.Daemon.Pending.{
  permission, user_input, unknown_or_used, claim_active, restore_in_flight,
}
use maestro_app.Daemon.Pending.Resolve.{
  resolve_in_flight, remember_resolved, forget_oldest, waiting_state, expire,
}
use maestro_app.Daemon.Run.{set_state, bridged, update_waiting_state}
use maestro_app.Daemon.Events.{
  Publication, EventSource, EventVisibility, empty_log, publish, drop_retained,
}
use maestro_app.Daemon.Delivery.{
  Delivering, written, definite, not_claimed, deliver_pending_response, expire_request, encode_json,
  write_json_bytes,
}
use maestro_app.Daemon.Delivery.Once.{deliver_pending_response_once}

abbrev audit : Publication ℕ
audit = record {
  session_id = 1;
  run_id = some 2;
  source = EventSource.gui;
  event = record {
    kind = "permission_decision";
    visibility = EventVisibility.user;
    payload = 0;
    vendor_event_id = none;
    raw_segment_reference = none;
  };
  event_id = 4;
  now = 0;
}

abbrev response : Option (List ℕ)
response = some (123 ∷ 125 ∷ [])

abbrev asking : Delivering ℕ
asking = record {
  pending = record {
    active = ("one", record { kind = permission; deadline = 9 }) ∷ [];
    in_flight = [];
    resolved_order = [];
    resolved = [];
    delivery_uncertain = [];
    capacity = 4;
  };
  state = awaiting_permission;
  log = empty_log;
  finalized = false;
  stop_requested = false;
}

delivered :
    (deliver_pending_response suc 8 64 asking "one" permission 3 4 response written audit audit).1
    ≡ ok tt
unfolding deliver_pending_response encode_json write_json_bytes claim_active resolve_in_flight
    remember_resolved forget_oldest publish drop_retained get insert remove contains with_key
delivered = refl

runs_again :
    (deliver_pending_response suc 8 64 asking "one" permission 3 4 response written audit
      audit).0.state
    ≡ running
unfolding deliver_pending_response encode_json write_json_bytes claim_active resolve_in_flight
    remember_resolved forget_oldest publish drop_retained get insert remove contains with_key
    waiting_state update_waiting_state set_state bridged transition_to can_transition_to
runs_again = refl

-- A write that certainly failed leaves the request open.
open_after_failure :
    get
      (deliver_pending_response suc 8 64 asking "one" permission 3 4 response definite audit
        audit).0.pending.active
      "one"
    ≡ some (record { kind = permission; deadline = 9 })
unfolding deliver_pending_response encode_json write_json_bytes claim_active restore_in_flight
    expire_request expire get insert remove contains with_key
open_after_failure = refl

deliver_pending_response_once_example :
    (deliver_pending_response suc 8 64
      (deliver_pending_response suc 8 64 asking "one" permission 3 4 response written audit audit).0
      "one"
      user_input
      5
      6
      response
      definite
      audit
      audit).1
    ≡ err (not_claimed unknown_or_used)
deliver_pending_response_once_example =
    deliver_pending_response_once suc 8 64 asking "one" permission user_input 3 4 5 6 response
      response written definite audit audit audit audit (inl delivered)
