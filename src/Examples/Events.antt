-- ===== src/Examples/Events.antt =====
-- `publish` and `subscribe` of crates/maestrod/src/fake_session.rs at a concrete log.
use maestro_app.Prelude.{ℕ, ◌≡◌, ◌≤◌, suc, refl, [], ◌∷◌, ◌++◌, arith, none, some, ok, max}
use maestro_app.Daemon.Events.{
  EventLog, Publication, Subscription, EventVisibility, EventSource, empty_log, publish,
  drop_retained, subscribe,
}
use maestro_app.Daemon.Events.Retained.{EventRun, Inv, empty_log-Inv, publish-Inv}
use maestro_app.Daemon.Events.Replay.{publishes, missed, subscribe-publishes}

abbrev publication : ℕ → Publication ℕ
publication payload = record {
  session_id = 1;
  run_id = some 2;
  source = EventSource.cli;
  event = record {
    kind = "message";
    visibility = EventVisibility.user;
    payload = payload;
    vendor_event_id = none;
    raw_segment_reference = none;
  };
  event_id = payload;
  now = 0;
}

-- A redaction that adds one, and a log of at most one event.
abbrev log : EventLog ℕ
log = (publishes suc 1 empty_log (publication 5 ∷ publication 6 ∷ [])).0

one_is_dropped : log.dropped_through_sequence ≡ 1
unfolding publish drop_retained
one_is_dropped = refl

abbrev once : EventLog ℕ
once = (publish suc 1 empty_log (publication 5)).0

once-Inv : Inv suc 1 once
once-Inv = publish-Inv suc 1 empty_log (publication 5) (empty_log-Inv suc 1)

publish-Inv_example : Inv suc 1 (publish suc 1 once (publication 6)).0
publish-Inv_example = publish-Inv suc 1 once (publication 6) once-Inv

known : 0 ≤ once.latest_sequence
known = omega arith

subscribe-publishes_example :
    (s : Subscription ℕ) × (subscribe once 0 ≡ ok s)
    × EventRun
        (max 0 once.dropped_through_sequence)
        (s.replay ++ (publishes suc 1 once (publication 6 ∷ [])).1)
        (publishes suc 1 once (publication 6 ∷ [])).0.latest_sequence
    × (s.gap ≡ missed 0 once.dropped_through_sequence)
subscribe-publishes_example = subscribe-publishes suc 1 once 0 (publication 6 ∷ []) once-Inv known
