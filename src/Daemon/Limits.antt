-- ===== src/Daemon/Limits.antt =====
-- `FakeSessionLimits` of crates/maestrod/src/fake_session.rs, its durations in milliseconds.
use maestro_app.Prelude.{ℕ, ◌*◌, String, ◌||◌, ◌==◌, if◌then◌else◌, Result, ok, err}

pub record FakeSessionLimits : Type 0 where
  pub maximum_frame_bytes : ℕ
  pub replay_events : ℕ
  pub broadcast_events : ℕ
  pub stderr_bytes : ℕ
  pub pending_requests : ℕ
  pub maximum_input_bytes : ℕ
  pub maximum_sessions : ℕ
  pub maximum_raw_protocol_bytes : ℕ
  pub request_timeout : ℕ
  pub termination_grace : ℕ

unfoldable pub default_limits : FakeSessionLimits
default_limits = record {
  maximum_frame_bytes = 1024 * 1024;
  replay_events = 2048;
  broadcast_events = 256;
  stderr_bytes = 256 * 1024;
  pending_requests = 128;
  maximum_input_bytes = 1024 * 1024;
  maximum_sessions = 256;
  maximum_raw_protocol_bytes = 1024 * 1024;
  request_timeout = 5 * 60 * 1000;
  termination_grace = 2 * 1000;
}

unfoldable pub validate : FakeSessionLimits → Result FakeSessionLimits String
validate l =
    if l.maximum_frame_bytes == 0
      || (l.replay_events == 0
          || (l.broadcast_events == 0
              || (l.pending_requests == 0
                  || (l.maximum_input_bytes == 0
                      || (l.maximum_sessions == 0
                          || (l.maximum_raw_protocol_bytes == 0 || l.request_timeout == 0))))))
    then err "fake-session limits other than stderr capacity must be nonzero"
    else ok l
