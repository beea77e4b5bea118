-- ===== src/Daemon/Dispatch/Held.antt =====
-- What the frames of a run leave as it was: the arms of `handle_frame` in
-- crates/maestrod/src/fake_session.rs, one by one.
use maestro_app.Prelude.{
  ℕ, ◌≡◌, refl, String, Bool, true, false, List, Option, none, some, if◌then◌else◌, Result, ok, err,
  str_eq, string_eq, get, arith, inl, inr, Bool-cases, eq_iff,
}
use maestro_app.Domain.Session.{SessionState}
use maestro_app.Daemon.Bindings.{
  BindingError, BindingWriter, Writers, validate_identifier, claim_binding,
}
use maestro_app.Daemon.Bindings.Writers.{claim_binding_iff, claim_owner}
use maestro_app.Daemon.Pending.{
  PendingKind, permission, user_input, gui_action, PendingTracker, PendingError, register,
}
use maestro_app.Daemon.Pending.Invariant.{Inv, register-Inv}
use maestro_app.Daemon.Pending.Settle.{confirm_resolved-Inv, resolve_active-Inv}
use maestro_app.Daemon.Run.{set_state, update_waiting_state}
use maestro_app.Daemon.Frames.{ProtocolFailure, failure}
use maestro_app.Daemon.Dispatch.{
  RunIdentity, Handling, Handled, RegisterError, registered, register_checked, register_pending,
  claimed, lease, identified, handle_binding, asked, handle_request, answered, handle_result,
  acknowledged, handle_ack, with_string, handle_kind, required_string, field,
}

abbrev pub writer : RunIdentity → BindingWriter
writer run = record { token = run.lease_token; session_id = run.session_id }

-- The requests are well formed, the session shows the binding that the run leases, and the run is
-- that binding's writer.
pub record IsHeld {Value : Type 0} (run : RunIdentity) (s : Handling Value) : Type 0 where
  pub requests : Inv s.pending
  pub shown : s.session.binding ≡ s.leased_binding
  pub owned : (b : String) → s.leased_binding ≡ some b → get s.binding_writers b ≡ some (writer run)

-- Nothing that holds of the run is lost, and every writer keeps its binding.
abbrev pub Keeps : {Value : Type 0} → RunIdentity → Handling Value → Handling Value → Type 0
Keeps run s s' =
    (IsHeld run s → IsHeld run s')
    × ((b : String) (owner : BindingWriter)
        → get s.binding_writers b ≡ some owner
        → get s'.binding_writers b ≡ some owner)

-- An arm records no event either.
abbrev pub IsArm : {Value : Type 0} → RunIdentity → Handling Value → Handled Value → Type 0
IsArm run s (s', r) = (s'.log ≡ s.log) × Keeps run s s'

registered-Inv :
    (r : PendingTracker × Result (Unit {0}) PendingError) → Inv r.0 → Inv (registered r).0
registered-Inv (pending, err e) v = v
registered-Inv (pending, ok tt) v = v

register_checked-Inv :
    (t : PendingTracker) (id : String) (kind : PendingKind) (deadline : ℕ)
    (r : Result (Unit {0}) BindingError)
    → Inv t
    → Inv (register_checked t id kind deadline r).0
register_checked-Inv t id kind deadline (err e) v = v
register_checked-Inv t id kind deadline (ok tt) v =
    registered-Inv (register t id kind deadline) (register-Inv t id kind deadline v)

module _ {Value : Type 0} (run : RunIdentity) where
  pub nothing-IsArm :
      (s : Handling Value) (r : Result (Unit {0}) ProtocolFailure) → IsArm run s (s, r)
  nothing-IsArm s r = (refl, ((λ h. h), λ b owner e. e))

  -- Only the requests and the state of the session change.
  pending-IsArm :
      (s : Handling Value) (state : SessionState) (pending : PendingTracker)
      (r : Result (Unit {0}) ProtocolFailure)
      → (Inv s.pending → Inv pending)
      → IsArm run s
          (record s { pending = pending; session = record s.session { state = state } }, r)
  pending-IsArm s state pending r v = (
    refl,
    ((λ h. record { requests = v h.requests; shown = h.shown; owned = h.owned }), λ b owner k. k),
  )

  claimed-IsArm :
      (s : Handling Value) (binding : String) (c : Writers × Result (Unit {0}) BindingError)
      → s.leased_binding ≡ none
      → (c.1 ≡ ok tt → get c.0 binding ≡ some (writer run))
      → ((b : String) (owner : BindingWriter)
          → get s.binding_writers b ≡ some owner
          → get c.0 b ≡ some owner)
      → IsArm run s (claimed s binding c)
  claimed-IsArm s binding (writers, err e) free owns keeps = (
    refl,
    (
      (λ h. record {
        requests = h.requests;
        shown = h.shown;
        owned = λ b leased. keeps b (writer run) (h.owned b leased);
      }),
      keeps,
    ),
  )
  claimed-IsArm s binding (writers, ok tt) free owns keeps = (
    refl,
    (
      (λ h. record {
        requests = h.requests;
        shown = refl;
        owned = λ b leased. ground (arith, leased, owns refl);
      }),
      keeps,
    ),
  )

  lease-IsArm :
      (s : Handling Value) (binding : String) (leased : Option String)
      → s.leased_binding ≡ leased
      → IsArm run s (lease s run binding leased)
  lease-IsArm s binding none e =
      claimed-IsArm s binding
        (claim_binding s.binding_writers binding run.lease_token run.session_id) e
        ((claim_binding_iff s.binding_writers binding run.lease_token run.session_id).1)
        (λ b owner h.
          claim_owner s.binding_writers b owner binding run.lease_token run.session_id h)
  lease-IsArm s binding (some existing) e = elim (Bool-cases (str_eq existing binding)) [
    | inr differs ↦ rw differs (nothing-IsArm s (err (failure "binding_mismatch")))
    | inl same ↦ rw same (
      refl,
      (
        (λ h. record {
          requests = h.requests;
          shown = cc (e, (eq_iff existing binding).0 same);
          owned = h.owned;
        }),
        λ b owner k. k,
      ),
    )
  ]

  identified-IsArm :
      (s : Handling Value) (binding : String) (r : Result (Unit {0}) BindingError)
      → IsArm run s (identified s run binding r)
  identified-IsArm s binding (err e) = nothing-IsArm s (err (failure "invalid_binding"))
  identified-IsArm s binding (ok tt) = lease-IsArm s binding s.leased_binding refl

  handle_binding-IsArm :
      (s : Handling Value) (binding : String) → IsArm run s (handle_binding s run binding)
  unfolding handle_binding
  handle_binding-IsArm s binding = identified-IsArm s binding (validate_identifier binding)

  asked-IsArm :
      (s : Handling Value) (category : String) (target : SessionState)
      (r : PendingTracker × Result (Unit {0}) RegisterError)
      → (Inv s.pending → Inv r.0)
      → IsArm run s (asked s category target r)
  asked-IsArm s category target (pending, err e) v =
      pending-IsArm s s.session.state pending (err (failure category)) v
  asked-IsArm s category target (pending, ok tt) v =
      pending-IsArm s (set_state s.session.state target) pending (ok tt) v

  handle_request-IsArm :
      (s : Handling Value) (kind : PendingKind) (category : String) (target : SessionState)
      (timeout now : ℕ) (id : String)
      → IsArm run s (handle_request s kind category target timeout now id)
  unfolding handle_request register_pending
  handle_request-IsArm s kind category target timeout now id =
      asked-IsArm s category target _ (λ v. register_checked-Inv s.pending id kind _ _ v)

  answered-IsArm :
      (s : Handling Value) (category : String) (r : PendingTracker × Bool)
      → (Inv s.pending → Inv r.0)
      → IsArm run s (answered s category r)
  answered-IsArm s category (pending, false) v =
      pending-IsArm s s.session.state pending (err (failure category)) v
  answered-IsArm s category (pending, true) v =
      pending-IsArm s (update_waiting_state s.session.state pending) pending (ok tt) v

  handle_result-IsArm :
      (s : Handling Value) (kind : PendingKind) (category id : String)
      → IsArm run s (handle_result s kind category id)
  unfolding handle_result
  handle_result-IsArm s kind category id =
      answered-IsArm s category _ (confirm_resolved-Inv s.pending id kind)

  acknowledged-IsArm :
      (s : Handling Value) (r : PendingTracker × Result (Unit {0}) PendingError)
      → (Inv s.pending → Inv r.0)
      → IsArm run s (acknowledged s r)
  acknowledged-IsArm s (pending, err e) v =
      pending-IsArm s s.session.state pending (err (failure "uncorrelated_action_ack")) v
  acknowledged-IsArm s (pending, ok tt) v = pending-IsArm s s.session.state pending (ok tt) v

  handle_ack-IsArm :
      (s : Handling Value) (now : ℕ) (id : Option String) → IsArm run s (handle_ack s now id)
  unfolding handle_ack
  handle_ack-IsArm s now none = nothing-IsArm s (err (failure "uncorrelated_action_ack"))
  handle_ack-IsArm s now (some id) =
      acknowledged-IsArm s _ (resolve_active-Inv s.pending id gui_action now)

  with_string-IsArm :
      (s : Handling Value) (r : Result String ProtocolFailure) (rest : String → Handled Value)
      → ((value : String) → IsArm run s (rest value))
      → IsArm run s (with_string s r rest)
  with_string-IsArm s (err f) rest h = nothing-IsArm s (err f)
  with_string-IsArm s (ok value) rest h = h value

  if-IsArm :
      (s : Handling Value) (c : Bool) (r r' : Handled Value)
      → IsArm run s r
      → IsArm run s r'
      → IsArm run s (if c then r else r')
  if-IsArm s true r r' h h' = h
  if-IsArm s false r r' h h' = h'

  pub handle_kind-IsArm :
      (redact_json : Value → Value) (as_object : Value → Option (List (String × Value)))
      (as_str : Value → Option String) (as_u64 : Value → Option ℕ) (replay_events timeout : ℕ)
      (s : Handling Value) (kind : String) (object : List (String × Value)) (now : ℕ)
      → IsArm run s (
          handle_kind redact_json as_object as_str as_u64 replay_events timeout run s kind object
            now)
  unfolding handle_kind
  handle_kind-IsArm redact_json as_object as_str as_u64 replay_events timeout s kind object now =
      let id =
        required_string
          (field redact_json as_object as_str as_u64 replay_events timeout run object "request_id")
          "request_id" in
      if-IsArm s _ _ _ (with_string-IsArm s _ _ (handle_binding-IsArm s)) (
        if-IsArm s _ _ _
          (with_string-IsArm s id _ (handle_request-IsArm s permission _ _ timeout now))
          (if-IsArm s _ _ _
            (with_string-IsArm s id _ (handle_request-IsArm s user_input _ _ timeout now))
            (if-IsArm s _ _ _ (with_string-IsArm s id _ (handle_result-IsArm s permission _)) (
              if-IsArm s _ _ _ (with_string-IsArm s id _ (handle_result-IsArm s user_input _)) (
                if-IsArm s _ _ _ (handle_ack-IsArm s now _) (
                  if-IsArm s _ _ _ (nothing-IsArm s (ok tt))
                    (nothing-IsArm s (err (failure "unknown_event_type")))))))))
