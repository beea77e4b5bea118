-- ===== src/Daemon/Pending/Resolve.antt =====
-- The methods of `PendingTracker` (crates/maestrod/src/fake_session.rs) that settle a request, and
-- the bounded memory of settled ones.
use maestro_app.Prelude.{
  ℕ, String, Bool, true, false, ◌&&◌, Option, none, some, List, [], ◌∷◌, ◌++◌, ltb, leb,
  if◌then◌else◌, length, any, Result, ok, err, string_eq, get, remove, contains, with_key, without,
}
use maestro_app.Domain.Session.{SessionState, awaiting_permission, awaiting_user_input}
use maestro_app.Daemon.Pending.{
  PendingKind, permission, user_input, kind_eq, Key, key_eq, PendingRequest, PendingTracker,
  PendingError, unknown_or_used, expired_or_wrong_type, not_in_flight, has_kind, usable,
}

-- The loop that forgets the oldest keys while there are more than `capacity`.
pub record Memory : Type 0 where
  pub order : List Key
  pub resolved : List Key
  pub uncertain : List Key

unfoldable pub forget_oldest : ℕ → List Key → List Key → List Key → Memory
forget_oldest capacity [] resolved uncertain = record {
  order = [];
  resolved = resolved;
  uncertain = uncertain;
}
forget_oldest capacity (key ∷ order) resolved uncertain =
    let rest = forget_oldest capacity order (without key resolved) (without key uncertain) in
    if ltb capacity (length (key ∷ order))
    then rest
    else record { order = key ∷ order; resolved = resolved; uncertain = uncertain }

abbrev pub remember : PendingTracker → Memory → PendingTracker
remember t m = record t {
  resolved_order = m.order;
  resolved = m.resolved;
  delivery_uncertain = m.uncertain;
}

unfoldable pub remember_resolved : PendingTracker → Key → PendingTracker
unfolding forget_oldest
remember_resolved t key =
    let order =
      if contains t.resolved key then t.resolved_order else t.resolved_order ++ key ∷ [] in
    remember t (forget_oldest t.capacity order (with_key key t.resolved) t.delivery_uncertain)

unfoldable pub remember_delivery_uncertain : PendingTracker → Key → PendingTracker
unfolding forget_oldest
remember_delivery_uncertain t key =
    let order =
      if contains t.delivery_uncertain key
      then t.resolved_order
      else t.resolved_order ++ key ∷ [] in
    remember t (forget_oldest t.capacity order t.resolved (with_key key t.delivery_uncertain))

unfoldable pub resolve_in_flight :
    PendingTracker → String → PendingKind → PendingTracker × Result (Unit {0}) PendingError
resolve_in_flight t request_id kind =
    let key : Key = (request_id, kind) in
    if contains t.resolved key
    then (t, ok tt)
    else if has_kind (get t.in_flight request_id) kind
    then (remember_resolved (record t { in_flight = remove request_id t.in_flight }) key, ok tt)
    else (t, err not_in_flight)

unfoldable pub mark_delivery_uncertain :
    PendingTracker → String → PendingKind → PendingTracker × Bool
mark_delivery_uncertain t request_id kind =
    let key : Key = (request_id, kind) in
    if contains t.resolved key
    then (t, true)
    else if has_kind (get t.in_flight request_id) kind
    then (
      remember_delivery_uncertain (record t { in_flight = remove request_id t.in_flight }) key,
      false,
    )
    else (t, false)

abbrev resolve_found :
    PendingTracker
    → String
    → PendingKind
    → ℕ
    → Option PendingRequest
    → PendingTracker × Result (Unit {0}) PendingError
resolve_found t request_id kind now none = (t, err unknown_or_used)
resolve_found t request_id kind now (some pending) =
    if usable pending kind now
    then (
      remember_resolved (record t { active = remove request_id t.active }) (request_id, kind),
      ok tt,
    )
    else (t, err expired_or_wrong_type)

unfoldable pub resolve_active :
    PendingTracker → String → PendingKind → ℕ → PendingTracker × Result (Unit {0}) PendingError
resolve_active t request_id kind now = resolve_found t request_id kind now (get t.active request_id)

unfoldable pub force_resolve : PendingTracker → String → PendingKind → PendingTracker
force_resolve t request_id kind =
    if has_kind (get t.active request_id) kind
    then remember_resolved (record t { active = remove request_id t.active }) (request_id, kind)
    else t

abbrev is_due : Option PendingRequest → PendingKind → ℕ → Bool
is_due none kind now = false
is_due (some pending) kind now = kind_eq pending.kind kind && leb pending.deadline now

unfoldable pub expire : PendingTracker → String → PendingKind → ℕ → PendingTracker × Bool
expire t request_id kind now =
    if is_due (get t.active request_id) kind now
    then (
      remember_resolved (record t { active = remove request_id t.active }) (request_id, kind),
      true,
    )
    else (t, false)

unfoldable pub confirm_resolved : PendingTracker → String → PendingKind → PendingTracker × Bool
confirm_resolved t request_id kind =
    let key : Key = (request_id, kind) in
    if contains t.resolved key
    then (t, true)
    else if contains t.delivery_uncertain key
    then (
      record t {
        delivery_uncertain = without key t.delivery_uncertain;
        resolved = with_key key t.resolved;
      },
      true,
    )
    else if has_kind (get t.in_flight request_id) kind
    then (remember_resolved (record t { in_flight = remove request_id t.in_flight }) key, true)
    else (t, false)

abbrev pub any_kind : PendingKind → List (String × PendingRequest) → Bool
any_kind kind = any (λ entry. kind_eq entry.1.kind kind)

unfoldable pub waiting_state : PendingTracker → Option SessionState
waiting_state t =
    if any_kind permission (t.active ++ t.in_flight)
    then some awaiting_permission
    else if any_kind user_input (t.active ++ t.in_flight)
    then some awaiting_user_input
    else none

unfoldable pub clear_active : PendingTracker → PendingTracker
clear_active t = record t { active = []; in_flight = [] }
