-- ===== src/Daemon/Pending/SingleUse.antt =====
-- How often a request can be answered: what `PendingTracker` of
-- crates/maestrod/src/fake_session.rs promises to `deliver_pending_response`.
use maestro_app.Prelude.{
  ℕ, ◌<◌, ◌≡◌, ◌≢◌, refl, String, Bool, true, false, ◌||◌, none, Option-cases, List, [], ◌∷◌, arith,
  inl, inr, All, ok, err, str_eq, eq_iff, get, remove, get-insert, get-remove, string_eq, contains,
  with_key, contains-with_key,
}
use maestro_app.Daemon.Pending.{
  Key, key_eq, key_beq_iff, PendingKind, PendingRequest, PendingTracker, register, claim_active,
  restore_in_flight, has_kind, unknown_or_used,
}
use maestro_app.Daemon.Pending.Resolve.{
  remember_resolved, remember_delivery_uncertain, resolve_in_flight, mark_delivery_uncertain,
  resolve_active, force_resolve, expire, confirm_resolved, clear_active,
}
use maestro_app.Daemon.Pending.Memory.{forget_oldest-newest}
use maestro_app.Daemon.Pending.Invariant.{Inv}
use maestro_app.Daemon.Pending.Settle.{
  Call, registers, claims, resolves, expires, restores, completes, uncertain, forces, confirms,
  clears, call, calls,
}

-- The calls that make a request answerable (again).
abbrev pub reopens : String → Call → Bool
reopens id (registers j kind deadline) = str_eq j id
reopens id (restores j kind) = str_eq j id
reopens id _ = false

active-remember_resolved :
    (t : PendingTracker) (key : Key) → (remember_resolved t key).active ≡ t.active
unfolding remember_resolved
active-remember_resolved t key = refl

active-remember_delivery_uncertain :
    (t : PendingTracker) (key : Key) → (remember_delivery_uncertain t key).active ≡ t.active
unfolding remember_delivery_uncertain
active-remember_delivery_uncertain t key = refl

get-nil : (id : String) → get {V = PendingRequest} [] id ≡ none
unfolding get
get-nil id = refl

-- Only those two calls put a request among the active ones.
pub call_idle :
    (t : PendingTracker) (id : String) (c : Call)
    → reopens id c ≡ false
    → get t.active id ≡ none
    → get (call t c).active id ≡ none
unfolding call register claim_active resolve_active expire restore_in_flight resolve_in_flight
    mark_delivery_uncertain force_resolve confirm_resolved clear_active
call_idle t id (registers j kind deadline) h e =
    ground (arith, get-insert t.active j id (record { kind = kind; deadline = deadline }))
call_idle t id (claims j kind now) h e = ground (arith, get-remove t.active j id)
call_idle t id (resolves j kind now) h e = ground (
  arith,
  get-remove t.active j id,
  active-remember_resolved (record t { active = remove j t.active }) (j, kind),
)
call_idle t id (expires j kind now) h e = ground (
  arith,
  get-remove t.active j id,
  active-remember_resolved (record t { active = remove j t.active }) (j, kind),
)
call_idle t id (restores j kind) h e = elim (Option-cases (get t.in_flight j)) [
  | inl f ↦ ground (arith, f)
  | inr (p, f) ↦ ground (arith, f, get-insert t.active j id p)
]
call_idle t id (completes j kind) h e =
    ground
      (arith, active-remember_resolved (record t { in_flight = remove j t.in_flight }) (j, kind))
call_idle t id (uncertain j kind) h e = ground (
  arith,
  active-remember_delivery_uncertain (record t { in_flight = remove j t.in_flight }) (j, kind),
)
call_idle t id (forces j kind) h e = ground (
  arith,
  get-remove t.active j id,
  active-remember_resolved (record t { active = remove j t.active }) (j, kind),
)
call_idle t id (confirms j kind) h e =
    ground
      (arith, active-remember_resolved (record t { in_flight = remove j t.in_flight }) (j, kind))
call_idle t id clears h e = get-nil id

calls_idle :
    (t : PendingTracker) (id : String) (cs : List Call)
    → All (λ c. reopens id c ≡ false) cs
    → get t.active id ≡ none
    → get (calls t cs).active id ≡ none
unfolding calls
calls_idle t id [] h e = e
calls_idle t id (c ∷ cs) h e = calls_idle (call t c) id cs h.1 (call_idle t id c h.0 e)

pub claimed_idle :
    (t : PendingTracker) (id : String) (kind : PendingKind) (now : ℕ)
    → (claim_active t id kind now).1 ≡ ok tt
    → get (claim_active t id kind now).0.active id ≡ none
unfolding claim_active
claimed_idle t id kind now h = elim (Option-cases (get t.active id)) [
  | inl e ↦ ground (arith, e)
  | inr (p, e) ↦ ground (arith, e, get-remove t.active id id, eq_iff id id)
]

pub refused :
    (t : PendingTracker) (id : String) (kind : PendingKind) (now : ℕ)
    → get t.active id ≡ none
    → ((claim_active t id kind now).1 ≡ err unknown_or_used)
      × ((resolve_active t id kind now).1 ≡ err unknown_or_used)
unfolding claim_active resolve_active
refused t id kind now e = ground arith

-- Once a request is claimed for delivery, it can be neither claimed nor resolved again, whatever is
-- called in between, unless its identifier is registered anew or the delivery is taken back.
pub claim_once :
    (t : PendingTracker) (id : String) (kind : PendingKind) (now : ℕ) (cs : List Call)
    (kind' : PendingKind) (later : ℕ)
    → (claim_active t id kind now).1 ≡ ok tt
    → All (λ c. reopens id c ≡ false) cs
    → let t' = calls (claim_active t id kind now).0 cs in
      ((claim_active t' id kind' later).1 ≡ err unknown_or_used)
      × ((resolve_active t' id kind' later).1 ≡ err unknown_or_used)
claim_once t id kind now cs kind' later h quiet =
    refused _ id kind' later (calls_idle _ id cs quiet (claimed_idle t id kind now h))

-- A settled key is remembered at once.
resolved_newest :
    (t : PendingTracker) (key : Key)
    → 0 < t.capacity
    → contains t.resolved_order key ≡ false
    → contains t.resolved key ≡ false
    → contains (remember_resolved t key).resolved key ≡ true
unfolding remember_resolved
resolved_newest t key pos fresh new = ground (
  arith,
  forget_oldest-newest t.capacity t.resolved_order (with_key key t.resolved) t.delivery_uncertain
      key,
  contains-with_key t.resolved key key,
  key_beq_iff key key,
)

uncertain_newest :
    (t : PendingTracker) (key : Key)
    → 0 < t.capacity
    → contains t.resolved_order key ≡ false
    → contains t.delivery_uncertain key ≡ false
    → contains (remember_delivery_uncertain t key).delivery_uncertain key ≡ true
unfolding remember_delivery_uncertain
uncertain_newest t key pos fresh new = ground (
  arith,
  forget_oldest-newest t.capacity t.resolved_order t.resolved (with_key key t.delivery_uncertain)
      key,
  contains-with_key t.delivery_uncertain key key,
  key_beq_iff key key,
)

known_refused :
    (t : PendingTracker) (id : String) (kind : PendingKind) (deadline : ℕ)
    → (contains t.resolved (id, kind) || contains t.delivery_uncertain (id, kind)) ≡ true
    → (register t id kind deadline).1 ≢ ok tt
unfolding register
known_refused t id kind deadline h = ground arith

-- A request whose delivery completed, or is uncertain, is in the memory, so the vendor cannot
-- register the same identifier and kind again.
pub settled_not_registered :
    (t : PendingTracker) (id : String) (kind : PendingKind) (deadline : ℕ)
    → Inv t
    → 0 < t.capacity
    → has_kind (get t.in_flight id) kind ≡ true
    → ((register (resolve_in_flight t id kind).0 id kind deadline).1 ≢ ok tt)
      × ((register (mark_delivery_uncertain t id kind).0 id kind deadline).1 ≢ ok tt)
settled_not_registered t id kind deadline v pos h = elim (Option-cases (get t.in_flight id)) [
  | inl e ↦ absurd (ground (arith, e))
  | inr (p, e) ↦
      let same : p.kind ≡ kind = ground (arith, e) in
      let fresh = rw same at (v.flight_fresh id p e) in
      let key : Key = (id, kind) in
      let dropped = record t { in_flight = remove id t.in_flight } in
      let unqueued : contains t.resolved_order key ≡ false = ground (arith, v.tracks.tracked key) in
      (
        known_refused _ id kind deadline (
            unfold resolve_in_flight in
            ground (arith, e, fresh, resolved_newest dropped key pos unqueued fresh.0)),
        known_refused _ id kind deadline (
            unfold mark_delivery_uncertain in
            ground (arith, e, fresh, uncertain_newest dropped key pos unqueued fresh.1)),
      )
]
