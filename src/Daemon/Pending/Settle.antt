-- ===== src/Daemon/Pending/Settle.antt =====
-- The invariant under the settling methods of `PendingTracker`
-- (crates/maestrod/src/fake_session.rs), and along histories of calls.
use maestro_app.Prelude.{
  ℕ, ◌≡◌, String, true, none, some, Option-cases, List, [], ◌∷◌, arith, inl, inr, get, remove,
  get-remove, eq_iff, string_eq, contains, with_key, without, contains-without, contains-with_key,
}
use maestro_app.Daemon.Pending.{
  Key, key_eq, key_beq_iff, PendingKind, PendingRequest, PendingTracker, new, register,
  claim_active, restore_in_flight, has_kind,
}
use maestro_app.Daemon.Pending.Resolve.{
  remember_resolved, remember_delivery_uncertain, resolve_in_flight, mark_delivery_uncertain,
  resolve_active, force_resolve, expire, confirm_resolved, clear_active,
}
use maestro_app.Daemon.Pending.Memory.{Tracks-confirm}
use maestro_app.Daemon.Pending.Invariant.{
  Inv, new-Inv, register-Inv, claim_active-Inv, restore_in_flight-Inv, clear_active-Inv,
  drop_active-Inv, drop_flight-Inv, remember_resolved-Inv, remember_delivery_uncertain-Inv,
}

get-remove_self : (m : List (String × PendingRequest)) (id : String) → get (remove id m) id ≡ none
get-remove_self m id = ground (arith, get-remove m id id, eq_iff id id)

not_active :
    (t : PendingTracker) (id : String) (p : PendingRequest)
    → Inv t
    → get t.in_flight id ≡ some p
    → get t.active id ≡ none
not_active t id p v e = elim (Option-cases (get t.active id)) [
  | inl idle ↦ idle
  | inr (q, f) ↦ cc (v.disjoint id q f)
]

settle_flight-Inv :
    (t : PendingTracker) (id : String) (kind : PendingKind)
    → Inv t
    → has_kind (get t.in_flight id) kind ≡ true
    → Inv (remember_resolved (record t { in_flight = remove id t.in_flight }) (id, kind))
      × Inv
          (remember_delivery_uncertain (record t { in_flight = remove id t.in_flight }) (id, kind))
settle_flight-Inv t id kind v h = elim (Option-cases (get t.in_flight id)) [
  | inl e ↦ absurd (ground (arith, e))
  | inr (p, e) ↦
      let dropped = drop_flight-Inv t id v in
      let same : p.kind ≡ kind = ground (arith, e) in
      let fresh = rw same at (v.flight_fresh id p e) in
      let idle : get t.active id ≡ none = not_active t id p v e in
      (
        remember_resolved-Inv _ (id, kind) dropped fresh idle (get-remove_self t.in_flight id),
        remember_delivery_uncertain-Inv _ (id, kind) dropped fresh idle
            (get-remove_self t.in_flight id),
      )
]

settle_active-Inv :
    (t : PendingTracker) (id : String) (kind : PendingKind)
    → Inv t
    → has_kind (get t.active id) kind ≡ true
    → Inv (remember_resolved (record t { active = remove id t.active }) (id, kind))
settle_active-Inv t id kind v h = elim (Option-cases (get t.active id)) [
  | inl e ↦ absurd (ground (arith, e))
  | inr (p, e) ↦
      let same : p.kind ≡ kind = ground (arith, e) in
      remember_resolved-Inv _ (id, kind) (drop_active-Inv t id v)
        (rw same at (v.active_fresh id p e)) (get-remove_self t.active id) (v.disjoint id p e)
]

resolve_in_flight-Inv :
    (t : PendingTracker) (id : String) (kind : PendingKind)
    → Inv t
    → Inv (resolve_in_flight t id kind).0
unfolding resolve_in_flight
resolve_in_flight-Inv t id kind v = ground (arith, settle_flight-Inv t id kind v)

mark_delivery_uncertain-Inv :
    (t : PendingTracker) (id : String) (kind : PendingKind)
    → Inv t
    → Inv (mark_delivery_uncertain t id kind).0
unfolding mark_delivery_uncertain
mark_delivery_uncertain-Inv t id kind v = ground (arith, settle_flight-Inv t id kind v)

pub resolve_active-Inv :
    (t : PendingTracker) (id : String) (kind : PendingKind) (now : ℕ)
    → Inv t
    → Inv (resolve_active t id kind now).0
unfolding resolve_active
resolve_active-Inv t id kind now v = ground (arith, settle_active-Inv t id kind v)

force_resolve-Inv :
    (t : PendingTracker) (id : String) (kind : PendingKind) → Inv t → Inv (force_resolve t id kind)
unfolding force_resolve
force_resolve-Inv t id kind v = ground (arith, settle_active-Inv t id kind v)

expire-Inv :
    (t : PendingTracker) (id : String) (kind : PendingKind) (now : ℕ)
    → Inv t
    → Inv (expire t id kind now).0
unfolding expire
expire-Inv t id kind now v = ground (arith, settle_active-Inv t id kind v)

confirmed-Inv :
    (t : PendingTracker) (key : Key)
    → Inv t
    → contains t.delivery_uncertain key ≡ true
    → Inv (record t {
      delivery_uncertain = without key t.delivery_uncertain;
      resolved = with_key key t.resolved;
    })
confirmed-Inv t key v h = record {
  bounded = v.bounded;
  disjoint = v.disjoint;
  active_fresh = λ j q e. ground (
    arith,
    v.active_fresh j q e,
    contains-with_key t.resolved key (j, q.kind),
    contains-without t.delivery_uncertain key (j, q.kind),
    key_beq_iff key (j, q.kind),
  );
  flight_fresh = λ j q e. ground (
    arith,
    v.flight_fresh j q e,
    contains-with_key t.resolved key (j, q.kind),
    contains-without t.delivery_uncertain key (j, q.kind),
    key_beq_iff key (j, q.kind),
  );
  remembered = v.remembered;
  tracks = Tracks-confirm t.resolved_order t.resolved t.delivery_uncertain key h v.tracks;
}

pub confirm_resolved-Inv :
    (t : PendingTracker) (id : String) (kind : PendingKind)
    → Inv t
    → Inv (confirm_resolved t id kind).0
unfolding confirm_resolved
confirm_resolved-Inv t id kind v =
    ground (arith, settle_flight-Inv t id kind v, confirmed-Inv t (id, kind) v)

-- The calls that the daemon makes on a tracker, with the clock that each reads.
pub data Call : Type 0 where
  registers : String → PendingKind → (deadline : ℕ) → Call
  claims resolves expires : String → PendingKind → (now : ℕ) → Call
  restores completes uncertain forces confirms : String → PendingKind → Call
  clears : Call

unfoldable pub call : PendingTracker → Call → PendingTracker
call t (registers id kind deadline) = (register t id kind deadline).0
call t (claims id kind now) = (claim_active t id kind now).0
call t (resolves id kind now) = (resolve_active t id kind now).0
call t (expires id kind now) = (expire t id kind now).0
call t (restores id kind) = (restore_in_flight t id kind).0
call t (completes id kind) = (resolve_in_flight t id kind).0
call t (uncertain id kind) = (mark_delivery_uncertain t id kind).0
call t (forces id kind) = force_resolve t id kind
call t (confirms id kind) = (confirm_resolved t id kind).0
call t clears = clear_active t

pub call-Inv : (t : PendingTracker) (c : Call) → Inv t → Inv (call t c)
unfolding call
call-Inv t (registers id kind deadline) v = register-Inv t id kind deadline v
call-Inv t (claims id kind now) v = claim_active-Inv t id kind now v
call-Inv t (resolves id kind now) v = resolve_active-Inv t id kind now v
call-Inv t (expires id kind now) v = expire-Inv t id kind now v
call-Inv t (restores id kind) v = restore_in_flight-Inv t id kind v
call-Inv t (completes id kind) v = resolve_in_flight-Inv t id kind v
call-Inv t (uncertain id kind) v = mark_delivery_uncertain-Inv t id kind v
call-Inv t (forces id kind) v = force_resolve-Inv t id kind v
call-Inv t (confirms id kind) v = confirm_resolved-Inv t id kind v
call-Inv t clears v = clear_active-Inv t v

unfoldable pub calls : PendingTracker → List Call → PendingTracker
calls t [] = t
calls t (c ∷ cs) = calls (call t c) cs

pub calls-Inv : (t : PendingTracker) (cs : List Call) → Inv t → Inv (calls t cs)
unfolding calls
calls-Inv t [] v = v
calls-Inv t (c ∷ cs) v = calls-Inv (call t c) cs (call-Inv t c v)

-- Whatever is called on a new tracker, in any order: at most `capacity` requests wait, none of them
-- twice or among the settled ones, and at most `capacity` settled ones are remembered, each once.
pub calls-new-Inv : (capacity : ℕ) (cs : List Call) → Inv (calls (new capacity) cs)
calls-new-Inv capacity cs = calls-Inv (new capacity) cs (new-Inv capacity)
