-- ===== src/Daemon/Pending/Invariant.antt =====
-- What holds of a `PendingTracker` (crates/maestrod/src/fake_session.rs) between two methods.
use maestro_app.Prelude.{
  ℕ, ◌+◌, ◌≤◌, ◌≡◌, refl, ◌⊎◌, String, true, false, none, some, Option-cases, [], ◌∷◌, ◌++◌, arith,
  inl, inr, length, get, insert, remove, get-insert, get-remove, length-insert, length-remove,
  length-remove_present, eq_iff, string_eq, contains, with_key, contains-with_key,
}
use maestro_app.Daemon.Pending.{
  Key, key_eq, key_beq_iff, PendingKind, PendingRequest, PendingTracker, new, register,
  claim_active, restore_in_flight,
}
use maestro_app.Daemon.Pending.Resolve.{
  Memory, forget_oldest, remember, remember_resolved, remember_delivery_uncertain, clear_active,
}
use maestro_app.Daemon.Pending.Memory.{
  Tracks, memory, forget_oldest-Tracks, forget_oldest-subset, Tracks-resolve, Tracks-uncertain,
}

abbrev pub IsFresh : PendingTracker → Key → Type 0
IsFresh t key = (contains t.resolved key ≡ false) × (contains t.delivery_uncertain key ≡ false)

-- At most `capacity` requests wait; none waits twice; none that waits is remembered as settled; and
-- at most `capacity` settled ones are remembered, each once.
pub record Inv (t : PendingTracker) : Type 0 where
  pub bounded : length t.active + length t.in_flight ≤ t.capacity
  pub disjoint :
      (id : String) (p : PendingRequest) → get t.active id ≡ some p → get t.in_flight id ≡ none
  pub active_fresh :
      (id : String) (p : PendingRequest) → get t.active id ≡ some p → IsFresh t (id, p.kind)
  pub flight_fresh :
      (id : String) (p : PendingRequest) → get t.in_flight id ≡ some p → IsFresh t (id, p.kind)
  pub remembered : length t.resolved_order ≤ t.capacity
  pub tracks : Tracks (memory t.resolved_order t.resolved t.delivery_uncertain)

pub new-Inv : (capacity : ℕ) → Inv (new capacity)
unfolding new get contains
new-Inv capacity = record {
  bounded = omega arith;
  disjoint = λ id p h. refl;
  active_fresh = λ id p h. cc;
  flight_fresh = λ id p h. cc;
  remembered = omega arith;
  tracks = record { distinct = tt; tracked = λ k. refl; apart = λ k h. cc };
}

pub register-Inv :
    (t : PendingTracker) (id : String) (kind : PendingKind) (deadline : ℕ)
    → Inv t
    → Inv (register t id kind deadline).0
unfolding register
register-Inv t id kind deadline v = record {
  bounded = ground (arith, length-insert t.active id (record { kind = kind; deadline = deadline }));
  disjoint = λ j p. ground (
    arith,
    v.disjoint j p,
    get-insert t.active id j (record { kind = kind; deadline = deadline }),
    eq_iff id j,
  );
  active_fresh = λ j p. ground (
    arith,
    v.active_fresh j p,
    get-insert t.active id j (record { kind = kind; deadline = deadline }),
    eq_iff id j,
  );
  flight_fresh = λ j p. ground (arith, v.flight_fresh j p);
  remembered = ground arith;
  tracks = ground (arith, v.tracks);
}

-- A request moves between the two tables.
claimed-Inv :
    (t : PendingTracker) (id : String) (p : PendingRequest)
    → Inv t
    → get t.active id ≡ some p
    → Inv (record t { active = remove id t.active; in_flight = insert id p t.in_flight })
claimed-Inv t id p v e = record {
  bounded =
      omega
        (arith, v.bounded, length-remove_present t.active id p e, length-insert t.in_flight id p);
  disjoint = λ j q.
      ground (arith, v.disjoint j q, get-remove t.active id j, get-insert t.in_flight id j p);
  active_fresh = λ j q. ground (arith, v.active_fresh j q, get-remove t.active id j);
  flight_fresh = λ j q.
      ground (
        arith,
        v.flight_fresh j q,
        v.active_fresh id p,
        get-insert t.in_flight id j p,
        eq_iff id j,
      );
  remembered = v.remembered;
  tracks = v.tracks;
}

restored-Inv :
    (t : PendingTracker) (id : String) (p : PendingRequest)
    → Inv t
    → get t.in_flight id ≡ some p
    → Inv (record t { in_flight = remove id t.in_flight; active = insert id p t.active })
restored-Inv t id p v e = record {
  bounded =
      omega
        (arith, v.bounded, length-remove_present t.in_flight id p e, length-insert t.active id p);
  disjoint = λ j q.
      ground (arith, v.disjoint j q, get-remove t.in_flight id j, get-insert t.active id j p);
  active_fresh = λ j q.
      ground
        (arith, v.active_fresh j q, v.flight_fresh id p, get-insert t.active id j p, eq_iff id j);
  flight_fresh = λ j q. ground (arith, v.flight_fresh j q, get-remove t.in_flight id j);
  remembered = v.remembered;
  tracks = v.tracks;
}

pub claim_active-Inv :
    (t : PendingTracker) (id : String) (kind : PendingKind) (now : ℕ)
    → Inv t
    → Inv (claim_active t id kind now).0
unfolding claim_active
claim_active-Inv t id kind now v = elim (Option-cases (get t.active id)) [
  | inl e ↦ rw (e, claim_active) v
  | inr (p, e) ↦ rw (e, claim_active) (ground (arith, claimed-Inv t id p v e))
]

pub restore_in_flight-Inv :
    (t : PendingTracker) (id : String) (kind : PendingKind)
    → Inv t
    → Inv (restore_in_flight t id kind).0
unfolding restore_in_flight
restore_in_flight-Inv t id kind v = elim (Option-cases (get t.in_flight id)) [
  | inl e ↦ rw (e, restore_in_flight) v
  | inr (p, e) ↦ rw (e, restore_in_flight) (ground (arith, restored-Inv t id p v e))
]

pub clear_active-Inv : (t : PendingTracker) → Inv t → Inv (clear_active t)
unfolding clear_active get
clear_active-Inv t v = record {
  bounded = omega arith;
  disjoint = λ id p h. refl;
  active_fresh = λ id p h. cc;
  flight_fresh = λ id p h. cc;
  remembered = v.remembered;
  tracks = v.tracks;
}

-- A request leaves a table.
pub drop_active-Inv :
    (t : PendingTracker) (id : String) → Inv t → Inv (record t { active = remove id t.active })
drop_active-Inv t id v = record {
  bounded = omega (arith, v.bounded, length-remove t.active id);
  disjoint = λ j q. ground (arith, v.disjoint j q, get-remove t.active id j);
  active_fresh = λ j q. ground (arith, v.active_fresh j q, get-remove t.active id j);
  flight_fresh = v.flight_fresh;
  remembered = v.remembered;
  tracks = v.tracks;
}

pub drop_flight-Inv :
    (t : PendingTracker) (id : String)
    → Inv t
    → Inv (record t { in_flight = remove id t.in_flight })
drop_flight-Inv t id v = record {
  bounded = omega (arith, v.bounded, length-remove t.in_flight id);
  disjoint = λ j q. ground (arith, v.disjoint j q, get-remove t.in_flight id j);
  active_fresh = v.active_fresh;
  flight_fresh = λ j q. ground (arith, v.flight_fresh j q, get-remove t.in_flight id j);
  remembered = v.remembered;
  tracks = v.tracks;
}

-- No waiting request is in a memory that may hold one more key than before.
abbrev Adds : PendingTracker → Memory → Key → Type 0
Adds t m key =
    (k : Key)
    → ((contains m.resolved k ≡ true)
        → (contains t.resolved k ≡ true) ⊎ (contains t.delivery_uncertain k ≡ true) ⊎ (k ≡ key))
      × ((contains m.uncertain k ≡ true) → (contains t.delivery_uncertain k ≡ true) ⊎ (k ≡ key))

adopt-Inv :
    (t : PendingTracker) (m : Memory) (key : Key)
    → Inv t
    → Tracks m
    → length m.order ≤ t.capacity
    → Adds t m key
    → get t.active key.0 ≡ none
    → get t.in_flight key.0 ≡ none
    → Inv (remember t m)
adopt-Inv t m (id, kind) v tracks short adds idle landed = record {
  bounded = v.bounded;
  disjoint = v.disjoint;
  active_fresh = λ j q h. ground (arith, v.active_fresh j q h, adds (j, q.kind));
  flight_fresh = λ j q h. ground (arith, v.flight_fresh j q h, adds (j, q.kind));
  remembered = short;
  tracks = tracks;
}

pub remember_resolved-Inv :
    (t : PendingTracker) (key : Key)
    → Inv t
    → IsFresh t key
    → get t.active key.0 ≡ none
    → get t.in_flight key.0 ≡ none
    → Inv (remember_resolved t key)
unfolding remember_resolved
remember_resolved-Inv t key v fresh idle landed =
    let order = t.resolved_order ++ key ∷ [] in
    let (tracks, short) =
      forget_oldest-Tracks t.capacity order (with_key key t.resolved) t.delivery_uncertain (
        Tracks-resolve t.resolved_order t.resolved t.delivery_uncertain key fresh.0 fresh.1
          v.tracks) in
    let adds : Adds t
        (forget_oldest t.capacity order (with_key key t.resolved) t.delivery_uncertain) key =
      λ k. ground (
        arith,
        forget_oldest-subset t.capacity order (with_key key t.resolved) t.delivery_uncertain k,
        contains-with_key t.resolved key k,
        key_beq_iff key k,
      ) in
    rw fresh.0 (adopt-Inv t _ key v tracks short adds idle landed)

pub remember_delivery_uncertain-Inv :
    (t : PendingTracker) (key : Key)
    → Inv t
    → IsFresh t key
    → get t.active key.0 ≡ none
    → get t.in_flight key.0 ≡ none
    → Inv (remember_delivery_uncertain t key)
unfolding remember_delivery_uncertain
remember_delivery_uncertain-Inv t key v fresh idle landed =
    let order = t.resolved_order ++ key ∷ [] in
    let (tracks, short) =
      forget_oldest-Tracks t.capacity order t.resolved (with_key key t.delivery_uncertain) (
        Tracks-uncertain t.resolved_order t.resolved t.delivery_uncertain key fresh.0 fresh.1
          v.tracks) in
    let adds : Adds t
        (forget_oldest t.capacity order t.resolved (with_key key t.delivery_uncertain)) key =
      λ k. ground (
        arith,
        forget_oldest-subset t.capacity order t.resolved (with_key key t.delivery_uncertain) k,
        contains-with_key t.delivery_uncertain key k,
        key_beq_iff key k,
      ) in
    rw fresh.1 (adopt-Inv t _ key v tracks short adds idle landed)
