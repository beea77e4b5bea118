-- ===== src/Daemon/Pending/Memory.antt =====
-- The bounded memory of settled requests in crates/maestrod/src/fake_session.rs.
use maestro_app.Prelude.{
  ℕ, ◌≤◌, ◌<◌, ◌≡◌, inl, inr, true, false, ◌||◌, List, [], ◌∷◌, ◌++◌, arith, ltb, Bool-cases,
  length, contains, with_key, without, contains-without, contains-with_key, contains-append,
  IsDistinct, IsDistinct-append_one,
}
use maestro_app.Daemon.Pending.{Key, key_eq, key_beq_iff}
use maestro_app.Daemon.Pending.Resolve.{Memory, forget_oldest}

-- The queue holds each remembered key once, and every key is in one of the two sets exactly if it
-- stands in the queue.
pub record Tracks (m : Memory) : Type 0 where
  pub distinct : IsDistinct m.order
  pub tracked : (k : Key) → contains m.order k ≡ (contains m.resolved k || contains m.uncertain k)
  pub apart : (k : Key) → contains m.uncertain k ≡ true → contains m.resolved k ≡ false

abbrev pub memory : List Key → List Key → List Key → Memory
memory order resolved uncertain = record {
  order = order;
  resolved = resolved;
  uncertain = uncertain;
}

Tracks-forget_one :
    (key : Key) (order resolved uncertain : List Key)
    → Tracks (memory (key ∷ order) resolved uncertain)
    → Tracks (memory order (without key resolved) (without key uncertain))
unfolding contains
Tracks-forget_one key order resolved uncertain t = record {
  distinct = t.distinct.1;
  tracked = λ k. ground (
    arith,
    t.tracked k,
    t.distinct.0,
    contains-without resolved key k,
    contains-without uncertain key k,
    key_beq_iff key k,
  );
  apart = λ k h.
      ground (arith, t.apart k, contains-without resolved key k, contains-without uncertain key k);
}

pub forget_oldest-Tracks :
    (capacity : ℕ) (order resolved uncertain : List Key)
    → Tracks (memory order resolved uncertain)
    → Tracks (forget_oldest capacity order resolved uncertain)
      × (length (forget_oldest capacity order resolved uncertain).order ≤ capacity)
unfolding forget_oldest
forget_oldest-Tracks capacity [] resolved uncertain t = (t, omega arith)
forget_oldest-Tracks capacity (key ∷ order) resolved uncertain t =
    elim (Bool-cases (ltb capacity (length (key ∷ order)))) [
      | inl full ↦ rw full (
          forget_oldest-Tracks capacity order _ _
            (Tracks-forget_one key order resolved uncertain t))
      | inr fits ↦ rw fits (t, ground arith)
    ]

-- Forgetting adds no key.
pub forget_oldest-subset :
    (capacity : ℕ) (order resolved uncertain : List Key) (k : Key)
    → (contains (forget_oldest capacity order resolved uncertain).resolved k ≡ true
        → contains resolved k ≡ true)
      × (contains (forget_oldest capacity order resolved uncertain).uncertain k ≡ true
          → contains uncertain k ≡ true)
unfolding forget_oldest
forget_oldest-subset capacity [] resolved uncertain k = (λ h. h, λ h. h)
forget_oldest-subset capacity (key ∷ order) resolved uncertain k = ground (
  arith,
  forget_oldest-subset capacity order (without key resolved) (without key uncertain) k,
  contains-without resolved key k,
  contains-without uncertain key k,
)

-- The newest key stays, in the set where it is.
pub forget_oldest-newest :
    (capacity : ℕ) (order resolved uncertain : List Key) (k : Key)
    → 0 < capacity
    → contains order k ≡ false
    → (contains (forget_oldest capacity (order ++ k ∷ []) resolved uncertain).resolved k
        ≡ contains resolved k)
      × (contains (forget_oldest capacity (order ++ k ∷ []) resolved uncertain).uncertain k
          ≡ contains uncertain k)
unfolding forget_oldest contains
forget_oldest-newest capacity [] resolved uncertain k pos h = ground arith
forget_oldest-newest capacity (key ∷ order) resolved uncertain k pos h = ground (
  arith,
  forget_oldest-newest capacity order (without key resolved) (without key uncertain) k pos,
  contains-without resolved key k,
  contains-without uncertain key k,
)

-- A key that neither set holds is added to one of them and to the end of the queue.
pub Tracks-resolve :
    (order resolved uncertain : List Key) (key : Key)
    → contains resolved key ≡ false
    → contains uncertain key ≡ false
    → Tracks (memory order resolved uncertain)
    → Tracks (memory (order ++ key ∷ []) (with_key key resolved) uncertain)
unfolding contains
Tracks-resolve order resolved uncertain key fresh certain t = record {
  distinct = IsDistinct-append_one order key (ground (arith, t.tracked key)) t.distinct;
  tracked = λ k. ground (
    arith,
    contains-append order (key ∷ []) k,
    contains-with_key resolved key k,
    t.tracked k,
    key_beq_iff key k,
  );
  apart = λ k h. ground (arith, t.apart k, contains-with_key resolved key k, key_beq_iff key k);
}

pub Tracks-uncertain :
    (order resolved uncertain : List Key) (key : Key)
    → contains resolved key ≡ false
    → contains uncertain key ≡ false
    → Tracks (memory order resolved uncertain)
    → Tracks (memory (order ++ key ∷ []) resolved (with_key key uncertain))
unfolding contains
Tracks-uncertain order resolved uncertain key fresh certain t = record {
  distinct = IsDistinct-append_one order key (ground (arith, t.tracked key)) t.distinct;
  tracked = λ k. ground (
    arith,
    contains-append order (key ∷ []) k,
    contains-with_key uncertain key k,
    t.tracked k,
    key_beq_iff key k,
  );
  apart = λ k h. ground (arith, t.apart k, contains-with_key uncertain key k, key_beq_iff key k);
}

-- A key moves from the uncertain ones to the resolved ones and keeps its place in the queue.
pub Tracks-confirm :
    (order resolved uncertain : List Key) (key : Key)
    → contains uncertain key ≡ true
    → Tracks (memory order resolved uncertain)
    → Tracks (memory order (with_key key resolved) (without key uncertain))
Tracks-confirm order resolved uncertain key there t = record {
  distinct = t.distinct;
  tracked = λ k. ground (
    arith,
    contains-with_key resolved key k,
    contains-without uncertain key k,
    t.tracked k,
    key_beq_iff key k,
  );
  apart = λ k h. ground (
    arith,
    t.apart k,
    contains-with_key resolved key k,
    contains-without uncertain key k,
    key_beq_iff key k,
  );
}
