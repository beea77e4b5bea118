-- ===== src/Daemon/Pending.antt =====
-- `PendingTracker` of crates/maestrod/src/fake_session.rs: the requests of a run that wait for an
-- answer. Times are numbers of `Instant`; where a method reads the clock, it is an argument.
pub mod Resolve
pub mod Memory
pub mod Invariant
pub mod Settle
pub mod SingleUse
use maestro_app.Prelude.{
  ℕ, ◌+◌, ◌≡◌, ◌↔◌, String, Bool, true, false, ◌&&◌, ◌||◌, Option, none, some, List, [], arith, ltb,
  leb, if◌then◌else◌, length, Result, ok, err, str_eq, eq_iff, Eq, string_eq, get, insert, remove,
  contains,
}

pub data PendingKind : Type 0 where
  permission user_input gui_action : PendingKind

abbrev pub kind_eq : PendingKind → PendingKind → Bool
kind_eq permission permission = true
kind_eq user_input user_input = true
kind_eq gui_action gui_action = true
kind_eq _ _ = false

abbrev pub Key : Type 0
Key = String × PendingKind

abbrev pub key_beq : Key → Key → Bool
key_beq (i, k) (j, l) = str_eq i j && kind_eq k l

pub key_beq_iff : (a b : Key) → (key_beq a b ≡ true) ↔ (a ≡ b)
key_beq_iff (i, k) (j, l) = ground (arith, eq_iff i j)

instance abbrev pub key_eq : Eq Key
key_eq = record { beq = key_beq; beq_iff = key_beq_iff }

pub record PendingRequest : Type 0 where
  pub kind : PendingKind
  pub deadline : ℕ

pub record PendingTracker : Type 0 where
  pub active : List (String × PendingRequest)
  pub in_flight : List (String × PendingRequest)
  pub resolved_order : List Key
  pub resolved : List Key
  pub delivery_uncertain : List Key
  pub capacity : ℕ

-- The `invalid_request` errors, by their messages.
pub data PendingError : Type 0 where
  too_many not_unique unknown_or_used expired_or_wrong_type not_in_flight : PendingError

unfoldable pub new : ℕ → PendingTracker
new capacity = record {
  active = [];
  in_flight = [];
  resolved_order = [];
  resolved = [];
  delivery_uncertain = [];
  capacity = capacity;
}

-- `is_some`, and `is_some_and(|pending| pending.kind == kind)`.
abbrev pub is_some {ℓ} : {A : Type ℓ} → Option A → Bool
is_some none = false
is_some (some a) = true

abbrev pub has_kind : Option PendingRequest → PendingKind → Bool
has_kind none kind = false
has_kind (some pending) kind = kind_eq pending.kind kind

unfoldable pub register :
    PendingTracker → String → PendingKind → ℕ → PendingTracker × Result (Unit {0}) PendingError
register t request_id kind deadline =
    let key : Key = (request_id, kind) in
    if leb t.capacity (length t.active + length t.in_flight)
    then (t, err too_many)
    else if is_some (get t.active request_id)
        || (is_some (get t.in_flight request_id)
            || (contains t.resolved key || contains t.delivery_uncertain key))
    then (t, err not_unique)
    else (
      record t {
        active = insert request_id (record { kind = kind; deadline = deadline }) t.active;
      },
      ok tt,
    )

-- The test that `claim_active` and `resolve_active` share.
abbrev pub usable : PendingRequest → PendingKind → ℕ → Bool
usable pending kind now = kind_eq pending.kind kind && ltb now pending.deadline

abbrev claim_found :
    PendingTracker
    → String
    → PendingKind
    → ℕ
    → Option PendingRequest
    → PendingTracker × Result (Unit {0}) PendingError
claim_found t request_id kind now none = (t, err unknown_or_used)
claim_found t request_id kind now (some pending) =
    if usable pending kind now
    then (
      record t {
        active = remove request_id t.active;
        in_flight = insert request_id pending t.in_flight;
      },
      ok tt,
    )
    else (t, err expired_or_wrong_type)

unfoldable pub claim_active :
    PendingTracker → String → PendingKind → ℕ → PendingTracker × Result (Unit {0}) PendingError
claim_active t request_id kind now = claim_found t request_id kind now (get t.active request_id)

abbrev restore_found :
    PendingTracker → String → PendingKind → Option PendingRequest → PendingTracker × Bool
restore_found t request_id kind none = (t, false)
restore_found t request_id kind (some pending) =
    if kind_eq pending.kind kind
    then (
      record t {
        in_flight = remove request_id t.in_flight;
        active = insert request_id pending t.active;
      },
      true,
    )
    else (t, false)

unfoldable pub restore_in_flight : PendingTracker → String → PendingKind → PendingTracker × Bool
restore_in_flight t request_id kind = restore_found t request_id kind (get t.in_flight request_id)
