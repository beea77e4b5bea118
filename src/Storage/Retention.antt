-- ===== src/Storage/Retention.antt =====
-- The plan of crates/maestro-storage/src/retention.rs. A time is counted in nanoseconds from the
-- first that `DateTime` can hold, and an identifier is its bytes.
pub mod Quota
use maestro_app.Prelude.{
  ℕ, ◌+◌, ◌-◌, ◌*◌, Bool, true, false, not, ◌&&◌, Option, none, some, List, [], ◌∷◌, ◌++◌, ltb, leb,
  if◌then◌else◌, retain, saturating_add, lex_same, nat_order, list_order, sort_by_key,
}
use maestro_app.Project.Paths.{FilePath}

pub data RetentionCategory : Type 0 where
  terminal : RetentionCategory
  raw_protocol : RetentionCategory
  debug_log : RetentionCategory

-- `Ord`, derived: the order of the constructors.
abbrev pub category_rank : RetentionCategory → ℕ
category_rank terminal = 0
category_rank raw_protocol = 1
category_rank debug_log = 2

abbrev pub category_eq : RetentionCategory → RetentionCategory → Bool
category_eq terminal terminal = true
category_eq raw_protocol raw_protocol = true
category_eq debug_log debug_log = true
category_eq a b = false

pub record RetentionPolicy : Type 0 where
  pub enabled : Bool
  pub max_bytes_per_owner : Option ℕ
  pub max_age : Option ℕ

pub record RetentionPolicies : Type 0 where
  pub terminal_policy : RetentionPolicy
  pub raw_protocol_policy : RetentionPolicy
  pub debug_log_policy : RetentionPolicy

abbrev pub day : ℕ
day = 24 * 3600 * 1000000000

abbrev pub default_policies : RetentionPolicies
default_policies = record {
  terminal_policy = record {
    enabled = true;
    max_bytes_per_owner = some (10 * 1024 * 1024);
    max_age = none;
  };
  raw_protocol_policy = record {
    enabled = false;
    max_bytes_per_owner = some (10 * 1024 * 1024);
    max_age = some (7 * day);
  };
  debug_log_policy = record {
    enabled = true;
    max_bytes_per_owner = some (50 * 1024 * 1024);
    max_age = some (14 * day);
  };
}

abbrev pub policy : RetentionPolicies → RetentionCategory → RetentionPolicy
policy policies terminal = policies.terminal_policy
policy policies raw_protocol = policies.raw_protocol_policy
policy policies debug_log = policies.debug_log_policy

pub record RetentionRecord : Type 0 where
  pub id : List ℕ
  pub category : RetentionCategory
  pub owner_id : List ℕ
  pub created_at : ℕ
  pub byte_count : ℕ
  pub storage_path : FilePath

-- The tuples that records are compared by.
abbrev pub identity_key : RetentionRecord → List (List ℕ)
identity_key r = (category_rank r.category ∷ []) ∷ r.id ∷ []

abbrev pub age_key : RetentionRecord → List (List ℕ)
age_key r = (r.created_at ∷ []) ∷ r.id ∷ []

abbrev pub candidate_key : RetentionRecord → List (List ℕ)
candidate_key r = (category_rank r.category ∷ []) ∷ (r.created_at ∷ []) ∷ r.id ∷ []

unfoldable pub same_identity : RetentionRecord → RetentionRecord → Bool
same_identity left right = category_eq left.category right.category && lex_same left.id right.id

-- `dedup_by`: a record is removed when it repeats the last one kept.
unfoldable pub dedup_after : RetentionRecord → List RetentionRecord → List RetentionRecord
unfolding same_identity
dedup_after kept [] = []
dedup_after kept (r ∷ records) = elim (same_identity r kept) [
  | true ↦ dedup_after kept records
  | false ↦ r ∷ dedup_after r records
]

unfoldable pub dedup : List RetentionRecord → List RetentionRecord
unfolding dedup_after
dedup [] = []
dedup (r ∷ records) = r ∷ dedup_after r records

-- `created_at < cutoff`, when the policy has a cutoff.
abbrev pub is_expired : Option ℕ → ℕ → RetentionRecord → Bool
is_expired none now r = false
is_expired (some max_age) now r = ltb r.created_at (now - max_age)

abbrev pub total_bytes : List RetentionRecord → ℕ → ℕ
total_bytes [] sum = sum
total_bytes (r ∷ records) sum = total_bytes records (saturating_add sum r.byte_count)

-- The loop that selects the oldest records of one owner until the rest fit.
unfoldable pub over_quota : ℕ → ℕ → List RetentionRecord → List RetentionRecord
over_quota maximum total [] = []
over_quota maximum total (r ∷ records) =
    let rest = over_quota maximum (total - r.byte_count) records in
    if leb total maximum then [] else r ∷ rest

unfoldable pub select_owner : ℕ → List RetentionRecord → List RetentionRecord
unfolding over_quota sort_by_key
select_owner maximum owner_records =
    let sorted = sort_by_key age_key owner_records in
    over_quota maximum (total_bytes sorted 0) sorted

-- The map `by_owner`: `entry(owner).or_default().push(record)` for each record.
abbrev pub Owners : Type 0
Owners = List (List ℕ × List RetentionRecord)

unfoldable pub push_owned : RetentionRecord → Owners → Owners
push_owned r [] = (r.owner_id, r ∷ []) ∷ []
push_owned r ((owner, owned) ∷ owners) =
    let rest = push_owned r owners in
    if lex_same owner r.owner_id then (owner, owned ++ r ∷ []) ∷ owners else (owner, owned) ∷ rest

unfoldable pub by_owner : Owners → List RetentionRecord → Owners
unfolding push_owned
by_owner owners [] = owners
by_owner owners (r ∷ records) = by_owner (push_owned r owners) records

unfoldable pub select_owners : ℕ → Owners → List RetentionRecord
unfolding select_owner
select_owners maximum [] = []
select_owners maximum ((owner, owned) ∷ owners) =
    select_owner maximum owned ++ select_owners maximum owners

unfoldable pub select_over : Option ℕ → List RetentionRecord → List RetentionRecord
unfolding select_owners by_owner
select_over none retained = []
select_over (some maximum) retained = select_owners maximum (by_owner [] retained)

-- One round of the loop over the categories.
unfoldable pub select_category : RetentionPolicy → ℕ → List RetentionRecord → List RetentionRecord
unfolding select_over
select_category chosen now category_records =
    if not chosen.enabled
    then category_records
    else retain (is_expired chosen.max_age now) category_records
      ++ select_over chosen.max_bytes_per_owner
          (retain (λ r. not (is_expired chosen.max_age now r)) category_records)

abbrev pub of_category : RetentionCategory → List RetentionRecord → List RetentionRecord
of_category category records = retain (λ r. category_eq r.category category) records

pub record RetentionPlan : Type 0 where
  pub candidates : List RetentionRecord

unfoldable pub select_all : RetentionPolicies → ℕ → List RetentionRecord → List RetentionRecord
unfolding select_category
select_all policies now records =
    select_category policies.terminal_policy now (of_category terminal records)
    ++ (select_category policies.raw_protocol_policy now (of_category raw_protocol records)
        ++ select_category policies.debug_log_policy now (of_category debug_log records))

unfoldable pub from_records : List RetentionRecord → RetentionPolicies → ℕ → RetentionPlan
unfolding dedup sort_by_key select_all
from_records records policies now = record {
  candidates = dedup (
      sort_by_key candidate_key
        (select_all policies now (dedup (sort_by_key identity_key records))));
}
