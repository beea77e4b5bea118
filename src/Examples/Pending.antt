-- ===== src/Examples/Pending.antt =====
-- `PendingTracker` of crates/maestrod/src/fake_session.rs at concrete histories.
use maestro_app.Prelude.{◌≡◌, refl, List, [], ◌∷◌, ok, err, get, contains, insert, string_eq}
use maestro_app.Daemon.Pending.{
  permission, user_input, PendingTracker, key_eq, new, register, claim_active, unknown_or_used,
  expired_or_wrong_type,
}
use maestro_app.Daemon.Pending.Resolve.{resolve_active}
use maestro_app.Daemon.Pending.Invariant.{Inv}
use maestro_app.Daemon.Pending.Settle.{
  Call, registers, claims, completes, expires, call, calls, calls-new-Inv, calls-Inv,
}
use maestro_app.Daemon.Pending.SingleUse.{claim_once}

abbrev opened : List Call
opened = registers "one" permission 50 ∷ []

abbrev tracker : PendingTracker
tracker = calls (new 2) opened

wrong_type_is_refused : (claim_active tracker "one" user_input 10).1 ≡ err expired_or_wrong_type
unfolding calls call new register claim_active get insert contains
wrong_type_is_refused = refl

claimed : (claim_active tracker "one" permission 10).1 ≡ ok tt
unfolding calls call new register claim_active get insert contains
claimed = refl

calls-new-Inv_example : Inv (calls (new 2) opened)
calls-new-Inv_example = calls-new-Inv 2 opened

abbrev in_flight : PendingTracker
in_flight = (claim_active tracker "one" permission 10).0

abbrev answered : PendingTracker
answered = calls in_flight (completes "one" permission ∷ expires "one" permission 60 ∷ [])

claim_once_example :
    ((claim_active answered "one" permission 70).1 ≡ err unknown_or_used)
    × ((resolve_active answered "one" permission 70).1 ≡ err unknown_or_used)
claim_once_example =
    claim_once tracker "one" permission 10
      (completes "one" permission ∷ expires "one" permission 60 ∷ []) permission 70 claimed
      (refl, (refl, tt))

in_flight-Inv : Inv in_flight
unfolding calls call
in_flight-Inv = calls-Inv tracker (claims "one" permission 10 ∷ []) (calls-new-Inv 2 opened)
