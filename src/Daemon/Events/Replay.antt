-- ===== src/Daemon/Events/Replay.antt =====
-- What a subscriber of a session's events sees: `subscribe` and `publish` of
-- crates/maestrod/src/fake_session.rs together.
use maestro_app.Prelude.{
  ℕ, suc, ◌≤◌, ◌<◌, ◌≡◌, ◌↔◌, refl, subst, max, Option, none, some, List, [], ◌∷◌, ◌++◌, arith, ltb,
  ◌==◌, if◌then◌else◌, Result, ok, err, u64_max, inl, inr, Bool-cases, append-nil, append_assoc,
}
use maestro_app.Daemon.Sequence.{IsRun-append_one, IsRun-length, IsRun-after, after}
use maestro_app.Daemon.Events.{
  EventEnvelope, EventLog, Publication, Subscription, ReplayGap, drop_retained, envelope_of,
  publish, subscribe, EventError, cursor_newer,
}
use maestro_app.Daemon.Events.Retained.{EventRun, Inv}

abbrev pub missed : ℕ → ℕ → Option ReplayGap
missed cursor dropped =
    if ltb cursor dropped
    then some (record { requested_after_sequence = cursor; available_after_sequence = dropped })
    else none

module _ {Value : Type 0} (redact_json : Value → Value) (limit : ℕ) where
  -- The cursor is refused exactly if it lies past the newest event.
  pub subscribe-err_iff :
      (log : EventLog Value) (cursor : ℕ)
      → (subscribe log cursor ≡ err cursor_newer) ↔ (log.latest_sequence < cursor)
  unfolding subscribe
  subscribe-err_iff log cursor = ground arith

  -- Publications one after the other, with the envelopes that went out to the live receivers.
  abbrev pub sent_one : Result (EventEnvelope Value) EventError → List (EventEnvelope Value)
  sent_one (ok e) = e ∷ []
  sent_one (err error) = []

  abbrev pub publishes :
      EventLog Value → List (Publication Value) → EventLog Value × List (EventEnvelope Value)
  publishes log [] = (log, [])
  publishes log (p ∷ ps) =
      let (log', r) = publish redact_json limit log p in
      let (last, sent) = publishes log' ps in (last, sent_one r ++ sent)

  drop_retained-latest :
      (latest : ℕ) (retained : List (EventEnvelope Value)) (dropped : ℕ)
      → (drop_retained limit latest retained dropped).latest_sequence ≡ latest
  unfolding drop_retained
  drop_retained-latest latest [] dropped = refl
  drop_retained-latest latest (e ∷ retained) dropped =
      ground (arith, drop_retained-latest latest retained e.sequence)

  -- A publication is refused and changes nothing, or sends one envelope with the next number.
  publish-sent :
      (log : EventLog Value) (p : Publication Value) (low : ℕ) (seen : List (EventEnvelope Value))
      → EventRun low seen log.latest_sequence
      → EventRun low
          (seen ++ sent_one (publish redact_json limit log p).1)
          (publish redact_json limit log p).0.latest_sequence
  unfolding publish
  publish-sent log p low seen run = elim (Bool-cases (log.latest_sequence == u64_max)) [
    | inl full ↦ rw (full, append-nil seen) run
    | inr room ↦
        let e = envelope_of redact_json limit p (suc log.latest_sequence) in
        rw
          (
            room,
            drop_retained-latest (suc log.latest_sequence) (log.retained ++ e ∷ [])
                log.dropped_through_sequence,
          )
          (IsRun-append_one (λ x. x.sequence) low log.latest_sequence seen e refl run)
  ]

  publishes-sent :
      (ps : List (Publication Value)) (log : EventLog Value) (low : ℕ)
      (seen : List (EventEnvelope Value))
      → EventRun low seen log.latest_sequence
      → EventRun low (seen ++ (publishes log ps).1) (publishes log ps).0.latest_sequence
  publishes-sent [] log low seen run = rw (append-nil seen) run
  publishes-sent (p ∷ ps) log low seen run =
      let (log', r) = publish redact_json limit log p in
      subst (λ l. EventRun low l (publishes log' ps).0.latest_sequence)
        (append_assoc seen (sent_one r) (publishes log' ps).1)
        (publishes-sent ps log' low (seen ++ sent_one r) (publish-sent log p low seen run))

  -- Whoever subscribes at a cursor that is not too new gets a replay which, followed by the envelopes
  -- sent from then on, has every event after the cursor exactly once and in order, except for those
  -- that were dropped before; a gap is reported exactly if there are such, with their bounds.
  pub subscribe-publishes :
      (log : EventLog Value) (cursor : ℕ) (ps : List (Publication Value))
      → Inv redact_json limit log
      → cursor ≤ log.latest_sequence
      → (s : Subscription Value) × (subscribe log cursor ≡ ok s)
        × EventRun
            (max cursor log.dropped_through_sequence)
            (s.replay ++ (publishes log ps).1)
            (publishes log ps).0.latest_sequence
        × (s.gap ≡ missed cursor log.dropped_through_sequence)
  unfolding subscribe
  subscribe-publishes log cursor ps inv known =
      let low = log.dropped_through_sequence in
      let start = max cursor low in
      let sequence : EventEnvelope Value → ℕ = λ e. e.sequence in
      let replay = after sequence start log.retained in
      let all = IsRun-length sequence low log.latest_sequence log.retained inv.numbered in
      (
        record { replay = replay; gap = missed cursor low },
        ground arith,
        publishes-sent ps log start replay (
            IsRun-after sequence low log.latest_sequence start log.retained (omega arith)
              (omega (arith, all, known)) inv.numbered),
        refl,
      )
