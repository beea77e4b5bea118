-- ===== src/Daemon/Events/Retained.antt =====
-- What `publish` of crates/maestrod/src/fake_session.rs keeps.
use maestro_app.Prelude.{
  ℕ, suc, ◌≤◌, ◌≡◌, refl, List, [], ◌∷◌, ◌++◌, arith, ltb, ◌==◌, length, All, All-append, u64_max,
  inl, inr, Bool-cases,
}
use maestro_app.Daemon.Sequence.{IsRun, IsRun-nil, IsRun-cons, IsRun-append_one}
use maestro_app.Daemon.Events.{
  EventEnvelope, EventLog, Publication, empty_log, drop_retained, envelope_of, publish,
}

module _ {Value : Type 0} where
  abbrev pub EventRun : ℕ → List (EventEnvelope Value) → ℕ → Type 0
  EventRun = IsRun (λ e. e.sequence)

  -- An envelope whose payload went through redaction.
  abbrev pub IsRedacted : (Value → Value) → EventEnvelope Value → Type 0
  IsRedacted redact_json e = (payload : Value) × (e.event.payload ≡ redact_json payload)

  -- The envelopes kept are the newest ones, numbered without a gap, at most `limit` of them, and
  -- only redacted payloads are kept.
  pub record Inv (redact_json : Value → Value) (limit : ℕ) (log : EventLog Value) : Type 0 where
    pub numbered : EventRun log.dropped_through_sequence log.retained log.latest_sequence
    pub bounded : length log.retained ≤ limit
    pub redacted : All (IsRedacted redact_json) log.retained
    pub word : log.latest_sequence ≤ u64_max

module _ {Value : Type 0} (redact_json : Value → Value) (limit : ℕ) where
  drop_retained-Inv :
      (latest : ℕ) (retained : List (EventEnvelope Value)) (dropped : ℕ)
      → EventRun dropped retained latest
      → All (IsRedacted redact_json) retained
      → latest ≤ u64_max
      → Inv redact_json limit (drop_retained limit latest retained dropped)
  unfolding drop_retained
  drop_retained-Inv latest [] dropped run red w = record {
    numbered = run;
    bounded = omega arith;
    redacted = red;
    word = w;
  }
  drop_retained-Inv latest (e ∷ retained) dropped run red w =
      let (_, rest) = IsRun-cons (λ x. x.sequence) dropped latest e retained run in
      elim (Bool-cases (ltb limit (length (e ∷ retained)))) [
        | inl over ↦ rw over (drop_retained-Inv latest retained e.sequence rest red.1 w)
        | inr within ↦
            rw within (record { numbered = run; bounded = ground arith; redacted = red; word = w })
      ]

  pub empty_log-Inv : Inv redact_json limit (empty_log {Value = Value})
  empty_log-Inv = record {
    numbered = IsRun-nil (λ e. e.sequence) 0;
    bounded = omega arith;
    redacted = tt;
    word = omega arith;
  }

  -- Publishing keeps the log's invariant whatever is published: the envelopes retained are the
  -- newest ones, without a gap in their numbers, at most `limit` of them, each with a redacted
  -- payload.
  pub publish-Inv :
      (log : EventLog Value) (p : Publication Value)
      → Inv redact_json limit log
      → Inv redact_json limit (publish redact_json limit log p).0
  unfolding publish
  publish-Inv log p inv = elim (Bool-cases (log.latest_sequence == u64_max)) [
    | inl full ↦ rw full inv
    | inr room ↦
        let e = envelope_of redact_json limit p (suc log.latest_sequence) in
        rw room (
          drop_retained-Inv (suc log.latest_sequence) (log.retained ++ e ∷ [])
            log.dropped_through_sequence
            (IsRun-append_one (λ x. x.sequence) log.dropped_through_sequence log.latest_sequence
              log.retained e refl inv.numbered)
            (All-append (IsRedacted redact_json) log.retained (e ∷ []) inv.redacted
              ((p.event.payload, refl), tt))
            (ground (arith, inv.word)))
  ]
