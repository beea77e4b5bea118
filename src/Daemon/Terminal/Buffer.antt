-- ===== src/Daemon/Terminal/Buffer.antt =====
-- What `push` of crates/maestrod/src/terminal.rs keeps.
use maestro_app.Prelude.{
  ℕ, suc, ◌+◌, ◌-◌, ◌≤◌, ◌<◌, ◌≡◌, refl, sym, subst, List, [], ◌∷◌, ◌++◌, arith, ltb, length,
  saturating_add, u64_max, inl, inr, Bool-cases,
}
use maestro_app.Daemon.Sequence.{IsRun, IsRun-nil, IsRun-cons, IsRun-append_one}
use maestro_app.Daemon.Terminal.{
  TerminalOutputChunk, OutputBuffer, default_buffer, max_buffered_terminal_bytes, drop_oldest, push,
}

abbrev pub ChunkRun : ℕ → List TerminalOutputChunk → ℕ → Type 0
ChunkRun = IsRun (λ chunk. chunk.sequence)

abbrev pub total_bytes : List TerminalOutputChunk → ℕ
total_bytes [] = 0
total_bytes (chunk ∷ chunks) = length chunk.bytes + total_bytes chunks

-- The count is the number of bytes kept, within the bound, and the chunks kept are the latest ones,
-- numbered without a gap from the last one dropped.
pub record Inv (b : OutputBuffer) : Type 0 where
  pub counted : b.buffered_bytes ≡ total_bytes b.chunks
  pub bounded : b.buffered_bytes ≤ max_buffered_terminal_bytes
  pub numbered : ChunkRun b.dropped_through_sequence b.chunks b.latest_sequence

total_bytes-append_one :
    (chunks : List TerminalOutputChunk) (c : TerminalOutputChunk)
    → total_bytes (chunks ++ c ∷ []) ≡ total_bytes chunks + length c.bytes
total_bytes-append_one [] c = omega arith
total_bytes-append_one (d ∷ chunks) c = omega (arith, total_bytes-append_one chunks c)

drop_oldest-Inv :
    (latest : ℕ) (chunks : List TerminalOutputChunk) (buffered dropped : ℕ)
    → buffered ≡ total_bytes chunks
    → ChunkRun dropped chunks latest
    → Inv (drop_oldest latest chunks buffered dropped)
unfolding drop_oldest
drop_oldest-Inv latest [] buffered dropped e run = record {
  counted = e;
  bounded = omega (arith, e);
  numbered = run;
}
drop_oldest-Inv latest (c ∷ chunks) buffered dropped e run =
    let (_, rest) = IsRun-cons (λ chunk. chunk.sequence) dropped latest c chunks run in
    elim (Bool-cases (ltb max_buffered_terminal_bytes buffered)) [
      | inl over ↦ rw over (
          drop_oldest-Inv latest chunks (buffered - length c.bytes) c.sequence (omega (arith, e))
            rest)
      | inr within ↦ rw within (record { counted = e; bounded = ground arith; numbered = run })
    ]

pub default-Inv : Inv default_buffer
default-Inv = record {
  counted = refl;
  bounded = omega arith;
  numbered = IsRun-nil (λ chunk. chunk.sequence) 0;
}

pub appended :
    (b : OutputBuffer) (c : TerminalOutputChunk)
    → Inv b
    → c.sequence ≡ suc b.latest_sequence
    → ChunkRun b.dropped_through_sequence (b.chunks ++ c ∷ []) c.sequence
appended b c inv e = subst (ChunkRun b.dropped_through_sequence (b.chunks ++ c ∷ [])) (sym e) (
    IsRun-append_one (λ chunk. chunk.sequence) b.dropped_through_sequence b.latest_sequence b.chunks
      c e inv.numbered)

-- Every read from the terminal keeps the buffer's invariant, up to the last sequence number.
pub push-Inv :
    (b : OutputBuffer) (bytes : List ℕ) → Inv b → b.latest_sequence < u64_max → Inv (push b bytes).0
unfolding push
push-Inv b [] inv h = inv
push-Inv b (x ∷ xs) inv h =
    let c : TerminalOutputChunk = record {
      sequence = saturating_add b.latest_sequence 1;
      bytes = x ∷ xs;
    } in
    drop_oldest-Inv (saturating_add b.latest_sequence 1) (b.chunks ++ c ∷ [])
      (b.buffered_bytes + length (x ∷ xs)) b.dropped_through_sequence
      (omega (arith, inv.counted, total_bytes-append_one b.chunks c))
      (appended b c inv (omega (arith, h)))
