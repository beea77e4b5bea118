-- ===== src/Daemon/Terminal/Stream.antt =====
-- The buffer of crates/maestrod/src/terminal.rs as a window on all that the terminal wrote.
use maestro_app.Prelude.{
  ℕ, Bool, ◌+◌, ◌-◌, ◌≤◌, ◌<◌, ◌≡◌, refl, ap, sym, ◌∙◌, subst, true, false, List, [], ◌∷◌, ◌++◌,
  map, arith, ltb, length, drop, retain, saturating_add, u64_max, inl, inr, Bool-cases,
  length-append, drop_more, drop-append_one, append-nil, append_assoc,
}
use maestro_app.Daemon.Sequence.{IsRun-cons, IsRun-length}
use maestro_app.Daemon.Terminal.{
  TerminalOutputChunk, OutputBuffer, default_buffer, max_buffered_terminal_bytes, drop_oldest, push,
}
use maestro_app.Daemon.Terminal.Buffer.{ChunkRun, Inv, total_bytes, push-Inv, appended, default-Inv}

-- Reads, one after the other.
abbrev pub pushes : OutputBuffer → List (List ℕ) → OutputBuffer
pushes b [] = b
pushes b (bytes ∷ reads) = pushes (push b bytes).0 reads

-- What the terminal wrote, a chunk for each read that is not empty.
abbrev pub is_chunk : List ℕ → Bool
is_chunk [] = false
is_chunk (x ∷ xs) = true

abbrev pub written : List (List ℕ) → List (List ℕ)
written = retain is_chunk

abbrev pub contents : OutputBuffer → List (List ℕ)
contents b = map (λ chunk. chunk.bytes) b.chunks

drop_oldest-contents :
    (stream : List (List ℕ)) (latest : ℕ) (chunks : List TerminalOutputChunk) (buffered dropped : ℕ)
    → map (λ chunk. chunk.bytes) chunks ≡ drop dropped stream
    → ChunkRun dropped chunks latest
    → contents (drop_oldest latest chunks buffered dropped)
      ≡ drop (drop_oldest latest chunks buffered dropped).dropped_through_sequence stream
unfolding drop_oldest
drop_oldest-contents stream latest [] buffered dropped e run = e
drop_oldest-contents stream latest (c ∷ chunks) buffered dropped e run =
    let (numbered, rest) = IsRun-cons (λ chunk. chunk.sequence) dropped latest c chunks run in
    elim (Bool-cases (ltb max_buffered_terminal_bytes buffered)) [
      | inl over ↦ rw over (
          drop_oldest-contents stream latest chunks (buffered - length c.bytes) c.sequence
            (rw numbered (drop_more dropped stream _ c.bytes e)) rest)
      | inr within ↦ rw within e
    ]

drop_oldest-latest :
    (latest : ℕ) (chunks : List TerminalOutputChunk) (buffered dropped : ℕ)
    → (drop_oldest latest chunks buffered dropped).latest_sequence ≡ latest
unfolding drop_oldest
drop_oldest-latest latest [] buffered dropped = refl
drop_oldest-latest latest (c ∷ chunks) buffered dropped =
    ground (arith, drop_oldest-latest latest chunks (buffered - length c.bytes) c.sequence)

-- The buffer is a window on `stream`, which has a chunk for each sequence number given so far.
pub record Window (b : OutputBuffer) (stream : List (List ℕ)) : Type 0 where
  pub inv : Inv b
  pub count : length stream ≡ b.latest_sequence
  pub kept : contents b ≡ drop b.dropped_through_sequence stream

map-append_one :
    (chunks : List TerminalOutputChunk) (c : TerminalOutputChunk)
    → map (λ chunk. chunk.bytes) (chunks ++ c ∷ [])
      ≡ map (λ chunk. chunk.bytes) chunks ++ c.bytes ∷ []
map-append_one [] c = refl
map-append_one (d ∷ chunks) c = ap (◌∷◌ d.bytes) (map-append_one chunks c)

push-Window :
    (b : OutputBuffer) (x : ℕ) (xs : List ℕ) (stream : List (List ℕ))
    → Window b stream
    → b.latest_sequence < u64_max
    → Window (push b (x ∷ xs)).0 (stream ++ (x ∷ xs) ∷ [])
unfolding push
push-Window b x xs stream w h =
    let c : TerminalOutputChunk = record {
      sequence = saturating_add b.latest_sequence 1;
      bytes = x ∷ xs;
    } in
    record {
      inv = push-Inv b (x ∷ xs) w.inv h;
      count = omega (
        arith,
        length-append stream ((x ∷ xs) ∷ []),
        w.count,
        drop_oldest-latest c.sequence (b.chunks ++ c ∷ []) (b.buffered_bytes + length c.bytes)
            b.dropped_through_sequence,
      );
      kept =
          drop_oldest-contents (stream ++ (x ∷ xs) ∷ []) c.sequence (b.chunks ++ c ∷ [])
            (b.buffered_bytes + length c.bytes) b.dropped_through_sequence
            (map-append_one b.chunks c
              ∙ ap (λ l. l ++ (x ∷ xs) ∷ []) w.kept
              ∙ sym (
                  drop-append_one b.dropped_through_sequence stream (x ∷ xs) (
                    omega (
                      arith,
                      w.count,
                      IsRun-length (λ chunk. chunk.sequence) b.dropped_through_sequence
                          b.latest_sequence b.chunks w.inv.numbered,
                    ))))
            (appended b c w.inv (omega (arith, h)));
    }

pushes-Window :
    (reads : List (List ℕ)) (b : OutputBuffer) (stream : List (List ℕ))
    → Window b stream
    → length stream + length reads ≤ u64_max
    → Window (pushes b reads) (stream ++ written reads)
unfolding push
pushes-Window [] b stream w h = subst (Window b) (sym (append-nil stream)) w
pushes-Window ([] ∷ reads) b stream w h = pushes-Window reads b stream w (omega arith)
pushes-Window ((x ∷ xs) ∷ reads) b stream w h =
    subst (Window (pushes (push b (x ∷ xs)).0 reads))
      (append_assoc stream ((x ∷ xs) ∷ []) (written reads))
      (pushes-Window reads (push b (x ∷ xs)).0 (stream ++ (x ∷ xs) ∷ [])
        (push-Window b x xs stream w (omega (arith, w.count)))
        (omega (arith, length-append stream ((x ∷ xs) ∷ []))))

-- After any sequence of reads the buffer holds, byte for byte, all that the terminal wrote except
-- the chunks up to `dropped_through_sequence`, in at most the permitted number of bytes.
pub pushes-Retained :
    (reads : List (List ℕ))
    → length reads ≤ u64_max
    → (contents (pushes default_buffer reads)
        ≡ drop (pushes default_buffer reads).dropped_through_sequence (written reads))
      × ((pushes default_buffer reads).latest_sequence ≡ length (written reads))
      × (total_bytes (pushes default_buffer reads).chunks ≤ max_buffered_terminal_bytes)
pushes-Retained reads h =
    let w =
      pushes-Window reads default_buffer []
        (record { inv = default-Inv; count = refl; kept = refl }) (omega (arith, h)) in
    (w.kept, sym w.count, omega (arith, w.inv.counted, w.inv.bounded))
