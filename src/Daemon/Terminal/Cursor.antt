-- ===== src/Daemon/Terminal/Cursor.antt =====
-- What a client of `poll` of crates/maestrod/src/terminal.rs can rely on.
use maestro_app.Prelude.{
  ℕ, ◌+◌, ◌≤◌, ◌<◌, ◌≡◌, ◌↔◌, refl, ap, subst, true, List, [], ◌∷◌, ◌++◌, arith, ltb, ltb→lt,
  if◌then◌else◌, length, All, max, ok, err, inl, inr, Bool-cases, none, some,
}
use maestro_app.Daemon.Sequence.{IsRun-take, IsRun-length, IsRun-after, after, last_or}
use maestro_app.Daemon.Terminal.{
  TerminalOutputChunk, OutputBuffer, PollResult, cursor_newer, collect, poll,
  terminal_read_chunk_bytes,
}
use maestro_app.Daemon.Terminal.Buffer.{ChunkRun, Inv, total_bytes}

abbrev pub unseen : OutputBuffer → ℕ → List TerminalOutputChunk
unseen b cursor = after (λ chunk. chunk.sequence) cursor b.chunks

-- The loop takes a first part, within the limit.
collect-prefix :
    (maximum bytes : ℕ) (chunks : List TerminalOutputChunk)
    → bytes ≤ maximum
    → (rest : List TerminalOutputChunk) × (chunks ≡ collect maximum bytes chunks ++ rest)
      × (bytes + total_bytes (collect maximum bytes chunks) ≤ maximum)
unfolding collect
collect-prefix maximum bytes [] h = ([], refl, omega arith)
collect-prefix maximum bytes (c ∷ chunks) h =
    elim (Bool-cases (ltb maximum (bytes + length c.bytes))) [
      | inl over ↦ rw over (c ∷ chunks, refl, omega arith)
      | inr fits ↦
          let (rest, split, total) =
            collect-prefix maximum (bytes + length c.bytes) chunks (ground arith) in
          rw fits (rest, ap (◌∷◌ c) split, omega (arith, total))
    ]

-- The cursor is refused exactly if it lies past the newest output.
pub poll-err_iff :
    (b : OutputBuffer) (cursor maximum : ℕ)
    → (poll b cursor maximum ≡ err cursor_newer) ↔ (b.latest_sequence < cursor)
unfolding poll
poll-err_iff b cursor maximum = ground arith

abbrev answer : OutputBuffer → ℕ → ℕ → PollResult
answer b cursor maximum =
    let overflowed = ltb cursor b.dropped_through_sequence in
    let start = max cursor b.dropped_through_sequence in
    let chunks = collect maximum 0 (unseen b start) in
    record {
      chunks = chunks;
      next_sequence = last_or (λ chunk. chunk.sequence) start chunks;
      latest_sequence = b.latest_sequence;
      overflowed = overflowed;
      dropped_through_sequence = if overflowed then some b.dropped_through_sequence else none;
    }

poll-answer :
    (b : OutputBuffer) (cursor maximum : ℕ) (r : PollResult)
    → poll b cursor maximum ≡ ok r
    → (cursor ≤ b.latest_sequence) × (answer b cursor maximum ≡ r)
unfolding poll
poll-answer b cursor maximum r e = ground arith

abbrev pub Answers : OutputBuffer → ℕ → ℕ → PollResult → Type 0
Answers b cursor maximum r =
    ((rest : List TerminalOutputChunk) × (unseen b (max cursor b.dropped_through_sequence)
        ≡ r.chunks ++ rest))
    × ChunkRun (max cursor b.dropped_through_sequence) r.chunks r.next_sequence
    × (total_bytes r.chunks ≤ maximum)
    × ((r.overflowed ≡ true) ↔ (cursor < b.dropped_through_sequence))
    × (cursor ≤ r.next_sequence)
    × (r.next_sequence ≤ b.latest_sequence)

answer-Answers :
    (b : OutputBuffer) (cursor maximum : ℕ)
    → Inv b
    → cursor ≤ b.latest_sequence
    → Answers b cursor maximum (answer b cursor maximum)
answer-Answers b cursor maximum inv known =
    let start = max cursor b.dropped_through_sequence in
    let low = b.dropped_through_sequence in
    let high = b.latest_sequence in
    let sequence : TerminalOutputChunk → ℕ = λ chunk. chunk.sequence in
    let all = IsRun-length sequence low high b.chunks inv.numbered in
    let fresh =
      IsRun-after sequence low high start b.chunks (omega arith) (omega (arith, all, known))
        inv.numbered in
    let (rest, split, total) = collect-prefix maximum 0 (unseen b start) (omega arith) in
    let taken = collect maximum 0 (unseen b start) in
    let (front, back) =
      IsRun-take sequence start high taken rest (subst (λ l. ChunkRun start l high) split fresh) in
    let n = IsRun-length sequence start (last_or sequence start taken) taken front in
    let m = IsRun-length sequence (last_or sequence start taken) high rest back in
    ((rest, split), front, omega (arith, total), ground arith, omega (arith, n), omega (arith, m))

-- A poll that answers returns the first of the buffered chunks that the reader has not seen, within
-- the byte limit. They are numbered without a gap from the cursor, or from the last chunk dropped
-- where that is later, up to the cursor for the next poll, which is never behind the old one nor
-- past the newest output. The poll reports an overflow exactly if chunks after the cursor were
-- dropped.
pub poll-ok :
    (b : OutputBuffer) (cursor maximum : ℕ) (r : PollResult)
    → Inv b
    → poll b cursor maximum ≡ ok r
    → ((rest : List TerminalOutputChunk) × (unseen b (max cursor b.dropped_through_sequence)
          ≡ r.chunks ++ rest))
      × ChunkRun (max cursor b.dropped_through_sequence) r.chunks r.next_sequence
      × (total_bytes r.chunks ≤ maximum)
      × ((r.overflowed ≡ true) ↔ (cursor < b.dropped_through_sequence))
      × (cursor ≤ r.next_sequence)
      × (r.next_sequence ≤ b.latest_sequence)
poll-ok b cursor maximum r inv e =
    let (known, same) = poll-answer b cursor maximum r e in
    subst (Answers b cursor maximum) same (answer-Answers b cursor maximum inv known)

-- No chunk is larger than one read from the terminal.
abbrev pub FitsRead : TerminalOutputChunk → Type 0
FitsRead chunk = length chunk.bytes ≤ terminal_read_chunk_bytes

collect-first :
    (maximum : ℕ) (c : TerminalOutputChunk) (chunks : List TerminalOutputChunk)
    → length c.bytes ≤ maximum
    → (rest : List TerminalOutputChunk) × (collect maximum 0 (c ∷ chunks) ≡ c ∷ rest)
unfolding collect
collect-first maximum c chunks h = (collect maximum (0 + length c.bytes) chunks, ground arith)

collect_progress :
    (maximum start high : ℕ) (chunks : List TerminalOutputChunk)
    → All FitsRead chunks
    → terminal_read_chunk_bytes ≤ maximum
    → ChunkRun start chunks high
    → start < high
    → ChunkRun start
        (collect maximum 0 chunks)
        (last_or (λ chunk. chunk.sequence) start (collect maximum 0 chunks))
    → start < last_or (λ chunk. chunk.sequence) start (collect maximum 0 chunks)
collect_progress maximum start high [] fits enough run h front =
    absurd (omega (arith, IsRun-length (λ chunk. chunk.sequence) start high [] run))
collect_progress maximum start high (c ∷ chunks) fits enough run h front =
    let sequence : TerminalOutputChunk → ℕ = λ chunk. chunk.sequence in
    let (rest, e) = collect-first maximum c chunks (omega (arith, fits.0)) in
    omega (
      arith,
      ap length e,
      IsRun-length sequence start (last_or sequence start (collect maximum 0 (c ∷ chunks)))
          (collect maximum 0 (c ∷ chunks)) front,
    )

All-after :
    (cursor : ℕ) (chunks : List TerminalOutputChunk)
    → All FitsRead chunks
    → All FitsRead (after (λ chunk. chunk.sequence) cursor chunks)
unfolding after
All-after cursor [] h = tt
All-after cursor (c ∷ chunks) h = elim (Bool-cases (ltb cursor c.sequence)) [
  | inl later ↦ rw later (h.0, All-after cursor chunks h.1)
  | inr seen ↦ rw seen (All-after cursor chunks h.1)
]

answer_progress :
    (b : OutputBuffer) (cursor maximum : ℕ)
    → Inv b
    → All FitsRead b.chunks
    → terminal_read_chunk_bytes ≤ maximum
    → cursor < b.latest_sequence
    → cursor ≤ b.latest_sequence
    → cursor < (answer b cursor maximum).next_sequence
answer_progress b cursor maximum inv fits enough behind known =
    let start = max cursor b.dropped_through_sequence in
    let low = b.dropped_through_sequence in
    let high = b.latest_sequence in
    let sequence : TerminalOutputChunk → ℕ = λ chunk. chunk.sequence in
    let all = IsRun-length sequence low high b.chunks inv.numbered in
    let fresh =
      IsRun-after sequence low high start b.chunks (omega arith) (omega (arith, all, known))
        inv.numbered in
    let (_, front, _, _, _, _) = answer-Answers b cursor maximum inv known in
    elim (Bool-cases (ltb start high)) [
      | inl more ↦ omega (
        arith,
        collect_progress maximum start high (unseen b start) (All-after start b.chunks fits) enough
            fresh (ltb→lt start high more) front,
      )
      | inr done ↦ ground (
        arith,
        IsRun-length sequence start (answer b cursor maximum).next_sequence
            (answer b cursor maximum).chunks front,
      )
    ]

-- A poll of the least size that `read` admits, or more, makes progress: if the buffered chunks are
-- reads of the terminal, a reader behind the newest output gets an answer with a cursor further on.
pub poll_progress :
    (b : OutputBuffer) (cursor maximum : ℕ)
    → Inv b
    → All FitsRead b.chunks
    → terminal_read_chunk_bytes ≤ maximum
    → cursor < b.latest_sequence
    → (r : PollResult) × (poll b cursor maximum ≡ ok r) × (cursor < r.next_sequence)
unfolding poll
poll_progress b cursor maximum inv fits enough behind = (
  answer b cursor maximum,
  ground arith,
  answer_progress b cursor maximum inv fits enough behind (omega arith),
)
