-- ===== src/Wrapper/Stream/Complete.antt =====
-- A parser that is told of no gap has seen every chunk (adapter/go/wrapper/stream.go).
use agent_action_visualizer.Wrapper.Stream.Counted.{
  IsCounted, Has-IsCounted, IsUnbroken, IsCounted-unique,
}
use agent_action_visualizer.Prelude.{
  ℕ, suc, ◌+◌, ◌^◌, ◌≤◌, ◌<◌, ◌≡◌, refl, sym, ap, ◌∙◌, subst, false, List, [], ◌∷◌, ◌++◌, arith,
  ltb, length, All, Text, if-elim, All-imply, All-append, All-take_out,
}
use agent_action_visualizer.Wrapper.Stream.{
  starts, numbers, sends, parses, StreamChunk, StreamTap, next_sequence, take_number, send_chunk,
  mark_chunk, number_chunk, Stream, parse_chunk, new_stream_tap, TapReaches, final_chunks,
}
use agent_action_visualizer.Prelude.Sort.Sorted.{Has, here, there}

-- What the tap keeps while no number has wrapped around.
abbrev IsSound : StreamTap → Type 0
IsSound t =
    IsCounted t.offered
    × (t.sequence ≡ length t.offered)
    × All (λ chunk. Has chunk t.offered × (chunk.dropped_before ≡ false)) t.in_flight
    × All (λ chunk. Has chunk t.offered × (chunk.dropped_before ≡ false)) t.queue
    × (IsUnbroken t.parsed
        → IsCounted t.parsed
          × (t.last ≡ length t.parsed)
          × All (λ chunk. Has chunk t.offered) t.parsed)

All-there :
    (chunk : StreamChunk) (offered chunks : List StreamChunk)
    → All (λ c. Has c offered × (c.dropped_before ≡ false)) chunks
    → All (λ c. Has c (chunk ∷ offered) × (c.dropped_before ≡ false)) chunks
All-there chunk offered chunks =
    All-imply (λ c. Has c offered × (c.dropped_before ≡ false))
      (λ c. Has c (chunk ∷ offered) × (c.dropped_before ≡ false)) chunks (λ c h. (there h.0, h.1))

next_sequence_small : (n : ℕ) → n + 1 < 2 ^ 64 → next_sequence n ≡ suc n
unfolding next_sequence
next_sequence_small n small = omega (arith, small)

take_number-IsSound :
    (t : StreamTap) (stream : Stream) (contents : Text)
    → suc (length t.offered) < 2 ^ 64
    → IsSound t
    → IsSound (take_number t stream contents)
unfolding take_number number_chunk
take_number-IsSound t stream contents small (counted, numbered, flying, queued, told) =
    let next : next_sequence t.sequence ≡ suc (length t.offered) =
      next_sequence_small t.sequence (omega (arith, small, numbered)) ∙ ap suc numbered in
    (
      (next, counted),
      next,
      ((here refl, refl), All-there (number_chunk t stream contents) t.offered t.in_flight flying),
      All-there (number_chunk t stream contents) t.offered t.queue queued,
      λ unbroken.
          let (seen, latest, all) = told unbroken in
          (
            seen,
            latest,
            All-imply (λ c. Has c t.offered)
                (λ c. Has c (number_chunk t stream contents ∷ t.offered)) t.parsed (λ c h. there h)
                all,
          ),
    )

send_chunk-IsSound :
    (t : StreamTap) (before after : List StreamChunk) (chunk : StreamChunk)
    → t.in_flight ≡ before ++ chunk ∷ after
    → IsSound t
    → IsSound (send_chunk t chunk (before ++ after))
unfolding send_chunk
send_chunk-IsSound t before after chunk flies (counted, numbered, flying, queued, told) =
    let known = λ (c : StreamChunk). Has c t.offered × (c.dropped_before ≡ false) in
    let rest = All-take_out known before chunk after (subst (All known) flies flying) in
    if-elim IsSound (ltb (length t.queue) t.queue_size) _ _
      (λ _. (
        counted,
        numbered,
        rest.1,
        All-append known t.queue (chunk ∷ []) queued (rest.0, tt),
        told,
      ))
      (λ _. (counted, numbered, rest.1, queued, told))

-- A chunk that the worker does not mark follows the one before it.
mark_chunk-next :
    (last : ℕ) (chunk : StreamChunk)
    → last + 1 < 2 ^ 64
    → 0 < chunk.sequence
    → (mark_chunk last chunk).dropped_before ≡ false
    → chunk.sequence ≡ suc last
unfolding mark_chunk
mark_chunk-next last chunk small positive unmarked =
    ground (arith, next_sequence_small last small, positive, unmarked)

mark_chunk_same :
    (last : ℕ) (chunk : StreamChunk)
    → chunk.dropped_before ≡ false
    → (mark_chunk last chunk).dropped_before ≡ false
    → mark_chunk last chunk ≡ chunk
unfolding mark_chunk
mark_chunk_same last chunk fresh unmarked =
    ap (λ b. record chunk { dropped_before = b }) (unmarked ∙ sym fresh)

length-Has :
    (xs ys : List StreamChunk)
    → IsCounted xs
    → IsCounted ys
    → All (λ chunk. Has chunk ys) xs
    → length xs ≤ length ys
length-Has [] ys cx cy h = omega arith
length-Has (x ∷ xs) ys cx cy h = omega (arith, cx.0, (Has-IsCounted x ys cy h.0).1)

parse_chunk-IsSound :
    (t : StreamTap) (chunk : StreamChunk) (rest : List StreamChunk)
    → t.queue ≡ chunk ∷ rest
    → suc (length t.offered) < 2 ^ 64
    → IsSound t
    → IsSound (parse_chunk t chunk rest)
unfolding parse_chunk
parse_chunk-IsSound t chunk rest queue_is small (counted, numbered, flying, queued, told) =
    let (here_now, behind_it) =
      subst (All (λ c. Has c t.offered × (c.dropped_before ≡ false))) queue_is queued in
    (
      counted,
      numbered,
      flying,
      behind_it,
      λ unbroken.
          let (seen, latest, all) = told unbroken.1 in
          let range = Has-IsCounted chunk t.offered counted here_now.0 in
          let same = mark_chunk_same t.last chunk here_now.1 unbroken.0 in
          let follows =
            mark_chunk-next t.last chunk
              (omega (arith, small, latest, length-Has t.parsed t.offered seen counted all)) range.0
              unbroken.0 in
          (
            (ap (λ (c : StreamChunk). c.sequence) same ∙ follows ∙ ap suc latest, seen),
            follows ∙ ap suc latest,
            (subst (λ c. Has c t.offered) (sym same) here_now.0, all),
          ),
    )

new_stream_tap-IsSound : (queue_size : ℕ) → IsSound (new_stream_tap queue_size)
unfolding new_stream_tap
new_stream_tap-IsSound queue_size = (tt, refl, tt, tt, λ _. (tt, refl, tt))

send_chunk-offered :
    (t : StreamTap) (chunk : StreamChunk) (in_flight : List StreamChunk)
    → (send_chunk t chunk in_flight).offered ≡ t.offered
unfolding send_chunk
send_chunk-offered t chunk in_flight = ground arith

take_number-offered :
    (t : StreamTap) (stream : Stream) (contents : Text)
    → length (take_number t stream contents).offered ≡ suc (length t.offered)
unfolding take_number
take_number-offered t stream contents = refl

parse_chunk-offered :
    (t : StreamTap) (chunk : StreamChunk) (queue : List StreamChunk)
    → (parse_chunk t chunk queue).offered ≡ t.offered
unfolding parse_chunk
parse_chunk-offered t chunk queue = refl

TapReaches-IsSound :
    (queue_size : ℕ) (t : StreamTap)
    → TapReaches queue_size t
    → suc (length t.offered) < 2 ^ 64
    → IsSound t
TapReaches-IsSound queue_size t starts small = new_stream_tap-IsSound queue_size
TapReaches-IsSound queue_size t (numbers t' stream contents r) small =
    let fewer : suc (length t'.offered) < 2 ^ 64 =
      omega (arith, small, take_number-offered t' stream contents) in
    take_number-IsSound t' stream contents fewer (TapReaches-IsSound queue_size t' r fewer)
TapReaches-IsSound queue_size t (sends t' before after chunk r flies) small =
    send_chunk-IsSound t' before after chunk flies (
      TapReaches-IsSound queue_size t' r
        (omega (arith, small, ap length (send_chunk-offered t' chunk (before ++ after)))))
TapReaches-IsSound queue_size t (parses t' chunk rest r queue_is) small =
    let fewer : suc (length t'.offered) < 2 ^ 64 =
      omega (arith, small, ap length (parse_chunk-offered t' chunk rest)) in
    parse_chunk-IsSound t' chunk rest queue_is fewer (TapReaches-IsSound queue_size t' r fewer)

-- Let writers and the worker have taken any steps in any order, with fewer than 2^64 - 1 chunks
-- offered. If neither a chunk that was handed to the parser nor a final one has DroppedBefore set,
-- the parser was handed exactly the offered chunks, in the order of their numbers.
pub unbroken_complete :
    (queue_size : ℕ) (t : StreamTap)
    → TapReaches queue_size t
    → suc (length t.offered) < 2 ^ 64
    → IsUnbroken (final_chunks t ++ t.parsed)
    → t.parsed ≡ t.offered
unfolding final_chunks
unbroken_complete queue_size t r small (stderr_end, (stdout_end, unbroken)) =
    let (counted, numbered, flying, queued, told) = TapReaches-IsSound queue_size t r small in
    let (seen, latest, all) = told unbroken in
    IsCounted-unique t.parsed t.offered seen counted (ground (arith, latest, numbered, stdout_end))
      all
