-- ===== src/Wrapper/Stream.antt =====
-- The tap on the child's output (adapter/go/wrapper/stream.go). What the worker hands to the parser
-- is the list `parsed`; lists of chunks have the last chunk first.
pub mod Pieces
pub mod Counted
pub mod Complete
use agent_action_visualizer.Prelude.{
  ℕ, zero, suc, ◌+◌, ◌%◌, ◌^◌, min, ◌≡◌, Bool, true, false, not, ◌&&◌, ◌||◌, Option, none, some,
  List, [], ◌∷◌, ◌++◌, ltb, ◌==◌, if◌then◌else◌, length, Text, take, drop,
}

pub data Stream : Type 0 where
  stdout stderr : Stream

pub record StreamChunk : Type 0 where
  pub stream : Stream
  pub contents : Text
  pub sequence : ℕ
  pub dropped_before : Bool
  pub eof : Bool

abbrev pub max_stream_chunk_bytes : ℕ
max_stream_chunk_bytes = 32768

-- `offered` has every chunk that was given a number, `in_flight` those that are not sent to the
-- channel, and `last` is the worker's variable.
pub record StreamTap : Type 0 where
  pub queue_size : ℕ
  pub queue : List StreamChunk
  pub sequence : ℕ
  pub in_flight : List StreamChunk
  pub offered : List StreamChunk
  pub last : ℕ
  pub parsed : List StreamChunk

unfoldable pub new_stream_tap : ℕ → StreamTap
new_stream_tap queue_size = record {
  queue_size = queue_size;
  queue = [];
  sequence = 0;
  in_flight = [];
  offered = [];
  last = 0;
  parsed = [];
}

-- t.sequence.Add(1) on a uint64.
unfoldable pub next_sequence : ℕ → ℕ
next_sequence n = (n + 1) % 2 ^ 64

unfoldable pub number_chunk : StreamTap → Stream → Text → StreamChunk
unfolding next_sequence
number_chunk t stream contents = record {
  stream = stream;
  contents = contents;
  sequence = next_sequence t.sequence;
  dropped_before = false;
  eof = false;
}

-- The chunk gets its number.
unfoldable pub take_number : StreamTap → Stream → Text → StreamTap
unfolding number_chunk
take_number t stream contents = record t {
  sequence = next_sequence t.sequence;
  in_flight = number_chunk t stream contents ∷ t.in_flight;
  offered = number_chunk t stream contents ∷ t.offered;
}

-- The send to the channel, which drops the chunk when there is no room.
unfoldable pub send_chunk : StreamTap → StreamChunk → List StreamChunk → StreamTap
send_chunk t chunk in_flight =
    if ltb (length t.queue) t.queue_size
    then record t { queue = t.queue ++ chunk ∷ []; in_flight = in_flight }
    else record t { in_flight = in_flight }

-- One round of the loop of offer, when nothing comes between its two steps.
unfoldable pub offer_chunk : StreamTap → Stream → Text → StreamTap
unfolding take_number send_chunk
offer_chunk t stream contents =
    send_chunk (take_number t stream contents) (number_chunk t stream contents) t.in_flight

-- The loop of offer, on fuel.
unfoldable pub offer_rounds : ℕ → StreamTap → Stream → Text → Option StreamTap
unfolding offer_chunk
offer_rounds fuel t stream [] = some t
offer_rounds zero t stream (c ∷ data_left) = none
offer_rounds (suc fuel) t stream (c ∷ data_left) =
    let size = min (length (c ∷ data_left)) max_stream_chunk_bytes in
    offer_rounds fuel (offer_chunk t stream (take size (c ∷ data_left))) stream
      (drop size (c ∷ data_left))

-- `has_parser` is false where the tap or its parser is nil.
unfoldable pub offer_data : Bool → Bool → StreamTap → Stream → Text → Option StreamTap
unfolding offer_rounds
offer_data has_parser finished t stream bytes_written =
    if not has_parser || finished
    then some t
    else offer_rounds (length bytes_written) t stream bytes_written

unfoldable pub mark_chunk : ℕ → StreamChunk → StreamChunk
unfolding next_sequence
mark_chunk last chunk = record chunk {
  dropped_before =
      if last == 0 && ltb 1 chunk.sequence
      then true
      else not (last == 0) && not (chunk.sequence == next_sequence last);
}

-- The worker takes a chunk from the channel.
unfoldable pub parse_chunk : StreamTap → StreamChunk → List StreamChunk → StreamTap
unfolding mark_chunk
parse_chunk t chunk queue = record t {
  queue = queue;
  last = chunk.sequence;
  parsed = mark_chunk t.last chunk ∷ t.parsed;
}

-- The two chunks that the worker hands to the parser when the channel is closed and empty.
unfoldable pub final_chunks : StreamTap → List StreamChunk
final_chunks t =
    record {
      stream = stderr;
      contents = [];
      sequence = (t.sequence + 2) % 2 ^ 64;
      dropped_before = false;
      eof = true;
    }
    ∷ record {
      stream = stdout;
      contents = [];
      sequence = (t.sequence + 1) % 2 ^ 64;
      dropped_before = not (t.sequence == t.last);
      eof = true;
    }
    ∷ []

-- tapWriter.Write, for what the destination answers: the bytes it took and its error.
unfoldable pub tap_write : Bool → Bool → StreamTap → Stream → Text → ℕ → Option StreamTap
unfolding offer_data
tap_write has_parser finished t stream bytes_written written =
    if ltb 0 written
    then offer_data has_parser finished t stream (take written bytes_written)
    else some t

-- Writers and the worker, interleaved: each step is one operation on the counter or the channel.
pub data TapReaches (queue_size : ℕ) : StreamTap → Type 0 where
  starts : TapReaches queue_size (new_stream_tap queue_size)
  numbers :
      (t : StreamTap) (stream : Stream) (contents : Text)
      → TapReaches queue_size t
      → TapReaches queue_size (take_number t stream contents)
  sends :
      (t : StreamTap) (before after : List StreamChunk) (chunk : StreamChunk)
      → TapReaches queue_size t
      → t.in_flight ≡ before ++ chunk ∷ after
      → TapReaches queue_size (send_chunk t chunk (before ++ after))
  parses :
      (t : StreamTap) (chunk : StreamChunk) (rest : List StreamChunk)
      → TapReaches queue_size t
      → t.queue ≡ chunk ∷ rest
      → TapReaches queue_size (parse_chunk t chunk rest)
