-- ===== src/Wrapper/Stream/Pieces.antt =====
-- The loop of offer cuts the written bytes into bounded chunks and ends
-- (adapter/go/wrapper/stream.go).
use agent_action_visualizer.Wrapper.Stream.{
  max_stream_chunk_bytes, StreamTap, offer_rounds, offer_data, Stream, offer_chunk,
}
use agent_action_visualizer.Prelude.{
  ℕ, zero, suc, ◌≤◌, ◌<◌, min, ◌≡◌, refl, ap, ◌∙◌, true, false, some, List, [], ◌∷◌, ◌++◌, arith,
  length, All, Text, take, drop, take-drop, length-take, length-drop,
}

abbrev pub concat : List Text → Text
concat [] = []
concat (piece ∷ pieces) = piece ++ concat pieces

abbrev pub IsPiece : Text → Type 0
IsPiece piece = (0 < length piece) × (length piece ≤ max_stream_chunk_bytes)

abbrev pub offer_pieces : StreamTap → Stream → List Text → StreamTap
offer_pieces t stream [] = t
offer_pieces t stream (piece ∷ pieces) = offer_pieces (offer_chunk t stream piece) stream pieces

offer_rounds-pieces :
    (fuel : ℕ) (t : StreamTap) (stream : Stream) (s : Text)
    → length s ≤ fuel
    → (pieces : List Text) × (concat pieces ≡ s)
      × All IsPiece pieces
      × (offer_rounds fuel t stream s ≡ some (offer_pieces t stream pieces))
unfolding offer_rounds
offer_rounds-pieces fuel t stream [] enough = ([], refl, tt, refl)
offer_rounds-pieces zero t stream (c ∷ s) enough = absurd (omega (arith, enough))
offer_rounds-pieces (suc fuel) t stream (c ∷ s) enough =
    let size = min (length (c ∷ s)) max_stream_chunk_bytes in
    let shorter = length-drop size (c ∷ s) in
    let measured = length-take size (c ∷ s) in
    let (pieces, whole, bounded, ends) =
      offer_rounds-pieces fuel (offer_chunk t stream (take size (c ∷ s))) stream (drop size (c ∷ s))
        (omega (arith, shorter, enough)) in
    (
      take size (c ∷ s) ∷ pieces,
      ap (◌++◌ (take size (c ∷ s))) whole ∙ take-drop size (c ∷ s),
      ((omega (arith, measured), omega (arith, measured)), bounded),
      ends,
    )

-- The loop of offer ends on any data, within one round for each byte. It offers, in order, pieces
-- that together are the data, none of them empty and none larger than the limit.
pub offer_data-pieces :
    (t : StreamTap) (stream : Stream) (s : Text)
    → (pieces : List Text) × (concat pieces ≡ s)
      × All IsPiece pieces
      × (offer_data true false t stream s ≡ some (offer_pieces t stream pieces))
unfolding offer_data
offer_data-pieces t stream s = offer_rounds-pieces (length s) t stream s (omega arith)
