-- ===== src/Wrapper/Stream/Counted.antt =====
-- Chunks numbered from 1 without a gap (adapter/go/wrapper/stream.go).
use agent_action_visualizer.Prelude.{
  suc, ◌≤◌, ◌<◌, ◌≡◌, refl, ap, inl, inr, false, List, [], ◌∷◌, arith, length, All,
}
use agent_action_visualizer.Wrapper.Stream.{StreamChunk}
use agent_action_visualizer.Prelude.Sort.Sorted.{Has, here, there, Has-cons}

abbrev pub IsUnbroken : List StreamChunk → Type 0
IsUnbroken = All (λ chunk. chunk.dropped_before ≡ false)

-- Numbered from 1, the last chunk first.
abbrev pub IsCounted : List StreamChunk → Type 0
IsCounted [] = Unit
IsCounted (chunk ∷ chunks) = (chunk.sequence ≡ suc (length chunks)) × IsCounted chunks

pub Has-IsCounted :
    (chunk : StreamChunk) (chunks : List StreamChunk)
    → IsCounted chunks
    → Has chunk chunks
    → (0 < chunk.sequence) × (chunk.sequence ≤ length chunks)
Has-IsCounted chunk [] counted h = elim h [ ]
Has-IsCounted chunk (b ∷ chunks) counted (here e) =
    let same = ap (λ (c : StreamChunk). c.sequence) e in
    (omega (arith, same, counted.0), omega (arith, same, counted.0))
Has-IsCounted chunk (b ∷ chunks) counted (there h) =
    let below = Has-IsCounted chunk chunks counted.1 h in (below.0, omega (arith, below.1))

behind :
    (chunk : StreamChunk) (b : StreamChunk) (chunks : List StreamChunk)
    → b.sequence ≡ suc (length chunks)
    → chunk.sequence ≤ length chunks
    → Has chunk (b ∷ chunks)
    → Has chunk chunks
behind chunk b chunks counted low h = elim (Has-cons h) [
  | inl same ↦ absurd (omega (arith, ap (λ (c : StreamChunk). c.sequence) same, counted, low))
  | inr rest ↦ rest
]

All-behind_chunk :
    (xs : List StreamChunk) (b : StreamChunk) (chunks : List StreamChunk)
    → IsCounted xs
    → length xs ≤ length chunks
    → b.sequence ≡ suc (length chunks)
    → All (λ chunk. Has chunk (b ∷ chunks)) xs
    → All (λ chunk. Has chunk chunks) xs
All-behind_chunk [] b chunks counted short last h = tt
All-behind_chunk (x ∷ xs) b chunks counted short last h = (
  behind x b chunks last (omega (arith, counted.0, short)) h.0,
  All-behind_chunk xs b chunks counted.1 (omega (arith, short)) last h.1,
)

-- A counted list whose chunks are all in a counted list of its length is that list.
pub IsCounted-unique :
    (xs ys : List StreamChunk)
    → IsCounted xs
    → IsCounted ys
    → length xs ≡ length ys
    → All (λ chunk. Has chunk ys) xs
    → xs ≡ ys
IsCounted-unique [] [] cx cy same h = refl
IsCounted-unique [] (y ∷ ys) cx cy same h = absurd (omega (arith, same))
IsCounted-unique (x ∷ xs) [] cx cy same h = absurd (omega (arith, same))
IsCounted-unique (x ∷ xs) (y ∷ ys) cx cy same h =
    let tails : length xs ≡ length ys = omega (arith, same) in
    let rest =
      IsCounted-unique xs ys cx.1 cy.1 tails
        (All-behind_chunk xs y ys cx.1 (omega (arith, tails)) cy.0 h.1) in
    elim (Has-cons h.0) [
      | inl first ↦ cc (first, rest)
      | inr lower ↦ absurd (omega (arith, (Has-IsCounted x ys cy.1 lower).1, cx.0, tails))
    ]
