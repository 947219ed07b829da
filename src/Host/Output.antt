-- ===== src/Host/Output.antt =====
-- `relayOutputWriter` of cmd/getsloth/relay_client.go: the shell's output on its way to the relay,
-- in chunks that the protocol allows. base64 is not modelled: a chunk is its bytes.
use getsloth.Base.{
  ℕ, zero, suc, ◌≤◌, List, [], ◌∷◌, ◌++◌, ◌≡◌, refl, arith, length, take, drop, length-take,
  length-drop, take-append-drop, All,
}

abbrev pub max_output_chunk_bytes : ℕ
max_output_chunk_bytes = 65536

-- The loop of `Write`, with `protocol.MaxOutputChunkBytes` for the limit: the chunks that are sent.
-- Each turn takes at least one byte, so the number of bytes is fuel enough.
unfoldable pub output_chunks : ℕ → ℕ → List ℕ → List (List ℕ)
output_chunks limit zero bytes = []
output_chunks limit (suc fuel) [] = []
output_chunks limit (suc fuel) (b ∷ bytes) =
    let chunk = take limit (b ∷ bytes) in
    chunk ∷ output_chunks limit fuel (drop (length chunk) (b ∷ bytes))

-- The number of bytes it reports, whatever the relay does, and the chunks.
unfoldable pub output_write : List ℕ → ℕ × List (List ℕ)
unfolding output_chunks
output_write bytes = (length bytes, output_chunks max_output_chunk_bytes (length bytes) bytes)

abbrev pub joined : List (List ℕ) → List ℕ
joined [] = []
joined (c ∷ cs) = c ++ joined cs

abbrev IsChunk : ℕ → List ℕ → Type 0
IsChunk limit c = (1 ≤ length c) × (length c ≤ limit)

take_all : (limit : ℕ) (bytes : List ℕ) → drop (length (take limit bytes)) bytes ≡ drop limit bytes
take_all zero bytes = refl
take_all (suc limit) [] = refl
take_all (suc limit) (b ∷ bytes) = take_all limit bytes

take-IsChunk : (limit b : ℕ) (bytes : List ℕ) → 1 ≤ limit → IsChunk limit (take limit (b ∷ bytes))
take-IsChunk limit b bytes some_room =
    (omega (arith, length-take limit (b ∷ bytes)), omega (arith, length-take limit (b ∷ bytes)))

module _ (limit : ℕ) (some_room : 1 ≤ limit) where
  -- Reading the chunks in order gives back what was written.
  output_chunks-joined :
      (fuel : ℕ) (bytes : List ℕ)
      → length bytes ≤ fuel
      → joined (output_chunks limit fuel bytes) ≡ bytes
  unfolding output_chunks
  output_chunks-joined zero [] enough = refl
  output_chunks-joined zero (b ∷ bytes) enough = absurd (omega arith)
  output_chunks-joined (suc fuel) [] enough = refl
  output_chunks-joined (suc fuel) (b ∷ bytes) enough =
      rw
        (
          take_all limit (b ∷ bytes),
          output_chunks-joined fuel (drop limit (b ∷ bytes))
              (omega (arith, length-drop limit (b ∷ bytes))),
        )
        (take-append-drop limit (b ∷ bytes))

  output_chunks-bounded :
      (fuel : ℕ) (bytes : List ℕ) → All (IsChunk limit) (output_chunks limit fuel bytes)
  unfolding output_chunks
  output_chunks-bounded zero bytes = tt
  output_chunks-bounded (suc fuel) [] = tt
  output_chunks-bounded (suc fuel) (b ∷ bytes) =
      (take-IsChunk limit b bytes some_room, output_chunks-bounded fuel _)

-- `Write` reports every byte as written, and what it sends is exactly what it was given, cut into
-- messages of 1 to 65536 bytes.
pub output_write_complete :
    (bytes : List ℕ)
    → let (count, chunks) = output_write bytes in
      (count ≡ length bytes)
      × (joined chunks ≡ bytes)
      × All (λ c. (1 ≤ length c) × (length c ≤ max_output_chunk_bytes)) chunks
unfolding output_write
output_write_complete bytes = (
  refl,
  output_chunks-joined max_output_chunk_bytes (omega arith) (length bytes) bytes (omega arith),
  output_chunks-bounded max_output_chunk_bytes (omega arith) (length bytes) bytes,
)
