-- ===== src/Base64.antt =====
-- apps/web/src/lib/base64.ts: a delta as text. A `Uint8Array` is a list of numbers, and the string of
-- bytes between has the same numbers as code units. `btoa` and `atob` of the browser are parameters.
pub mod RoundTrip
mod Tests
use block_docs.Base.{
  ℕ, zero, suc, ◌+◌, ◌%◌, Option, none, some, [], ◌∷◌, ◌++◌, length, take, drop, ltb, if◌then◌else◌,
}
use block_docs.Text.{Text}
use mathlib.Core.Option

-- `CHUNK`
abbrev pub chunk : ℕ
chunk = 32768

-- The loop. Each round raises `i`, so one round more than there are bytes is enough.
unfoldable pub append_chunks : (bytes : Text) (fuel i : ℕ) (bin : Text) → Option Text
append_chunks bytes zero i bin = none
append_chunks bytes (suc fuel) i bin =
    let rest = append_chunks bytes fuel (i + chunk) (bin ++ take chunk (drop i bytes)) in
    if ltb i (length bytes) then rest else some bin

abbrev pub chunk_fuel : Text → ℕ
chunk_fuel bytes = suc (length bytes)

unfoldable pub bytes_to_b64 : (btoa : Text → Text) (bytes : Text) → Option Text
unfolding append_chunks
bytes_to_b64 btoa bytes = Option.map btoa (append_chunks bytes (chunk_fuel bytes) 0 [])

-- A write to a `Uint8Array` keeps the lowest eight bits.
unfoldable pub as_bytes : Text → Text
as_bytes [] = []
as_bytes (c ∷ bin) = c % 256 ∷ as_bytes bin

unfoldable pub b64_to_bytes : (atob : Text → Text) (b64 : Text) → Text
unfolding as_bytes
b64_to_bytes atob b64 = as_bytes (atob b64)
