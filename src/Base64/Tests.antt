-- ===== src/Base64/Tests.antt =====
-- The round trip of a delta at concrete input.
use mathlib.Core.Option
use block_docs.Base.{◌≡◌, refl, some, [], ◌∷◌, arith}
use block_docs.Text.{Text}
use block_docs.Base64.{bytes_to_b64, b64_to_bytes}
use block_docs.Base64.RoundTrip.{b64_to_bytes-bytes_to_b64}

abbrev identity : Text → Text
identity s = s

b64_to_bytes-bytes_to_b64_example :
    Option.map (b64_to_bytes identity) (bytes_to_b64 identity (1 ∷ 255 ∷ [])) ≡ some (1 ∷ 255 ∷ [])
b64_to_bytes-bytes_to_b64_example =
    b64_to_bytes-bytes_to_b64 identity identity (1 ∷ 255 ∷ []) (λ bin h. refl)
      (omega arith, (omega arith, tt))
