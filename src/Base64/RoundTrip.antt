-- ===== src/Base64/RoundTrip.antt =====
-- What `bytesToB64` of apps/web/src/lib/base64.ts writes, `b64ToBytes` reads.
use mathlib.Core.Option
use block_docs.Base.{
  ℕ, zero, suc, ◌+◌, ◌≤◌, ◌<◌, ◌≡◌, refl, sym, ap, ap₂, ◌∙◌, arith, some, [], ◌∷◌, ◌++◌, length,
  take, drop, ltb, false, All, Bool-cases, inl, inr,
}
use block_docs.Text.{Text}
use block_docs.Base64.{chunk, append_chunks, bytes_to_b64, as_bytes, b64_to_bytes}

take_all : (n : ℕ) (xs : Text) → length xs ≤ n → take n xs ≡ xs
take_all zero [] h = refl
take_all zero (x ∷ xs) h = absurd (omega (arith, h))
take_all (suc n) [] h = refl
take_all (suc n) (x ∷ xs) h = ap (λ l. x ∷ l) (take_all n xs (omega (arith, h)))

take-nil : (n : ℕ) → take {A = ℕ} n [] ≡ []
take-nil zero = refl
take-nil (suc n) = refl

take_add : (n k : ℕ) (xs : Text) → take n xs ++ take k (drop n xs) ≡ take (n + k) xs
take_add zero k xs = ap (λ m. take m xs) (omega arith)
take_add (suc n) k [] = take-nil k ∙ sym (take-nil (suc n + k))
take_add (suc n) k (x ∷ xs) =
    let sum : suc (n + k) ≡ suc n + k = omega arith in
    ap (λ l. x ∷ l) (take_add n k xs) ∙ ap (λ m. take m (x ∷ xs)) sum

-- The rounds from `i` on, where what was read stands in `bin`.
append_chunks-ends :
    (bytes : Text) (fuel i : ℕ) (bin : Text)
    → bin ≡ take i bytes
    → length bytes ≤ fuel + i
    → append_chunks bytes (suc fuel) i bin ≡ some bytes
unfolding append_chunks
append_chunks-ends bytes zero i bin e h =
    let above : ltb i (length bytes) ≡ false = ground (arith, h) in
    rw above (ap some (e ∙ take_all i bytes (omega (arith, h))))
append_chunks-ends bytes (suc fuel) i bin e h = elim (Bool-cases (ltb i (length bytes))) [
  | inl below ↦ rw below (
      append_chunks-ends bytes fuel (i + chunk) (bin ++ take chunk (drop i bytes))
        (ap (λ b. b ++ take chunk (drop i bytes)) e ∙ take_add i chunk bytes) (omega (arith, h)))
  | inr above ↦ rw above (ap some (e ∙ take_all i bytes (ground (arith, above))))
]

as_bytes-IsByte : (bytes : Text) → All (λ c. c < 256) bytes → as_bytes bytes ≡ bytes
unfolding as_bytes
as_bytes-IsByte [] h = refl
as_bytes-IsByte (c ∷ bytes) h = ap₂ (λ x l. x ∷ l) (omega (arith, h.0)) (as_bytes-IsByte bytes h.1)

-- For every list of bytes the loop ends, and `b64ToBytes` gives the bytes back, where `atob` reads
-- what `btoa` writes for a string of bytes.
pub b64_to_bytes-bytes_to_b64 :
    (btoa atob : Text → Text) (bytes : Text)
    → ((bin : Text) → All (λ c. c < 256) bin → atob (btoa bin) ≡ bin)
    → All (λ c. c < 256) bytes
    → Option.map (b64_to_bytes atob) (bytes_to_b64 btoa bytes) ≡ some bytes
unfolding bytes_to_b64 b64_to_bytes
b64_to_bytes-bytes_to_b64 btoa atob bytes reads h =
    ap (λ o. Option.map (b64_to_bytes atob) (Option.map btoa o))
      (append_chunks-ends bytes (length bytes) 0 [] refl (omega arith))
    ∙ ap (λ bin. some (as_bytes bin)) (reads bytes h)
    ∙ ap some (as_bytes-IsByte bytes h)
