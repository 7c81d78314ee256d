-- ===== src/Ws/StreamId.antt =====
-- `compareStreamIds` of apps/ws/src/replay.ts. `BigInt` is an argument: it gives a number for a text,
-- or none where the code throws. (A `-` is never in a part, so no number is negative.)
use block_docs.Base.{
  ℕ, ◌≡◌, Option, none, some, get_or, List, [], ◌∷◌, ◌++◌, arith, ltb, ◌==◌, if◌then◌else◌,
  get_elem?,
}
use block_docs.Text.{Text}

-- `s.split('-')`
unfoldable pub split_from : Text → Text → List Text
split_from part [] = part ∷ []
split_from part (c ∷ s) =
    let closed = part ∷ split_from [] s in
    let longer = split_from (part ++ c ∷ []) s in if c == b'-' then closed else longer

abbrev pub zero_text : Text
zero_text = b'0' ∷ []

-- `const [ms = '0', seq = '0'] = s.split('-')`
abbrev pub part_at : ℕ → Text → Text
part_at i s = get_or (get_elem? (split_from [] s) i) zero_text

-- -1, 0 and 1.
pub data Sign : Type 0 where
  below same above : Sign

unfoldable pub compare_numbers : ℕ → ℕ → Sign → Sign
compare_numbers a b otherwise = if a == b then otherwise else if ltb a b then below else above

-- The two parts; the second is read only if the first are equal.
abbrev pub Key : Type 0
Key = Option ℕ × Option ℕ

compare_parts : Option ℕ → Option ℕ → Sign → Option Sign
compare_parts (some a) (some b) otherwise = some (compare_numbers a b otherwise)
compare_parts _ _ otherwise = none

unfoldable pub compare_keys : Key → Key → Option Sign
unfolding compare_parts compare_numbers
compare_keys (some a_ms, a_seq) (some b_ms, b_seq) =
    if a_ms == b_ms
    then compare_parts a_seq b_seq same
    else some (if ltb a_ms b_ms then below else above)
compare_keys _ _ = none

module _ (big_int : Text → Option ℕ) where
  unfoldable pub key : Text → Key
  unfolding split_from
  key s = (big_int (part_at 0 s), big_int (part_at 1 s))

  -- `none` where the code throws.
  unfoldable pub compare_stream_ids : Text → Text → Option Sign
  unfolding key compare_keys
  compare_stream_ids a b = compare_keys (key a) (key b)

abbrev pub flip : Sign → Sign
flip below = above
flip same = same
flip above = below

abbrev pub flip_result : Option Sign → Option Sign
flip_result none = none
flip_result (some s) = some (flip s)

compare_keys_flip : (a b : Key) → compare_keys a b ≡ flip_result (compare_keys b a)
unfolding compare_keys
compare_keys_flip a b = ground arith

compare_keys_trans :
    (a b c : Key)
    → compare_keys a b ≡ some below
    → compare_keys b c ≡ some below
    → compare_keys a c ≡ some below
unfolding compare_keys
compare_keys_trans a b c p q = ground arith

abbrev IsSame : Key → Key → Type 0
IsSame a b = compare_keys a b ≡ some same

compare_keys_same :
    (a b c : Key)
    → IsSame a b
    → (compare_keys a c ≡ compare_keys b c) × (compare_keys c a ≡ compare_keys c b)
unfolding compare_keys
compare_keys_same (some a, some a') (some b, some b') (some c, some c') p =
    (ground arith, ground arith)
compare_keys_same a b c p = (ground arith, ground arith)

module _ (big_int : Text → Option ℕ) where
  -- `compareStreamIds` orders the ids: exchanging its arguments turns the sign, `below` is transitive,
  -- and ids that are `same` compare alike with every third id.
  pub compare_stream_ids_order :
      (a b c : Text)
      → let compare = compare_stream_ids big_int in
        (compare a b ≡ flip_result (compare b a))
        × (compare a b ≡ some below → compare b c ≡ some below → compare a c ≡ some below)
        × (compare a b ≡ some same → compare a c ≡ compare b c)
  unfolding compare_stream_ids
  compare_stream_ids_order a b c = (
    compare_keys_flip (key big_int a) (key big_int b),
    compare_keys_trans (key big_int a) (key big_int b) (key big_int c),
    λ p. (compare_keys_same (key big_int a) (key big_int b) (key big_int c) p).0,
  )
