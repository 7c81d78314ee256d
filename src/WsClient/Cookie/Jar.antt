-- ===== src/WsClient/Cookie/Jar.antt =====
-- The user's number among the other cookies.
use block_docs.Base.{
  ℕ, zero, suc, ◌+◌, ◌-◌, ◌*◌, ◌/◌, ◌%◌, ◌<◌, ◌≡◌, ◌≢◌, refl, sym, ap, ◌∙◌, Bool, true, false, not,
  none, some, List, [], ◌∷◌, ◌++◌, All, arith,
}
use block_docs.Text.{Text}
use block_docs.Ws.Bus.{is_digit, print_from, decimal, strip_prefix}
use block_docs.Ws.Bus.Channel.{strip_prefix-append, print_from-append}
use block_docs.WsClient.Cookie.{
  is_white, skip_spaces, digits, uid_is, digits_found, uid_at, or_later, find_uid, read_uid_cookie,
}

-- What follows a cookie: nothing, or `; ` and the next ones.
unfoldable pub rest_of : List Text → Text
rest_of [] = []
rest_of (t ∷ ts) = b';' ∷ 32 ∷ (t ++ rest_of ts)

-- `document.cookie`
unfoldable pub jar : List Text → Text
unfolding rest_of
jar [] = []
jar (t ∷ ts) = t ++ rest_of ts

abbrev pub uid_cookie : ℕ → Text
uid_cookie n = uid_is ++ decimal n

unfoldable pub starts_plain : Text → Bool
unfolding is_white
starts_plain [] = true
starts_plain (c ∷ s) = not (is_white c)

-- Another cookie: no semicolon, no white space first, and another name.
pub record IsOther (t : Text) : Type 0 where
  pub unspaced : starts_plain t ≡ true
  pub semicolons : All (λ c. c ≢ b';') t
  pub named : strip_prefix uid_is t ≡ none

read_digit :
    (read : Bool) (n d : ℕ) (rest : Text)
    → d < 10
    → digits read n ((b'0' + d) ∷ rest) ≡ digits true (n * 10 + d) rest
unfolding digits is_digit
read_digit read n d rest h =
    ground (arith, ap (λ k. digits true k rest) {x = n * 10 + ((b'0' + d) - b'0')} {y = n * 10 + d})

digits-print_from :
    (fuel n : ℕ) (read : Bool) (rest : Text)
    → n < fuel
    → digits read 0 (print_from fuel n rest) ≡ digits true n rest
unfolding print_from
digits-print_from zero n read rest h = absurd (omega (arith, h))
digits-print_from (suc fuel) n read rest h = ground (
  arith,
  read_digit read 0 n rest,
  read_digit true (n / 10) (n % 10) rest,
  ap (λ k. digits true k rest) {x = (n / 10) * 10 + n % 10} {y = n},
  digits-print_from fuel (n / 10) read ((b'0' + n % 10) ∷ rest),
)

digits-rest_of : (n : ℕ) (ts : List Text) → digits true n (rest_of ts) ≡ some n
unfolding digits rest_of is_digit
digits-rest_of n [] = refl
digits-rest_of n (t ∷ ts) = refl

strip_other :
    (p t s : Text)
    → All (λ c. c ≢ b';') p
    → strip_prefix p t ≡ none
    → strip_prefix p (t ++ b';' ∷ s) ≡ none
unfolding strip_prefix
strip_other [] t s a h = cc
strip_other (c ∷ p) [] s a h = ground (arith, a.0)
strip_other (c ∷ p) (d ∷ t) s a h = ground (arith, strip_other p t s a.1)

skip_plain : (t s : Text) → starts_plain t ≡ true → skip_spaces (t ++ b';' ∷ s) ≡ t ++ b';' ∷ s
unfolding starts_plain skip_spaces is_white
skip_plain [] s h = refl
skip_plain (c ∷ t) s h = ground arith

find_other : (t s : Text) → All (λ c. c ≢ b';') t → find_uid (t ++ s) ≡ find_uid s
unfolding find_uid
find_other [] s a = refl
find_other (c ∷ t) s a = ground (arith, a.0, find_other t s a.1)

uid_at-uid_cookie : (n : ℕ) (ts : List Text) → uid_at (uid_cookie n ++ rest_of ts) ≡ some n
unfolding uid_at digits_found decimal
uid_at-uid_cookie n ts =
    ap digits_found (strip_prefix-append uid_is (decimal n ++ rest_of ts))
    ∙ ap (digits false 0) (print_from-append (suc n) n [] (rest_of ts))
    ∙ digits-print_from (suc n) n false (rest_of ts) (omega arith)
    ∙ digits-rest_of n ts

uid_is-plain : All (λ c. c ≢ b';') uid_is
uid_is-plain = (
  λ e. absurd (omega (arith, e)),
  (
    λ e. absurd (omega (arith, e)),
    (λ e. absurd (omega (arith, e)), (λ e. absurd (omega (arith, e)), tt)),
  ),
)

-- Behind another cookie the search goes on at the next one.
next_cookie :
    (t J : Text)
    → IsOther t
    → skip_spaces J ≡ J
    → read_uid_cookie (t ++ b';' ∷ 32 ∷ J) ≡ read_uid_cookie J
unfolding read_uid_cookie uid_at digits_found
next_cookie t J o e =
    ap (λ x. or_later (digits_found x) (find_uid (t ++ b';' ∷ 32 ∷ J)))
      (strip_other uid_is t (32 ∷ J) uid_is-plain o.named)
    ∙ find_other t (b';' ∷ 32 ∷ J) o.semicolons
    ∙ ap (λ x. or_later (uid_at x) (find_uid J)) e

module _ (n : ℕ) (after : List Text) where
  abbrev from : List Text → List Text
  from before = before ++ uid_cookie n ∷ after

  rest_of-from : (before : List Text) → rest_of (from before) ≡ b';' ∷ 32 ∷ jar (from before)
  unfolding rest_of jar
  rest_of-from [] = refl
  rest_of-from (t ∷ before) = refl

  skip_spaces-jar :
      (before : List Text)
      → All IsOther before
      → skip_spaces (jar (from before)) ≡ jar (from before)
  unfolding jar skip_spaces is_white
  skip_spaces-jar [] a = refl
  skip_spaces-jar (t ∷ before) a =
      ap (λ r. skip_spaces (t ++ r)) (rest_of-from before)
      ∙ skip_plain t (32 ∷ jar (from before)) (a.0).unspaced
      ∙ ap (λ r. t ++ r) (sym (rest_of-from before))

  -- Of all cookies before the user's number none is called `uid`, and none has a semicolon or begins
  -- with white space: then the number is read, whatever cookies follow.
  pub read_uid_cookie-jar :
      (before : List Text) → All IsOther before → read_uid_cookie (jar (from before)) ≡ some n
  unfolding jar read_uid_cookie uid_at
  read_uid_cookie-jar [] a =
      ap (λ o. or_later o (find_uid (uid_cookie n ++ rest_of after))) (uid_at-uid_cookie n after)
  read_uid_cookie-jar (t ∷ before) a =
      ap (λ r. read_uid_cookie (t ++ r)) (rest_of-from before)
      ∙ next_cookie t (jar (from before)) a.0 (skip_spaces-jar before a.1)
      ∙ read_uid_cookie-jar before a.1
