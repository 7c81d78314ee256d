-- ===== src/WsClient/Cookie.antt =====
-- `readUidCookie` of apps/web/src/lib/ws.ts: the regular expression `(?:^|;\s*)uid=(\d+)` on the
-- browser's cookies. White space is that of ASCII.
pub mod Jar
use block_docs.Base.{
  ℕ, ◌+◌, ◌-◌, ◌*◌, Bool, true, false, ◌||◌, ◌&&◌, Option, none, some, [], ◌∷◌, leb, ◌==◌,
  if◌then◌else◌,
}
use block_docs.Text.{Text, codes}
use block_docs.Ws.Bus.{is_digit, strip_prefix}

-- `\s`
unfoldable pub is_white : ℕ → Bool
is_white c = (c == 32) || (leb 9 c && leb c 13)

unfoldable pub skip_spaces : Text → Text
unfolding is_white
skip_spaces [] = []
skip_spaces (c ∷ s) = if is_white c then skip_spaces s else c ∷ s

-- `(\d+)` with what comes behind; `read` tells whether a digit came already.
unfoldable pub digits : Bool → ℕ → Text → Option ℕ
unfolding is_digit
digits read n [] = if read then some n else none
digits read n (c ∷ s) =
    if is_digit c then digits true (n * 10 + (c - b'0')) s else if read then some n else none

abbrev pub uid_is : Text
uid_is = codes "uid="

unfoldable pub digits_found : Option Text → Option ℕ
unfolding digits
digits_found none = none
digits_found (some s) = digits false 0 s

-- `uid=(\d+)` at the start of a text.
unfoldable pub uid_at : Text → Option ℕ
unfolding digits_found strip_prefix
uid_at s = digits_found (strip_prefix uid_is s)

abbrev pub or_later : Option ℕ → Option ℕ → Option ℕ
or_later none o = o
or_later (some n) o = some n

-- The matches that begin with a semicolon, from left to right.
unfoldable pub find_uid : Text → Option ℕ
unfolding uid_at skip_spaces
find_uid [] = none
find_uid (c ∷ s) =
    let later = find_uid s in if c == b';' then or_later (uid_at (skip_spaces s)) later else later

unfoldable pub read_uid_cookie : (cookie : Text) → Option ℕ
unfolding uid_at find_uid
read_uid_cookie cookie = or_later (uid_at cookie) (find_uid cookie)
