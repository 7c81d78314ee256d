-- ===== src/Ws/Bus.antt =====
-- apps/ws/src/bus.ts, and `channelFor` of room.ts. The channel's text is read by the regular
-- expression `^doc:(\d+):bus$`. `JSON.parse` is an argument of those who call `on_message`: `none`
-- is a message that it refuses. (`Number` of the digits is exact: ids stay below 2^53.)
pub mod Channel
use block_docs.Base.{
  ℕ, zero, suc, ◌+◌, ◌-◌, ◌*◌, ◌/◌, ◌%◌, String, Bool, true, false, ◌&&◌, Option, none, some, List,
  [], ◌∷◌, ◌++◌, ite, ltb, leb, ◌==◌, if◌then◌else◌, string_discrete,
}
use block_docs.Text.{Text, codes}
use block_docs.Ws.Protocol.{ServerMessage, BusEnvelope}
use block_docs.Ws.Room.{Registry, Sends, broadcast_local}

unfoldable pub is_digit : ℕ → Bool
is_digit c = leb b'0' c && leb c b'9'

-- `${n}` of a natural number: the last digits first, and `fuel` above the number.
unfoldable pub print_from : ℕ → ℕ → Text → Text
print_from zero n rest = rest
print_from (suc fuel) n rest =
    let more = print_from fuel (n / 10) ((b'0' + n % 10) ∷ rest) in
    if ltb n 10 then (b'0' + n) ∷ rest else more

unfoldable pub decimal : ℕ → Text
unfolding print_from
decimal n = print_from (suc n) n []

-- `Number` of digits.
unfoldable pub value_from : ℕ → Text → ℕ
value_from n [] = n
value_from n (c ∷ s) = value_from (n * 10 + (c - b'0')) s

abbrev pub prefix : Text
prefix = codes "doc:"

abbrev pub suffix : Text
suffix = codes ":bus"

-- `doc:${id}:bus`
unfoldable pub channel_for : ℕ → Text
unfolding decimal
channel_for id = prefix ++ (decimal id ++ suffix)

unfoldable pub strip_prefix : Text → Text → Option Text
strip_prefix [] s = some s
strip_prefix (c ∷ p) [] = none
strip_prefix (c ∷ p) (d ∷ s) = if c == d then strip_prefix p s else none

-- What the regular expression demands behind the digits is there, and then the text ends.
ended : ℕ → Option Text → Option ℕ
ended n (some []) = some n
ended n _ = none

-- `(\d+)`, then the text `after`, then the end; `read` tells whether a digit came already, and `n` is
-- the value so far.
unfoldable pub read_digits : Text → Bool → ℕ → Text → Option ℕ
unfolding is_digit strip_prefix ended
read_digits after read n [] = if read then ended n (strip_prefix after []) else none
read_digits after read n (c ∷ s) =
    if is_digit c
    then read_digits after true (n * 10 + (c - b'0')) s
    else if read
    then ended n (strip_prefix after (c ∷ s))
    else none

read_id : Option Text → Option ℕ
unfolding read_digits
read_id none = none
read_id (some s) = read_digits suffix false 0 s

unfoldable pub parse_channel : Text → Option ℕ
unfolding read_id strip_prefix
parse_channel s = read_id (strip_prefix prefix s)

-- `env.originInstance && env.originInstance === instanceId`
is_own : String → Option String → Bool
unfolding string_discrete
is_own instance_id none = false
is_own instance_id (some origin) =
    ite (string_discrete origin "") false (ite (string_discrete origin instance_id) true false)

deliver : (ℕ → Bool) → ℕ → Option ServerMessage → Registry → Sends
unfolding broadcast_local
deliver is_open doc none r = []
deliver is_open doc (some frame) r = broadcast_local is_open doc frame none r

accept : String → (ℕ → Bool) → ℕ → BusEnvelope → Registry → Sends
unfolding is_own deliver
accept instance_id is_open doc env r =
    if is_own instance_id env.origin_instance then [] else deliver is_open doc env.frame r

receive : String → (ℕ → Bool) → Option ℕ → Option BusEnvelope → Registry → Sends
unfolding accept
receive instance_id is_open (some doc) (some env) r = accept instance_id is_open doc env r
receive instance_id is_open _ _ r = []

unfoldable pub on_message : String → (ℕ → Bool) → Text → Option BusEnvelope → Registry → Sends
unfolding receive parse_channel
on_message instance_id is_open channel env r =
    receive instance_id is_open (parse_channel channel) env r
