-- ===== src/Ws/Bus/Channel.antt =====
-- The names of the channels, written by apps/ws/src/room.ts and read by apps/ws/src/bus.ts, and the
-- envelopes on them.
use block_docs.Base.{
  ℕ, zero, suc, ◌+◌, ◌-◌, ◌*◌, ◌/◌, ◌%◌, ◌<◌, ◌≡◌, refl, ◌∙◌, ap, Bool, true, false, none, some, [],
  ◌∷◌, ◌++◌, String, ite, string_discrete, arith,
}
use block_docs.Text.{Text}
use block_docs.Ws.Bus.{
  is_digit, print_from, decimal, prefix, suffix, channel_for, strip_prefix, ended, read_digits,
  read_id, parse_channel, receive, accept, is_own, deliver, on_message,
}
use block_docs.Ws.Protocol.{ServerMessage}
use block_docs.Ws.Room.{Registry, broadcast_local}

-- Behind digits that were read comes the end.
read_suffix : (n : ℕ) → read_digits suffix true n suffix ≡ some n
unfolding read_digits ended strip_prefix is_digit
read_suffix n = refl

read_digit :
    (after : Text) (read : Bool) (n d : ℕ) (rest : Text)
    → d < 10
    → read_digits after read n ((b'0' + d) ∷ rest) ≡ read_digits after true (n * 10 + d) rest
unfolding read_digits is_digit
read_digit after read n d rest h = ground (
  arith,
  ap (λ k. read_digits after true k rest) {x = n * 10 + ((b'0' + d) - b'0')} {y = n * 10 + d},
)

pub read_digits-print_from :
    (fuel n : ℕ) (after : Text) (read : Bool) (rest : Text)
    → n < fuel
    → read_digits after read 0 (print_from fuel n rest) ≡ read_digits after true n rest
unfolding print_from
read_digits-print_from zero n after read rest h = absurd (omega (arith, h))
read_digits-print_from (suc fuel) n after read rest h = ground (
  arith,
  read_digit after read 0 n rest,
  read_digit after true (n / 10) (n % 10) rest,
  ap (λ k. read_digits after true k rest) {x = (n / 10) * 10 + n % 10} {y = n},
  read_digits-print_from fuel (n / 10) after read ((b'0' + n % 10) ∷ rest),
)

pub print_from-append :
    (fuel n : ℕ) (rest s : Text) → print_from fuel n rest ++ s ≡ print_from fuel n (rest ++ s)
unfolding print_from
print_from-append zero n rest s = refl
print_from-append (suc fuel) n rest s =
    ground (arith, print_from-append fuel (n / 10) ((b'0' + n % 10) ∷ rest) s)

pub strip_prefix-append : (p s : Text) → strip_prefix p (p ++ s) ≡ some s
unfolding strip_prefix
strip_prefix-append [] s = refl
strip_prefix-append (c ∷ p) s = ground (arith, strip_prefix-append p s)

-- The bus listener reads from the name of a document's channel the id of that document.
pub parse_channel-channel_for : (id : ℕ) → parse_channel (channel_for id) ≡ some id
unfolding parse_channel read_id channel_for decimal
parse_channel-channel_for id =
    ap read_id (strip_prefix-append prefix (decimal id ++ suffix))
    ∙ ap (read_digits suffix false 0) (print_from-append (suc id) id [] suffix)
    ∙ read_digits-print_from (suc id) id suffix false suffix (omega arith)
    ∙ read_suffix id

-- The envelope of an instance, heard by an instance.
pub on_message-envelope :
    (instance origin : String) (is_open : ℕ → Bool) (doc : ℕ) (frame : ServerMessage) (r : Registry)
    → on_message instance is_open
        (channel_for doc)
        (some (record { origin_instance = some origin; frame = some frame }))
        r
      ≡ ite
          (string_discrete origin "")
          (broadcast_local is_open doc frame none r)
          (ite (string_discrete origin instance) [] (broadcast_local is_open doc frame none r))
unfolding on_message receive accept is_own deliver
on_message-envelope instance origin is_open doc frame r =
    rw (parse_channel-channel_for doc) (ground arith)
