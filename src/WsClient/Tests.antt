-- ===== src/WsClient/Tests.antt =====
-- A run of the client, and its theorems at concrete input.
use block_docs.Base.{◌≡◌, refl, none, some, List, [], ◌∷◌, ◌++◌, nat_key, ℕ_discrete, arith}
use block_docs.Ws.Protocol.{ClientMessage, ServerMessage}
use block_docs.WsClient.{
  WsClient, Outgoing, message, made, ping, frame, backoff, connect, on_open, on_message, Event,
  connects, sends, opens, hears, drops, fires, run,
}
use block_docs.WsClient.Delivery.{messages, handed_all, IsDrained, run_keeps_messages}
use block_docs.WsClient.Reconnect.{drop_reopens}
use block_docs.WsClient.Cookie.{read_uid_cookie}
use block_docs.WsClient.Cookie.Jar.{IsOther, jar, uid_cookie, starts_plain, read_uid_cookie-jar}
use block_docs.Ws.Bus.{strip_prefix}
use block_docs.Text.{Text, codes}

abbrev delta : Outgoing
delta = message (ClientMessage.crdt "b" "AA==")

abbrev events : List Event
events = connects ∷ sends delta ∷ opens 0 ∷ hears 0 (some ping) ∷ drops 0 7 ∷ sends delta ∷ []

start-IsDrained : IsDrained (made none)
start-IsDrained s p = refl

run_keeps_messages_example :
    IsDrained (run (made none) events)
    × (messages (run (made none) events) ≡ messages (made none) ++ handed_all (made none) events)
run_keeps_messages_example = run_keeps_messages events (made none) start-IsDrained

-- The client with an open socket.
abbrev online : WsClient
online =
    run (made (some "5-0"))
      (connects ∷ opens 0 ∷ hears 0 (some (frame (ServerMessage.replay_done "9-0"))) ∷ [])

drop_reopens_example :
    let d = run online (drops 0 7 ∷ fires 0 ∷ []) in
    (d.ws ≡ some online.next) × (d.asked ≡ online.asked ++ some "9-0" ∷ [])
unfolding run connect ℕ_discrete on_open on_message
drop_reopens_example = drop_reopens online 0 7 refl refl

backoff_runs : (backoff 4 ≡ 16000) × (backoff 5 ≡ 30000)
unfolding backoff
backoff_runs = (refl, refl)

abbrev theme : Text
theme = codes "a=1"

theme-IsOther : IsOther theme
unfolding starts_plain strip_prefix
theme-IsOther = record {
  unspaced = refl;
  semicolons = (
    λ e. absurd (omega (arith, e)),
    (λ e. absurd (omega (arith, e)), (λ e. absurd (omega (arith, e)), tt)),
  );
  named = refl;
}

read_uid_cookie-jar_example : read_uid_cookie (jar (theme ∷ uid_cookie 42 ∷ theme ∷ [])) ≡ some 42
read_uid_cookie-jar_example = read_uid_cookie-jar 42 (theme ∷ []) (theme ∷ []) (theme-IsOther, tt)
