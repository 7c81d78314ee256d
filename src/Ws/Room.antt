-- ===== src/Ws/Room.antt =====
-- apps/ws/src/room.ts: the sockets of each document on this instance, and the channels that the
-- shared Redis subscriber holds. Sockets are numbers. Commands to Redis take effect in the order in
-- which they are sent, so each is applied at the call; whether it succeeded is an argument.
pub mod Laws
pub mod Broadcast
pub mod Failure
pub mod Pending
mod Tests
use block_docs.Base.{
  ℕ, Bool, true, false, Option, none, some, get_or, List, [], ◌∷◌, ◌++◌, map, ite, length, nat_key,
  ℕ_discrete,
}
use mathlib.Core.List.{flatten}
use block_docs.JsMap
use block_docs.JsMap.{JsMap}
use block_docs.Ws.Protocol.{ServerMessage}

pub record Registry : Type 0 where
  pub rooms : JsMap ℕ (List ℕ)
  pub channels : List ℕ

-- `Set` of JavaScript: distinct members in order of insertion.
unfoldable pub add : ℕ → List ℕ → List ℕ
unfolding ℕ_discrete
add x [] = x ∷ []
add x (y ∷ ys) = ite (ℕ_discrete y x) (y ∷ ys) (y ∷ add x ys)

unfoldable pub remove : ℕ → List ℕ → List ℕ
unfolding ℕ_discrete
remove x [] = []
remove x (y ∷ ys) = ite (ℕ_discrete y x) ys (y ∷ remove x ys)

unfoldable pub contains : ℕ → List ℕ → Bool
unfolding ℕ_discrete
contains x [] = false
contains x (y ∷ ys) = ite (ℕ_discrete y x) true (contains x ys)

abbrev pub or_no_one : Option (List ℕ) → List ℕ
or_no_one o = get_or o []

unfoldable pub members : ℕ → Registry → List ℕ
unfolding JsMap.get ℕ_discrete
members doc r = or_no_one (JsMap.get doc r.rooms)

pub size : ℕ → Registry → ℕ
unfolding members
size doc r = length (members doc r)

pub docs : Registry → List ℕ
docs r = JsMap.keys r.rooms

pub all_sockets : Registry → List ℕ
all_sockets r = flatten (JsMap.values r.rooms)

-- SUBSCRIBE on the first join. The promise fails with the command; the socket is in the room by then.
unfoldable pub subscribe : List ℕ → Bool → ℕ → Registry → Registry × Bool
subscribe [] true doc r = (record r { channels = add doc r.channels }, true)
subscribe [] false doc r = (r, false)
subscribe (x ∷ before) ok doc r = (r, true)

-- The next registry, and whether the promise was fulfilled.
unfoldable pub join : ℕ → ℕ → Bool → Registry → Registry × Bool
unfolding subscribe members add JsMap.set
join doc ws ok r =
    let before = members doc r in
    subscribe before ok doc (record r { rooms = JsMap.set doc (add ws before) r.rooms })

-- A failure of UNSUBSCRIBE is ignored.
unsubscribe : Bool → ℕ → List ℕ → List ℕ
unsubscribe true doc channels = remove doc channels
unsubscribe false doc channels = channels

-- The room after its set lost the socket.
shrink : ℕ → List ℕ → Bool → Registry → Registry
unfolding JsMap.delete JsMap.set unsubscribe remove
shrink doc [] ok r = record r {
  rooms = JsMap.delete doc r.rooms;
  channels = unsubscribe ok doc r.channels;
}
shrink doc (x ∷ set) ok r = record r { rooms = JsMap.set doc (x ∷ set) r.rooms }

leave_found : Option (List ℕ) → ℕ → ℕ → Bool → Registry → Registry
unfolding shrink
leave_found none doc ws ok r = r
leave_found (some set) doc ws ok r = shrink doc (remove ws set) ok r

unfoldable pub leave : ℕ → ℕ → Bool → Registry → Registry
unfolding leave_found JsMap.get
leave doc ws ok r = leave_found (JsMap.get doc r.rooms) doc ws ok r

-- What is written to sockets: who gets which frame. `is_open` tells the sockets in state OPEN.
abbrev pub Sends : Type 0
Sends = List (ℕ × ServerMessage)

send_to : (ℕ → Bool) → Option ℕ → ServerMessage → ℕ → Sends → Sends
send_to is_open none frame ws rest = elim (is_open ws) [ true ↦ (ws, frame) ∷ rest | false ↦ rest ]
send_to is_open (some except) frame ws rest =
    ite (ℕ_discrete ws except) rest (elim (is_open ws) [ true ↦ (ws, frame) ∷ rest | false ↦ rest ])

unfoldable pub send_all : (ℕ → Bool) → Option ℕ → ServerMessage → List ℕ → Sends
unfolding send_to ℕ_discrete
send_all is_open except frame [] = []
send_all is_open except frame (ws ∷ set) =
    send_to is_open except frame ws (send_all is_open except frame set)

-- The early return on an empty room sends nothing either.
unfoldable pub broadcast_local : (ℕ → Bool) → ℕ → ServerMessage → Option ℕ → Registry → Sends
unfolding send_all members
broadcast_local is_open doc frame except r = send_all is_open except frame (members doc r)
