-- ===== src/Ws/Room/Broadcast.antt =====
-- Who gets a broadcast of apps/ws/src/room.ts.
use block_docs.Base.{
  ℕ, ◌≡◌, refl, ap, Bool, true, false, ◌&&◌, not, Option, none, some, List, [], ◌∷◌, ite, arith,
  ℕ_discrete,
}
use block_docs.Ws.Protocol.{ServerMessage}
use block_docs.Ws.Room.{Registry, Sends, contains, members, send_all, broadcast_local}
use block_docs.Ws.Room.Laws.{IsUnique}

-- What is written to one socket, in order.
unfoldable pub received : ℕ → Sends → List ServerMessage
unfolding ℕ_discrete
received ws [] = []
received ws ((to, frame) ∷ rest) =
    ite (ℕ_discrete to ws) (frame ∷ received ws rest) (received ws rest)

-- The socket that sent the frame is left out.
abbrev pub is_sender : Option ℕ → ℕ → Bool
is_sender none ws = false
is_sender (some except) ws = ite (ℕ_discrete ws except) true false

abbrev pub once : Bool → ServerMessage → List ServerMessage
once true frame = frame ∷ []
once false frame = []

received_absent :
    (is_open : ℕ → Bool) (except : Option ℕ) (frame : ServerMessage) (ws : ℕ) (set : List ℕ)
    → contains ws set ≡ false
    → received ws (send_all is_open except frame set) ≡ []
unfolding received send_all contains
received_absent is_open none frame ws [] h = refl
received_absent is_open (some w) frame ws [] h = refl
received_absent is_open none frame ws (x ∷ set) h =
    ground (arith, received_absent is_open none frame ws set)
received_absent is_open (some w) frame ws (x ∷ set) h =
    ground (arith, received_absent is_open (some w) frame ws set)

received-send_all :
    (is_open : ℕ → Bool) (except : Option ℕ) (frame : ServerMessage) (ws : ℕ) (set : List ℕ)
    → IsUnique set
    → received ws (send_all is_open except frame set)
      ≡ once (contains ws set && (is_open ws && not (is_sender except ws))) frame
unfolding received send_all contains
received-send_all is_open except frame ws [] u = refl
received-send_all is_open none frame ws (x ∷ set) u = ground (
  arith,
  ap is_open {x = x} {y = ws},
  received-send_all is_open none frame ws set u.1,
  received_absent is_open none frame ws set,
  ap (λ y. contains y set) {x = x} {y = ws},
)
received-send_all is_open (some w) frame ws (x ∷ set) u = ground (
  arith,
  ap is_open {x = x} {y = ws},
  received-send_all is_open (some w) frame ws set u.1,
  received_absent is_open (some w) frame ws set,
  ap (λ y. contains y set) {x = x} {y = ws},
)

pub broadcast_local_absent :
    (is_open : ℕ → Bool) (doc : ℕ) (frame : ServerMessage) (except : Option ℕ) (r : Registry)
    (ws : ℕ)
    → contains ws (members doc r) ≡ false
    → received ws (broadcast_local is_open doc frame except r) ≡ []
unfolding broadcast_local
broadcast_local_absent is_open doc frame except r ws h =
    received_absent is_open except frame ws (members doc r) h

-- A socket gets a broadcast exactly once if it is in the room, is open and is not the sender; and
-- not at all otherwise.
pub received-broadcast_local :
    (is_open : ℕ → Bool) (doc : ℕ) (frame : ServerMessage) (except : Option ℕ) (r : Registry)
    (ws : ℕ)
    → IsUnique (members doc r)
    → received ws (broadcast_local is_open doc frame except r)
      ≡ once (contains ws (members doc r) && (is_open ws && not (is_sender except ws))) frame
unfolding broadcast_local
received-broadcast_local is_open doc frame except r ws u =
    received-send_all is_open except frame ws (members doc r) u
