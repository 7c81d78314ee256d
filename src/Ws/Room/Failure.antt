-- ===== src/Ws/Room/Failure.antt =====
-- A SUBSCRIBE that fails in `join` of apps/ws/src/room.ts.
use block_docs.Base.{
  ℕ, ◌≡◌, refl, ◌∙◌, ap, Bool, true, false, List, [], ◌∷◌, if_pos, ℕ_discrete, nat_key,
}
use block_docs.JsMap
use block_docs.Ws.Room.{Registry, add, contains, members, subscribe, join}
use block_docs.Ws.Room.Laws.{is_occupied, is_occupied-add, members-set}

-- Joins of one document, each a socket and whether its SUBSCRIBE would succeed.
unfoldable pub join_all : ℕ → List (ℕ × Bool) → Registry → Registry
unfolding join
join_all doc [] r = r
join_all doc ((ws, ok) ∷ joins) r = join_all doc joins (join doc ws ok r).0

-- The room has a socket, and its channel is not held.
pub record IsDeaf (doc : ℕ) (r : Registry) : Type 0 where
  pub occupied : is_occupied (members doc r) ≡ true
  pub unsubscribed : contains doc r.channels ≡ false

entered-IsDeaf :
    (doc ws : ℕ) (set : List ℕ) (r : Registry)
    → contains doc r.channels ≡ false
    → IsDeaf doc (record r { rooms = JsMap.set doc (add ws set) r.rooms })
entered-IsDeaf doc ws set r h = record {
  occupied =
      ap is_occupied
        (members-set doc doc (add ws set) r.channels r ∙ if_pos (ℕ_discrete doc doc) refl _ _)
      ∙ is_occupied-add ws set;
  unsubscribed = h;
}

subscribe-IsDeaf :
    (doc ws : ℕ) (ok : Bool) (set before : List ℕ) (r : Registry)
    → is_occupied before ≡ true
    → contains doc r.channels ≡ false
    → IsDeaf doc
        (subscribe before ok doc (record r { rooms = JsMap.set doc (add ws set) r.rooms })).0
unfolding subscribe
subscribe-IsDeaf doc ws ok set [] r o h = cc
subscribe-IsDeaf doc ws ok set (x ∷ before) r o h = entered-IsDeaf doc ws set r h

join_all-IsDeaf :
    (doc : ℕ) (joins : List (ℕ × Bool)) (r : Registry)
    → IsDeaf doc r
    → IsDeaf doc (join_all doc joins r)
unfolding join_all
join_all-IsDeaf doc [] r d = d
join_all-IsDeaf doc ((ws, ok) ∷ joins) r d =
    join_all-IsDeaf doc joins _
      (subscribe-IsDeaf doc ws ok (members doc r) (members doc r) r d.occupied d.unsubscribed)

-- If the SUBSCRIBE of the first join of a document fails, then the room keeps its socket without the
-- channel, and so it stays however many sockets join and whether or not Redis is well again.
pub join_failed_sticks :
    (doc ws : ℕ) (joins : List (ℕ × Bool)) (r : Registry)
    → members doc r ≡ []
    → contains doc r.channels ≡ false
    → ((join doc ws false r).1 ≡ false) × IsDeaf doc (join_all doc joins (join doc ws false r).0)
unfolding join
join_failed_sticks doc ws joins r e h = (
  rw (e, subscribe) refl,
  join_all-IsDeaf doc joins _ (rw (e, subscribe) (entered-IsDeaf doc ws [] r h)),
)
