-- ===== src/Ws/Room/Laws.antt =====
-- The rooms of apps/ws/src/room.ts against the channels that the subscriber holds.
use block_docs.Base.{
  ℕ, ◌≡◌, refl, sym, ◌∙◌, ap, subst, Bool, true, false, Option, none, some, List, [], ◌∷◌, ite,
  if_pos, if_neg, arith, nat_key, ℕ_discrete,
}
use block_docs.JsMap
use block_docs.JsMap.{IsDistinct}
use block_docs.JsMap.Laws.{get-set, get-delete, set-IsDistinct, delete-IsDistinct}
use block_docs.Ws.Room.{
  Registry, add, remove, contains, members, or_no_one, subscribe, join, unsubscribe, shrink,
  leave_found, leave,
}

abbrev pub IsUnique : List ℕ → Type 0
IsUnique [] = Unit
IsUnique (x ∷ xs) = (contains x xs ≡ false) × IsUnique xs

pub contains-add :
    (y x : ℕ) (xs : List ℕ) → contains y (add x xs) ≡ ite (ℕ_discrete x y) true (contains y xs)
unfolding contains add
contains-add y x [] = refl
contains-add y x (z ∷ zs) = ground (arith, contains-add y x zs)

pub contains-remove :
    (y x : ℕ) (xs : List ℕ)
    → IsUnique xs
    → contains y (remove x xs) ≡ ite (ℕ_discrete x y) false (contains y xs)
unfolding contains remove
contains-remove y x [] s = ground arith
contains-remove y x (z ∷ zs) s = ground (arith, contains-remove y x zs)

pub add-IsUnique : (x : ℕ) (xs : List ℕ) → IsUnique xs → IsUnique (add x xs)
unfolding add contains
add-IsUnique x [] s = (refl, tt)
add-IsUnique x (z ∷ zs) s = ground (arith, add-IsUnique x zs, contains-add z x zs)

pub remove-IsUnique : (x : ℕ) (xs : List ℕ) → IsUnique xs → IsUnique (remove x xs)
unfolding remove contains
remove-IsUnique x [] s = tt
remove-IsUnique x (z ∷ zs) s = ground (arith, remove-IsUnique x zs, contains-remove z x zs)

abbrev pub is_occupied : List ℕ → Bool
is_occupied [] = false
is_occupied (x ∷ xs) = true

-- Subscribed exactly where a socket is.
pub record IsServing (r : Registry) : Type 0 where
  pub distinct : IsDistinct r.rooms
  pub channels : IsUnique r.channels
  pub sockets : (doc : ℕ) → IsUnique (members doc r)
  pub subscribed : (doc : ℕ) → contains doc r.channels ≡ is_occupied (members doc r)

pub is_occupied-add : (x : ℕ) (xs : List ℕ) → is_occupied (add x xs) ≡ true
unfolding add
is_occupied-add x [] = refl
is_occupied-add x (y ∷ ys) = ground arith

pub members-set :
    (d doc : ℕ) (set channels : List ℕ) (r : Registry)
    → members d (record { rooms = JsMap.set doc set r.rooms; channels = channels })
      ≡ ite (ℕ_discrete doc d) set (members d r)
unfolding members
members-set d doc set channels r = ground (arith, get-set d doc set r.rooms)

members-delete :
    (d doc : ℕ) (channels : List ℕ) (r : Registry)
    → IsDistinct r.rooms
    → members d (record { rooms = JsMap.delete doc r.rooms; channels = channels })
      ≡ ite (ℕ_discrete doc d) [] (members d r)
unfolding members
members-delete d doc channels r s = ground (arith, get-delete d doc r.rooms s)

-- A room's set is replaced by a set with members, and the channel is held.
module _ (r : Registry) (v : IsServing r) (doc : ℕ) (set channels : List ℕ) where
  replaced : Registry
  replaced = record { rooms = JsMap.set doc set r.rooms; channels = channels }

  members-replaced : (d : ℕ) → members d replaced ≡ ite (ℕ_discrete doc d) set (members d r)
  unfolding members replaced
  members-replaced d = members-set d doc set channels r

  replaced-IsServing :
      IsUnique set
      → IsUnique channels
      → is_occupied set ≡ true
      → ((d : ℕ) → contains d channels ≡ ite (ℕ_discrete doc d) true (contains d r.channels))
      → IsServing replaced
  unfolding replaced
  replaced-IsServing u c o h = record {
    distinct = set-IsDistinct doc set r.rooms v.distinct;
    channels = c;
    sockets = λ d. ground (arith, members-replaced d, v.sockets d);
    subscribed = λ d. ground (arith, members-replaced d, h d, v.subscribed d);
  }

-- A channel that is held already.
held :
    (channels : List ℕ) (doc d : ℕ)
    → contains doc channels ≡ true
    → contains d channels ≡ ite (ℕ_discrete doc d) true (contains d channels)
held channels doc d h = elim (ℕ_discrete doc d) [
  | yes p ↦ rw (if_pos (ℕ_discrete doc d) p, ← p) h
  | no n ↦ rw (if_neg (ℕ_discrete doc d) n)
]

join_from :
    (r : Registry) (doc ws : ℕ) (before : List ℕ)
    → IsServing r
    → members doc r ≡ before
    → IsServing
        (subscribe before true doc (record r { rooms = JsMap.set doc (add ws before) r.rooms })).0
unfolding subscribe replaced
join_from r doc ws [] v e =
    replaced-IsServing r v doc (add ws []) (add doc r.channels) (add-IsUnique ws [] tt)
      (add-IsUnique doc r.channels v.channels) (is_occupied-add ws [])
      (λ d. contains-add d doc r.channels)
join_from r doc ws (x ∷ before) v e =
    replaced-IsServing r v doc (add ws (x ∷ before)) r.channels
      (add-IsUnique ws (x ∷ before) (subst IsUnique e (v.sockets doc))) v.channels
      (is_occupied-add ws (x ∷ before))
      (λ d. held r.channels doc d (v.subscribed doc ∙ ap is_occupied e))

entered :
    (r : Registry) (doc ws : ℕ) (before channels : List ℕ)
    → contains ws (
        members doc (record { rooms = JsMap.set doc (add ws before) r.rooms; channels = channels }))
      ≡ true
entered r doc ws before channels = rw (
  members-set doc doc (add ws before) channels r,
  if_pos (ℕ_discrete doc doc) refl,
  contains-add ws ws before,
  if_pos (ℕ_discrete ws ws) refl,
)

join_enters :
    (r : Registry) (doc ws : ℕ) (set before : List ℕ)
    → contains ws (
        members doc
          (subscribe before true doc (record r { rooms = JsMap.set doc (add ws set) r.rooms })).0)
      ≡ true
unfolding subscribe
join_enters r doc ws set [] = entered r doc ws set (add doc r.channels)
join_enters r doc ws set (x ∷ before) = entered r doc ws set r.channels

-- A join whose SUBSCRIBE succeeds keeps the registry serving its rooms, and has the socket in the
-- room of its document.
pub join-IsServing :
    (doc ws : ℕ) (r : Registry)
    → IsServing r
    → IsServing (join doc ws true r).0 × (contains ws (members doc (join doc ws true r).0) ≡ true)
unfolding join
join-IsServing doc ws r v = (
  join_from r doc ws (members doc r) v refl,
  join_enters r doc ws (members doc r) (members doc r),
)

remove_occupied :
    (ws x : ℕ) (before rest : List ℕ) → remove ws before ≡ x ∷ rest → is_occupied before ≡ true
unfolding remove
remove_occupied ws x [] rest e = cc
remove_occupied ws x (y ∷ before) rest e = refl

emptied-IsServing :
    (r : Registry) (doc : ℕ)
    → IsServing r
    → IsServing (record { rooms = JsMap.delete doc r.rooms; channels = remove doc r.channels })
emptied-IsServing r doc v = record {
  distinct = delete-IsDistinct doc r.rooms v.distinct;
  channels = remove-IsUnique doc r.channels v.channels;
  sockets =
      λ d. ground (arith, members-delete d doc (remove doc r.channels) r v.distinct, v.sockets d);
  subscribed = λ d. ground (
    arith,
    members-delete d doc (remove doc r.channels) r v.distinct,
    contains-remove d doc r.channels v.channels,
    v.subscribed d,
  );
}

shrink-IsServing :
    (r : Registry) (doc ws : ℕ) (before set : List ℕ)
    → IsServing r
    → members doc r ≡ before
    → remove ws before ≡ set
    → IsServing (shrink doc set true r)
unfolding shrink replaced unsubscribe
shrink-IsServing r doc ws before [] v e f = emptied-IsServing r doc v
shrink-IsServing r doc ws before (x ∷ set) v e f =
    replaced-IsServing r v doc (x ∷ set) r.channels
      (subst IsUnique f (remove-IsUnique ws before (subst IsUnique e (v.sockets doc)))) v.channels
      refl
      (λ d.
        held r.channels doc d
          (v.subscribed doc ∙ ap is_occupied e ∙ remove_occupied ws x before set f))

shrink_leaves :
    (r : Registry) (doc ws : ℕ) (before set : List ℕ)
    → IsServing r
    → members doc r ≡ before
    → remove ws before ≡ set
    → contains ws (members doc (shrink doc set true r)) ≡ false
unfolding shrink contains
shrink_leaves r doc ws before [] v e f =
    rw (members-delete doc doc _ r v.distinct, if_pos (ℕ_discrete doc doc) refl)
shrink_leaves r doc ws before (x ∷ set) v e f =
    rw (members-set doc doc (x ∷ set) r.channels r, if_pos (ℕ_discrete doc doc) refl)
      (sym (ap (contains ws) f)
        ∙ contains-remove ws ws before (subst IsUnique e (v.sockets doc))
        ∙ if_pos (ℕ_discrete ws ws) refl _ _)

leave_from :
    (r : Registry) (doc ws : ℕ) (o : Option (List ℕ))
    → IsServing r
    → JsMap.get doc r.rooms ≡ o
    → IsServing (leave_found o doc ws true r)
      × (contains ws (members doc (leave_found o doc ws true r)) ≡ false)
unfolding leave_found members contains
leave_from r doc ws none v e = (v, rw e)
leave_from r doc ws (some set) v e = (
  shrink-IsServing r doc ws set (remove ws set) v (ap or_no_one e) refl,
  shrink_leaves r doc ws set (remove ws set) v (ap or_no_one e) refl,
)

-- A leave whose UNSUBSCRIBE succeeds keeps the registry serving its rooms, and has the socket out of
-- the room of its document.
pub leave-IsServing :
    (doc ws : ℕ) (r : Registry)
    → IsServing r
    → IsServing (leave doc ws true r) × (contains ws (members doc (leave doc ws true r)) ≡ false)
unfolding leave
leave-IsServing doc ws r v = leave_from r doc ws (JsMap.get doc r.rooms) v refl
