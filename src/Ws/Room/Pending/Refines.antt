-- ===== src/Ws/Room/Pending/Refines.antt =====
-- Interleaved joins and leaves of apps/ws/src/room.ts against those one after the other.
use block_docs.Base.{
  ℕ, zero, suc, length, arith, ◌≡◌, refl, sym, ap, subst, ◌∙◌, true, false, List, [], ◌∷◌, ◌++◌,
  Option, none, some, nat_key, ℕ_discrete, append-nil, if_pos,
}
use block_docs.JsMap
use block_docs.JsMap.Laws.{get-set}
use block_docs.Ws.Room.{
  Registry, add, remove, contains, members, or_no_one, subscribe, unsubscribe, shrink, leave_found,
  join, leave,
}
use block_docs.Ws.Room.Laws.{IsServing, join-IsServing, leave-IsServing}
use block_docs.Ws.Room.Pending.{
  Command, subscribes, unsubscribes, Busy, obey, commands_of_join, sends_nothing, begin_join,
  is_immediate, shrink_busy, leave_busy, begin_leave, next_of, answer_next, Event, joins, leaves,
  answers, step, run,
}

-- The channels when all that is under way is answered.
unfoldable pub obey_all : List Command → List ℕ → List ℕ
obey_all [] channels = channels
obey_all (c ∷ cs) channels = obey_all cs (obey c channels)

obey_all-append :
    (cs ds : List Command) (channels : List ℕ)
    → obey_all (cs ++ ds) channels ≡ obey_all ds (obey_all cs channels)
unfolding obey_all
obey_all-append [] ds channels = refl
obey_all-append (c ∷ cs) ds channels = obey_all-append cs ds (obey c channels)

-- The registry that the commands under way lead to.
unfoldable pub settled : Busy → Registry
unfolding obey_all
settled b = record { rooms = b.rooms; channels = obey_all b.under_way b.channels }

-- The same events, each done whole.
unfoldable pub whole_step : Registry → Event → Registry
whole_step r (joins doc ws) = (join doc ws true r).0
whole_step r (leaves doc ws) = leave doc ws true r
whole_step r answers = r

settled-join_from :
    (doc ws : ℕ) (before : List ℕ) (b : Busy)
    → settled (record b {
      rooms = JsMap.set doc (add ws before) b.rooms;
      under_way = b.under_way ++ commands_of_join before doc;
    })
      ≡ (subscribe before true doc (record {
        rooms = JsMap.set doc (add ws before) b.rooms;
        channels = obey_all b.under_way b.channels;
      })).0
unfolding settled subscribe commands_of_join obey
settled-join_from doc ws [] b =
    ap (λ l. record { rooms = JsMap.set doc (add ws []) b.rooms; channels = l })
      (obey_all-append b.under_way (subscribes doc ∷ []) b.channels)
settled-join_from doc ws (x ∷ before) b =
    ap
      (λ l. record {
        rooms = JsMap.set doc (add ws (x ∷ before)) b.rooms;
        channels = obey_all l b.channels;
      })
      (append-nil b.under_way)

settled-shrink :
    (doc : ℕ) (set : List ℕ) (b : Busy)
    → settled (shrink_busy doc set b) ≡ shrink doc set true (settled b)
unfolding settled shrink_busy shrink unsubscribe obey
settled-shrink doc [] b =
    ap (λ l. record { rooms = JsMap.delete doc b.rooms; channels = l })
      (obey_all-append b.under_way (unsubscribes doc ∷ []) b.channels)
settled-shrink doc (x ∷ set) b = refl

settled-leave :
    (doc ws : ℕ) (o : Option (List ℕ)) (b : Busy)
    → settled (leave_busy o doc ws b) ≡ leave_found o doc ws true (settled b)
unfolding leave_busy leave_found
settled-leave doc ws none b = refl
settled-leave doc ws (some set) b = settled-shrink doc (remove ws set) b

settled-next :
    (cs : List Command) (b : Busy) → b.under_way ≡ cs → settled (next_of cs b) ≡ settled b
unfolding next_of settled
settled-next [] b e = refl
settled-next (c ∷ cs) b e =
    ap (λ l. record { rooms = b.rooms; channels = obey_all l b.channels }) (sym e)

-- Each event, begun while others are under way, leads where the whole operation leads.
pub settled-step : (b : Busy) (e : Event) → settled (step b e) ≡ whole_step (settled b) e
unfolding step whole_step begin_join begin_leave answer_next join leave members settled
settled-step b (joins doc ws) = settled-join_from doc ws (or_no_one (JsMap.get doc b.rooms)) b
settled-step b (leaves doc ws) = settled-leave doc ws (JsMap.get doc b.rooms) b
settled-step b answers = settled-next b.under_way b refl

unfoldable pub whole_run : List Event → Registry
unfolding whole_step
whole_run [] = record { rooms = []; channels = [] }
whole_run (e ∷ es) = whole_step (whole_run es) e

whole_step-IsServing : (r : Registry) (e : Event) → IsServing r → IsServing (whole_step r e)
unfolding whole_step
whole_step-IsServing r (joins doc ws) v = (join-IsServing doc ws r v).0
whole_step-IsServing r (leaves doc ws) v = (leave-IsServing doc ws r v).0
whole_step-IsServing r answers v = v

nothing-IsServing : IsServing (record { rooms = []; channels = [] })
unfolding members contains JsMap.get
nothing-IsServing = record {
  distinct = tt;
  channels = tt;
  sockets = λ doc. tt;
  subscribed = λ doc. refl;
}

whole_run-IsServing : (es : List Event) → IsServing (whole_run es)
unfolding whole_run
whole_run-IsServing [] = nothing-IsServing
whole_run-IsServing (e ∷ es) = whole_step-IsServing (whole_run es) e (whole_run-IsServing es)

settled-run : (es : List Event) → settled (run es) ≡ whole_run es
unfolding run whole_run settled obey_all
settled-run [] = refl
settled-run (e ∷ es) = settled-step (run es) e ∙ ap (λ r. whole_step r e) (settled-run es)

-- Redis answers `n` commands.
unfoldable pub answer_all : ℕ → Busy → Busy
answer_all zero b = b
answer_all (suc n) b = answer_all n (answer_next b)

-- What the registry is, when nothing is under way.
abbrev pub registry_of : Busy → Registry
registry_of b = record { rooms = b.rooms; channels = b.channels }

answer_all-settles :
    (n : ℕ) (cs : List Command) (b : Busy)
    → b.under_way ≡ cs
    → n ≡ length cs
    → registry_of (answer_all n b) ≡ settled b
unfolding answer_all settled answer_next next_of step whole_step
answer_all-settles zero [] b e h =
    ap (λ l. record { rooms = b.rooms; channels = obey_all l b.channels }) (sym e)
answer_all-settles zero (c ∷ cs) b e h = absurd (omega (arith, h))
answer_all-settles (suc n) [] b e h = absurd (omega (arith, h))
answer_all-settles (suc n) (c ∷ cs) b e h =
    answer_all-settles n cs (answer_next b) (ap (λ l. (next_of l b).under_way) e) (omega (arith, h))
    ∙ settled-step b answers

-- Joins and leaves that begin in any order, while commands of earlier ones are under way: what they
-- lead to is what the same joins and leaves give when each is done whole, one after the other. And
-- once Redis answered all that is under way, a channel is held exactly where a socket is.
pub run_settles :
    (es : List Event)
    → (settled (run es) ≡ whole_run es)
      × IsServing (registry_of (answer_all (length (run es).under_way) (run es)))
run_settles es = (
  settled-run es,
  subst IsServing
      (sym (
        answer_all-settles (length (run es).under_way) (run es).under_way (run es) refl refl
        ∙ settled-run es))
      (whole_run-IsServing es),
)

-- Of two sockets that join a document of which no socket and no channel is there, the first waits
-- for its SUBSCRIBE and the second goes on at once: it is in the room, and the channel is not held.
pub second_join-goes_on :
    (doc first second : ℕ) (b : Busy)
    → JsMap.get doc b.rooms ≡ none
    → contains doc b.channels ≡ false
    → let c = begin_join doc first b in
      let d = begin_join doc second c in
      (is_immediate doc b ≡ false)
      × (is_immediate doc c ≡ true)
      × (JsMap.get doc d.rooms ≡ some (add second (first ∷ [])))
      × (contains doc d.channels ≡ false)
unfolding begin_join is_immediate commands_of_join sends_nothing add contains
second_join-goes_on doc first second b e h =
    let own : JsMap.get doc (begin_join doc first b).rooms ≡ some (first ∷ []) =
      get-set doc doc (add first (or_no_one (JsMap.get doc b.rooms))) b.rooms
      ∙ if_pos (ℕ_discrete doc doc) refl _ _
      ∙ ap (λ o. some (add first (or_no_one o))) e in
    (
      ap (λ o. sends_nothing (commands_of_join (or_no_one o) doc)) e,
      ap (λ o. sends_nothing (commands_of_join (or_no_one o) doc)) own,
      get-set doc doc (add second (or_no_one (JsMap.get doc (begin_join doc first b).rooms)))
            (begin_join doc first b).rooms
          ∙ if_pos (ℕ_discrete doc doc) refl _ _
          ∙ ap (λ o. some (add second (or_no_one o))) own,
      h,
    )
