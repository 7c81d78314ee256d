-- ===== src/Ws/Server/Heartbeat.antt =====
-- The heartbeat of apps/ws/src/server.ts: `isAlive` of every socket of `wss.clients`, and what the
-- interval does. A terminated socket is in `wss.clients` until its close event.
use block_docs.Base.{
  ℕ, ◌≡◌, ◌≢◌, refl, sym, ◌∙◌, ap, Bool, true, false, not, ◌||◌, Option, none, some, List, [], ◌∷◌,
  ite, if_pos, if_neg, arith, nat_key, ℕ_discrete, All,
}
use mathlib.Core.Option
use block_docs.JsMap
use block_docs.JsMap.{JsMap, IsDistinct}
use block_docs.JsMap.Laws.{
  get-set, get-delete, get-map_values, set-IsDistinct, delete-IsDistinct, map_values-IsDistinct,
}
use block_docs.Ws.Room.{contains}

abbrev pub Clients : Type 0
Clients = JsMap ℕ Bool

-- The sockets that the interval terminates, and the flags that it leaves.
unfoldable pub terminated : Clients → List ℕ
terminated [] = []
terminated ((s, true) ∷ m) = terminated m
terminated ((s, false) ∷ m) = s ∷ terminated m

unfoldable pub pinged : Clients → Clients
unfolding JsMap.map_values
pinged m = JsMap.map_values (λ alive. false) m

-- What comes between two rounds of the interval.
pub data Event : Type 0 where
  connects pongs closes : (socket : ℕ) → Event

revive : ℕ → Option Bool → Clients → Clients
unfolding JsMap.set
revive s none m = m
revive s (some alive) m = JsMap.set s true m

unfoldable pub step : Clients → Event → Clients
unfolding JsMap.set JsMap.delete JsMap.get revive
step m (connects s) = JsMap.set s true m
step m (pongs s) = revive s (JsMap.get s m) m
step m (closes s) = JsMap.delete s m

unfoldable pub run : Clients → List Event → Clients
unfolding step
run m [] = m
run m (e ∷ es) = run (step m e) es

unfoldable pub has_answered : ℕ → List Event → Bool
unfolding ℕ_discrete
has_answered s [] = false
has_answered s (pongs t ∷ es) = ite (ℕ_discrete t s) true (has_answered s es)
has_answered s (_ ∷ es) = has_answered s es

-- The socket is there all the time.
abbrev pub IsPresent : ℕ → Event → Type 0
IsPresent s (connects t) = t ≢ s
IsPresent s (pongs t) = Unit
IsPresent s (closes t) = t ≢ s

is_cut : Option Bool → Bool
is_cut none = false
is_cut (some alive) = not alive

contains-terminated :
    (s : ℕ) (m : Clients) → IsDistinct m → contains s (terminated m) ≡ is_cut (JsMap.get s m)
unfolding contains terminated JsMap.get is_cut
contains-terminated s [] d = refl
contains-terminated s ((t, true) ∷ m) d =
    ground (arith, contains-terminated s m d.1, ap (λ k. JsMap.get k m) {x = t} {y = s}, d.0)
contains-terminated s ((t, false) ∷ m) d = ground (arith, contains-terminated s m d.1)

revive-alive :
    (s t : ℕ) (m : Clients) (b : Bool) (o : Option Bool)
    → IsDistinct m
    → JsMap.get t m ≡ o
    → JsMap.get s m ≡ some b
    → IsDistinct (revive t o m)
      × (JsMap.get s (revive t o m) ≡ ite (ℕ_discrete t s) (some true) (some b))
unfolding revive
revive-alive s t m b none d f e = (d, ground (arith, ap (λ k. JsMap.get k m) {x = t} {y = s}))
revive-alive s t m b (some alive) d f e =
    (set-IsDistinct t true m d, ground (arith, get-set s t true m))

or-true : (b c : Bool) → (b || true) ≡ (true || c)
or-true true c = refl
or-true false c = refl

or-false : (b : Bool) → (b || false) ≡ b
or-false true = refl
or-false false = refl

run-alive :
    (s : ℕ) (es : List Event) (m : Clients) (b : Bool)
    → IsDistinct m
    → All (IsPresent s) es
    → JsMap.get s m ≡ some b
    → IsDistinct (run m es) × (JsMap.get s (run m es) ≡ some (has_answered s es || b))
unfolding run step has_answered
run-alive s [] m b d a e = (d, e)
run-alive s (connects t ∷ es) m b d a e =
    run-alive s es (JsMap.set t true m) b (set-IsDistinct t true m d) a.1
      (get-set s t true m ∙ if_neg (ℕ_discrete t s) a.0 _ _ ∙ e)
run-alive s (closes t ∷ es) m b d a e =
    run-alive s es (JsMap.delete t m) b (delete-IsDistinct t m d) a.1
      (get-delete s t m d ∙ if_neg (ℕ_discrete t s) a.0 _ _ ∙ e)
run-alive s (pongs t ∷ es) m b d a e =
    let p = revive-alive s t m b (JsMap.get t m) d refl e in
    elim (ℕ_discrete t s) [
      | yes q ↦
          let r =
            run-alive s es (revive t (JsMap.get t m) m) true p.0 a.1
              (p.1 ∙ if_pos (ℕ_discrete t s) q _ _) in
          (
            r.0,
            r.1
                ∙ ap some (or-true (has_answered s es) b)
                ∙ ap (λ x. some (x || b))
                    (sym (if_pos (ℕ_discrete t s) q true (has_answered s es))),
          )
      | no n ↦
          let r =
            run-alive s es (revive t (JsMap.get t m) m) b p.0 a.1
              (p.1 ∙ if_neg (ℕ_discrete t s) n _ _) in
          (
            r.0,
            r.1
                ∙ ap (λ x. some (x || b))
                    (sym (if_neg (ℕ_discrete t s) n true (has_answered s es))),
          )
    ]

-- A socket that is there from one round of the interval to the next is terminated in the second
-- round exactly if no pong of it came in between.
pub terminated_silent :
    (s : ℕ) (es : List Event) (m : Clients) (b : Bool)
    → IsDistinct m
    → JsMap.get s m ≡ some b
    → All (IsPresent s) es
    → contains s (terminated (run (pinged m) es)) ≡ not (has_answered s es)
unfolding pinged is_cut
terminated_silent s es m b d e a =
    let p =
      run-alive s es (pinged m) false (map_values-IsDistinct (λ b. false) m d) a
        (get-map_values (λ b. false) s m ∙ ap (Option.map (λ (b : Bool). false)) e) in
    contains-terminated s (run (pinged m) es) p.0
    ∙ ap is_cut p.1
    ∙ ap not (or-false (has_answered s es))
