-- ===== src/Ws/Room/Tests.antt =====
-- Runs of the registry while commands are under way, and the theorems about it at concrete input.
use block_docs.Base.{◌≡◌, refl, false, true, some, [], ◌∷◌, length, nat_key}
use block_docs.JsMap
use block_docs.Ws.Room.{add, contains}
use block_docs.Ws.Room.Laws.{IsServing}
use block_docs.Ws.Room.Pending.{Busy, joins, leaves, begin_join, is_immediate, run}
use block_docs.Ws.Room.Pending.Refines.{
  settled, whole_run, answer_all, registry_of, run_settles, second_join-goes_on,
}

run_settles_example :
    let es = joins 5 2 ∷ leaves 5 1 ∷ joins 5 1 ∷ [] in
    (settled (run es) ≡ whole_run es)
    × IsServing (registry_of (answer_all (length (run es).under_way) (run es)))
run_settles_example = run_settles (joins 5 2 ∷ leaves 5 1 ∷ joins 5 1 ∷ [])

abbrev idle : Busy
idle = record { rooms = []; channels = []; under_way = [] }

second_join-goes_on_example :
    let c = begin_join 5 1 idle in
    let d = begin_join 5 2 c in
    (is_immediate 5 idle ≡ false)
    × (is_immediate 5 c ≡ true)
    × (JsMap.get 5 d.rooms ≡ some (add 2 (1 ∷ [])))
    × (contains 5 d.channels ≡ false)
unfolding JsMap.get contains
second_join-goes_on_example = second_join-goes_on 5 1 2 idle refl refl
