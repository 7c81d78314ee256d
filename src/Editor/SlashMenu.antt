-- ===== src/Editor/SlashMenu.antt =====
-- apps/web/src/components/editor/SlashMenu.tsx: its keyboard, with React's rule for effects, which run
-- again after a rendering in which a dependency changed. Of the dependencies, `open` and `cursor` are
-- modelled; the callbacks come from the parent, and a new one only runs the effect once more.
pub mod Stuck
use block_docs.Base.{
  ℕ, zero, suc, ◌+◌, ◌-◌, ◌%◌, Bool, true, false, ◌&&◌, ◌==◌, Option, none, some, List, [], ◌∷◌,
  length, get_elem?, if◌then◌else◌,
}
use block_docs.Types.{
  BlockType, paragraph, heading, bulleted_list, numbered_list, todo, code, blockquote, callout,
  divider, image,
}

abbrev pub options : List BlockType
options =
    paragraph ∷ heading ∷ bulleted_list ∷ numbered_list ∷ todo ∷ code ∷ blockquote ∷ callout
    ∷ divider ∷ image ∷ []

-- The arguments of `onPick`.
pub record Pick : Type 0 where
  pub type : BlockType
  pub level : Option ℕ

level_of : BlockType → Option ℕ
level_of heading = some 1
level_of _ = none

-- `opt.key` and `opt.key === "heading" ? { level: 1 } : undefined`, for a key and for a click.
unfoldable pub picked : Option BlockType → Option Pick
unfolding level_of
picked none = none
picked (some type) = some (record { type = type; level = level_of type })

pub record SlashMenu : Type 0 where
  pub is_open : Bool
  pub cursor : ℕ

abbrev pub closed_menu : SlashMenu
closed_menu = record { is_open = false; cursor = 0 }

pub data Event : Type 0 where
  opens escape arrow_down arrow_up enter other_key : Event

-- `onKey` of an open menu; the parent closes the menu on `onPick` and on `onClose`.
unfoldable pub on_key : Event → ℕ → SlashMenu × Option Pick
unfolding picked
on_key escape cursor = (record { is_open = false; cursor = cursor }, none)
on_key arrow_down cursor = (record { is_open = true; cursor = (cursor + 1) % length options }, none)
on_key arrow_up cursor =
    (record { is_open = true; cursor = (cursor + length options - 1) % length options }, none)
on_key enter cursor =
    (record { is_open = false; cursor = cursor }, picked (get_elem? options cursor))
on_key _ cursor = (record { is_open = true; cursor = cursor }, none)

-- A closed menu listens to no key; the parent opens it.
hear_key : Bool → Event → SlashMenu → SlashMenu × Option Pick
unfolding on_key
hear_key true e m = on_key e m.cursor
hear_key false opens m = (record m { is_open = true }, none)
hear_key false _ m = (m, none)

unfoldable pub handle : Event → SlashMenu → SlashMenu × Option Pick
unfolding hear_key
handle e m = hear_key m.is_open e m

-- `if (!open) return; setCursor(0);`
unfoldable pub effect : SlashMenu → SlashMenu
effect m = if m.is_open then record m { cursor = 0 } else m

same_bool : Bool → Bool → Bool
same_bool true true = true
same_bool false false = true
same_bool _ _ = false

unfoldable pub same_deps : SlashMenu → SlashMenu → Bool
unfolding same_bool
same_deps last m = same_bool last.is_open m.is_open && (last.cursor == m.cursor)

-- The renderings up to one without a changed dependency; `last` has those of the effect before.
unfoldable pub render : ℕ → SlashMenu → SlashMenu → Option SlashMenu
unfolding same_deps effect
render zero last m = if same_deps last m then some m else none
render (suc fuel) last m =
    let rest = render fuel m (effect m) in if same_deps last m then some m else rest

-- At most three renderings: the event's, the one that the effect asks for, and one that finds
-- nothing changed.
abbrev pub render_fuel : ℕ
render_fuel = 3

pub record Session : Type 0 where
  pub menu : SlashMenu
  pub picks : List Pick

add_pick : Option Pick → List Pick → List Pick
add_pick none ps = ps
add_pick (some p) ps = p ∷ ps

rendered : List Pick → Option SlashMenu → Option Session
rendered picks none = none
rendered picks (some m) = some (record { menu = m; picks = picks })

unfoldable pub step : Event → Session → Option Session
unfolding handle render add_pick rendered
step e s =
    let r = handle e s.menu in rendered (add_pick r.1 s.picks) (render render_fuel s.menu r.0)

then_step : Event → Option Session → Option Session
unfolding step
then_step e none = none
then_step e (some s) = step e s

-- The last event is the head.
unfoldable pub run : List Event → Option Session
unfolding then_step
run [] = some (record { menu = closed_menu; picks = [] })
run (e ∷ es) = then_step e (run es)
