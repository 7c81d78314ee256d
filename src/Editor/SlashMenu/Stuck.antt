-- ===== src/Editor/SlashMenu/Stuck.antt =====
-- Where the cursor of apps/web/src/components/editor/SlashMenu.tsx can be.
use block_docs.Base.{
  ℕ, ◌≡◌, refl, sym, ap, subst, Bool, true, false, Option, none, some, List, [], ◌∷◌, All,
}
use mathlib.Core.Option.{some-injective}
use block_docs.Types.{paragraph}
use block_docs.Editor.SlashMenu.{
  Pick, Event, opens, escape, arrow_down, arrow_up, enter, other_key, Session, step, then_step, run,
  closed_menu,
}

abbrev pub IsFirst : Pick → Type 0
IsFirst p = p ≡ record { type = paragraph; level = none }

-- The cursor is at the first entry and only that entry was picked.
abbrev pub IsStuck : Session → Type 0
IsStuck s = (s.menu.cursor ≡ 0) × All IsFirst s.picks

abbrev at : Bool → List Pick → Session
at is_open picks = record { menu = record { is_open = is_open; cursor = 0 }; picks = picks }

abbrev Gives : Option Session → Type 0
Gives o = (t : Session) × (o ≡ some t) × IsStuck t

step-Gives :
    (e : Event) (is_open : Bool) (picks : List Pick)
    → All IsFirst picks
    → Gives (step e (at is_open picks))
unfolding step
step-Gives opens true ps h = (at true ps, refl, (refl, h))
step-Gives opens false ps h = (at true ps, refl, (refl, h))
step-Gives escape true ps h = (at false ps, refl, (refl, h))
step-Gives escape false ps h = (at false ps, refl, (refl, h))
step-Gives arrow_down true ps h = (at true ps, refl, (refl, h))
step-Gives arrow_down false ps h = (at false ps, refl, (refl, h))
step-Gives arrow_up true ps h = (at true ps, refl, (refl, h))
step-Gives arrow_up false ps h = (at false ps, refl, (refl, h))
step-Gives enter true ps h =
    (at false (record { type = paragraph; level = none } ∷ ps), refl, (refl, (refl, h)))
step-Gives enter false ps h = (at false ps, refl, (refl, h))
step-Gives other_key true ps h = (at true ps, refl, (refl, h))
step-Gives other_key false ps h = (at false ps, refl, (refl, h))

then_step-Gives : (e : Event) (o : Option Session) → Gives o → Gives (then_step e o)
unfolding then_step
then_step-Gives e none h = cc
then_step-Gives e (some s) h =
    let stuck = subst IsStuck (sym (some-injective s h.0 h.1)) h.2 in
    let from : ℕ → Session =
      λ c. record { menu = record { is_open = s.menu.is_open; cursor = c }; picks = s.picks } in
    subst (λ z. Gives (step e z)) (sym (ap from stuck.0))
      (step-Gives e s.menu.is_open s.picks stuck.1)

-- After any events, beginning with the closed menu, the renderings end, the cursor stands at the
-- first entry, whatever arrow keys were pressed, and every entry that was picked by Enter is the
-- first, the paragraph.
pub run-IsStuck : (es : List Event) → (s : Session) × (run es ≡ some s) × IsStuck s
unfolding run
run-IsStuck [] = (record { menu = closed_menu; picks = [] }, refl, (refl, tt))
run-IsStuck (e ∷ es) = then_step-Gives e (run es) (run-IsStuck es)
