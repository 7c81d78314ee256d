-- ===== src/Editor/Markdown/Inline/Merge.antt =====
-- What the merging of texts in apps/web/src/editor/paste-markdown.ts keeps.
use block_docs.Base.{
  ℕ, ◌≡◌, refl, sym, ap, ◌∙◌, String, Bool, true, false, Option, none, some, List, [], ◌∷◌, ◌++◌,
  map, if◌then◌else◌, arith, append_assoc, Option-cases, inl, inr,
}
use mathlib.Core.List.{map-append}
use mathlib.Core.Option
use mathlib.Core.Option.{some-injective}
use block_docs.Types.{Mark, Mention, InlineNode, Attrs}
use block_docs.Editor.Marks.{name_of}
use block_docs.Editor.Markdown.Inline.{
  same_mark, same_marks, marks_equal, join, merge_from, merge_adjacent_text,
}

-- How a mark looks: the name of its type, and its attributes as JSON.
abbrev pub Look : Type 0
Look = Option (List (String × String))

-- What is shown: characters with their marks, and mentions.
pub data Shown : Type 0 where
  char : ℕ → Look → Shown
  chip : Mention → Shown

module _ (stringify : Option Attrs → String) where
  abbrev pub look : Option (List Mark) → Look
  look = Option.map (map λ m. (name_of m.type, stringify m.attrs))

  unfoldable pub shown_node : InlineNode → List Shown
  shown_node (InlineNode.text s marks) = map (λ c. char c (look marks)) s
  shown_node (InlineNode.mention m) = chip m ∷ []

  unfoldable pub shown : List InlineNode → List Shown
  shown [] = []
  shown (n ∷ nodes) = shown_node n ++ shown nodes

  -- No two neighbours can be merged.
  abbrev pub IsApart : InlineNode → List InlineNode → Type 0
  IsApart m [] = Unit
  IsApart m (n ∷ nodes) = join stringify m n ≡ none

  abbrev pub IsMerged : List InlineNode → Type 0
  IsMerged [] = Unit
  IsMerged (n ∷ nodes) = IsApart n nodes × IsMerged nodes

  look-same_marks :
      (a b : List Mark) → same_marks stringify a b ≡ true → look (some a) ≡ look (some b)
  unfolding same_marks same_mark
  look-same_marks [] [] h = refl
  look-same_marks [] (n ∷ b) h = cc
  look-same_marks (m ∷ a) [] h = cc
  look-same_marks (m ∷ a) (n ∷ b) h = ground (arith, look-same_marks a b)

  look-marks_equal : (a b : Option (List Mark)) → marks_equal stringify a b ≡ true → look a ≡ look b
  unfolding marks_equal
  look-marks_equal none none h = refl
  look-marks_equal none (some b) h = cc
  look-marks_equal (some a) none h = cc
  look-marks_equal (some a) (some b) h = look-same_marks a b h

  shown-join :
      (m n k : InlineNode)
      → join stringify m n ≡ some k
      → shown_node k ≡ shown_node m ++ shown_node n
  unfolding join shown_node
  shown-join (InlineNode.mention x) n k h = cc
  shown-join (InlineNode.text s a) (InlineNode.mention x) k h = cc
  shown-join (InlineNode.text s a) (InlineNode.text t b) k h =
      tested (marks_equal stringify a b) refl h
    where
      tested :
          (v : Bool)
          → marks_equal stringify a b ≡ v
          → (if v then some (InlineNode.text (s ++ t) a) else none) ≡ some k
          → shown_node k ≡ map (λ c. char c (look a)) s ++ map (λ c. char c (look b)) t
      tested true e q =
          ap shown_node (sym (some-injective _ _ q))
          ∙ map-append (λ c. char c (look a)) s t
          ∙ ap (λ l. map (λ c. char c (look a)) s ++ map (λ c. char c l) t) (look-marks_equal a b e)
      tested false e q = cc

  shown-merge_from :
      (m : InlineNode) (nodes : List InlineNode)
      → shown (merge_from stringify m nodes) ≡ shown_node m ++ shown nodes
  unfolding merge_from shown
  shown-merge_from m [] = refl
  shown-merge_from m (n ∷ nodes) = elim (Option-cases (join stringify m n)) [
    | inl e ↦ rw (e, merge_from) (ap (λ l. shown_node m ++ l) (shown-merge_from n nodes))
    | inr (k, e) ↦
        rw (e, merge_from)
          (shown-merge_from k nodes
            ∙ ap (λ l. l ++ shown nodes) (shown-join m n k e)
            ∙ append_assoc (shown_node m) (shown_node n) (shown nodes))
  ]

  -- A node that grew by merging stands apart from what its beginning stood apart from.
  join-grown :
      (x m n k : InlineNode)
      → join stringify x m ≡ none
      → join stringify m n ≡ some k
      → join stringify x k ≡ none
  unfolding join
  join-grown (InlineNode.mention v) m n k h e = refl
  join-grown (InlineNode.text s a) (InlineNode.mention v) n k h e = cc
  join-grown (InlineNode.text s a) (InlineNode.text t b) (InlineNode.mention v) k h e = cc
  join-grown (InlineNode.text s a) (InlineNode.text t b) (InlineNode.text u c) k h e = ground arith

  merge_from-IsMerged :
      (m : InlineNode) (nodes : List InlineNode)
      → IsMerged (merge_from stringify m nodes)
        × ((x : InlineNode) → join stringify x m ≡ none → IsApart x (merge_from stringify m nodes))
  unfolding merge_from
  merge_from-IsMerged m [] = ((tt, tt), λ x h. h)
  merge_from-IsMerged m (n ∷ nodes) = elim (Option-cases (join stringify m n)) [
    | inl e ↦ rw (e, merge_from) (let p = merge_from-IsMerged n nodes in ((p.1 m e, p.0), λ x h. h))
    | inr (k, e) ↦
        rw (e, merge_from)
          (let p = merge_from-IsMerged k nodes in (p.0, λ x h. p.1 x (join-grown x m n k h e)))
  ]

  -- Merging leaves every character with its marks, and every mention, where it was; and afterwards
  -- no two texts that look alike stand side by side.
  pub merge_adjacent_text_lem :
      (nodes : List InlineNode)
      → (shown (merge_adjacent_text stringify nodes) ≡ shown nodes)
        × IsMerged (merge_adjacent_text stringify nodes)
  unfolding merge_adjacent_text shown
  merge_adjacent_text_lem [] = (refl, tt)
  merge_adjacent_text_lem (n ∷ nodes) = (shown-merge_from n nodes, (merge_from-IsMerged n nodes).0)
