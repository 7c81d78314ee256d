-- ===== src/Editor/Markdown/Likely.antt =====
-- `isLikelyMarkdown` of apps/web/src/editor/paste-markdown.ts: its regular expressions, each as a
-- function that tells whether it matches at the beginning of a text.
use block_docs.Base.{
  ℕ, zero, suc, Bool, true, false, not, ◌&&◌, ◌||◌, [], ◌∷◌, ◌==◌, leb, if◌then◌else◌,
}
use block_docs.Text.{Text}

-- `\s`, and what `.` does not match and `^` matches after.
is_line_end : ℕ → Bool
is_line_end c = (c == 10) || (c == 13) || (c == 8232) || (c == 8233)

unfoldable pub is_space : ℕ → Bool
unfolding is_line_end
is_space c =
    is_line_end c
    || (c == 9)
    || (c == 11)
    || (c == 12)
    || (c == 32)
    || (c == 160)
    || (c == 5760)
    || (leb 8192 c && leb c 8202)
    || (c == 8239)
    || (c == 8287)
    || (c == 12288)
    || (c == 65279)

begins_with_space : Text → Bool
unfolding is_space
begins_with_space [] = false
begins_with_space (c ∷ t) = is_space c

-- `#{1,6}\s`, where `n` more hashes may come.
heading_rest : ℕ → Text → Bool
unfolding is_space
heading_rest n [] = false
heading_rest zero (c ∷ t) = is_space c
heading_rest (suc n) (c ∷ t) = let rest = heading_rest n t in if c == 35 then rest else is_space c

heading : Text → Bool
unfolding heading_rest
heading [] = false
heading (c ∷ t) = (c == 35) && heading_rest 5 t

-- `[-*+]\s`
bullet : Text → Bool
unfolding begins_with_space
bullet [] = false
bullet (c ∷ t) = ((c == 45) || (c == 42) || (c == 43)) && begins_with_space t

is_digit : ℕ → Bool
is_digit c = leb 48 c && leb c 57

-- `\d*\.\s` and `\d+\.\s`
number_rest : Text → Bool
unfolding begins_with_space is_digit
number_rest [] = false
number_rest (c ∷ t) =
    let rest = number_rest t in if is_digit c then rest else (c == 46) && begins_with_space t

number : Text → Bool
unfolding number_rest is_digit
number [] = false
number (c ∷ t) = is_digit c && number_rest t

-- `>\s`
quote : Text → Bool
unfolding begins_with_space
quote [] = false
quote (c ∷ t) = (c == 62) && begins_with_space t

-- "```"
fence : Text → Bool
fence (a ∷ b ∷ c ∷ t) = (a == 96) && (b == 96) && (c == 96)
fence _ = false

stars : Text → Bool
stars (a ∷ b ∷ t) = (a == 42) && (b == 42)
stars _ = false

-- `.*\*\*`, then `\*\*.+\*\*`
closes_strong : Text → Bool
unfolding stars is_line_end
closes_strong [] = false
closes_strong (c ∷ t) = let rest = closes_strong t in stars (c ∷ t) || (not (is_line_end c) && rest)

strong : Text → Bool
unfolding stars closes_strong is_line_end
strong (a ∷ b ∷ c ∷ t) = stars (a ∷ b ∷ []) && not (is_line_end c) && closes_strong t
strong _ = false

-- `[^)]*\)`
closes_target : Text → Bool
closes_target [] = false
closes_target (c ∷ t) = let rest = closes_target t in (c == 41) || rest

-- `\([^)]+\)`
link_target : Text → Bool
unfolding closes_target
link_target (a ∷ c ∷ t) = (a == 40) && not (c == 41) && closes_target t
link_target _ = false

-- `[^\]]*\]` and then the target of the link.
label_rest : Text → Bool
unfolding link_target
label_rest [] = false
label_rest (c ∷ t) = let rest = label_rest t in if c == 93 then link_target t else rest

link : Text → Bool
unfolding label_rest
link (a ∷ c ∷ t) = (a == 91) && not (c == 93) && label_rest t
link _ = false

-- A match somewhere.
anywhere : (Text → Bool) → Text → Bool
anywhere p [] = false
anywhere p (c ∷ t) = p (c ∷ t) || anywhere p t

-- A match at the beginning of a line, where `start` says whether one begins here.
on_a_line : (Text → Bool) → (start : Bool) → Text → Bool
unfolding is_line_end
on_a_line p start [] = false
on_a_line p start (c ∷ t) = (start && p (c ∷ t)) || on_a_line p (is_line_end c) t

unfoldable pub is_likely_markdown : Text → Bool
unfolding anywhere on_a_line heading bullet number quote fence strong link
is_likely_markdown text =
    on_a_line heading true text
    || on_a_line bullet true text
    || on_a_line number true text
    || on_a_line quote true text
    || on_a_line fence true text
    || anywhere strong text
    || anywhere link text
