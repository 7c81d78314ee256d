-- ===== src/Editor/Markdown/Blocks.antt =====
-- Block tokens of apps/web/src/editor/paste-markdown.ts, made into templates of blocks. The n-th call
-- of `newBlockId` gives `new_id n`; there is one for each template.
pub mod Nesting
use block_docs.Base.{
  ℕ, String, Bool, true, false, Option, none, some, get_or, List, [], ◌∷◌, ◌++◌, length,
  if◌then◌else◌,
}
use block_docs.Text.{Text, codes}
use block_docs.Types.{
  BlockType, heading, paragraph, code, blockquote, divider, bulleted_list, numbered_list, todo,
  BlockContent, InlineNode, Attrs, num, bool, str,
}
use block_docs.Editor.Markdown.Inline.{Tokens, inline_from_tokens}
use block_docs.Ws.Replay.{truthy}

pub record MarkdownBlockTemplate : Type 0 where
  pub block_id : String
  pub type : BlockType
  pub content : BlockContent
  pub parent_index : Option ℕ

-- The block tokens of marked, with the fields that are read. `ignored` stands for `html` and `space`,
-- and `unknown` for all types that the code does not name. An item of a list is a task or not, is
-- checked or not, and has tokens.
mutual
  pub data BlockToken : Type 0 where
    heading_token : (depth : ℕ) → Option Tokens → BlockToken
    paragraph_token : Option Tokens → BlockToken
    code_token : (lang : Option String) → Text → BlockToken
    blockquote_token : BlockTokens → BlockToken
    hr : BlockToken
    list : (ordered : Bool) → Items → BlockToken
    ignored : BlockToken
    table : (header : List Text) → List (List Text) → BlockToken
    text_token : Option Tokens → (raw : Option Text) → BlockToken
    unknown : (raw : Option Text) → BlockToken

  pub data BlockTokens : Type 0 where
    nil : BlockTokens
    cons : BlockToken → BlockTokens → BlockTokens

  pub data Items : Type 0 where
    end : Items
    item : (is_task checked : Bool) → BlockTokens → Items → Items

-- `find` of the first paragraph and of the first text, and their tokens.
first_paragraph : BlockTokens → Option Tokens
first_paragraph nil = none
first_paragraph (cons (paragraph_token ts) rest) = ts
first_paragraph (cons t rest) = first_paragraph rest

first_text : BlockTokens → Option Tokens
first_text nil = none
first_text (cons (text_token ts raw) rest) = ts
first_text (cons t rest) = first_text rest

-- `firstPara?.tokens ?? firstText?.tokens ?? []`
or_tokens : Option Tokens → Option Tokens → Tokens
or_tokens (some ts) o = ts
or_tokens none o = get_or o Tokens.nil

-- `join(" | ")`
join_cells : List Text → Text
join_cells [] = []
join_cells (c ∷ []) = c
join_cells (c ∷ d ∷ cells) = c ++ (codes " | " ++ join_cells (d ∷ cells))

abbrev text_only : Text → BlockContent
text_only s = record { children = some (InlineNode.text s none ∷ []); attrs = none }

-- `c.lang ? { language: c.lang } : {}`
language_attrs : Option String → Attrs
language_attrs none = []
language_attrs (some lang) = ("language", str lang) ∷ []

item_type : Bool → Bool → BlockType
item_type true ordered = todo
item_type false true = numbered_list
item_type false false = bulleted_list

item_attrs : Bool → Bool → Option Attrs
item_attrs true checked = some (("checked", bool checked) ∷ [])
item_attrs false checked = none

module _ (new_id : ℕ → String) (stringify : Option Attrs → String) where
  -- `out.push({ blockId: newBlockId(), … })`
  unfoldable pub push :
      BlockType → BlockContent → ℕ → List MarkdownBlockTemplate → List MarkdownBlockTemplate
  push type content parent out =
      out
      ++ record {
        block_id = new_id (length out);
        type = type;
        content = content;
        parent_index = some parent;
      }
        ∷ []

  inlines : Option Tokens → List InlineNode
  unfolding inline_from_tokens
  inlines ts = inline_from_tokens stringify (get_or ts Tokens.nil) []

  push_rows : List (List Text) → ℕ → List MarkdownBlockTemplate → List MarkdownBlockTemplate
  unfolding push join_cells
  push_rows [] parent out = out
  push_rows (row ∷ rows) parent out =
      push_rows rows parent (push paragraph (text_only (join_cells row)) parent out)

  push_raw : Option Text → ℕ → List MarkdownBlockTemplate → List MarkdownBlockTemplate
  unfolding push
  push_raw none parent out = out
  push_raw (some []) parent out = out
  push_raw (some (c ∷ s)) parent out = push paragraph (text_only (c ∷ s)) parent out

  -- The parent's index is that of the template just pushed.
  unfoldable mutual
    unfolding push push_rows push_raw inlines truthy language_attrs item_type item_attrs or_tokens
        first_paragraph first_text join_cells

    pub push_token : BlockToken → List MarkdownBlockTemplate → ℕ → List MarkdownBlockTemplate
    push_token (heading_token depth ts) out parent =
        push heading
          (record { children = some (inlines ts); attrs = some (("level", num depth) ∷ []) }) parent
          out
    push_token (paragraph_token ts) out parent =
        push paragraph (record { children = some (inlines ts); attrs = none }) parent out
    push_token (code_token lang s) out parent =
        push code
          (record {
            children = some (InlineNode.text s none ∷ []);
            attrs = some (language_attrs (truthy lang));
          })
          parent out
    push_token (blockquote_token ts) out parent =
        push_children ts (push blockquote (record { children = some []; attrs = none }) parent out)
          (length out)
    push_token hr out parent = push divider (record { children = none; attrs = none }) parent out
    push_token (list ordered items) out parent = push_items ordered items out parent
    push_token ignored out parent = out
    push_token (table header rows) out parent =
        push_rows rows parent (push paragraph (text_only (join_cells header)) parent out)
    push_token (text_token ts raw) out parent = push_raw raw parent out
    push_token (unknown raw) out parent = push_raw raw parent out

    pub push_children : BlockTokens → List MarkdownBlockTemplate → ℕ → List MarkdownBlockTemplate
    push_children nil out parent = out
    push_children (cons t ts) out parent = push_children ts (push_token t out parent) parent

    pub push_items : Bool → Items → List MarkdownBlockTemplate → ℕ → List MarkdownBlockTemplate
    push_items ordered end out parent = out
    push_items ordered (item is_task checked ts rest) out parent =
        push_items ordered rest
          (push_lists ts
            (push (item_type is_task ordered)
              (record {
                children = some (
                    inline_from_tokens stringify (or_tokens (first_paragraph ts) (first_text ts))
                      []);
                attrs = item_attrs is_task checked;
              })
              parent out)
            (length out))
          parent

    pub push_lists : BlockTokens → List MarkdownBlockTemplate → ℕ → List MarkdownBlockTemplate
    push_lists nil out parent = out
    push_lists (cons (list ordered items) ts) out parent =
        push_lists ts (push_items ordered items out parent) parent
    push_lists (cons t ts) out parent = push_lists ts out parent

  -- `markdownToBlocks` behind the lexer.
  unfoldable pub markdown_to_blocks : BlockTokens → List MarkdownBlockTemplate
  unfolding push_token
  markdown_to_blocks tokens = push_children tokens [] 0
