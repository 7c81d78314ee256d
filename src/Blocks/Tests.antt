-- ===== src/Blocks/Tests.antt =====
-- Runs of the blocks' components, and the theorems about them at concrete input.
use block_docs.Base.{ℕ, ◌≡◌, refl, String, true, false, none, some, [], ◌∷◌, string_key}
use block_docs.Types
use block_docs.Types.{Block, num, str, bool}
use block_docs.Store.{BlockStoreState, initial, name}
use block_docs.Store.Queue.{load_snapshot}
use block_docs.Store.Local.{no_content}
use block_docs.Editor.Input.{on_enter, on_backspace_at_empty}
use block_docs.Blocks.{ran, is_checked, heading_level}
use block_docs.Blocks.Upload.{
  Answer, resolved, Response, PresignResponse, File, upload_image, idle, ImageBlock, end_pick,
}
use block_docs.Blocks.Upload.Outcome.{Ends, granted, is_stored, requests_for, end_pick-upload_image}

abbrev picture : Block
picture = record {
  block_id = "p";
  parent_id = none;
  position = b'h' ∷ [];
  depth = 0;
  type = Types.image;
  content = no_content;
  version = 1;
}

abbrev doc : BlockStoreState
doc = load_snapshot (name "doc") (picture ∷ []) "0-0" initial

-- In a code block Enter asks for a new block and none is made.
enter_in_code : ran Types.code (some on_enter) ≡ none
unfolding ran
enter_in_code = refl

backspace_in_code : ran Types.code (some on_backspace_at_empty) ≡ some on_backspace_at_empty
unfolding ran
backspace_in_code = refl

fresh_level : heading_level picture ≡ num 1
unfolding heading_level
fresh_level = refl

fresh_checked : is_checked picture ≡ false
unfolding is_checked
fresh_checked = refl

abbrev http_error : ℕ → String → String
http_error status body = body

abbrev upload_error : ℕ → String
upload_error status = "Image upload failed"

abbrev png : File
png = record { type = "image/png"; size = 12345 }

abbrev presigned : Answer (Response PresignResponse)
presigned = resolved (record {
  is_ok = true;
  status = 200;
  status_text = "OK";
  text = resolved "";
  json = resolved (record { upload_url = "u"; public_url = "v"; image_id = "i" });
})

abbrev put : Answer (Response Unit)
put = resolved (record {
  is_ok = true;
  status = 200;
  status_text = "OK";
  text = resolved "";
  json = resolved tt;
})

abbrev picking : ImageBlock
picking = record { status = idle; error = none }

end_pick-upload_image_example :
    let sent = upload_image http_error upload_error png presigned put in
    (sent.0 ≡ requests_for png (granted presigned))
    × Ends "p" (granted presigned) (is_stored put) doc (end_pick "p" sent.1 picking doc)
end_pick-upload_image_example =
    end_pick-upload_image "p" picking doc http_error upload_error png presigned put
