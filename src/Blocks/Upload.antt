-- ===== src/Blocks/Upload.antt =====
-- An image from the picker to the store: `handle` and `presignImage` of apps/web/src/lib/api.ts,
-- apps/web/src/editor/image-upload.ts, and `onPick` of apps/web/src/components/blocks/ImageBlock.tsx.
-- What the network answers is an argument, and so are the texts of the two errors that are made here.
pub mod Outcome
use block_docs.Base.{
  ℕ, String, Bool, true, false, Option, none, some, get_or, List, [], ◌∷◌, ite, string_discrete,
  string_key, if◌then◌else◌,
}
use block_docs.Types.{Attrs, str, Block}
use block_docs.Store.{BlockStoreState}
use block_docs.Store.Local.{update_attrs}
use block_docs.Blocks.{block_attr, is_truthy}

-- What a promise comes to. `rejected none` is a rejection with something that is no `Error`.
pub data Answer (A : Type 0) : Type 0 where
  resolved : A → Answer A
  rejected : (error : Option String) → Answer A

pub record Response (A : Type 0) : Type 0 where
  pub is_ok : Bool
  pub status : ℕ
  pub status_text : String
  pub text : Answer String
  pub json : Answer A

pub record PresignResponse : Type 0 where
  pub upload_url : String
  pub public_url : String
  pub image_id : String

pub record File : Type 0 where
  pub type : String
  pub size : ℕ

pub data Request : Type 0 where
  presigns : (content_type : String) (size : ℕ) → Request
  puts : (url content_type : String) → Request

pub record Uploaded : Type 0 where
  pub url : String
  pub image : String

-- `file.type || "application/octet-stream"`
unfoldable pub content_type : File → String
unfolding string_discrete
content_type f = ite (string_discrete f.type "") "application/octet-stream" f.type

-- `res.text().catch(() => res.statusText)`
unfoldable pub error_text : String → Answer String → String
error_text status_text (resolved t) = t
error_text status_text (rejected e) = status_text

module _ (http_error : ℕ → String → String) where
  unfoldable pub handle : {A : Type 0} → Response A → Answer A
  unfolding error_text
  handle res =
      if res.is_ok
      then res.json
      else rejected (some (http_error res.status (error_text res.status_text res.text)))

  unfoldable pub presign_image : Answer (Response PresignResponse) → Answer PresignResponse
  unfolding handle
  presign_image (rejected e) = rejected e
  presign_image (resolved res) = handle res

module _ (upload_error : ℕ → String) where
  -- The answer to the PUT.
  unfoldable pub stored_answer : PresignResponse → Answer (Response Unit) → Answer Uploaded
  stored_answer p (rejected e) = rejected e
  stored_answer p (resolved res) =
      if res.is_ok
      then resolved (record { url = p.public_url; image = p.image_id })
      else rejected (some (upload_error res.status))

  -- The requests that were sent, and what the promise came to.
  unfoldable pub put_file :
      File → Answer PresignResponse → Answer (Response Unit) → List Request × Answer Uploaded
  unfolding stored_answer content_type
  put_file f (rejected e) put = ([], rejected e)
  put_file f (resolved p) put = (puts p.upload_url (content_type f) ∷ [], stored_answer p put)

unfoldable pub upload_image :
    (http_error : ℕ → String → String) (upload_error : ℕ → String)
    → File
    → Answer (Response PresignResponse)
    → Answer (Response Unit)
    → List Request × Answer Uploaded
unfolding presign_image put_file content_type
upload_image http_error upload_error f presigned put =
    let sent = put_file upload_error f (presign_image http_error presigned) put in
    (presigns (content_type f) f.size ∷ sent.0, sent.1)

pub data PickerStatus : Type 0 where
  idle uploading error : PickerStatus

pub record ImageBlock : Type 0 where
  pub status : PickerStatus
  pub error : Option String

-- `!src`: the picker is shown instead of the image.
unfoldable pub shows_picker : Block → Bool
unfolding is_truthy block_attr
shows_picker b = if is_truthy (block_attr "src" b) then false else true

unfoldable pub is_disabled : ImageBlock → Bool
is_disabled v = elim v.status [ uploading ↦ true | idle ↦ false | error ↦ false ]

-- `onPick` up to its `await`.
unfoldable pub begin_pick : ImageBlock → ImageBlock
begin_pick v = record { status = uploading; error = none }

-- `onPick` after it, for the block `id`.
unfoldable pub end_pick :
    String → Answer Uploaded → ImageBlock → BlockStoreState → ImageBlock × BlockStoreState
unfolding update_attrs
end_pick id (resolved u) v s = (
  record v { status = idle },
  update_attrs id (("src", str u.url) ∷ ("imageId", str u.image) ∷ []) s,
)
end_pick id (rejected e) v s =
    (record { status = error; error = some (get_or e "upload failed") }, s)
