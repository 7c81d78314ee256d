-- ===== src/Blocks/Upload/Outcome.antt =====
-- The upload of an image against what it promises.
use block_docs.Base.{
  ℕ, String, Bool, true, false, Option, none, some, List, [], ◌∷◌, ite, ◌≡◌, refl, sym, ap, subst,
  ◌∙◌, string_discrete, string_key, if◌then◌else◌, if_neg, if_pos,
}
use block_docs.JsMap
use block_docs.JsMap.{IsDistinct}
use block_docs.Types.{Attrs, str, Block}
use block_docs.Store.{BlockStoreState}
use block_docs.Blocks.Attributes.{
  attribute_of, attribute_in, written, written_or, attribute_of-update_attrs,
}
use block_docs.Blocks.Upload.{
  Answer, resolved, rejected, Response, PresignResponse, File, Request, presigns, puts,
  content_type, handle, presign_image, stored_answer, put_file, upload_image, PickerStatus, idle,
  error, ImageBlock, end_pick,
}

-- What the API granted.
abbrev body : {A : Type 0} → Answer A → Option A
body (resolved a) = some a
body (rejected e) = none

unfoldable pub granted : Answer (Response PresignResponse) → Option PresignResponse
granted (rejected e) = none
granted (resolved res) = if res.is_ok then body res.json else none

unfoldable pub is_stored : Answer (Response Unit) → Bool
is_stored (rejected e) = false
is_stored (resolved res) = res.is_ok

-- The requests, the attributes and the status that are to come of it.
unfoldable pub requests_for : File → Option PresignResponse → List Request
unfolding content_type
requests_for f none = presigns (content_type f) f.size ∷ []
requests_for f (some p) = presigns (content_type f) f.size ∷ puts p.upload_url (content_type f) ∷ []

unfoldable pub attrs_for : Option PresignResponse → Bool → Attrs
attrs_for none ok = []
attrs_for (some p) false = []
attrs_for (some p) true = ("src", str p.public_url) ∷ ("imageId", str p.image_id) ∷ []

unfoldable pub status_for : Option PresignResponse → Bool → PickerStatus
status_for none ok = error
status_for (some p) false = error
status_for (some p) true = idle

written-nil : (key : String) (o : Option Block) → written [] key o ≡ attribute_in key o
unfolding written attribute_in written_or
written-nil key none = refl
written-nil key (some b) = refl

unwritten :
    (id other key : String) (s : BlockStoreState)
    → attribute_of other key s
      ≡ ite
          (string_discrete id other)
          (written [] key (JsMap.get id s.blocks))
          (attribute_of other key s)
unwritten id other key s = elim (string_discrete id other) [
  | yes p ↦
      ap (λ k. attribute_of k key s) (sym p)
      ∙ sym (written-nil key (JsMap.get id s.blocks))
      ∙ sym (if_pos (string_discrete id other) p _ _)
  | no n ↦ sym (if_neg (string_discrete id other) n _ _)
]

-- What holds of an upload's end.
abbrev pub Ends :
    String → Option PresignResponse → Bool → BlockStoreState → ImageBlock × BlockStoreState → Type 0
Ends id p ok s next =
    (next.0.status ≡ status_for p ok)
    × ((other key : String)
        → attribute_of other key next.1
          ≡ ite (string_discrete id other) (written (attrs_for p ok) key (JsMap.get id s.blocks))
              (attribute_of other key s))

module _ (id : String) (v : ImageBlock) (s : BlockStoreState) where
  rejected-Ends : (e : Option String) (ok : Bool) → Ends id none ok s (end_pick id (rejected e) v s)
  unfolding end_pick status_for attrs_for
  rejected-Ends e ok = (refl, λ other key. unwritten id other key s)

  unstored-Ends :
      (e : Option String) (p : PresignResponse)
      → Ends id (some p) false s (end_pick id (rejected e) v s)
  unfolding end_pick status_for attrs_for
  unstored-Ends e p = (refl, λ other key. unwritten id other key s)

  resolved-Ends :
      (p : PresignResponse)
      → Ends id
          (some p)
          true
          s
          (end_pick id (resolved (record { url = p.public_url; image = p.image_id })) v s)
  unfolding end_pick status_for attrs_for JsMap.get string_discrete
  resolved-Ends p = (
    refl,
    λ other key.
        attribute_of-update_attrs id other key
          (("src", str p.public_url) ∷ ("imageId", str p.image_id) ∷ []) s (refl, (refl, tt)),
  )

  answered-Ends :
      (p : PresignResponse) (ok : Bool) (e : Option String)
      → Ends id (some p) ok s (
          end_pick id
            (if ok
              then resolved (record { url = p.public_url; image = p.image_id })
              else rejected e)
            v
            s)
  answered-Ends p true e = resolved-Ends p
  answered-Ends p false e = unstored-Ends e p

  module _ (http_error : ℕ → String → String) (upload_error : ℕ → String) (f : File) where
    put_file-Ends :
        (a : Answer PresignResponse) (put : Answer (Response Unit))
        → Ends id (body a) (is_stored put) s (end_pick id (put_file upload_error f a put).1 v s)
    unfolding put_file stored_answer is_stored
    put_file-Ends (rejected e) put = rejected-Ends e (is_stored put)
    put_file-Ends (resolved p) (rejected e) = unstored-Ends e p
    put_file-Ends (resolved p) (resolved res) =
        answered-Ends p res.is_ok (some (upload_error res.status))

    put_requests :
        (a : Answer PresignResponse) (put : Answer (Response Unit))
        → presigns (content_type f) f.size ∷ (put_file upload_error f a put).0
          ≡ requests_for f (body a)
    unfolding put_file requests_for
    put_requests (rejected e) put = refl
    put_requests (resolved p) put = refl

    body-if :
        (ok : Bool) (a : Answer PresignResponse) (e : Option String)
        → body (if ok then a else rejected e) ≡ (if ok then body a else none)
    body-if true a e = refl
    body-if false a e = refl

    body-presign_image :
        (presigned : Answer (Response PresignResponse))
        → body (presign_image http_error presigned) ≡ granted presigned
    unfolding presign_image handle granted
    body-presign_image (rejected e) = refl
    body-presign_image (resolved res) = body-if res.is_ok res.json _

    -- An upload, whatever the network answers: the file is put exactly if the API granted an address,
    -- there and with the same content type. If it was stored, the block's attributes src and imageId
    -- are what was granted, its other attributes and all other blocks' are as they were, and the
    -- picker is idle; otherwise no attribute changes and the picker shows an error.
    pub end_pick-upload_image :
        (presigned : Answer (Response PresignResponse)) (put : Answer (Response Unit))
        → let sent = upload_image http_error upload_error f presigned put in
          (sent.0 ≡ requests_for f (granted presigned))
          × Ends id (granted presigned) (is_stored put) s (end_pick id sent.1 v s)
    unfolding upload_image
    end_pick-upload_image presigned put =
        let a = presign_image http_error presigned in
        let e = body-presign_image presigned in
        (
          put_requests a put ∙ ap (requests_for f) e,
          subst
              (λ p. Ends id p (is_stored put) s (end_pick id (put_file upload_error f a put).1 v s))
              e (put_file-Ends a put),
        )
