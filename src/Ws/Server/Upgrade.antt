-- ===== src/Ws/Server/Upgrade.antt =====
-- `decideUpgrade` of apps/ws/src/server.ts. `URL` has split the address already. `number` is
-- `Number` of a text, where that is an integer that is not negative; all else is refused alike.
use block_docs.Base.{
  ℕ, zero, suc, ◌<◌, ◌≡◌, ◌≢◌, refl, ◌∙◌, ap, String, true, false, Option, none, some, [], ◌++◌,
  if_neg, arith, string_discrete,
}
use block_docs.Text.{Text, codes}
use block_docs.WsClient.{cursor_param}
use block_docs.Ws.Bus.{decimal, strip_prefix, read_digits}
use block_docs.Ws.Bus.Channel.{read_digits-print_from, strip_prefix-append}

-- `req.url`: missing, refused by `URL`, or with its path and the two parameters that are read.
pub data Address : Type 0 where
  missing invalid : Address
  parsed : (path : Text) (uid since : Option String) → Address

pub record Admission : Type 0 where
  pub doc_id : ℕ
  pub user_id : ℕ
  pub since_stream_id : Option String

pub data UpgradeDecision : Type 0 where
  refused : (status : ℕ) (reason : String) → UpgradeDecision
  admitted : Admission → UpgradeDecision

abbrev pub docs_path : Text
docs_path = codes "/v3/docs/"

digits_behind : Option Text → Option ℕ
digits_behind none = none
digits_behind (some s) = read_digits [] false 0 s

-- `^\/v3\/docs\/(\d+)$`
unfoldable pub match_path : Text → Option ℕ
unfolding digits_behind read_digits strip_prefix
match_path path = digits_behind (strip_prefix docs_path path)

decide_user : ℕ → Option String → Option ℕ → UpgradeDecision
decide_user doc since none = refused 400 "invalid_uid"
decide_user doc since (some zero) = refused 400 "invalid_uid"
decide_user doc since (some (suc n)) =
    admitted (record { doc_id = doc; user_id = suc n; since_stream_id = since })

decide_uid : (String → Option ℕ) → ℕ → Option String → Option String → UpgradeDecision
unfolding decide_user
decide_uid number doc since none = refused 400 "missing_uid"
decide_uid number doc since (some uid) = decide_user doc since (number uid)

decide_doc : (String → Option ℕ) → Option String → Option String → Option ℕ → UpgradeDecision
unfolding decide_uid cursor_param
decide_doc number uid since none = refused 404 "path_not_found"
decide_doc number uid since (some zero) = refused 400 "invalid_doc_id"
decide_doc number uid since (some (suc n)) =
    decide_uid number (suc n) (cursor_param since) (cursor_param uid)

unfoldable pub decide_upgrade : (String → Option ℕ) → Address → UpgradeDecision
unfolding decide_doc match_path
decide_upgrade number missing = refused 400 "missing_url"
decide_upgrade number invalid = refused 400 "invalid_url"
decide_upgrade number (parsed path uid since) = decide_doc number uid since (match_path path)

-- The address that the client makes, `/v3/docs/${docId}`.
abbrev pub client_path : ℕ → Text
client_path doc = docs_path ++ decimal doc

match_client_path : (doc : ℕ) → match_path (client_path doc) ≡ some doc
unfolding match_path digits_behind decimal
match_client_path doc =
    ap digits_behind (strip_prefix-append docs_path (decimal doc))
    ∙ read_digits-print_from (suc doc) doc [] false [] (omega arith)
    ∙ end doc
  where
    end : (n : ℕ) → read_digits [] true n [] ≡ some n
    end n = refl

-- The server lets in a client that asks for a document with a positive id as a user with a positive
-- number, and reads the id, the user and the cursor that the client wrote.
pub decide_upgrade-client_path :
    (number : String → Option ℕ) (doc user : ℕ) (uid : String) (since : Option String)
    → 0 < doc
    → 0 < user
    → uid ≢ ""
    → number uid ≡ some user
    → decide_upgrade number (parsed (client_path doc) (some uid) since)
      ≡ admitted (record { doc_id = doc; user_id = user; since_stream_id = cursor_param since })
unfolding decide_upgrade decide_doc decide_uid decide_user
decide_upgrade-client_path number zero user uid since d u n h = absurd (omega (arith, d))
decide_upgrade-client_path number (suc doc) zero uid since d u n h = absurd (omega (arith, u))
decide_upgrade-client_path number (suc doc) (suc user) uid since d u n h =
    ap (decide_doc number (some uid) since) (match_client_path (suc doc))
    ∙ ap (decide_uid number (suc doc) (cursor_param since)) (if_neg (string_discrete uid "") n _ _)
    ∙ ap (decide_user (suc doc) (cursor_param since)) h
