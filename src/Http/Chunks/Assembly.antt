-- ===== src/Http/Chunks/Assembly.antt =====
-- handler.go: what is uploaded in chunks arrives whole.
use sharm.Common.{
  ℕ, suc, ◌≤◌, ◌≡◌, true, false, some, List, [], ◌∷◌, ◌++◌, Text, text, ◌==◌, text_eq, nat_eq,
  if◌then◌else◌, Map,
}
use sharm.Golang.Decimal.{format_int}
use sharm.World.{World}
use sharm.Http.Exchange.{Request, write_header, Exchange, writes}
use sharm.Http.Chunks.{validate_upload_id, put_chunk, chunk_upload}

-- An exchange in which no call to the outside fails.
abbrev pub quiet : Exchange → Exchange
quiet x = record x { world = record x.world { outcomes = [] } }

unfoldable pub concat : List Text → Text
concat [] = []
concat (p ∷ ps) = p ++ concat ps

-- The files hold these parts, from a number on.
unfoldable pub Holds : Map ℕ Text → ℕ → List Text → Type 0
Holds chunks i [] = Unit
Holds chunks i (p ∷ ps) = (chunks i ≡ some p) × Holds chunks (suc i) ps

module _ (partial : Text → Text) (r : Request) (id : Text) where
  -- The request that sends a chunk.
  abbrev pub chunk_request : ℕ → Request
  chunk_request i = record r {
    form_value = λ name.
        if name == text "uploadId"
        then id
        else if name == text "chunkIndex"
        then format_int i
        else r.form_value name;
  }

  -- The requests that send all parts, in order.
  unfoldable pub upload_all : ℕ → List Text → Exchange → Exchange
  upload_all i [] x = x
  upload_all i (p ∷ ps) x =
      upload_all (suc i) ps (chunk_upload partial true (some p) (chunk_request i) x)

  -- What has been stored.
  stored : ℕ → List Text → Exchange → Exchange
  stored i [] x = x
  stored i (p ∷ ps) x = stored (suc i) ps (writes (write_header 200 ∷ []) (put_chunk id i p x))

-- The request that completes an upload of so many chunks.
pub record Completes (q : Request) (id : Text) (n : ℕ) : Type 0 where
  pub for_id : q.form_value (text "uploadId") ≡ id
  pub valid : validate_upload_id id ≡ true
  pub total : q.form_value (text "totalChunks") ≡ format_int n
  pub named : (q.form_value (text "filename") == []) ≡ false
  pub some_chunks : 1 ≤ n
  pub not_too_many : n ≤ 20000
