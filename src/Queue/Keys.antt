-- ===== src/Queue/Keys.antt =====
-- The kinds and the Redis keys of internal/queue/queue.go. A character of a Go string is a byte there; the
-- bytes of a code point beyond ASCII are not allowed either, so code points give the same test.
use toko_api.Prelude.{
  ℕ, Bool, true, ◌&&◌, ◌||◌, [], ◌∷◌, ◌++◌, ◌==◌, leb, if◌then◌else◌, Text, codes, is_empty,
}

abbrev is_kind_char : ℕ → Bool
is_kind_char c =
    (leb b'a' c && leb c b'z') || (leb b'0' c && leb c b'9') || c == b'-' || c == b'_' || c == b':'

-- every character is a letter, a digit, or one of `-`, `_` and `:`
unfoldable pub is_kind : Text → Bool
is_kind [] = true
is_kind (c ∷ s) = is_kind_char c && is_kind s

-- `sanitizeKind`
unfoldable pub sanitize_kind : Text → Text
sanitize_kind kind = if is_kind kind then kind else []

-- `queueKey`, of the enqueuer and of the worker
unfoldable pub queue_key : Text → Text → Text
queue_key prefix kind =
    if is_empty prefix then codes "queue:" ++ kind else prefix ++ codes ":queue:" ++ kind

-- `processingKey`
unfoldable pub processing_key : Text → Text → Text
processing_key prefix kind =
    if is_empty prefix
    then codes "queue:" ++ kind ++ codes ":processing"
    else prefix ++ codes ":" ++ kind ++ codes ":processing"

-- `dedupKey`, of the enqueuer and of the worker
unfoldable pub dedup_key : Text → Text → Text → Text
dedup_key prefix kind key =
    if is_empty prefix
    then codes "queue:dedup:" ++ kind ++ codes ":" ++ key
    else prefix ++ codes ":dedup:" ++ kind ++ codes ":" ++ key
