-- ===== src/Queue/Redis.antt =====
-- What internal/queue/queue.go keeps in Redis and in the table of dead letters (internal/queue/store.go).
use toko_api.Prelude.{
  ℤ, Bool, false, ◌&&◌, ◌||◌, Option, List, [], ◌∷◌, ltb_ℤ, if◌then◌else◌, Text, text_eq,
}
use toko_api.Queue.Sets.{SortedSet}

-- `taskMessage`
pub record Message : Type 0 where
  pub kind : Text
  pub key : Text
  pub payload : Text
  pub attempt : ℤ
  pub max_attempts : ℤ
  pub available_at : ℤ
  pub last_error : Text

-- `DLQEntry`, with the columns that the worker writes
pub record DlqEntry : Type 0 where
  pub kind : Text
  pub idempotency_key : Text
  pub payload : Text
  pub attempts : ℤ
  pub last_error : Option Text

-- a key set by `SET NX`, and the instant at which it expires
pub record Held : Type 0 where
  pub key : Text
  pub expires : ℤ

pub record Redis : Type 0 where
  pub sets : Text → SortedSet
  pub held : List Held
  pub dead : List DlqEntry

-- Which commands fail during a call.
pub data Command : Type 0 where
  set_nx zadd_command zrem_command del insert_dlq zpopmin zrange : Command

-- `encoding/json` on messages: a message always encodes, and `decode` is `none` where the decoder fails.
pub record Json : Type 0 where
  pub encode : Message → Text
  pub decode : Text → Option Message

unfoldable pub put : Text → SortedSet → (Text → SortedSet) → Text → SortedSet
put key z sets k = if text_eq k key then z else sets k

abbrev pub change : Text → (SortedSet → SortedSet) → Redis → Redis
change key f r = record r { sets = put key (f (r.sets key)) r.sets }

-- The key is set and has not expired.
unfoldable pub is_held : ℤ → Text → List Held → Bool
is_held now key [] = false
is_held now key (h ∷ hs) = (text_eq h.key key && ltb_ℤ now h.expires) || is_held now key hs

-- `DEL`
unfoldable pub release : Text → List Held → List Held
release key [] = []
release key (h ∷ hs) = let rest = release key hs in if text_eq h.key key then rest else h ∷ rest
