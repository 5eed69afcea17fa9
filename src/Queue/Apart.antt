-- ===== src/Queue/Apart.antt =====
-- Which Redis keys of internal/queue/queue.go are apart.
use toko_api.Prelude.{
  ◌+◌, ◌≡◌, ap, false, [], ◌∷◌, ◌++◌, if◌then◌else◌, Text, codes, is_empty, text_eq, eq_of_text_eq,
  arith, Bool-cases, inl, inr, length, length-append,
}
use toko_api.Queue.Keys.{queue_key, processing_key}

longer :
    (prefix kind : Text)
    → length (processing_key prefix kind)
      ≡ length (queue_key prefix kind) + 5 + (if is_empty prefix then 6 else 0)
unfolding processing_key queue_key
longer [] kind =
    rw
      (
        length-append (codes "queue:") kind,
        length-append (codes "queue:") (kind ++ codes ":processing"),
        length-append kind (codes ":processing"),
      )
      (omega arith)
longer (c ∷ prefix) kind = grind (arith, length-append)

-- The queue and the processing set of a kind never share a key.
pub queue_key-processing_key :
    (prefix kind : Text) → text_eq (queue_key prefix kind) (processing_key prefix kind) ≡ false
queue_key-processing_key prefix kind =
    elim (Bool-cases (text_eq (queue_key prefix kind) (processing_key prefix kind))) [
      | inr apart ↦ apart
      | inl same ↦ absurd (ground (arith, longer prefix kind, ap length (eq_of_text_eq _ _ same)))
    ]
