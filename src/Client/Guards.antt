-- ===== src/Client/Guards.antt =====
-- What a client refuses before anything is sent.
use rabbitmq_ai.Common.{
  ℕ, ◌<◌, ◌≡◌, refl, ◌∙◌, Bool, true, false, some, List, length, Bytes, lt→ltb,
}
use rabbitmq_ai.Result.{ok, err}
use rabbitmq_ai.Transport.{Transport, from, fails, starts}
use rabbitmq_ai.Dispatcher.Steps.{Operation}
use rabbitmq_ai.Commands.{KeyValue}
use rabbitmq_ai.Client.{StreamClient, is_open, not_open, too_long, check_reference, require_open}
use rabbitmq_ai.Client.Lifecycle.{
  create_stream, delete_stream, query_offset, query_publisher_sequence, store_offset,
}

module _ {W : Type 0} (t : Transport W) (now sent_at : ℕ) (during : List Operation)
    (c : StreamClient W) where
  -- A client that is not open refuses each stream operation with ConnectionNotOpen, and the client, its
  -- pending requests and the socket stay as they were.
  pub operations-not_open :
      (stream reference : Bytes) (args : List KeyValue) (idempotent : Bool) (offset : ℕ)
      → is_open c.state_ ≡ false
      → (create_stream t now sent_at during stream args idempotent c ≡ some (err not_open, c))
        × (delete_stream t now sent_at during stream idempotent c ≡ some (err not_open, c))
        × (query_offset t now sent_at during reference stream c ≡ some (err not_open, c))
        × (query_publisher_sequence t now sent_at during reference stream c
            ≡ some (err not_open, c))
        × (store_offset t sent_at reference stream offset c ≡ some (err not_open, c))
  unfolding create_stream delete_stream query_offset query_publisher_sequence store_offset
      require_open
  operations-not_open stream reference args idempotent offset h =
      let refused : require_open t c ≡ some (err not_open, c) = rw h refl in
      (
        fails _ _ c c not_open refused,
        fails _ _ c c not_open refused,
        fails _ _ c c not_open refused,
        fails _ _ c c not_open refused,
        fails _ _ c c not_open refused,
      )

  -- An open client refuses a reference of more than 256 bytes in store_offset and in
  -- query_publisher_sequence with ReferenceTooLong, and nothing changes.
  pub references-too_long :
      (stream reference : Bytes) (offset : ℕ)
      → is_open c.state_ ≡ true
      → 256 < length reference
      → (query_publisher_sequence t now sent_at during reference stream c ≡ some (err too_long, c))
        × (store_offset t sent_at reference stream offset c ≡ some (err too_long, c))
  unfolding query_publisher_sequence store_offset require_open check_reference from
  references-too_long stream reference offset h long =
      let passed : require_open t c ≡ some (ok tt, c) = rw h refl in
      let refused : from (check_reference reference) c ≡ some (err too_long, c) =
        rw (lt→ltb 256 (length reference) long) refl in
      (
        starts _ _ c c tt passed ∙ fails _ _ c c too_long refused,
        starts _ _ c c tt passed ∙ fails _ _ c c too_long refused,
      )
