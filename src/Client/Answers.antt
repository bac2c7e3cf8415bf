-- ===== src/Client/Answers.antt =====
-- What the stream operations make of the broker's answers.
use rabbitmq_ai.Common.{
  ℕ, ◌≡◌, ◌≢◌, ◌⊎◌, refl, ◌∙◌, Bool, true, false, Option, none, some, [], ◌∷◌, ◌++◌, Bytes, text,
  arith,
}
use rabbitmq_ai.Errors.{Kind, stream_error, stream_error_code}
use rabbitmq_ai.Result.{Result, ok, err}
use rabbitmq_ai.Buffer.{new_writer}
use rabbitmq_ai.Frame.Key
use rabbitmq_ai.Frame.Key.{is_response, response_of}
use rabbitmq_ai.Transport.{Transport, from, starts, gives}
use rabbitmq_ai.Dispatcher.Steps.{dispatches}
use rabbitmq_ai.Commands.RoundTrip
use rabbitmq_ai.Commands.RoundTrip.{IsU16, IsU64}
use rabbitmq_ai.Commands.Lifecycle.{
  encode_delete_request, delete_response_command, encode_query_offset_request,
  query_offset_response_command, encode_query_publisher_request, query_publisher_response_command,
}
use rabbitmq_ai.Handshake.Script.{answer, decodes}
use rabbitmq_ai.Client.{StreamClient, is_open, require_open, check_reference}
use rabbitmq_ai.Client.Lifecycle.{
  delete_result, query_offset_result, query_publisher_result, delete_stream, query_offset,
  query_publisher_sequence,
}
use rabbitmq_ai.Client.Requests.{IsReady, client_after, send_and_wait_answered}

-- What the broker's code for a create says: created, or there already, or an error with the code.
abbrev pub IsCreateAnswer : Bytes → Bool → ℕ → Result (Unit {0}) → Type 0
IsCreateAnswer stream idempotent code r =
    ((code ≡ 0x01) × (r ≡ ok tt))
    ⊎ ((code ≡ 0x05) × (idempotent ≡ true) × (r ≡ ok tt))
    ⊎ ((code ≡ 0x05)
        × (idempotent ≡ false)
        × (r
            ≡ err (
                stream_error Kind.stream_already_exists
                  (text "stream already exists: " ++ stream))))
    ⊎ ((code ≢ 0x01)
        × (code ≢ 0x05)
        × (r ≡ err (stream_error_code Kind.server_error (text "create_stream failed") code)))

-- And its code for a query of an offset: the offset, none stored, no such stream, or an error.
abbrev pub IsOffsetAnswer : Bytes → ℕ → ℕ → Result (Option ℕ) → Type 0
IsOffsetAnswer stream code offset r =
    ((code ≡ 0x01) × (r ≡ ok (some offset)))
    ⊎ ((code ≡ 0x13) × (r ≡ ok none))
    ⊎ ((code ≡ 0x02)
        × (r
            ≡ err (
                stream_error Kind.stream_does_not_exist
                  (text "stream does not exist: " ++ stream))))
    ⊎ ((code ≢ 0x01)
        × (code ≢ 0x13)
        × (code ≢ 0x02)
        × (r ≡ err (stream_error_code Kind.server_error (text "query_offset failed") code)))

query_offset_result-IsOffsetAnswer :
    (stream : Bytes) (code offset : ℕ)
    → IsOffsetAnswer stream code offset (query_offset_result stream code offset)
unfolding query_offset_result
query_offset_result-IsOffsetAnswer stream code offset = ground arith

module _ {W : Type 0} (t : Transport W) (c : StreamClient W) (w : W) (now sent_at : ℕ)
    (open_now : is_open c.state_ ≡ true) where
  opened : require_open t c ≡ some (ok tt, c)
  unfolding require_open
  opened = rw open_now refl

  -- On an open client that can make the request, with a DeleteResponse of any code for it during the
  -- wait, delete_stream sends the DeleteRequest and gives what `delete_result` makes of the code.
  pub delete_stream_answered :
      (stream : Bytes) (idempotent : Bool) (code : ℕ)
      → IsU16 code
      → IsReady t c w Key.delete 1
          (encode_delete_request (record { stream = stream }) new_writer).data_
      → let fr =
          answer delete_response_command (record { response_code = code }) (some c.next_app_cid_) in
        delete_stream t now sent_at (dispatches fr ∷ []) stream idempotent c
        ≡ some (delete_result stream idempotent code, client_after c sent_at w fr)
  unfolding delete_stream from is_response response_of
  delete_stream_answered stream idempotent code h ready =
      starts _ _ c c tt opened
      ∙ starts _ _ c _ _ (send_and_wait_answered t c w now sent_at _ _ _ _ ready refl refl)
      ∙ starts _ _ _ _ _
          (gives _ _ _ (decodes delete_response_command _ (RoundTrip.Carries-delete_response _ h)))

  -- On an open client that can make the request, with a QueryOffsetResponse of any code and offset for
  -- it during the wait, query_offset sends the QueryOffsetRequest and gives the offset if the code is
  -- Ok, and no offset if it is NoOffset; it fails with StreamDoesNotExist if that is the code, and with
  -- ServerError and the code on every other code.
  pub query_offset_answered :
      (reference stream : Bytes) (code offset : ℕ)
      → IsU16 code
      → IsU64 offset
      → IsReady t c w Key.query_offset 1
          (encode_query_offset_request
            (record { reference = reference; stream = stream })
            new_writer).data_
      → let fr =
          answer query_offset_response_command
            (record { response_code = code; offset = offset })
            (some c.next_app_cid_) in
        (r : Result (Option ℕ)) × (query_offset t now sent_at
            (dispatches fr ∷ [])
            reference
            stream
            c
          ≡ some (r, client_after c sent_at w fr))
        × IsOffsetAnswer stream code offset r
  unfolding query_offset from is_response response_of
  query_offset_answered reference stream code offset h i ready = (
    query_offset_result stream code offset,
    starts _ _ c c tt opened
        ∙ starts _ _ c _ _ (send_and_wait_answered t c w now sent_at _ _ _ _ ready refl refl)
        ∙ starts _ _ _ _ _ (
            gives _ _ _ (
              decodes query_offset_response_command _
                (RoundTrip.Carries-query_offset_response _ h i))),
    query_offset_result-IsOffsetAnswer stream code offset,
  )

  -- On an open client that can make the request, with a reference that is accepted and a
  -- QueryPublisherResponse of any code and sequence for it during the wait, query_publisher_sequence
  -- gives what `query_publisher_result` makes of the two.
  pub query_publisher_sequence_answered :
      (reference stream : Bytes) (code sequence : ℕ)
      → IsU16 code
      → IsU64 sequence
      → check_reference reference ≡ ok tt
      → IsReady t c w Key.query_publisher_sequence 1
          (encode_query_publisher_request
            (record { publisher_reference = reference; stream = stream })
            new_writer).data_
      → let fr =
          answer query_publisher_response_command
            (record { response_code = code; sequence = sequence })
            (some c.next_app_cid_) in
        query_publisher_sequence t now sent_at (dispatches fr ∷ []) reference stream c
        ≡ some (query_publisher_result stream code sequence, client_after c sent_at w fr)
  unfolding query_publisher_sequence from is_response response_of
  query_publisher_sequence_answered reference stream code sequence h i short ready =
      starts _ _ c c tt opened
      ∙ starts _ _ c c tt (gives _ _ _ short)
      ∙ starts _ _ c _ _ (send_and_wait_answered t c w now sent_at _ _ _ _ ready refl refl)
      ∙ starts _ _ _ _ _ (
          gives _ _ _ (
            decodes query_publisher_response_command _
              (RoundTrip.Carries-query_publisher_response _ h i)))
