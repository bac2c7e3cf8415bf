-- ===== src/Examples/Types.antt =====
-- Wire types and damaged frames at concrete inputs.
use rabbitmq_ai.Common.{some, none, [], ◌∷◌, Bytes, arith}
use rabbitmq_ai.Buffer.{new_reader}
use rabbitmq_ai.Buffer.Bounds.{Ends}
use rabbitmq_ai.Codec.{write_string_opt, read_string, write_bytes, read_bytes}
use rabbitmq_ai.Codec.RoundTrip.{ReadsBack, nullable-ReadsBack}
use rabbitmq_ai.Frame.{read_frame_auto}
use rabbitmq_ai.Frame.Bounds.{IsFrameError, read_frame_auto-Ends}

nullable-ReadsBack_example :
    ReadsBack (write_string_opt none) read_string none (9 ∷ [])
    × ReadsBack (write_bytes (some [])) read_bytes (some []) (9 ∷ [])
nullable-ReadsBack_example = nullable-ReadsBack none (some []) (9 ∷ []) tt (omega arith)

-- A size that promises more than there is.
abbrev cut_frame : Bytes
cut_frame = 0 ∷ 0 ∷ 0 ∷ 12 ∷ 0x80 ∷ 0x0D ∷ 0 ∷ []

read_frame_auto-Ends_example :
    Ends IsFrameError (new_reader cut_frame) (read_frame_auto (new_reader cut_frame))
read_frame_auto-Ends_example = read_frame_auto-Ends cut_frame
