-- ===== src/Codec/Strings.antt =====
-- Strings, byte strings and array counts: reading back what was written.
use rabbitmq_ai.Common.{
  ℕ, ◌<◌, ◌≡◌, subst, true, not, ◌&&◌, List, Option, some, none, [], ◌∷◌, ◌++◌, append-nil,
  append_assoc, arith, Bytes, length, ltb, if◌then◌else◌,
}
use rabbitmq_ai.Common.Int.{pos, negsuc, to_signed, half16, half32}
use rabbitmq_ai.Utf8.{is_valid_utf8}
use rabbitmq_ai.Buffer.{BufferWriter, write_raw, borrow}
use rabbitmq_ai.Buffer.Reads.{Reads, Reads-bind, Reads-pure, Reads-borrow, Reads-else}
use rabbitmq_ai.Codec.{
  Write, write_i16, write_i32, write_string, write_string_opt, write_bytes_raw, write_bytes,
  write_array_prefix, read_i16, read_i32, string_of_length, read_string, non_null,
  read_string_required, bytes_of_length, read_bytes, non_negative, read_array_prefix,
}
use rabbitmq_ai.Codec.Carries.{Writes, Carries, Carries-end}
use rabbitmq_ai.Codec.Words.{Carries-i16, Carries-i32, to_signed-small}

-- A string that the wire can carry.
pub record IsText (s : Bytes) : Type 0 where
  pub short : length s < half16
  pub utf8 : is_valid_utf8 s ≡ true

-- A byte string or an array that the wire can carry.
abbrev pub IsShort {ℓ} : {A : Type ℓ} → List A → Type 0
IsShort xs = length xs < half32

-- A length in front of the bytes themselves; nothing more is written for no bytes.
Writes-counted :
    (f : Write) (prefix : Write) (head s : Bytes)
    → Writes prefix head
    → ((w : BufferWriter) → f w ≡ (if ltb 0 (length s) then write_raw s (prefix w) else prefix w))
    → Writes f (head ++ s)
unfolding write_raw
Writes-counted f prefix head [] h e = record {
  at = λ w. ground (arith, e w, h.at w, append-nil head);
}
Writes-counted f prefix head (x ∷ xs) h e = record {
  at = λ w. ground (arith, e w, h.at w, append_assoc w.data_ head (x ∷ xs));
}

Reads-string_of_length :
    (s : Bytes) → IsText s → Reads (string_of_length (pos (length s))) s (some s)
unfolding string_of_length
Reads-string_of_length s t =
    subst (λ xs. Reads (string_of_length (pos (length s))) xs (some s)) (append-nil s)
      (Reads-bind (borrow (length s)) _ s [] s (some s) (Reads-borrow s) (
        Reads-else (ltb 0 (length s) && not (is_valid_utf8 s)) _ _ [] (some s)
          (ground (arith, t.utf8)) (Reads-pure (some s))))

Reads-bytes_of_length : (s : Bytes) → Reads (bytes_of_length (pos (length s))) s (some s)
unfolding bytes_of_length
Reads-bytes_of_length s =
    subst (λ xs. Reads (bytes_of_length (pos (length s))) xs (some s)) (append-nil s)
      (Reads-bind (borrow (length s)) _ s [] s (some s) (Reads-borrow s) (Reads-pure (some s)))

module _ (s : Bytes) (t : IsText s) where
  length16 : Carries (write_i16 (pos (length s))) read_i16 (pos (length s))
  length16 = Carries-i16 (pos (length s)) t.short

  Carries-string : Carries (write_string s) read_string (some s)
  unfolding read_string
  Carries-string = record {
    wire = length16.wire ++ s;
    writes =
        Writes-counted (write_string s) _ length16.wire s length16.writes
          (λ w. unfold write_string in ground (arith, t.short, to_signed-small half16 (length s)));
    reads =
        Reads-bind read_i16 string_of_length length16.wire s _ _ length16.reads
          (Reads-string_of_length s t);
  }

  pub Carries-string_required : Carries (write_string s) read_string_required s
  unfolding read_string_required
  Carries-string_required =
      Carries-end (write_string s) read_string non_null (some s) s Carries-string
        (unfold non_null in Reads-pure s)

-- An optional string, null included.
abbrev pub IsTextOpt : Option Bytes → Type 0
IsTextOpt none = Unit {0}
IsTextOpt (some s) = IsText s

pub Carries-string_opt :
    (s : Option Bytes) → IsTextOpt s → Carries (write_string_opt s) read_string s
unfolding write_string_opt
Carries-string_opt (some s) t = Carries-string s t
Carries-string_opt none t =
    unfold read_string in
    Carries-end (write_i16 (negsuc 0)) read_i16 string_of_length (negsuc 0) none
      (Carries-i16 (negsuc 0) (omega arith)) (unfold string_of_length in Reads-pure none)

module _ (s : Bytes) (t : IsShort s) where
  length32 : Carries (write_i32 (pos (length s))) read_i32 (pos (length s))
  length32 = Carries-i32 (pos (length s)) t

  pub Carries-bytes_raw : Carries (write_bytes_raw s) read_bytes (some s)
  unfolding read_bytes
  Carries-bytes_raw = record {
    wire = length32.wire ++ s;
    writes =
        Writes-counted (write_bytes_raw s) _ length32.wire s length32.writes
          (λ w. unfold write_bytes_raw in ground (arith, to_signed-small half32 (length s)));
    reads =
        Reads-bind read_i32 bytes_of_length length32.wire s _ _ length32.reads
          (Reads-bytes_of_length s);
  }

abbrev pub IsShortOpt : Option Bytes → Type 0
IsShortOpt none = Unit {0}
IsShortOpt (some s) = IsShort s

pub Carries-bytes : (s : Option Bytes) → IsShortOpt s → Carries (write_bytes s) read_bytes s
unfolding write_bytes
Carries-bytes (some s) t = Carries-bytes_raw s t
Carries-bytes none t =
    unfold read_bytes in
    Carries-end (write_i32 (negsuc 0)) read_i32 bytes_of_length (negsuc 0) none
      (Carries-i32 (negsuc 0) (omega arith)) (unfold bytes_of_length in Reads-pure none)

-- The count in front of an array of `n` elements.
pub Carries-array_prefix :
    (n : ℕ) → n < half32 → Carries (write_array_prefix (to_signed half32 n)) read_array_prefix n
unfolding write_array_prefix read_array_prefix
Carries-array_prefix n h = rw (to_signed-small half32 n h) (
    Carries-end (write_i32 (pos n)) read_i32 non_negative (pos n) n (Carries-i32 (pos n) h)
      (unfold non_negative in Reads-pure n))
