-- ===== src/Capsule/Framing.antt =====
-- A frame that is sent is received (internal/capsule/wire.go).
use command_prompter_doc_bot.Prelude.{
  ℕ, ◌+◌, ◌≤◌, ◌<◌, ◌≡◌, refl, sym, ap, subst, ◌∙◌, inl, inr, String, true, false, ◌||◌, some, List,
  [], ◌∷◌, ◌++◌, ltb, length, arith, Bool-cases, Option-cases, Result-cases, ok,
}
use command_prompter_doc_bot.Capsule.Json.{Json, Members, object, parse_strict_json}
use command_prompter_doc_bot.Capsule.Values.{Codec}
use command_prompter_doc_bot.Capsule.Canonical.{canonical_json}
use command_prompter_doc_bot.Capsule.Schema.{is_nil, valid}
use command_prompter_doc_bot.Capsule.Shapes.{validate_wire_message}
use command_prompter_doc_bot.Capsule.Wire.{
  Limits, Wire, big_endian, counted, header_length, read_full, read_message, receive, receive_body,
  send, send_encoded, valid_limits, wire_complexity,
}

header_length-big_endian : (n : ℕ) → n < 4294967296 → header_length (big_endian n) ≡ n
header_length-big_endian n h = omega (arith, h)

read_full-append : (xs ys : List ℕ) → read_full (length xs) (xs ++ ys) ≡ some (xs, ys)
unfolding read_full
read_full-append [] ys = refl
read_full-append (x ∷ xs) ys = rw (read_full-append xs ys) refl

read_full-header :
    (n : ℕ) (rest : List ℕ) → read_full 4 (big_endian n ++ rest) ≡ some (big_endian n, rest)
unfolding read_full
read_full-header n rest = refl

-- What is read back from the text of a message is that message, and its bytes are the text's.
pub record ReadsBack (codec : Codec) (limits : Limits) (message : Members) : Type 0 where
  pub reads :
      (encoded : String)
      → canonical_json codec (object message) ≡ some encoded
      → (v : Json) (keys : ℕ)
      → parse_strict_json (wire_complexity limits) (codec.lex encoded) ≡ ok (v, keys)
      → v ≡ object message
  pub valid_bytes :
      (encoded : String)
      → canonical_json codec (object message) ≡ some encoded
      → codec.is_utf8 (codec.bytes encoded) ≡ true
  pub same_text :
      (encoded : String)
      → canonical_json codec (object message) ≡ some encoded
      → codec.of_bytes (codec.bytes encoded) ≡ encoded

-- What a successful send has made sure of.
record Sent (codec : Codec) (message : Members) (w : Wire) (frame : List ℕ) : Type 0 where
  pub valid_shape : validate_wire_message codec message ≡ true
  pub encoded : String
  pub is_text : canonical_json codec (object message) ≡ some encoded
  pub nonempty : 1 ≤ length (codec.bytes encoded)
  pub short : length (codec.bytes encoded) ≤ w.limits.max_frame_bytes
  pub value : Json
  pub keys : ℕ
  pub read : parse_strict_json (wire_complexity w.limits) (codec.lex encoded) ≡ ok (value, keys)
  pub within : w.aggregate + (length (codec.bytes encoded) + 4) ≤ w.limits.max_aggregate_bytes
  pub framed : frame ≡ big_endian (length (codec.bytes encoded)) ++ codec.bytes encoded

nonempty_of : (bytes : List ℕ) → is_nil bytes ≡ false → 1 ≤ length bytes
nonempty_of [] h = cc
nonempty_of (b ∷ bytes) h = omega arith

send-Sent :
    (codec : Codec) (message : Members) (w v : Wire) (frame : List ℕ)
    → send codec message w ≡ (ok frame, v)
    → Sent codec message w frame
unfolding send send_encoded
send-Sent codec message w v frame h = elim (Bool-cases (validate_wire_message codec message)) [
  | inr bad ↦ absurd (ground (arith, h, bad))
  | inl shape ↦ elim (Option-cases (canonical_json codec (object message))) [
    | inl missing ↦ absurd (ground (arith, h, shape, missing))
    | inr (encoded, there) ↦
        let bytes = codec.bytes encoded in
        elim (Bool-cases (is_nil bytes || ltb w.limits.max_frame_bytes (length bytes))) [
          | inl long ↦ absurd (ground (arith, h, shape, there, long))
          | inr fits ↦
              elim (Result-cases
                (parse_strict_json (wire_complexity w.limits) (codec.lex encoded))) [
                  | inr (e, bad) ↦ absurd (ground (arith, h, shape, there, fits, bad))
                  | inl ((value, keys), read) ↦
                      elim (Bool-cases
                        (ltb w.limits.max_aggregate_bytes (w.aggregate + (length bytes + 4)))) [
                          | inl over ↦ absurd (ground (arith, h, shape, there, fits, read, over))
                          | inr within ↦ record {
                            valid_shape = shape;
                            encoded = encoded;
                            is_text = there;
                            nonempty = nonempty_of bytes (ground (arith, fits));
                            short = ground (arith, fits);
                            value = value;
                            keys = keys;
                            read = read;
                            within = ground (arith, within);
                            framed = ground (arith, h, shape, there, fits, read, within);
                          }
                        ]
                ]
        ]
  ]
]

receive_body-append :
    (codec : Codec) (message : Members) (bytes rest : List ℕ) (w : Wire)
    → read_message codec w.limits bytes ≡ some message
    → receive_body codec (length bytes) (bytes ++ rest) w ≡ (ok (message, rest), w)
unfolding receive_body
receive_body-append codec message bytes rest w h =
    rw (read_full-append bytes rest, receive_body, h) refl

receive-framed :
    (codec : Codec) (message : Members) (bytes rest : List ℕ) (w : Wire)
    → 1 ≤ length bytes
    → length bytes ≤ w.limits.max_frame_bytes
    → w.limits.max_frame_bytes ≤ 4194304
    → w.aggregate + (length bytes + 4) ≤ w.limits.max_aggregate_bytes
    → read_message codec w.limits bytes ≡ some message
    → receive codec ((big_endian (length bytes) ++ bytes) ++ rest) w
      ≡ (ok (message, rest), counted (length bytes) w)
unfolding receive read_full
receive-framed codec message bytes rest w some_bytes short small within read =
    let size : header_length (big_endian (length bytes)) ≡ length bytes =
      header_length-big_endian (length bytes) (omega (arith, short, small)) in
    let fits : (ltb (length bytes) 1 || ltb w.limits.max_frame_bytes (length bytes)) ≡ false =
      ground (arith, some_bytes, short) in
    let allowed : ltb w.limits.max_aggregate_bytes (w.aggregate + (length bytes + 4)) ≡ false =
      ground (arith, within) in
    rw (size, fits, allowed)
      (receive_body-append codec message bytes rest (counted (length bytes) w) read)

read_message-text :
    (codec : Codec) (message : Members) (limits : Limits) (encoded : String) (v : Json) (keys : ℕ)
    → ReadsBack codec limits message
    → validate_wire_message codec message ≡ true
    → canonical_json codec (object message) ≡ some encoded
    → parse_strict_json (wire_complexity limits) (codec.lex encoded) ≡ ok (v, keys)
    → read_message codec limits (codec.bytes encoded) ≡ some message
unfolding read_message
read_message-text codec message limits encoded v keys back shape is_text read =
    let same : v ≡ object message = back.reads encoded is_text v keys read in
    let read' : parse_strict_json (wire_complexity limits) (codec.lex encoded)
        ≡ ok (object message, keys) =
      subst (λ x. parse_strict_json (wire_complexity limits) (codec.lex encoded) ≡ ok (x, keys))
        same read in
    rw (back.valid_bytes encoded is_text, back.same_text encoded is_text, read', shape) refl

valid_limits-frame : (l : Limits) → valid_limits l ≡ true → l.max_frame_bytes ≤ 4194304
unfolding valid_limits
valid_limits-frame l h = ground (arith, h)

-- A message whose text reads back as that message, and which send accepts under valid limits, is what a
-- peer with the same limits receives from the frame that is written, whatever follows it, if the
-- peer's aggregate is not ahead; the bytes after the frame are left, and the frame is counted.
pub send-receive :
    (codec : Codec) (message : Members) (w v peer : Wire) (frame rest : List ℕ)
    → ReadsBack codec w.limits message
    → valid_limits w.limits ≡ true
    → send codec message w ≡ (ok frame, v)
    → peer.limits ≡ w.limits
    → peer.aggregate ≤ w.aggregate
    → receive codec (frame ++ rest) peer
      ≡ (ok (message, rest), record peer { aggregate = peer.aggregate + length frame })
send-receive codec message w v peer frame rest back valid sent same behind =
    let s = send-Sent codec message w v frame sent in
    let bytes = codec.bytes s.encoded in
    let frames : peer.limits.max_frame_bytes ≡ w.limits.max_frame_bytes =
      ap (λ x. x.max_frame_bytes) same in
    let aggregates : peer.limits.max_aggregate_bytes ≡ w.limits.max_aggregate_bytes =
      ap (λ x. x.max_aggregate_bytes) same in
    let small = valid_limits-frame w.limits valid in
    let read : read_message codec peer.limits bytes ≡ some message =
      subst (λ l. read_message codec l bytes ≡ some message) (sym same)
        (read_message-text codec message w.limits s.encoded s.value s.keys back s.valid_shape
          s.is_text s.read) in
    let received =
      receive-framed codec message bytes rest peer s.nonempty (omega (arith, s.short, frames))
        (omega (arith, small, frames)) (omega (arith, s.within, aggregates, behind)) read in
    let size : peer.aggregate + (length bytes + 4) ≡ peer.aggregate + length frame =
      ap (λ n. peer.aggregate + n) (omega arith ∙ ap length (sym s.framed)) in
    subst (λ x. receive codec (x ++ rest) peer ≡ (ok (message, rest), counted (length bytes) peer))
      (sym s.framed) received
    ∙ ap (λ n. (ok (message, rest), record peer { aggregate = n })) size
