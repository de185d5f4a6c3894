-- ===== src/Capsule/Wire.antt =====
-- The frames between a session and a capsule: wire.send and wire.receive (internal/capsule/wire.go).
-- What is sent is the bytes that are written, and what is received is read from the bytes that come.
use command_prompter_doc_bot.Prelude.{
  ℕ, zero, suc, ◌+◌, ◌*◌, ◌/◌, ◌%◌, String, Bool, not, ◌&&◌, ◌||◌, Option, none, some, List, [],
  ◌∷◌, ◌++◌, ltb, if◌then◌else◌, length, Result, ok, err,
}
use command_prompter_doc_bot.Capsule.Json.{Complexity, Members, object, parse_strict_json}
use command_prompter_doc_bot.Capsule.Values.{Codec}
use command_prompter_doc_bot.Capsule.Canonical.{canonical_json}
use command_prompter_doc_bot.Capsule.Schema.{is_nil}
use command_prompter_doc_bot.Capsule.Shapes.{validate_wire_message}

pub record Limits : Type 0 where
  pub max_frame_bytes : ℕ
  pub max_aggregate_bytes : ℕ
  pub max_string_bytes : ℕ
  pub max_depth : ℕ
  pub max_keys : ℕ
  pub max_fetch_body_bytes : ℕ
  pub max_fetches : ℕ
  pub max_model_requests : ℕ
  pub attempt_seconds : ℕ

-- DefaultLimits.
abbrev pub default_limits : Limits
default_limits = record {
  max_frame_bytes = 2097152;
  max_aggregate_bytes = 16777216;
  max_string_bytes = 1048576;
  max_depth = 32;
  max_keys = 50000;
  max_fetch_body_bytes = 1048576;
  max_fetches = 64;
  max_model_requests = 16;
  attempt_seconds = 660;
}

-- Limits.validate, whose timeouts are whole seconds.
unfoldable pub valid_limits : Limits → Bool
valid_limits l =
    not (ltb l.max_frame_bytes 1024 || ltb 4194304 l.max_frame_bytes)
    && not (
        ltb l.max_aggregate_bytes 4096
        || ltb l.max_aggregate_bytes l.max_frame_bytes
        || ltb 33554432 l.max_aggregate_bytes)
    && not (ltb l.max_string_bytes 256 || ltb 2097152 l.max_string_bytes)
    && not (ltb l.max_depth 4 || ltb 64 l.max_depth || ltb l.max_keys 32 || ltb 100000 l.max_keys)
    && not (ltb l.max_fetch_body_bytes 1024 || ltb 1048576 l.max_fetch_body_bytes)
    && not (
        ltb l.max_model_requests 1
        || ltb l.max_fetches l.max_model_requests
        || ltb 1000 l.max_fetches)
    && not (
        ltb l.max_frame_bytes l.max_string_bytes
        || ltb l.max_frame_bytes (4 * ((l.max_fetch_body_bytes + 2) / 3) + 8192))
    && not (ltb l.attempt_seconds 1 || ltb 660 l.attempt_seconds)

pub record Wire : Type 0 where
  pub limits : Limits
  pub aggregate : ℕ

pub data WireError : Type 0 where
  wire_failed : WireError

abbrev pub wire_complexity : Limits → Complexity
wire_complexity l = record {
  max_depth = l.max_depth;
  max_string_bytes = l.max_string_bytes;
  max_keys = l.max_keys;
}

-- The four bytes of a 32-bit integer, the highest first.
abbrev pub big_endian : ℕ → List ℕ
big_endian n = n / 16777216 % 256 ∷ n / 65536 % 256 ∷ n / 256 % 256 ∷ n % 256 ∷ []

abbrev pub broken_wire : {A : Type 0} → Wire → Result WireError A × Wire
broken_wire w = (err wire_failed, w)

-- The bytes of a frame are counted before the limit of the aggregate is tested.
abbrev pub counted : ℕ → Wire → Wire
counted n w = record w { aggregate = w.aggregate + (n + 4) }

unfoldable pub send_encoded : Codec → String → List ℕ → Wire → Result WireError (List ℕ) × Wire
send_encoded codec encoded bytes w =
    if is_nil bytes || ltb w.limits.max_frame_bytes (length bytes)
    then broken_wire w
    else elim (parse_strict_json (wire_complexity w.limits) (codec.lex encoded)) [
      | err e ↦ broken_wire w
      | ok r ↦
          let v = counted (length bytes) w in
          if ltb v.limits.max_aggregate_bytes v.aggregate
          then broken_wire v
          else (ok (big_endian (length bytes) ++ bytes), v)
    ]

unfoldable pub send : Codec → Members → Wire → Result WireError (List ℕ) × Wire
send codec message w =
    if not (validate_wire_message codec message)
    then broken_wire w
    else elim (canonical_json codec (object message)) [
      | none ↦ broken_wire w
      | some encoded ↦ send_encoded codec encoded (codec.bytes encoded) w
    ]

-- io.ReadFull: as many bytes as asked for, and the bytes after them.
unfoldable pub read_full : ℕ → List ℕ → Option (List ℕ × List ℕ)
read_full zero bytes = some ([], bytes)
read_full (suc n) [] = none
read_full (suc n) (b ∷ bytes) = elim (read_full n bytes) [
  | none ↦ none
  | some r ↦ some (b ∷ r.0, r.1)
]

abbrev pub header_length : List ℕ → ℕ
header_length (a ∷ b ∷ c ∷ d ∷ []) = a * 16777216 + b * 65536 + c * 256 + d
header_length _ = 0

-- The message in the bytes of a frame.
unfoldable pub read_message : Codec → Limits → List ℕ → Option Members
read_message codec limits encoded =
    if not (codec.is_utf8 encoded)
    then none
    else elim (parse_strict_json (wire_complexity limits) (codec.lex (codec.of_bytes encoded))) [
      | ok (object message, keys) ↦
          if validate_wire_message codec message then some message else none
      | _ ↦ none
    ]

unfoldable pub receive_body : Codec → ℕ → List ℕ → Wire → Result WireError (Members × List ℕ) × Wire
receive_body codec size bytes w = elim (read_full size bytes) [
  | none ↦ broken_wire w
  | some r ↦ elim (read_message codec w.limits r.0) [
    | none ↦ broken_wire w
    | some message ↦ (ok (message, r.1), w)
  ]
]

unfoldable pub receive : Codec → List ℕ → Wire → Result WireError (Members × List ℕ) × Wire
receive codec bytes w = elim (read_full 4 bytes) [
  | none ↦ broken_wire w
  | some r ↦
      let size = header_length r.0 in
      if ltb size 1 || ltb w.limits.max_frame_bytes size
      then broken_wire w
      else let v = counted size w in
        if ltb v.limits.max_aggregate_bytes v.aggregate
        then broken_wire v
        else receive_body codec size r.1 v
]
