-- ===== src/Capsule/Frames.antt =====
-- The frame of a cancellation (internal/capsule/wire.go).
use command_prompter_doc_bot.Prelude.{
  ℕ, ◌≡◌, refl, true, false, none, some, List, [], ◌∷◌, arith, ok,
}
use command_prompter_doc_bot.Capsule.Json.{
  Members, Token, and_member, at_end, close_object, decode_members, decode_value, end_members,
  open_object, parse_strict_json, text, text_token,
}
use command_prompter_doc_bot.Capsule.Values.{Codec}
use command_prompter_doc_bot.Capsule.Canonical.{canonical_json, unescape}
use command_prompter_doc_bot.Capsule.Shapes.{
  all_known, all_required, fields_of, string_field, validate_wire_message,
}
use command_prompter_doc_bot.Capsule.Wire.{
  Wire, default_limits, receive, send, send_encoded, valid_limits,
}
use command_prompter_doc_bot.Capsule.Framing.{ReadsBack, send-receive}

abbrev cancel : Members
cancel = and_member "reason" (text "stop") (and_member "type" (text "cancel") end_members)

abbrev cancel_tokens : List Token
cancel_tokens =
    open_object
    ∷ text_token "reason"
    ∷ text_token "stop"
    ∷ text_token "type"
    ∷ text_token "cancel"
    ∷ close_object
    ∷ []

-- Its one text is that of the cancellation, of three bytes.
abbrev cancel_codec : Codec
cancel_codec = record {
  lex_line = λ line. cancel_tokens;
  lex = λ s. cancel_tokens;
  encode = λ v. some "abc";
  is_operation_id = λ s. true;
  compile_pattern = λ s. none;
  less = λ m n. false;
  is_utf8 = λ bs. true;
  bytes = λ s. 97 ∷ 98 ∷ 99 ∷ [];
  of_bytes = λ bs. "abc";
  decimal = λ n. "1";
}

abbrev wire_of : ℕ → Wire
wire_of aggregate = record { limits = default_limits; aggregate = aggregate }

default_limits_valid : valid_limits default_limits ≡ true
unfolding valid_limits
default_limits_valid = refl

cancel_reads : ReadsBack cancel_codec default_limits cancel
unfolding canonical_json unescape parse_strict_json decode_value decode_members at_end
cancel_reads = record {
  reads = λ encoded is_text v keys h. ground (arith, h);
  valid_bytes = λ encoded is_text. refl;
  same_text = λ encoded is_text. ground (arith, is_text);
}

cancel_sent :
    send cancel_codec cancel (wire_of 10) ≡ (ok (0 ∷ 0 ∷ 0 ∷ 3 ∷ 97 ∷ 98 ∷ 99 ∷ []), wire_of 17)
unfolding send send_encoded validate_wire_message fields_of all_required all_known string_field
    canonical_json unescape parse_strict_json decode_value decode_members at_end
cancel_sent = refl

send-receive_example :
    receive cancel_codec (0 ∷ 0 ∷ 0 ∷ 3 ∷ 97 ∷ 98 ∷ 99 ∷ 7 ∷ []) (wire_of 4)
    ≡ (ok (cancel, 7 ∷ []), wire_of 11)
send-receive_example =
    send-receive cancel_codec cancel (wire_of 10) (wire_of 17) (wire_of 4)
      (0 ∷ 0 ∷ 0 ∷ 3 ∷ 97 ∷ 98 ∷ 99 ∷ []) (7 ∷ []) cancel_reads default_limits_valid cancel_sent
      refl (omega arith)
