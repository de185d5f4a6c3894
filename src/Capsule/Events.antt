-- ===== src/Capsule/Events.antt =====
-- ParseOpenAISSE (internal/capsule/sse.go): the events of a body, the loop over them, and the response
-- that is accepted.
use command_prompter_doc_bot.Prelude.{
  ℕ, ◌+◌, ◌-◌, String, Bool, true, false, not, ◌&&◌, Option, none, some, List, [], ◌∷◌, ◌==◌, leb,
  if◌then◌else◌, any, length, keep, take, byte_length, cut_prefix, Result, ok, err, ◌>>=◌, ◌>>◌,
}
use command_prompter_doc_bot.Capsule.Json.{
  Json, Members, array, end_items, and_item, parse_strict_json, JsonError,
}
use command_prompter_doc_bot.Capsule.Values.{
  Codec, ProviderError, invalid_response, find_member, field, closed_object, is_text, absent_or,
}
use command_prompter_doc_bot.Capsule.Schema.{is_nil}
use command_prompter_doc_bot.Capsule.Stream.{
  ResponseLimits, Stream, require, take_usage, is_some, after_finish, take_choice,
}

-- Every "\r\n" and "\r" becomes a newline; `after` says that the rune before was a "\r".
unfoldable pub unify_newlines : Bool → List ℕ → List ℕ
unify_newlines after [] = []
unify_newlines after (c ∷ cs) =
    let returned = unify_newlines true cs in
    let other = unify_newlines false cs in
    if c == 13 then 10 ∷ returned else if (c == 10) && after then other else c ∷ other

abbrev pub to_first_event : ℕ → List (List ℕ) → List (List ℕ)
to_first_event c [] = (c ∷ []) ∷ []
to_first_event c (event ∷ events) = (c ∷ event) ∷ events

-- strings.Split at an empty line.
unfoldable pub split_events : List ℕ → List (List ℕ)
split_events [] = [] ∷ []
split_events (c ∷ []) = (c ∷ []) ∷ []
split_events (c ∷ d ∷ cs) =
    let after = split_events cs in
    let inside = split_events (d ∷ cs) in
    if (c == 10) && (d == 10) then [] ∷ after else to_first_event c inside

unfoldable pub ends_with_empty_line : List ℕ → Bool
ends_with_empty_line [] = false
ends_with_empty_line (c ∷ []) = false
ends_with_empty_line (c ∷ d ∷ []) = (c == 10) && (d == 10)
ends_with_empty_line (c ∷ d ∷ e ∷ cs) = ends_with_empty_line (d ∷ e ∷ cs)

unfoldable pub events_of : ResponseLimits → Option (List ℕ) → Result ProviderError (List (List ℕ))
events_of limits none = err invalid_response
events_of limits (some body) =
    let unified = unify_newlines false body in
    let events = keep (λ e. not (is_nil e)) (split_events (take (length unified - 2) unified)) in
    do
      require (not (is_nil body) && leb (byte_length body) limits.max_bytes)
      require (ends_with_empty_line unified)
      require (not (is_nil events) && leb (length events) limits.max_events)
      ok events

abbrev pub without_space : List ℕ → List ℕ
without_space [] = []
without_space (c ∷ cs) = if c == 32 then cs else c ∷ cs

-- The field name and the mark that ends a stream.
abbrev pub data_field : List ℕ
data_field = 100 ∷ 97 ∷ 116 ∷ 97 ∷ 58 ∷ []

abbrev pub done_mark : List ℕ
done_mark = 91 ∷ 68 ∷ 79 ∷ 78 ∷ 69 ∷ 93 ∷ []

-- The text behind `data:`, of an event of one line.
unfoldable pub event_data : ResponseLimits → List ℕ → Result ProviderError (List ℕ)
event_data limits event = do
  require (leb (byte_length event) limits.max_line_bytes && not (any (λ c. c == 10) event))
  elim (cut_prefix data_field event) [
    | none ↦ err invalid_response
    | some payload ↦ ok (without_space payload)
  ]

abbrev pub is_terminator : List ℕ → Bool
is_terminator payload = elim (cut_prefix done_mark payload) [ some [] ↦ true | _ ↦ false ]

unfoldable pub decoded : Result JsonError (Json × ℕ) → Result ProviderError (Json × ℕ)
decoded (ok r) = ok r
decoded (err e) = err invalid_response

unfoldable pub only_choice : Json → Result ProviderError (Option Json)
only_choice (array end_items) = ok none
only_choice (array (and_item v end_items)) = ok (some v)
only_choice _ = err invalid_response

unfoldable pub take_choices : Codec → Members → Option Json → Stream → Result ProviderError Stream
take_choices codec chunk none s = do
  require (is_some (find_member "usage" chunk) && is_some s.finish_reason)
  ok s
take_choices codec chunk (some first) s = elim s.finish_reason [
  | none ↦ take_choice codec first s
  | some reason ↦ do after_finish chunk first; ok s
]

unfoldable pub take_chunk :
    ResponseLimits → Codec → String → List ℕ → Stream → Result ProviderError Stream
take_chunk limits codec model_id payload s = do
  require (not s.is_done)
  (v, keys) ← decoded (parse_strict_json limits.complexity (codec.lex_line payload))
  require (leb (s.total_keys + keys) limits.complexity.max_keys)
  chunk ←
      closed_object
        ("id" ∷ "object" ∷ "created" ∷ "model" ∷ "choices" ∷ "usage" ∷ "system_fingerprint"
          ∷ "service_tier" ∷ [])
        v
  require (
      absent_or (is_text model_id) "model" chunk
      && absent_or (is_text "chat.completion.chunk") "object" chunk)
  choice ← only_choice (field "choices" chunk)
  used ← take_usage chunk (record s { total_keys = s.total_keys + keys })
  take_choices codec chunk choice used

unfoldable pub take_terminator : Bool → Stream → Result ProviderError Stream
take_terminator is_last s = do
  require (not s.is_done && is_last && is_some s.finish_reason && is_some s.usage)
  ok (record s { is_done = true })

-- `is_last` says that no event follows.
unfoldable pub take_event :
    ResponseLimits → Codec → String → Bool → List ℕ → Stream → Result ProviderError Stream
take_event limits codec model_id is_last event s = do
  payload ← event_data limits event
  if is_terminator payload
      then take_terminator is_last s
      else take_chunk limits codec model_id payload s

unfoldable pub take_events :
    ResponseLimits → Codec → String → List (List ℕ) → Stream → Result ProviderError Stream
take_events limits codec model_id [] s = ok s
take_events limits codec model_id (event ∷ events) s = do
  next ← take_event limits codec model_id (is_nil events) event s
  take_events limits codec model_id events next
