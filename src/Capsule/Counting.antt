-- ===== src/Capsule/Counting.antt =====
-- The usage that the loop of ParseOpenAISSE has found adds up (internal/capsule/sse.go).
use command_prompter_doc_bot.Prelude.{
  ℕ, ◌+◌, ◌≡◌, sym, subst, ◌∙◌, inl, inr, String, Bool, not, ◌&&◌, Option, none, some, List, [],
  ◌∷◌, leb, arith, Bool-cases, Option-cases, ok, >>=-eq-ok,
}
use command_prompter_doc_bot.Capsule.Json.{Json, Members, parse_strict_json}
use command_prompter_doc_bot.Capsule.Values.{
  Codec, absent_or, closed_object, field, find_member, is_text,
}
use command_prompter_doc_bot.Capsule.Stream.{
  ResponseLimits, Stream, Usage, after_finish, is_some, parse_usage, take_choice, take_usage,
}
use command_prompter_doc_bot.Capsule.Schema.{is_nil}
use command_prompter_doc_bot.Capsule.Events.{
  decoded, event_data, is_terminator, only_choice, take_choices, take_chunk, take_event,
  take_events, take_terminator,
}
use command_prompter_doc_bot.Capsule.Accounting.{
  Coherent, parse_usage-Coherent, require-ok, take_choice-usage,
}

-- The usage that a stream has, if any.
abbrev pub Sound : Stream → Type 0
Sound s = (u : Usage) → s.usage ≡ some u → Coherent u

same_usage : (s t : Stream) → Sound s → t.usage ≡ s.usage → Sound t
same_usage s t sound same u e = sound u (sym same ∙ e)

take_usage-Sound : (chunk : Members) (s t : Stream) → Sound s → take_usage chunk s ≡ ok t → Sound t
unfolding take_usage
take_usage-Sound chunk s t sound h = elim (Option-cases (find_member "usage" chunk)) [
  | inl absent ↦ same_usage s t sound (ground (arith, h, absent))
  | inr (v, present) ↦ elim (Option-cases s.usage) [
    | inr (u, used) ↦ absurd (ground (arith, h, present, used))
    | inl unused ↦
        let (u, parsed, last) =
          >>=-eq-ok (parse_usage v) _ (rw (present, unused, take_usage) at h) in
        λ w e. subst Coherent (ground (arith, last, e)) (parse_usage-Coherent v u parsed)
  ]
]

take_choices-Sound :
    (codec : Codec) (chunk : Members) (choice : Option Json) (s t : Stream)
    → Sound s
    → take_choices codec chunk choice s ≡ ok t
    → Sound t
unfolding take_choices
take_choices-Sound codec chunk none s t sound h =
    let (_, last) =
      require-ok (is_some (find_member "usage" chunk) && is_some s.finish_reason) _ h in
    same_usage s t sound (ground (arith, last))
take_choices-Sound codec chunk (some first) s t sound h = elim (Option-cases s.finish_reason) [
  | inl running ↦
      let step : take_choice codec first s ≡ ok t = rw (running, take_choices) at h in
      same_usage s t sound (take_choice-usage codec first s t step)
  | inr (reason, finished) ↦
      let (_, _, last) =
        >>=-eq-ok (after_finish chunk first) _ (rw (finished, take_choices) at h) in
      same_usage s t sound (ground (arith, last))
]

take_chunk-Sound :
    (limits : ResponseLimits) (codec : Codec) (model_id : String) (payload : List ℕ) (s t : Stream)
    → Sound s
    → take_chunk limits codec model_id payload s ≡ ok t
    → Sound t
unfolding take_chunk
take_chunk-Sound limits codec model_id payload s t sound h =
    let (_, a) = require-ok (not s.is_done) _ h in
    let ((v, keys), _, b) =
      >>=-eq-ok (decoded (parse_strict_json limits.complexity (codec.lex_line payload))) _ a in
    let (_, c) = require-ok (leb (s.total_keys + keys) limits.complexity.max_keys) _ b in
    let (chunk, _, d) = >>=-eq-ok (closed_object _ v) _ c in
    let (_, e) =
      require-ok
        (absent_or (is_text model_id) "model" chunk
          && absent_or (is_text "chat.completion.chunk") "object" chunk)
        _ d in
    let (choice, _, f) = >>=-eq-ok (only_choice (field "choices" chunk)) _ e in
    let (used, one, last) =
      >>=-eq-ok (take_usage chunk (record s { total_keys = s.total_keys + keys })) _ f in
    take_choices-Sound codec chunk choice used t
      (take_usage-Sound chunk (record s { total_keys = s.total_keys + keys }) used sound one) last

take_event-Sound :
    (limits : ResponseLimits) (codec : Codec) (model_id : String) (is_last : Bool) (event : List ℕ)
    (s t : Stream)
    → Sound s
    → take_event limits codec model_id is_last event s ≡ ok t
    → Sound t
unfolding take_event take_terminator
take_event-Sound limits codec model_id is_last event s t sound h =
    let (payload, _, more) = >>=-eq-ok (event_data limits event) _ h in
    elim (Bool-cases (is_terminator payload)) [
      | inl done ↦
          let (_, last) =
            require-ok (not s.is_done && is_last && is_some s.finish_reason && is_some s.usage) _
              (rw done at more) in
          same_usage s t sound (ground (arith, last))
      | inr chunk ↦ take_chunk-Sound limits codec model_id payload s t sound (rw chunk at more)
    ]

pub take_events-Sound :
    (limits : ResponseLimits) (codec : Codec) (model_id : String) (events : List (List ℕ))
    (s t : Stream)
    → Sound s
    → take_events limits codec model_id events s ≡ ok t
    → Sound t
unfolding take_events
take_events-Sound limits codec model_id [] s t sound h = same_usage s t sound (ground (arith, h))
take_events-Sound limits codec model_id (event ∷ events) s t sound h =
    let (next, one, last) =
      >>=-eq-ok (take_event limits codec model_id (is_nil events) event s) _ h in
    take_events-Sound limits codec model_id events next t
      (take_event-Sound limits codec model_id (is_nil events) event s next sound one) last
