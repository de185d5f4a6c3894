-- ===== src/Capsule/Session.antt =====
-- Session.invoke (internal/capsule/session.go): the loop that drives an attempt by the messages of the
-- capsule. What the rest of the world answers in a round of the loop is the data of that round.
use command_prompter_doc_bot.Prelude.{
  ℕ, suc, ◌+◌, String, str_eq, Bool, true, false, not, ◌&&◌, ◌||◌, Option, none, some, List, [],
  ◌∷◌, ◌==◌, ltb, if◌then◌else◌, any, Result, ok, err,
}
use command_prompter_doc_bot.Capsule.Json.{natural, Json, Members, number, text}
use command_prompter_doc_bot.Capsule.Values.{Codec, field}
use command_prompter_doc_bot.Capsule.Attempt.{Tool, Attempt, AttemptError, begin_model}
use command_prompter_doc_bot.Capsule.Methods.{
  accept_model, validate_tool_call, accept_tool_result, accept_complete, fail,
}

-- The fields of a session that the loop reads, and what it calls of strings and net/http: the part of a
-- string before a separator, the string without the space around it, and equality under case folding.
pub record Host : Type 0 where
  pub codec : Codec
  pub tools : List Tool
  pub max_fetches : ℕ
  pub max_model_requests : ℕ
  pub before : String → String → String
  pub trim_space : String → String
  pub equal_fold : String → String → Bool

pub record Response : Type 0 where
  pub status : ℕ
  pub content_type : String
  pub body : Option (List ℕ)

-- A round: the message that is received, the response of the provider, the result of the tool, whether
-- the answer can be sent, whether the connection is at its end, and whether the context is done.
pub record Round : Type 0 where
  pub message : Option Members
  pub response : Option Response
  pub tool_result : Option Json
  pub is_sent : Bool
  pub at_end : Bool
  pub is_cancelled : Bool

pub record Progress : Type 0 where
  pub attempt : Attempt
  pub seen_ids : List String
  pub fetches : ℕ
  pub model_requests : ℕ

-- The loop goes on, or it has returned: an output, or an error.
pub data Course : Type 0 where
  going : Progress → Course
  ended : Option Members → Attempt → Course

abbrev pub event_stream : Host → String → Bool
event_stream host value =
    host.equal_fold (host.trim_space (host.before ";" value)) "text/event-stream"

-- The attempt fails, and the deferred function cancels it if the context is done.
abbrev pub stopped : Round → Attempt → Attempt
stopped round a = if round.is_cancelled then fail true (fail false a) else fail false a

abbrev pub stop : Round → Attempt → Course
stop round a = ended none (stopped round a)

-- What follows a method's result.
abbrev pub on_ok :
    {A : Type 0} → Round → Result AttemptError A × Attempt → (A → Attempt → Course) → Course
on_ok round (err e, a) next = stop round a
on_ok round (ok r, a) next = next r a

unfoldable pub unique_id : Codec → Members → List String → Option String
unique_id codec message seen = elim (field "id" message) [
  | text s ↦ if codec.is_operation_id s && not (any (λ t. str_eq t s) seen) then some s else none
  | _ ↦ none
]

-- A positive integer.
abbrev pub turn_of : Json → Option ℕ
turn_of (number (natural (suc n))) = some (suc n)
turn_of _ = none

abbrev pub requested : String → Progress → Progress
requested id p = record {
  attempt = p.attempt;
  seen_ids = id ∷ p.seen_ids;
  fetches = p.fetches + 1;
  model_requests = p.model_requests + 1;
}

-- What follows the provider's response.
unfoldable pub on_response : Host → Round → Progress → Attempt → Course
on_response host round p a = elim round.response [
  | none ↦ stop round a
  | some r ↦
      if not (r.status == 200) || not (event_stream host r.content_type)
      then stop round a
      else on_ok round (accept_model host.codec r.body a)
          λ normalized b. if round.is_sent then going (record p { attempt = b }) else stop round b
]

unfoldable pub on_model_request : Host → Round → Members → Progress → Course
on_model_request host round message p = elim (unique_id host.codec message p.seen_ids) [
  | none ↦ stop round p.attempt
  | some id ↦ elim (turn_of (field "turn" message)) [
    | none ↦ stop round p.attempt
    | some turn ↦
        let q = requested id p in
        if ltb host.max_fetches q.fetches || ltb host.max_model_requests q.model_requests
        then stop round p.attempt
        else on_ok round (begin_model host.codec turn p.attempt)
            (λ body a. on_response host round q a)
  ]
]

abbrev pub has_tool : String → List Tool → Bool
has_tool name tools = any (λ t. str_eq t.name name) tools

unfoldable pub on_tool_call : Host → Round → Members → Progress → Course
on_tool_call host round message p = elim (unique_id host.codec message p.seen_ids) [
  | none ↦ stop round p.attempt
  | some id ↦
      elim (validate_tool_call host.codec (field "provider_call_id" message) (field "name" message)
        (field "arguments" message) p.attempt) [
          | err e ↦ stop round p.attempt
          | ok call ↦
              if not (has_tool call.name host.tools)
              then stop round p.attempt
              else elim round.tool_result [
                | none ↦ stop round p.attempt
                | some result ↦ on_ok round (accept_tool_result host.codec result p.attempt) λ r a.
                    if round.is_sent
                    then going (record p { attempt = a; seen_ids = id ∷ p.seen_ids })
                    else stop round a
              ]
        ]
]

unfoldable pub on_complete : Host → Round → Members → Progress → Course
on_complete host round message p =
    on_ok round (accept_complete host.codec (field "output" message) p.attempt)
      λ output a. if round.at_end then ended (some output) a else stop round a

abbrev pub type_of : Members → String
type_of message = elim (field "type" message) [ text s ↦ s | _ ↦ "" ]

unfoldable pub take_round : Host → Round → Progress → Course
take_round host round p = elim round.message [
  | none ↦ if round.is_cancelled then ended none (fail true p.attempt) else stop round p.attempt
  | some message ↦
      if str_eq (type_of message) "model_request"
      then on_model_request host round message p
      else if str_eq (type_of message) "tool_call"
      then on_tool_call host round message p
      else if str_eq (type_of message) "complete"
      then on_complete host round message p
      else stop round p.attempt
]

-- The loop over the rounds that are given, of which it takes none after it has returned.
unfoldable pub run : Host → List Round → Progress → Course
run host [] p = going p
run host (round ∷ rounds) p = elim (take_round host round p) [
  | ended output a ↦ ended output a
  | going q ↦ run host rounds q
]
