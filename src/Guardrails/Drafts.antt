-- ===== src/Guardrails/Drafts.antt =====
-- validateDraft (internal/agents/guardrails.go): the answer that a draft becomes, with its citations.
use command_prompter_doc_bot.Prelude.{
  ℕ, ◌+◌, String, ◌<>◌, str_eq, Bool, true, false, ◌&&◌, ◌||◌, Option, none, some, List, [], ◌∷◌,
  ◌++◌, ltb, leb, if◌then◌else◌, any,
}
use Prim.Native.String.{len}

-- A status that is none of these is read as `draft_answered`.
pub data DraftStatus : Type 0 where
  draft_answered draft_refused draft_insufficient : DraftStatus

pub record DraftSpan : Type 0 where
  pub markdown : String
  pub citation_ids : List String

pub record AnswerDraft : Type 0 where
  pub status : DraftStatus
  pub spans : List DraftSpan

pub record Citation : Type 0 where
  pub id : String
  pub knowledge_base_id : String
  pub wiki_version_id : String
  pub label : String
  pub resource : String
  pub source_revision_id : Option String
  pub path : Option String
  pub start_line : Option ℕ
  pub end_line : Option ℕ

pub data CompletionStatus : Type 0 where
  answered refused insufficient_evidence : CompletionStatus

-- strings.TrimFunc, and unicode.IsSpace of a rune.
pub record Texts : Type 0 where
  pub trim_func : (ℕ → Bool) → String → String
  pub is_space : ℕ → Bool

abbrev pub max_answer_bytes : ℕ
max_answer_bytes = 1048576

abbrev pub python_whitespace : Texts → ℕ → Bool
python_whitespace texts c = texts.is_space c || (leb 28 c && leb c 31)

abbrev pub trimmed : Texts → String → String
trimmed texts s = texts.trim_func (python_whitespace texts) s

-- The citations that may be cited, by their ids.
abbrev pub Allowed : Type 0
Allowed = List (String × Citation)

unfoldable pub allowed_citation : String → Allowed → Option Citation
allowed_citation id [] = none
allowed_citation id ((s, c) ∷ rest) =
    let others = allowed_citation id rest in if str_eq s id then some c else others

unfoldable pub known_citations : Allowed → List String → List Citation
known_citations allowed [] = []
known_citations allowed (id ∷ ids) =
    let rest = known_citations allowed ids in
    elim (allowed_citation id allowed) [ none ↦ rest | some c ↦ c ∷ rest ]

-- The text so far and the citations in it; the ids that were seen are those of these citations.
pub record Rendering : Type 0 where
  pub rendered : String
  pub selected : List Citation

abbrev pub is_seen : String → List Citation → Bool
is_seen id citations = any (λ c. str_eq c.id id) citations

unfoldable pub cite : Citation → Rendering → Rendering
cite c r = record {
  rendered = r.rendered <> "[^" <> c.id <> "]";
  selected = if is_seen c.id r.selected then r.selected else r.selected ++ c ∷ [];
}

unfoldable pub cite_all : List Citation → Rendering → Rendering
cite_all [] r = r
cite_all (c ∷ cs) r = cite_all cs (cite c r)

abbrev pub no_citations : List Citation → Bool
no_citations [] = true
no_citations (c ∷ cs) = false

-- A blank span is left out, and so is one without a known citation.
unfoldable pub render_span : Texts → Allowed → DraftSpan → Rendering → Rendering
render_span texts allowed span r =
    let known = known_citations allowed span.citation_ids in
    if str_eq (trimmed texts span.markdown) "" || no_citations known
    then r
    else cite_all known (record r { rendered = r.rendered <> span.markdown })

-- None where the spans are too long together, of which `total` bytes were before.
unfoldable pub render_spans : Texts → Allowed → List DraftSpan → ℕ → Rendering → Option Rendering
render_spans texts allowed [] total r = some r
render_spans texts allowed (span ∷ spans) total r =
    let rest =
      render_spans texts allowed spans (total + len span.markdown)
        (render_span texts allowed span r) in
    if ltb max_answer_bytes (total + len span.markdown) then none else rest

abbrev pub footnote : Citation → String
footnote c = "[^" <> c.id <> "]: " <> c.label <> " | `" <> c.resource <> "`"

unfoldable pub more_footnotes : List Citation → String
more_footnotes [] = ""
more_footnotes (c ∷ cs) = "\n" <> footnote c <> more_footnotes cs

abbrev pub footnotes : List Citation → String
footnotes [] = ""
footnotes (c ∷ cs) = footnote c <> more_footnotes cs

pub record Completion : Type 0 where
  pub status : CompletionStatus
  pub markdown : String
  pub citations : List Citation

abbrev pub insufficient : Completion
insufficient = record {
  status = insufficient_evidence;
  markdown =
      "The configured knowledge bases do not contain enough verified evidence to answer that.";
  citations = [];
}

unfoldable pub complete : Texts → Rendering → Completion
complete texts r =
    if str_eq (trimmed texts r.rendered) "" || no_citations r.selected
    then insufficient
    else record {
      status = answered;
      markdown = trimmed texts r.rendered <> "\n\n" <> footnotes r.selected;
      citations = r.selected;
    }

unfoldable pub answer_of : Texts → Allowed → List DraftSpan → Completion
answer_of texts allowed spans =
    elim (render_spans texts allowed spans 0 (record { rendered = ""; selected = [] })) [
      | none ↦ insufficient
      | some r ↦ complete texts r
    ]

unfoldable pub validate_draft : Texts → AnswerDraft → Allowed → String → Completion
validate_draft texts draft allowed refusal_markdown = elim draft.status [
  | draft_refused ↦ record { status = refused; markdown = refusal_markdown; citations = [] }
  | draft_insufficient ↦ insufficient
  | draft_answered ↦ answer_of texts allowed draft.spans
]
