-- ===== src/Guardrails/Citing.antt =====
-- What an answer may cite (internal/agents/guardrails.go).
use command_prompter_doc_bot.Prelude.{
  ℕ, ◌+◌, ◌≤◌, ◌≡◌, refl, sym, subst, ◌∙◌, ◌⊎◌, inl, inr, String, ◌<>◌, str_eq, eq_iff, Bool, true,
  false, not, ◌&&◌, ◌||◌, some, List, [], ◌∷◌, ◌++◌, ltb, arith, All, All-append, Bool-cases,
  Option-cases,
}
use command_prompter_doc_bot.Guardrails.Drafts.{
  Allowed, AnswerDraft, Citation, Completion, DraftSpan, DraftStatus, Rendering, Texts,
  allowed_citation, answer_of, answered, cite, cite_all, complete, draft_answered,
  draft_insufficient, draft_refused, insufficient, is_seen, known_citations, max_answer_bytes,
  no_citations, refused, render_span, render_spans, trimmed, validate_draft,
}
use Prim.Native.String.{len}

unfoldable pub distinct_ids : List Citation → Bool
distinct_ids [] = true
distinct_ids (c ∷ cs) = let rest = distinct_ids cs in not (is_seen c.id cs) && rest

-- A citation that some id names.
abbrev pub Named : Allowed → Citation → Type 0
Named allowed c = (id : String) × (allowed_citation id allowed ≡ some c)

-- Citations that are named, of different ids.
abbrev pub Sourced : Allowed → List Citation → Type 0
Sourced allowed cs = All (Named allowed) cs × (distinct_ids cs ≡ true)

known_citations-Named :
    (allowed : Allowed) (ids : List String) → All (Named allowed) (known_citations allowed ids)
unfolding known_citations
known_citations-Named allowed [] = tt
known_citations-Named allowed (id ∷ ids) = elim (Option-cases (allowed_citation id allowed)) [
  | inl unknown ↦ rw (unknown, known_citations) (known_citations-Named allowed ids)
  | inr (c, there) ↦ rw (there, known_citations) ((id, there), known_citations-Named allowed ids)
]

is_seen-append :
    (id : String) (cs : List Citation) (d : Citation)
    → is_seen id (cs ++ d ∷ []) ≡ (is_seen id cs || str_eq d.id id)
is_seen-append id [] d = ground arith
is_seen-append id (c ∷ cs) d = ground (arith, is_seen-append id cs d)

str_eq_swap : (s t : String) → str_eq s t ≡ false → str_eq t s ≡ false
str_eq_swap s t h = elim (Bool-cases (str_eq t s)) [
  | inr other ↦ other
  | inl same ↦ absurd (ground (arith, h, (eq_iff s t).1 (sym ((eq_iff t s).0 same))))
]

distinct_ids-append :
    (cs : List Citation) (d : Citation)
    → distinct_ids cs ≡ true
    → is_seen d.id cs ≡ false
    → distinct_ids (cs ++ d ∷ []) ≡ true
unfolding distinct_ids
distinct_ids-append [] d h fresh = refl
distinct_ids-append (c ∷ cs) d h fresh =
    let other : str_eq c.id d.id ≡ false = ground (arith, fresh) in
    let rest = distinct_ids-append cs d (ground (arith, h)) (ground (arith, fresh)) in
    let unseen : is_seen c.id cs ≡ false = ground (arith, h) in
    rw (is_seen-append c.id cs d, unseen, str_eq_swap c.id d.id other, rest) refl

cite-Sourced :
    (allowed : Allowed) (c : Citation) (r : Rendering)
    → Named allowed c
    → Sourced allowed r.selected
    → Sourced allowed (cite c r).selected
unfolding cite
cite-Sourced allowed c r named (all, different) = elim (Bool-cases (is_seen c.id r.selected)) [
  | inl seen ↦ rw seen (all, different)
  | inr fresh ↦ rw fresh (
    All-append (Named allowed) r.selected (c ∷ []) all (named, tt),
    distinct_ids-append r.selected c different fresh,
  )
]

cite_all-Sourced :
    (allowed : Allowed) (cs : List Citation) (r : Rendering)
    → All (Named allowed) cs
    → Sourced allowed r.selected
    → Sourced allowed (cite_all cs r).selected
unfolding cite_all
cite_all-Sourced allowed [] r named h = h
cite_all-Sourced allowed (c ∷ cs) r (one, named) h =
    cite_all-Sourced allowed cs (cite c r) named (cite-Sourced allowed c r one h)

render_span-Sourced :
    (texts : Texts) (allowed : Allowed) (span : DraftSpan) (r : Rendering)
    → Sourced allowed r.selected
    → Sourced allowed (render_span texts allowed span r).selected
unfolding render_span
render_span-Sourced texts allowed span r h =
    elim (Bool-cases (
      str_eq (trimmed texts span.markdown) ""
      || no_citations (known_citations allowed span.citation_ids))) [
        | inl skipped ↦ rw skipped h
        | inr cited ↦ rw cited (
            cite_all-Sourced allowed (known_citations allowed span.citation_ids)
              (record r { rendered = r.rendered <> span.markdown })
              (known_citations-Named allowed span.citation_ids) h)
      ]

unfoldable pub span_bytes : List DraftSpan → ℕ
span_bytes [] = 0
span_bytes (span ∷ spans) = len span.markdown + span_bytes spans

render_spans-Sourced :
    (texts : Texts) (allowed : Allowed) (spans : List DraftSpan) (before : ℕ) (r s : Rendering)
    → before ≤ max_answer_bytes
    → Sourced allowed r.selected
    → render_spans texts allowed spans before r ≡ some s
    → Sourced allowed s.selected × (before + span_bytes spans ≤ max_answer_bytes)
unfolding render_spans span_bytes
render_spans-Sourced texts allowed [] before r s le h same =
    let e : r ≡ s = ground (arith, same) in
    (subst (λ x. Sourced allowed x.selected) e h, omega (arith, le))
render_spans-Sourced texts allowed (span ∷ spans) before r s le h same =
    elim (Bool-cases (ltb max_answer_bytes (before + len span.markdown))) [
      | inl long ↦ absurd (ground (arith, same, long))
      | inr short ↦
          let (sourced, few) =
            render_spans-Sourced texts allowed spans (before + len span.markdown)
              (render_span texts allowed span r) s (ground (arith, short))
              (render_span-Sourced texts allowed span r h) (ground (arith, same, short)) in
          (sourced, omega (arith, few))
    ]

-- An answer with citations: some, of different ids, each of which an allowed id names.
pub record Supported (spans : List DraftSpan) (allowed : Allowed) (c : Completion) : Type 0 where
  pub answers : c.status ≡ answered
  pub cited : no_citations c.citations ≡ false
  pub sourced : Sourced allowed c.citations
  pub short : span_bytes spans ≤ max_answer_bytes

complete-cases :
    (texts : Texts) (r : Rendering)
    → (complete texts r ≡ insufficient)
      ⊎ (((complete texts r).status ≡ answered)
          × ((complete texts r).citations ≡ r.selected)
          × (no_citations r.selected ≡ false))
unfolding complete
complete-cases texts r =
    elim (Bool-cases (str_eq (trimmed texts r.rendered) "" || no_citations r.selected)) [
      | inl blank ↦ inl (rw blank refl)
      | inr cited ↦ inr (rw cited refl, rw cited refl, ground (arith, cited))
    ]

status-cases :
    (s : DraftStatus) → (s ≡ draft_refused) ⊎ ((s ≡ draft_insufficient) ⊎ (s ≡ draft_answered))
status-cases draft_refused = inl refl
status-cases draft_insufficient = inr (inl refl)
status-cases draft_answered = inr (inr refl)

answer_of-Supported :
    (texts : Texts) (allowed : Allowed) (spans : List DraftSpan)
    → Supported spans allowed (answer_of texts allowed spans)
      ⊎ (answer_of texts allowed spans ≡ insufficient)
unfolding answer_of distinct_ids
answer_of-Supported texts allowed spans =
    elim (Option-cases
      (render_spans texts allowed spans 0 (record { rendered = ""; selected = [] }))) [
        | inl long ↦ inr (rw (long, answer_of) refl)
        | inr (r, done) ↦
            let (sourced, few) =
              render_spans-Sourced texts allowed spans 0 (record { rendered = ""; selected = [] }) r
                (omega arith) (tt, refl) done in
            let is : complete texts r ≡ answer_of texts allowed spans = rw (done, answer_of) refl in
            elim (complete-cases texts r) [
              | inl blank ↦ inr (sym is ∙ blank)
              | inr (answers, citations, cited) ↦ inl (
                  subst (Supported spans allowed) is (record {
                    answers = answers;
                    cited = rw citations cited;
                    sourced = rw citations sourced;
                    short = omega (arith, few);
                  }))
            ]
      ]

-- A completed draft is an answer that cites only allowed citations, at least one and none of them twice, from
-- spans that are short enough together, or it answers nothing and cites nothing: it is refused, if the
-- draft was, or there is not enough evidence.
pub validate_draft-Supported :
    (texts : Texts) (draft : AnswerDraft) (allowed : Allowed) (refusal_markdown : String)
    → ((draft.status ≡ draft_answered)
        × Supported draft.spans allowed (validate_draft texts draft allowed refusal_markdown))
      ⊎ ((validate_draft texts draft allowed refusal_markdown ≡ insufficient)
          ⊎ ((draft.status ≡ draft_refused)
              × (validate_draft texts draft allowed refusal_markdown
                  ≡ record { status = refused; markdown = refusal_markdown; citations = [] })))
validate_draft-Supported texts draft allowed refusal_markdown = elim (status-cases draft.status) [
  | inl refusal ↦ inr (inr (refusal, unfold validate_draft in rw refusal refl))
  | inr (inl scarce) ↦ inr (inl (unfold validate_draft in rw scarce refl))
  | inr (inr asked) ↦
      let is : validate_draft texts draft allowed refusal_markdown
          ≡ answer_of texts allowed draft.spans =
        unfold validate_draft in rw asked refl in
      elim (answer_of-Supported texts allowed draft.spans) [
        | inl supported ↦ inl (asked, subst (Supported draft.spans allowed) (sym is) supported)
        | inr scarce ↦ inr (inl (is ∙ scarce))
      ]
]
