-- ===== src/Guardrails/Examples.antt =====
-- A transcript that does not fit as a whole (internal/agents/guardrails.go).
use command_prompter_doc_bot.Prelude.{
  ℕ, zero, suc, ◌≡◌, refl, ◌⊎◌, none, List, [], ◌∷◌, ◌==◌, ok, err,
}
use command_prompter_doc_bot.Guardrails.Initial.{
  Budgeted, ExecutionError, Message, assistant, budget_initial, choose, choose_evidence, estimate,
  fill, last_user, message_cost, selected, user,
}
use command_prompter_doc_bot.Guardrails.Fitting.{Fitting, Roomy, budget_initial-Fitting}
use command_prompter_doc_bot.Guardrails.Drafts.{
  AnswerDraft, Citation, Texts, allowed_citation, answer_of, answered, cite, cite_all, complete,
  draft_answered, draft_refused, insufficient, known_citations, more_footnotes, refused,
  render_span, render_spans, validate_draft,
}
use command_prompter_doc_bot.Guardrails.Citing.{Supported, validate_draft-Supported}
use command_prompter_doc_bot.Budget.Truncation.{estimate_tokens}

abbrev bytes_of : ℕ → List ℕ
bytes_of zero = []
bytes_of (suc n) = 97 ∷ bytes_of n

abbrev transcript : List Message
transcript =
    record { role = user; content = bytes_of 40 }
    ∷ record { role = assistant; content = bytes_of 8 }
    ∷ record { role = user; content = bytes_of 20 }
    ∷ []

abbrev found_evidence : List (List ℕ)
found_evidence = bytes_of 30 ∷ bytes_of 4 ∷ []

-- The first message and the first piece of evidence are left out.
part_fits :
    budget_initial 1050 10 (bytes_of 8) transcript found_evidence
    ≡ ok (record {
      messages =
          record { role = assistant; content = bytes_of 8 }
          ∷ record { role = user; content = bytes_of 20 }
          ∷ [];
      evidence = bytes_of 4 ∷ [];
      estimated_input_tokens = 14;
      truncated_transcript = 1;
      truncated_evidence = 1;
    })
unfolding budget_initial fill choose choose_evidence selected last_user message_cost estimate
    estimate_tokens
part_fits = refl

budget_initial-Fitting_example :
    (Roomy 1050 10 (bytes_of 8) transcript
      × ((b : Budgeted) × (budget_initial 1050 10 (bytes_of 8) transcript found_evidence ≡ ok b)
          × Fitting 1050 10 (bytes_of 8) transcript found_evidence b))
    ⊎ (¬ Roomy 1050 10 (bytes_of 8) transcript
        × ((e : ExecutionError) × (budget_initial 1050 10 (bytes_of 8) transcript found_evidence
              ≡ err e)))
budget_initial-Fitting_example =
    budget_initial-Fitting 1050 10 (bytes_of 8) transcript found_evidence

abbrev handbook : Citation
handbook = record {
  id = "C1";
  knowledge_base_id = "kb";
  wiki_version_id = "v";
  label = "Handbook";
  resource = "wiki://a";
  source_revision_id = none;
  path = none;
  start_line = none;
  end_line = none;
}

abbrev plain_texts : Texts
plain_texts = record { trim_func = λ p s. s; is_space = λ c. c == 32 }

-- The second span cites nothing that is allowed.
abbrev draft : AnswerDraft
draft = record {
  status = draft_answered;
  spans =
      record { markdown = "Yes."; citation_ids = "C1" ∷ "C9" ∷ "C1" ∷ [] }
      ∷ record { markdown = "Perhaps."; citation_ids = "C7" ∷ [] }
      ∷ [];
}

one_citation : validate_draft plain_texts draft (("C1", handbook) ∷ []) "No." ≡ record {
  status = answered;
  markdown = "Yes.[^C1][^C1]\n\n[^C1]: Handbook | `wiki://a`";
  citations = handbook ∷ [];
}
unfolding validate_draft answer_of render_spans render_span known_citations allowed_citation
    cite_all cite complete more_footnotes
one_citation = refl

validate_draft-Supported_example :
    ((draft.status ≡ draft_answered)
      × Supported draft.spans
          (("C1", handbook) ∷ [])
          (validate_draft plain_texts draft (("C1", handbook) ∷ []) "No."))
    ⊎ ((validate_draft plain_texts draft (("C1", handbook) ∷ []) "No." ≡ insufficient)
        ⊎ ((draft.status ≡ draft_refused)
            × (validate_draft plain_texts draft (("C1", handbook) ∷ []) "No."
                ≡ record { status = refused; markdown = "No."; citations = [] })))
validate_draft-Supported_example =
    validate_draft-Supported plain_texts draft (("C1", handbook) ∷ []) "No."
