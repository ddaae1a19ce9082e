-- ===== src/Rescue/Broaden/Settled.antt =====
-- Once a broader round was sent, no other is required.
use cv_match.Rescue.Broaden.{
  force_broaden_decision, BroadenDecision, broaden_with, untried_reserve,
  force_anchor_only_decision,
}
use cv_match.Common.{
  ℕ, Bool, List, ◌++◌, ◌≡◌, true, Option, ◌∷◌, any, OnOk, ok, arith, some, OnOk-then, OnOk-ok, [],
  none, ◌≢◌, refl, ◌||◌, subst, sym, false, ◌⊎◌, inl, inr,
}
use cv_match.Text.{Text, Unicode}
use cv_match.Rescue.Guidance.{
  starts_with, build_controller_context, runtime_broaden, build_stop_guidance, SentQueryRecord,
  broadening_attempted_in, RunState, ScoredCandidate, broaden_required, is_lone_anchor, known_terms,
}
use cv_match.QueryPlan.Terms.{QueryTermCandidate}
use cv_match.Rescue.Guidance.Stops.{context-status}

-- What a broader round is recorded with
abbrev IsMarked : BroadenDecision → Type 0
IsMarked d = starts_with runtime_broaden d.decision_rationale ≡ true

any-middle :
    {A : Type 0} (p : A → Bool) (xs : List A) (x : A) (ys : List A)
    → p x ≡ true
    → any p (xs ++ x ∷ ys) ≡ true
any-middle p [] x ys h = ground arith
any-middle p (y ∷ xs) x ys h = ground (arith, any-middle p xs x ys h)

module _ ⦃u : Unicode⦄ where
  broaden_with-IsMarked :
      (pool : List QueryTermCandidate) (reason : Text) (anchor : QueryTermCandidate)
      (o : Option QueryTermCandidate)
      → IsMarked (broaden_with pool reason anchor o)
  broaden_with-IsMarked pool reason anchor none = refl
  broaden_with-IsMarked pool reason anchor (some r) = refl

  force-IsMarked :
      (pool : List QueryTermCandidate) (history : List SentQueryRecord) (reason : Text)
      → OnOk IsMarked (force_broaden_decision pool history reason)
  unfolding force_broaden_decision
  force-IsMarked pool history reason = OnOk-then IsMarked _ _ λ anchor _.
      OnOk-ok IsMarked _ (broaden_with-IsMarked pool reason anchor (untried_reserve pool history))

  anchor_only-IsMarked :
      (pool : List QueryTermCandidate) (reason : Text)
      → OnOk IsMarked (force_anchor_only_decision pool reason)
  unfolding force_anchor_only_decision
  anchor_only-IsMarked pool reason =
      OnOk-then IsMarked _ _
        λ anchor _. OnOk-ok IsMarked _ (broaden_with-IsMarked pool reason anchor none)

  -- A broader round is required once at most: in every context whose history has a query with the
  -- rationale of a forced broader or anchor-only round, broadening counts as attempted, and the guidance does not
  -- require another.
  pub broaden-settled :
      (pool : List QueryTermCandidate) (history : List SentQueryRecord) (reason : Text)
      (d : BroadenDecision)
      → (force_broaden_decision pool history reason ≡ ok d)
        ⊎ (force_anchor_only_decision pool reason ≡ ok d)
      → (state : RunState) (earlier later : List SentQueryRecord) (query_terms : List Text)
      → state.sent_query_history
        ≡ earlier ++ record { query_terms = query_terms; rationale = d.decision_rationale } ∷ later
      → (top_pool : List ScoredCandidate) (round_no min_rounds max_rounds : ℕ)
      → let guidance =
          (build_controller_context state top_pool round_no min_rounds max_rounds).stop_guidance in
        (guidance.broadening_attempted ≡ true) × (guidance.quality_gate_status ≢ broaden_required)
  unfolding build_controller_context build_stop_guidance broadening_attempted_in
  broaden-settled pool history reason d e state earlier later query_terms sent top_pool round_no
        min_rounds max_rounds =
      (
        attempted,
        λ status.
            clash attempted
              ((context-status state top_pool round_no min_rounds max_rounds).0 status).2,
      )
    where
      marked : IsMarked d
      marked = elim e [
        | inl h ↦ (force-IsMarked pool history reason).at d h
        | inr h ↦ (anchor_only-IsMarked pool reason).at d h
      ]

      is_broad : SentQueryRecord → Bool
      is_broad r =
          starts_with runtime_broaden r.rationale
          || is_lone_anchor (known_terms state.query_term_pool r.query_terms)

      attempted : broadening_attempted_in state.query_term_pool state.sent_query_history ≡ true
      attempted =
          subst (λ h. any is_broad h ≡ true) (sym sent)
            (any-middle is_broad earlier
              (record { query_terms = query_terms; rationale = d.decision_rationale }) later
              (ground (arith, marked)))

      clash : {b : Bool} → b ≡ true → b ≡ false → ⊥
      clash h k = cc
