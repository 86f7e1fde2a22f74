-- ===== src/Graph/Stages.antt =====
-- Each node, and each guarded node, as a triple: the repository shows the status of the state that
-- comes out, and a guarded node never raises.
use amlguard_eu_ai_agent.Prelude.{
  String, false, ◌≡◌, refl, ◌∷◌, Result, ok, err, Exception, Action, ◌>>=◌, ◌⊎◌, inl, inr, ◌++◌, [],
}
use amlguard_eu_ai_agent.Prelude.Keeps.{Keeps}
use amlguard_eu_ai_agent.Prelude.Triples.{Triple, After, Triple-pure, Triple-weaken, Triple-bind}
use amlguard_eu_ai_agent.Domain.{CaseStatus, failed, running, ToolExecution}
use amlguard_eu_ai_agent.Graph.State.{InvestigationState, Submission, World, Services, on_tools}
use amlguard_eu_ai_agent.Graph.Nodes.{
  marked, load_and_retrieve, draft, guarded, selected, collect_information, information_evidence,
  information_payload, required, record_failure, recover,
}
use amlguard_eu_ai_agent.Graph.Sync.{
  Shows, Knows, Shows-Knows, notify-Steady, marked-Shows, tool-Steady, recommend-Steady,
  save_recommendation-Steady, Same, executed-Same, audited-Same, lift-Steady, audit_case-Shows,
  notify_suppressed-Shows,
}
use amlguard_eu_ai_agent.Tools.Service.{CaseAuthorization, Tools, executed, audited}
use amlguard_eu_ai_agent.Tools.Service.Rules.{
  is_violation, get_alert-Keeps, get_customer_profile-Keeps, get_kyc_profile-Keeps,
  get_transactions-Keeps,
}

-- The state that a stage hands on: about the case `k`, shown by the repository, and as `Allowed`.
pub record Settled (k : String) (Allowed : InvestigationState → Type 0) (st : InvestigationState)
    (w : World) : Type 0 where
  pub own : st.case_id ≡ k
  pub shows : Shows k st.status w
  pub allowed : Allowed st

-- What every stage allows besides.
abbrev pub OrFailed : (InvestigationState → Type 0) → InvestigationState → Type 0
OrFailed Allowed st = Allowed st ⊎ (st.status ≡ failed)

module _ (s : Services) where
  pub marking :
      (k : String) (new : CaseStatus)
      → Triple (Knows k) (marked s k new) (λ _. Shows k new) (Knows k)
  marking k new =
      Triple-weaken (marked s k new) (λ w h. h) (λ a w h. h) (λ w h. absurd h)
        (marked-Shows s k new)

  pub marking_again :
      (k : String) (old new : CaseStatus)
      → Triple (Shows k old) (marked s k new) (λ _. Shows k new) (Knows k)
  marking_again k old new =
      Triple-weaken (marked s k new) (λ w h. Shows-Knows h) (λ a w h. h) (λ w h. h) (marking k new)

  -- A tool call in the middle of a stage.
  tool_step :
      {A B : Type 0} {Q : B → World → Type 0} (k : String) (status : CaseStatus)
      (m : Action Tools A) (f : A → Action World B)
      → ((P : Tools → Type 0)
          → ((e : ToolExecution) → is_violation e ≡ false → Keeps P (executed e))
          → ((event : String) (auth : CaseAuthorization) (e : ToolExecution)
              → Keeps P (audited s.external event auth e))
          → Keeps P m)
      → ((a : A) → Triple (Shows k status) (f a) Q (Knows k))
      → Triple (Shows k status) (on_tools m >>= f) Q (Knows k)
  tool_step k status m f keeps t =
      let x = s.external in
      Triple-bind (on_tools m) f
        (tool-Steady k status s m
          (λ cs. keeps (Same x cs) (executed-Same x cs) (audited-Same x cs)))
        t

  pub load_and_retrieve-Settled :
      (st : InvestigationState)
      → Triple
          (Knows st.case_id)
          (load_and_retrieve s st)
          (Settled st.case_id (λ x. x.status ≡ running))
          (Knows st.case_id)
  unfolding load_and_retrieve
  load_and_retrieve-Settled st =
      let k = st.case_id in
      let x = s.external in
      let auth : CaseAuthorization = record {
        case_id = st.case_id;
        customer_id = st.customer_id;
        actor_id = st.actor_id;
      } in
      Triple-bind _ _ (marking k running) (λ _.
        tool_step k running _ _ (λ P e a. get_alert-Keeps x P e a auth st.alert_id)
          (λ a.
            tool_step k running _ _
              (λ P e a. get_customer_profile-Keeps x P e a auth st.customer_id)
              (λ c.
                tool_step k running _ _ (λ P e a. get_kyc_profile-Keeps x P e a auth st.customer_id)
                  (λ y.
                    tool_step k running _ _
                      (λ P e a. get_transactions-Keeps x P e a auth st.customer_id 250)
                      (λ ts.
                        Triple-bind _ _ (lift-Steady k running (s.select_policies (a ∷ c ∷ y ∷ ts)))
                          (λ sel.
                            Triple-bind _ _ (notify-Steady k running s "evidence_retrieved") (λ _.
                              Triple-bind _ _ (notify-Steady k running s "policies_retrieved") (λ _.
                                Triple-pure _ _ _
                                  (λ w h. record { own = refl; shows = h; allowed = refl })))))))))

  pub draft-Settled :
      (st : InvestigationState)
      → Triple
          (Shows st.case_id st.status)
          (draft s st)
          (Settled st.case_id (λ x. x.status ≡ st.status))
          (Knows st.case_id)
  unfolding draft
  draft-Settled st = Triple-bind _ _ (recommend-Steady st.case_id st.status s st) (λ r.
      Triple-bind _ _ (save_recommendation-Steady st.case_id st.status st.case_id r) (λ v.
        Triple-bind _ _ (notify-Steady st.case_id st.status s "recommendation_drafted")
          (λ _. Triple-pure _ _ _ (λ w h. record { own = refl; shows = h; allowed = refl }))))

  pub collect_information-Settled :
      (st : InvestigationState) (sub : Submission)
      → Triple
          (Shows st.case_id st.status)
          (collect_information s st sub)
          (Settled st.case_id (λ x. x.status ≡ running))
          (Knows st.case_id)
  unfolding collect_information
  collect_information-Settled st sub =
      let k = st.case_id in
      let updated = st.evidence ++ information_evidence s st sub ∷ [] in
      Triple-bind _ _ (lift-Steady k st.status (required st.recommendation)) (λ r.
        Triple-bind _ _
          (Triple-weaken _ (λ w h. h) (λ a w h. h) (λ w h. absurd h)
            (audit_case-Shows k st.status s "case_information_supplied" sub.actor_id k
              (information_payload s st sub)))
          (λ _. Triple-bind _ _ (marking_again k st.status running) (λ _.
            Triple-bind _ _ (notify-Steady k running s "case_information_supplied") (λ _.
              Triple-bind _ _ (lift-Steady k running (s.select_policies updated)) (λ sel.
                Triple-bind _ _ (notify-Steady k running s "policies_retrieved") (λ _.
                  Triple-pure _ _ (record (selected sel st) { evidence = updated })
                    (λ w h. record { own = refl; shows = h; allowed = refl })))))))

  -- The failure is recorded, whatever raised it.
  record_failure-Settled :
      (st : InvestigationState) (stage : String) (error : Exception)
      (Allowed : InvestigationState → Type 0)
      → Triple
          (Knows st.case_id)
          (record_failure s st stage error)
          (Settled st.case_id (OrFailed Allowed))
          (λ _. ⊥)
  unfolding record_failure
  record_failure-Settled st stage error Allowed =
      let k = st.case_id in
      Triple-bind _ _ (marked-Shows s k failed) (λ _.
        Triple-bind _ _
          (audit_case-Shows k failed s "investigation_failed" st.actor_id k
            (s.failure_json stage error))
          (λ _. Triple-bind _ _ (notify_suppressed-Shows k failed s "investigation_failed") (λ _.
            Triple-pure _ _
              (record st {
                status = failed;
                errors = st.errors ++ record { stage = stage; error = error } ∷ [];
              })
              (λ w h. record { own = refl; shows = h; allowed = inr refl }))))

  recovered :
      (st : InvestigationState) (stage : String) (Allowed : InvestigationState → Type 0)
      (r : Result InvestigationState) (w : World)
      → After (Settled st.case_id Allowed) (Knows st.case_id) r w
      → After
          (Settled st.case_id (OrFailed Allowed))
          (λ _. ⊥)
          (recover s st stage r w).0
          (recover s st stage r w).1
  unfolding recover
  recovered st stage Allowed (ok st') w h = record {
    own = h.own;
    shows = h.shows;
    allowed = inl h.allowed;
  }
  recovered st stage Allowed (err error) w h =
      (record_failure-Settled st stage error Allowed).at w h

  -- A guarded stage: an exception of the node becomes the state FAILED, which the repository shows.
  pub guarded-Settled :
      (stage : String) (node : InvestigationState → Action World InvestigationState)
      (st : InvestigationState) (P : World → Type 0) (Allowed : InvestigationState → Type 0)
      → Triple P (node st) (Settled st.case_id Allowed) (Knows st.case_id)
      → Triple P (guarded s stage node st) (Settled st.case_id (OrFailed Allowed)) (λ _. ⊥)
  unfolding guarded
  guarded-Settled stage node st P Allowed t = record {
    at = λ w h. let (r, w') = node st w in recovered st stage Allowed r w' (t.at w h);
  }
