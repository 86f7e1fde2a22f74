-- ===== src/Graph/Sync.antt =====
-- The status that the repository shows for a case is the status of the graph's state, after every
-- node and every failure.
use amlguard_eu_ai_agent.Prelude.{
  String, false, ◌≡◌, some, Action, Result, ok, err, refl, lift, if◌then◌else◌, arith,
  external_failure, Bool-cases, ◌+◌, ◌++◌, Option-cases, ◌==◌, inl, ◌∷◌, eq_refl, [], eq_iff, inr,
}
use amlguard_eu_ai_agent.Prelude.Dict.{Dict, lookup, put, lookup-put}
use amlguard_eu_ai_agent.Prelude.Keeps.{Keeps}
use amlguard_eu_ai_agent.Domain.{
  CaseData, CaseStatus, ToolExecution, Json, Recommendation, HumanReview,
}
use amlguard_eu_ai_agent.Tools.Repository
use amlguard_eu_ai_agent.Tools.Repository.{Repository, same_decision}
use amlguard_eu_ai_agent.Tools.Service.{External, CaseAuthorization, Tools, executed, audited}
use amlguard_eu_ai_agent.Tools.Service.Rules.{is_violation}
use amlguard_eu_ai_agent.Graph.State.{World, Services, on_tools, InvestigationState}
use amlguard_eu_ai_agent.Graph.Nodes.{
  notify, notify_suppressed, marked, recommend, on_cases, audit_case,
}
use amlguard_eu_ai_agent.Prelude.Triples.{Triple, After}
use amlguard_eu_ai_agent.Prelude.Lists.{any}

-- The cases of a world.
abbrev pub cases_of : World → Dict CaseData
cases_of w = w.tools.repository.cases

-- The repository holds the case `k`, with this status.
pub record Shows (k : String) (status : CaseStatus) (w : World) : Type 0 where
  pub case : CaseData
  pub found : lookup k (cases_of w) ≡ some case
  pub shown : case.status ≡ status

-- The repository holds the case `k`.
pub record Knows (k : String) (w : World) : Type 0 where
  pub case : CaseData
  pub found : lookup k (cases_of w) ≡ some case

pub Shows-Knows : {k : String} {status : CaseStatus} {w : World} → Shows k status w → Knows k w
Shows-Knows h = record { case = h.case; found = h.found }

module _ (x : External) (cs : Dict CaseData) where
  pub Same : Tools → Type 0
  Same t = t.repository.cases ≡ cs

  pub executed-Same : (e : ToolExecution) → is_violation e ≡ false → Keeps Same (executed e)
  unfolding Same
  executed-Same e h = record { at = λ t same. same }

  pub audited-Same :
      (event : String) (auth : CaseAuthorization) (e : ToolExecution)
      → Keeps Same (audited x event auth e)
  unfolding Same Repository.audit
  audited-Same event auth e = record { at = λ t same. same }

-- A triple whose action keeps the status that the repository shows, whether it returns or raises.
abbrev pub Steady : {A : Type 0} → String → CaseStatus → Action World A → Type 0
Steady k status m = Triple (Shows k status) m (λ _. Shows k status) (Knows k)

module _ (k : String) (status : CaseStatus) where
  settle :
      {A : Type 0} (r : Result A) (w : World)
      → Shows k status w
      → After (λ _. Shows k status) (Knows k) r w
  settle (ok a) w h = h
  settle (err e) w h = record { case = h.case; found = h.found }

  -- A value that was computed outside.
  pub lift-Steady : {A : Type 0} (r : Result A) → Steady k status (lift r)
  lift-Steady r = record { at = λ w h. settle r w h }

  pub recommend-Steady : (s : Services) (st : InvestigationState) → Steady k status (recommend s st)
  unfolding recommend
  recommend-Steady s st = record {
    at = λ w h.
        settle _ (record w { llm_calls = w.llm_calls + 1 })
          (record { case = h.case; found = h.found; shown = h.shown });
  }

  pub notify-Steady : (s : Services) (event : String) → Steady k status (notify s event)
  unfolding notify
  notify-Steady s event = record {
    at = λ w h.
        settle (if s.hook_raises w.events event then err external_failure else ok tt)
          (record w { events = w.events ++ event ∷ [] })
          (record { case = h.case; found = h.found; shown = h.shown });
  }

  pub notify_suppressed-Shows :
      (s : Services) (event : String)
      → Triple (Shows k status) (notify_suppressed s event) (λ _. Shows k status) (λ _. ⊥)
  unfolding notify_suppressed notify
  notify_suppressed-Shows s event = record {
    at = λ w h. record { case = h.case; found = h.found; shown = h.shown };
  }

  pub audit_case-Shows :
      (s : Services) (event actor case_id : String) (payload : Dict Json)
      → Triple
          (Shows k status)
          (audit_case s event actor case_id payload)
          (λ _. Shows k status)
          (λ _. ⊥)
  unfolding Repository.audit
  audit_case-Shows s event actor case_id payload = record {
    at = λ w h. record { case = h.case; found = h.found; shown = h.shown };
  }

  pub tool-Steady :
      (s : Services) {A : Type 0} (m : Action Tools A)
      → ((cs : Dict CaseData) → Keeps (Same s.external cs) m)
      → Steady k status (on_tools m)
  unfolding Same
  tool-Steady s m keeps = record {
    at = λ w h.
        let same = (keeps (cases_of w)).at w.tools refl in
        settle (m w.tools).0 (record w { tools = (m w.tools).1 })
          (record { case = h.case; found = rw same h.found; shown = h.shown });
  }

  -- An update of the case `j` that leaves its status alone.
  put-Shows :
      (j : String) (c c' : CaseData) (w w' : World)
      → lookup j (cases_of w) ≡ some c
      → c'.status ≡ c.status
      → cases_of w' ≡ put j c' (cases_of w)
      → Shows k status w
      → Shows k status w'
  put-Shows j c c' w w' e same new h = elim (Bool-cases (j == k)) [
    | inl here ↦ record {
      case = c';
      found = rw new (ground (arith, lookup-put j k c' (cases_of w)));
      shown = ground (arith, eq_iff j k, h.found, h.shown);
    }
    | inr other ↦ record {
      case = h.case;
      found = rw new (ground (arith, lookup-put j k c' (cases_of w), h.found));
      shown = h.shown;
    }
  ]

  pub save_recommendation-Steady :
      (j : String) (r : Recommendation)
      → Steady k status (on_cases (Repository.save_recommendation j r))
  unfolding Repository.save_recommendation
  save_recommendation-Steady j r = record {
    at = λ w h. elim (Option-cases (lookup j (cases_of w))) [
      | inl e ↦ rw e (record { case = h.case; found = h.found })
      | inr (c, e) ↦ rw e (put-Shows j c _ w _ e refl refl h)
    ];
  }

  pub save_review-Steady : (r : HumanReview) → Steady k status (on_cases (Repository.save_review r))
  unfolding Repository.save_review
  save_review-Steady r = record {
    at = λ w h. elim (Option-cases (lookup r.case_id (cases_of w))) [
      | inl e ↦ rw e (record { case = h.case; found = h.found })
      | inr (c, e) ↦ elim (Bool-cases (any (same_decision r) c.reviews)) [
        | inl twice ↦ rw (e, twice) (record { case = h.case; found = h.found })
        | inr new ↦ rw (e, new) (put-Shows r.case_id c _ w _ e refl refl h)
      ]
    ];
  }

-- Setting the status of a known case returns, and shows the status.
pub marked-Shows :
    (s : Services) (k : String) (status : CaseStatus)
    → Triple (Knows k) (marked s k status) (λ _. Shows k status) (λ _. ⊥)
unfolding Repository.set_status
marked-Shows s k status = record {
  at = λ w h. rw h.found (record {
    case = record h.case { status = status };
    found =
        ground (arith, lookup-put k k (record h.case { status = status }) (cases_of w), eq_refl k);
    shown = refl;
  });
}
