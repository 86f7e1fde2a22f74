-- ===== src/Graph/Reached.antt =====
-- The threads that the graph reaches: started, and resumed any number of times, while other requests
-- change the world in between.
use amlguard_eu_ai_agent.Prelude.{String, ◌≡◌, ok, inl, inr}
use amlguard_eu_ai_agent.Domain.{HumanReview, completed}
use amlguard_eu_ai_agent.Graph.State.{InvestigationState, World, Services, Submission}
use amlguard_eu_ai_agent.Graph.Flow.{
  Thread, Pending, ended, at_information, at_review, invoke, resume_information, resume_review,
}
use amlguard_eu_ai_agent.Graph.Sync.{Shows, Knows}
use amlguard_eu_ai_agent.Graph.Waiting.{Stands, Approved}
use amlguard_eu_ai_agent.Graph.Runs.{
  Settles, invoke-Settles, resume_information-Settles, resume_review-Settles,
}
use mathlib.Core.Path.{subst}
use amlguard_eu_ai_agent.Prelude.{Result}
use amlguard_eu_ai_agent.Prelude.Triples.{After}

-- `elsewhere` is what other requests do between two calls: they may change all but the status that
-- the repository shows for the case.
pub data Reaches (s : Services) (k : String) : Thread → World → Type 0 where
  started :
      (st : InvestigationState) (w : World) (t : Thread) (w' : World)
      → st.case_id ≡ k
      → Knows k w
      → invoke s st w ≡ (ok t, w')
      → Reaches s k t w'
  informed :
      (t : Thread) (w : World) (sub : Submission) (t' : Thread) (w' : World)
      → Reaches s k t w
      → t.pending ≡ at_information
      → resume_information s t.state sub w ≡ (ok t', w')
      → Reaches s k t' w'
  decided :
      (t : Thread) (w : World) (payload : HumanReview) (t' : Thread) (w' : World)
      → Reaches s k t w
      → t.pending ≡ at_review
      → resume_review s t.state payload w ≡ (ok t', w')
      → Reaches s k t' w'
  elsewhere :
      (t : Thread) (w w' : World) → Reaches s k t w → Shows k t.state.status w' → Reaches s k t w'

after_return :
    {S A : Type 0} (Q : A → S → Type 0) {x : Result A × S} {a : A} {s : S}
    → x ≡ (ok a, s)
    → After Q (λ _. ⊥) x.0 x.1
    → Q a s
after_return Q e h = subst (λ y. After Q (λ _. ⊥) y.0 y.1) e h

-- Every thread that the graph reaches stands as `Stands` allows, and the repository shows its
-- status.
pub Reaches-Settles :
    (s : Services) (k : String) (t : Thread) (w : World) → Reaches s k t w → Settles k t w
Reaches-Settles s k _ _ (started st w t w' own known e) =
    subst (λ j. Knows j w → Settles j t w') own
      (λ known. after_return (Settles st.case_id) e ((invoke-Settles s st).at w known)) known
Reaches-Settles s k _ _ (informed t w sub t' w' before waits e) =
    let h = Reaches-Settles s k t w before in
    subst (λ j. Shows j t.state.status w → Settles j t' w') h.own
      (λ shows.
        after_return (Settles t.state.case_id) e
          ((resume_information-Settles s t.state sub).at w shows))
      h.shows
Reaches-Settles s k _ _ (decided t w payload t' w' before waits e) =
    let h = Reaches-Settles s k t w before in
    let (reviewable, supported) = subst (λ p. Stands p t.state) waits h.stands in
    subst (λ j. Shows j t.state.status w → Settles j t' w') h.own
      (λ shows.
        after_return (Settles t.state.case_id) e
          ((resume_review-Settles s t.state payload reviewable supported).at w shows))
      h.shows
Reaches-Settles s k _ _ (elsewhere t w w' before shows) =
    let h = Reaches-Settles s k t w before in
    record { own = h.own; shows = shows; stands = h.stands }

-- A case is COMPLETED only by a person who approved, or edited and approved, a recommendation that
-- had passed every control.
pub Reaches-completed :
    (s : Services) (k : String) (t : Thread) (w : World)
    → Reaches s k t w
    → t.state.status ≡ completed
    → Approved t.state
Reaches-completed s k t w reached e = approved t.pending (Reaches-Settles s k t w reached).stands
  where
    approved : (p : Pending) → Stands p t.state → Approved t.state
    approved at_information (e', _) = absurd cc
    approved at_review (e', _) = absurd cc
    approved ended (inl e') = absurd cc
    approved ended (inr (inl e')) = absurd cc
    approved ended (inr (inr (e', h))) = h
