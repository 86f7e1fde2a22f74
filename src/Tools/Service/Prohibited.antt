-- ===== src/Tools/Service/Prohibited.antt =====
-- No tool call is ever recorded as an authorized prohibited action, and the audit chain of the
-- repository stays linked whatever is called.
use amlguard_eu_ai_agent.Prelude.{ℕ, String, false, ◌≡◌, List, [], ◌∷◌, arith}
use amlguard_eu_ai_agent.Prelude.Dict.{Dict}
use amlguard_eu_ai_agent.Prelude.Keeps.{Keeps}
use amlguard_eu_ai_agent.Prelude.Lists.{any, any-append}
use amlguard_eu_ai_agent.Domain.{Json, ToolExecution}
use amlguard_eu_ai_agent.Tools.Repository.Soundness.{IsSound, audit-IsSound}
use amlguard_eu_ai_agent.Tools.Service.{
  External, CaseAuthorization, Tools, executed, audited, get_alert, get_customer_profile,
  get_kyc_profile, get_transactions, invoke_prohibited,
}
use amlguard_eu_ai_agent.Tools.Service.Rules.{
  get_alert-Keeps, is_violation, get_customer_profile-Keeps, get_kyc_profile-Keeps,
  get_transactions-Keeps, invoke_prohibited-Keeps,
}

module _ (x : External) where
  pub record IsGuarded (t : Tools) : Type 0 where
    pub honest : any is_violation t.executions ≡ false
    pub sound : IsSound x.digest t.repository

  executed-Keeps : (e : ToolExecution) → is_violation e ≡ false → Keeps IsGuarded (executed e)
  executed-Keeps e ok_e = record {
    at = λ t h. record {
      honest = ground (arith, any-append is_violation t.executions (e ∷ []), h.honest);
      sound = h.sound;
    };
  }

  audited-Keeps :
      (event : String) (auth : CaseAuthorization) (e : ToolExecution)
      → Keeps IsGuarded (audited x event auth e)
  audited-Keeps event auth e = record {
    at = λ t h. record {
      honest = h.honest;
      sound =
          audit-IsSound x.digest event auth.actor_id auth.case_id (x.execution_json e) t.repository
            h.sound;
    };
  }

  -- A call of a tool.
  pub data Call : Type 0 where
    alert_call customer_call kyc_call : CaseAuthorization → String → Call
    transactions_call : CaseAuthorization → String → ℕ → Call
    prohibited_call : CaseAuthorization → String → Dict Json → Call

  -- The tools after the call, whether it returned or raised.
  unfoldable pub call : Call → Tools → Tools
  call (alert_call auth id) t = (get_alert x auth id t).1
  call (customer_call auth id) t = (get_customer_profile x auth id t).1
  call (kyc_call auth id) t = (get_kyc_profile x auth id t).1
  call (transactions_call auth id limit) t = (get_transactions x auth id limit t).1
  call (prohibited_call auth tool arguments) t = (invoke_prohibited x auth tool arguments t).1

  unfoldable pub call_all : List Call → Tools → Tools
  unfolding call
  call_all [] t = t
  call_all (c ∷ cs) t = call_all cs (call c t)

  pub call-IsGuarded : (c : Call) (t : Tools) → IsGuarded t → IsGuarded (call c t)
  unfolding call
  call-IsGuarded (alert_call auth id) t h =
      (get_alert-Keeps x IsGuarded executed-Keeps audited-Keeps auth id).at t h
  call-IsGuarded (customer_call auth id) t h =
      (get_customer_profile-Keeps x IsGuarded executed-Keeps audited-Keeps auth id).at t h
  call-IsGuarded (kyc_call auth id) t h =
      (get_kyc_profile-Keeps x IsGuarded executed-Keeps audited-Keeps auth id).at t h
  call-IsGuarded (transactions_call auth id limit) t h =
      (get_transactions-Keeps x IsGuarded executed-Keeps audited-Keeps auth id limit).at t h
  call-IsGuarded (prohibited_call auth tool arguments) t h =
      (invoke_prohibited-Keeps x IsGuarded executed-Keeps audited-Keeps auth tool arguments).at t h

  -- From tools whose record is honest and whose repository is sound, no sequence of tool calls, of
  -- prohibited tools too and by any actor, records an authorized execution of a prohibited tool,
  -- and the repository stays sound.
  pub call_all-IsGuarded : (cs : List Call) (t : Tools) → IsGuarded t → IsGuarded (call_all cs t)
  unfolding call_all
  call_all-IsGuarded [] t h = h
  call_all-IsGuarded (c ∷ cs) t h = call_all-IsGuarded cs (call c t) (call-IsGuarded c t h)
