-- ===== src/Server/Reused.antt =====
-- A request id that comes twice.
use reinforce_spec.Prelude.{
  ℕ, ◌≡◌, refl, sym, ap, ◌∙◌, false, String, List, ◌∷◌, none, some, length, ltb, if◌then◌else◌,
  ◌==◌, string_eq,
}
use reinforce_spec.Types.{SelectionMethod}
use reinforce_spec.Client
use reinforce_spec.Client.{Client, SelectCall, SelectError, Outcome}
use reinforce_spec.Client.Records.{selects}
use reinforce_spec.Client.Repeated.{select-Repeated}
use reinforce_spec.Server.Errors.{
  ErrorClass, ErrorResponse, error_response, handler, HandlesNearest,
}
use reinforce_spec.Server.Specs.{
  EvaluateRequest, Answer, method_of, id_or, call_of, answer_of, evaluate_by, evaluate_specs,
}

-- A body that passes the schema, with a method and a request id of its own.
pub record WellFormed (body : EvaluateRequest) (id : String) (method : SelectionMethod)
    : Type 0 where
  pub enough : ltb (length body.candidates) 2 ≡ false
  pub named : body.request_id ≡ some id
  pub nonempty : (id == "") ≡ false
  pub known : method_of body.selection_method ≡ some method

evaluate_specs-select :
    (handle : ErrorClass → ErrorResponse) (powered : ℕ → ℕ) (body : EvaluateRequest)
    (generated : String) (now : ℕ) (c : Client) (id : String) (method : SelectionMethod)
    → WellFormed body id method
    → let (outcome, c') = Client.select powered (call_of body generated now method) c in
      evaluate_specs handle powered body generated now c ≡ (answer_of handle outcome, c')
unfolding evaluate_specs
evaluate_specs-select handle powered body generated now c id method w =
    rw w.enough (ap (evaluate_by handle powered body generated now c) w.known)

call_of-id :
    (body : EvaluateRequest) (generated : String) (now : ℕ) (method m : SelectionMethod)
    (id : String)
    → WellFormed body id m
    → (call_of body generated now method).request_id ≡ id
call_of-id body generated now method m id w =
    ap (λ o. id_or o generated) w.named ∙ ap (λ b. if b then generated else id) w.nonempty

-- Where exceptions go to the nearest handler: once a well-formed request with an id of its own has
-- come in, then after any calls of `select`, another well-formed request with that id gets a 500 with
-- the message for unexpected errors, and changes nothing.
pub reused-fails :
    (handle : ErrorClass → ErrorResponse) (powered : ℕ → ℕ) (first again : EvaluateRequest)
    (generated generated' : String) (now now' : ℕ) (id : String) (method method' : SelectionMethod)
    (calls : List SelectCall) (c : Client)
    → HandlesNearest handle
    → WellFormed first id method
    → WellFormed again id method'
    → let later = selects powered calls (evaluate_specs handle powered first generated now c).1 in
      evaluate_specs handle powered again generated' now' later ≡ (
        Answer.failed
            (error_response 500 "internal_error" (some "An unexpected error occurred") none),
        later,
      )
unfolding handler
reused-fails handle powered first again generated generated' now now' id method method' calls c
      nearest w w' =
    let call = call_of first generated now method in
    let call' = call_of again generated' now' method' in
    let begun = evaluate_specs-select handle powered first generated now c id method w in
    let later = selects powered (call ∷ calls) c in
    let same : selects powered calls (evaluate_specs handle powered first generated now c).1
        ≡ later =
      ap (λ r. selects powered calls (r.1)) begun in
    let repeated = select-Repeated powered call calls call' c w.enough w'.enough (
      call_of-id again generated' now' method' method' id w'
      ∙ sym (call_of-id first generated now method method id w)) in
    rw same (
      evaluate_specs-select handle powered again generated' now' later id method' w'
      ∙ ap (λ r. (answer_of handle (r.0), r.1)) repeated
      ∙ ap (λ e. (Answer.failed e, later)) (nearest.own ErrorClass.exception _ refl))
