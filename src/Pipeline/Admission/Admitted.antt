-- ===== src/Pipeline/Admission/Admitted.antt =====
-- What it takes to admit a payment, apart from the order of src/core/execution/pipeline/admission.ts.
use agent_commerce.Pipeline.Authorization.Held.{IsHeld}
use mathlib.Core.Option
use mathlib.Core.List.{Mem, mem-cons_self, mem-cons_of_mem}
use agent_commerce.Prelude.{
  Bool-cases, List, Option, Option-cases, String, [], ap, arith, eq_iff, false, inl, inr, none,
  refl, some, subst, sym, true, ◌==◌, ◌∙◌, ◌∷◌, ◌≡◌, ◌⊎◌,
}
use agent_commerce.Json.{Json}
use agent_commerce.Store.Journal.Reserve.{NewTransaction, Reservation}
use agent_commerce.Pipeline.{
  Answer, Env, Flow, PaymentProvider, PaymentRequirement, PaymentResult, Request, Resource, answers,
  verified, AuthorizationHold,
}
use agent_commerce.Pipeline.Settlement.{SettleArgs}
use agent_commerce.Pipeline.Admission.{
  find_provider, given_key, pick_provider, selected_requirement,
}
use agent_commerce.Pipeline.Reserving.{new_transaction, reservation_of}

-- The requirement that a provider offered, or the one that it selected from it.
abbrev pub IsChosen : PaymentProvider → PaymentRequirement → PaymentRequirement → Type 0
IsChosen provider offer requirement =
    ((provider.select_requirement ≡ none) × (requirement ≡ offer))
    ⊎ ((select : PaymentRequirement → Answer PaymentRequirement) × (provider.select_requirement
          ≡ some select)
        × (select offer ≡ answers requirement))

-- An enabled provider that the resource lists made an offer, and verified a proof of it.
pub record IsOffered (env : Env) (request : Request) (resource : Resource)
    (provider : PaymentProvider) (requirement : PaymentRequirement) (verification : PaymentResult)
    : Type 0 where
  pub enabled : Mem provider env.providers
  pub listed : Mem provider.name resource.payment_methods
  pub proof : request.has_payment ≡ true
  pub offer : PaymentRequirement
  pub created : provider.create_requirement ≡ answers offer
  pub chosen : IsChosen provider offer requirement
  pub answered : provider.verify requirement ≡ answers verification

-- The reservation is that of this request and its payment.
pub record IsReservation (env : Env) (request : Request) (resource : Resource) (input : Json)
    (args : SettleArgs) (r : Reservation) : Type 0 where
  pub for_request : r.request_id ≡ request.request_id
  pub for_resource : r.resource_id ≡ resource.id
  pub by_provider : r.provider ≡ args.provider.name
  pub with_key : r.replay_key ≡ args.replay_key
  pub of_amount : (r.amount ≡ args.verification.amount) × (r.currency ≡ args.verification.currency)
  pub reuse : r.reclaim_rejected ≡ args.requirement.reuse_rejected
  pub journal_row : NewTransaction
  pub journaled : r.transaction ≡ some journal_row
  pub of_hold :
      journal_row.authorization
      ≡ Option.map
          (λ (h : AuthorizationHold). record {
            method = h.verification.method;
            reference = h.verification.reference;
            metadata = h.verification.metadata;
            reservation_id = h.verification.reservation_id;
          })
          args.hold
  pub of_flow : journal_row.id ≡ env.transaction_id
  pub of_input : journal_row.input_digest ≡ env.input_digest input
  pub of_config : journal_row.config_digest ≡ env.config_digest resource args.requirement

-- The payment was offered and verified, its authorization reserved, and its reservation granted.
pub record IsAdmitted (env : Env) (request : Request) (resource : Resource) (input : Json)
    (args : SettleArgs) (r : Reservation) : Type 0 where
  pub offered : IsOffered env request resource args.provider args.requirement args.verification
  pub verified_it : args.verification.status ≡ verified
  pub key : args.verification.replay_key ≡ some args.replay_key
  pub not_empty : (args.replay_key == "") ≡ false
  pub held : IsHeld env request resource args.hold
  pub reserved : IsReservation env request resource input args r
  pub attempt_id : Option String
  pub granted : env.reserve r ≡ answers attempt_id

found-Mem :
    (name : String) (ps : List PaymentProvider) (p : PaymentProvider)
    → find_provider name ps ≡ some p
    → Mem p ps × (p.name ≡ name)
unfolding find_provider
found-Mem name [] p e = cc
found-Mem name (q ∷ ps) p e = elim (Bool-cases (q.name == name)) [
  | inl same ↦
      let it : q ≡ p = ground (arith, (rw same at e)) in
      (
        subst (λ x. Mem x (q ∷ ps)) it mem-cons_self,
        ap (λ (x : PaymentProvider). x.name) (sym it) ∙ (eq_iff q.name name).0 same,
      )
  | inr other ↦ let (m, n) = found-Mem name ps p (rw other at e) in (mem-cons_of_mem q m, n)
]

pub picked-Mem :
    (ps : List PaymentProvider) (methods : List String) (p : PaymentProvider)
    → pick_provider ps methods ≡ some p
    → Mem p ps × Mem p.name methods
unfolding pick_provider
picked-Mem ps [] p e = cc
picked-Mem ps (method ∷ methods) p e = elim (Option-cases (find_provider method ps)) [
  | inl missing ↦
      let (m, n) = picked-Mem ps methods p (rw missing at e) in (m, mem-cons_of_mem method n)
  | inr (q, found) ↦
      let it : q ≡ p = ground (arith, (rw found at e)) in
      let (m, n) = found-Mem method ps p (found ∙ ap some it) in
      (m, subst (λ x. Mem x (method ∷ methods)) (sym n) mem-cons_self)
]

pub selected-IsChosen :
    (provider : PaymentProvider) (offer requirement : PaymentRequirement) (flow : Flow)
    → (selected_requirement provider offer flow).1 ≡ answers (answers requirement)
    → IsChosen provider offer requirement
selected-IsChosen provider offer requirement flow e =
    elim (Option-cases provider.select_requirement) [
      | inl fixed_offer ↦ inl (fixed_offer, ground (arith, (rw fixed_offer at e)))
      | inr (select, selects_it) ↦ inr (select, selects_it, ground (arith, (rw selects_it at e)))
    ]

pub given_key-some :
    (o : Option String) (key : String)
    → given_key o ≡ some key
    → (o ≡ some key) × ((key == "") ≡ false)
given_key-some none key e = cc
given_key-some (some k) key e = elim (Bool-cases (k == "")) [
  | inl empty ↦ cc (rw empty at e)
  | inr full ↦
      let it : k ≡ key = ground (arith, (rw full at e)) in
      (ap some it, subst (λ x. (x == "") ≡ false) it full)
]

pub reservation_of-IsReservation :
    (env : Env) (request : Request) (resource : Resource) (input : Json) (args : SettleArgs)
    → IsReservation env request resource input args (
        reservation_of env request resource input args.provider args.requirement args.verification
          args.replay_key args.hold)
unfolding reservation_of new_transaction
reservation_of-IsReservation env request resource input args = record {
  for_request = refl;
  for_resource = refl;
  by_provider = refl;
  with_key = refl;
  of_amount = (refl, refl);
  reuse = refl;
  journal_row =
      new_transaction env request resource input args.requirement args.verification args.hold;
  journaled = refl;
  of_hold = refl;
  of_flow = refl;
  of_input = refl;
  of_config = refl;
}
