-- ===== src/Proposals.antt =====
-- Component_3: what the detector finds and what the reasoner proposes (models.py), and which action
-- types the language model may propose (action_policy.py).
pub mod Merger
pub mod Validator
pub mod Deterministic
pub mod Reasoning
pub mod Batch
pub mod Answers
pub mod Rules
pub mod Contained
pub mod Grounded
use restaurant_ops_copilot.Prelude.{ℕ, String, Bool, List, [], ◌∷◌, ◌≡◌, refl, ap}
use restaurant_ops_copilot.Values.{
  Value, bool, text, arr, obj, Items, nil, cons, Fields, end, field, Payload, ActionType,
  price_change, supplier_switch, menu_swap, staffing_change,
}

pub data OpportunityType : Type 0 where
  margin_deterioration stockout_exposure demand_decline : OpportunityType

pub data CandidateSource : Type 0 where
  deterministic llm : CandidateSource

pub record Opportunity (Num : Type 0) : Type 0 where
  pub id : String
  pub tenant_id : ℕ
  pub opportunity_type : OpportunityType
  pub title : String
  pub cause : String
  pub affected_entity_ids : List String
  pub estimated_monthly_impact : Num
  pub confidence : Num
  pub evidence : Payload Num

pub record CandidateAction (Num : Type 0) : Type 0 where
  pub opportunity_id : String
  pub action_type : ActionType
  pub payload : Payload Num
  pub rationale : String
  pub requires_human_review : Bool
  pub assumptions : List String
  pub source : CandidateSource

-- `ActionType.value`
abbrev pub action_value : ActionType → String
action_value price_change = "price_change"
action_value supplier_switch = "supplier_switch"
action_value menu_swap = "menu_swap"
action_value staffing_change = "staffing_change"

-- `allowed_llm_actions_for`
unfoldable pub allowed_llm_actions_for : OpportunityType → List String
allowed_llm_actions_for margin_deterioration = action_value price_change ∷ []
allowed_llm_actions_for demand_decline = action_value price_change ∷ []
allowed_llm_actions_for stockout_exposure = []

-- `CandidateSource.value`
abbrev pub source_value : CandidateSource → String
source_value deterministic = "deterministic"
source_value llm = "llm"

module _ {Num : Type 0} where
  -- what `json.loads` makes of an object or an array, as a dict or a list, and back
  abbrev pub dict_of : Fields Num → Payload Num
  dict_of end = []
  dict_of (field k v rest) = (k, v) ∷ dict_of rest

  abbrev pub obj_of : Payload Num → Fields Num
  obj_of [] = end
  obj_of ((k, v) ∷ p) = field k v (obj_of p)

  abbrev pub list_of : Items Num → List (Value Num)
  list_of nil = []
  list_of (cons v vs) = v ∷ list_of vs

  abbrev pub texts : List String → Items Num
  texts [] = nil
  texts (s ∷ ss) = cons (text s) (texts ss)

  pub dict_of-obj_of : (p : Payload Num) → dict_of (obj_of p) ≡ p
  dict_of-obj_of [] = refl
  dict_of-obj_of ((k, v) ∷ p) = ap (λ q. (k, v) ∷ q) (dict_of-obj_of p)

  -- `CandidateAction.to_dict`
  unfoldable pub to_dict : CandidateAction Num → Payload Num
  to_dict c =
      ("opportunity_id", text c.opportunity_id)
      ∷ ("action_type", text (action_value c.action_type))
      ∷ ("payload", obj (obj_of c.payload))
      ∷ ("rationale", text c.rationale)
      ∷ ("requires_human_review", bool c.requires_human_review)
      ∷ ("assumptions", arr (texts c.assumptions))
      ∷ ("source", text (source_value c.source))
      ∷ []
