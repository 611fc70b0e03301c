-- ===== src/Survey.antt =====
-- src/libs/surveyMetadata.ts: surveys that are linked to a governance action, with the types of
-- src/types/survey.types.ts. The children read a survey and the responses to it from transaction
-- metadata, validate them, and tally them.
pub mod Normalize
pub mod Validate
pub mod Tally
use cgov_api.Prelude.{Option, String, List}
use cgov_api.Prelude.Int.{ℤ}
use cgov_api.Json.{JsValue}

pub data ResponderRole : Type 0 where
  cc_role drep_role spo_role stakeholder_role : ResponderRole

pub data WeightingMode : Type 0 where
  credential_based stake_based pledge_based : WeightingMode

pub record NumericConstraints : Type 0 where
  pub min_value : ℤ
  pub max_value : ℤ
  pub step : Option ℤ

pub record SurveyQuestion : Type 0 where
  pub question_id : String
  pub question : String
  pub method_type : String
  pub options : Option (List String)
  pub max_selections : Option ℤ
  pub numeric_constraints : Option NumericConstraints
  pub method_schema_uri : Option String
  pub method_schema_hash : Option String

-- A partial record by role is the list of its entries.
abbrev pub RoleWeighting : Type 0
RoleWeighting = List (ResponderRole × WeightingMode)

pub record SurveyDetails : Type 0 where
  pub spec_version : String
  pub title : String
  pub description : String
  pub questions : List SurveyQuestion
  pub role_weighting : RoleWeighting
  pub end_epoch : ℤ

-- A finite number, as it stands in a `JsValue`.
pub data Finite : Type 0 where
  whole : ℤ → Finite
  broken : String → Finite

pub record SurveyAnswer : Type 0 where
  pub question_id : String
  pub selection : Option (List ℤ)
  pub numeric_value : Option Finite
  pub custom_value : Option JsValue

pub record SurveyResponse : Type 0 where
  pub spec_version : String
  pub survey_tx_id : String
  pub responder_role : ResponderRole
  pub answers : List SurveyAnswer

abbrev pub role_name : ResponderRole → String
role_name drep_role = "DRep"
role_name spo_role = "SPO"
role_name cc_role = "CC"
role_name stakeholder_role = "Stakeholder"
