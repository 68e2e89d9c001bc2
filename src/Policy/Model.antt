-- ===== src/Policy/Model.antt =====
-- `Model`, `Kind`, `PriceTier`, `Tokens` and `Billing` of internal/policy/policy.go and billing.go.
-- The fields that are only shown to people, and the sealed credential, are left out.
use keera_gateway.Base.{String, Bool, Option, List, ◌==◌, nat_eq, string_eq, ◌||◌}
use keera_gateway.Base.Int.{ℤ}

-- The API that a model is served on, by its name.
abbrev pub Kind : Type 0
Kind = String

abbrev pub kind_chat : Kind
kind_chat = "chat"

abbrev pub kind_decision : Kind
kind_decision = "decision"

-- `Kind.Valid`
unfoldable pub kind_valid : Kind → Bool
kind_valid k =
    k == kind_chat || k == "completion" || k == "embedding" || k == "rerank" || k == kind_decision

pub record PriceTier : Type 0 where
  pub above_tokens : ℤ
  pub input_micros : ℤ
  pub output_micros : ℤ
  pub cached_input_micros : ℤ
  pub cache_write_micros : ℤ

pub record Tokens : Type 0 where
  pub input : ℤ
  pub cached_input : ℤ
  pub cache_write : ℤ
  pub cache_write_hour : ℤ
  pub output : ℤ

pub record Billing : Type 0 where
  pub provider : String
  pub credit : Bool
  pub fee_micros_per_mtok : ℤ
  pub at_provider : Bool

pub record Model : Type 0 where
  pub alias : String
  pub org_id : String
  pub kind : Kind
  pub backends : List String
  pub backend_model : String
  pub provider : String
  pub input_micros_per_mtok : ℤ
  pub output_micros_per_mtok : ℤ
  pub cached_input_micros_per_mtok : ℤ
  pub cache_write_micros_per_mtok : ℤ
  pub long_prompt : Option PriceTier
  pub max_context : ℤ
  pub location : String
  pub subscription : Bool
  pub platform_key : Bool
  pub billing : Option Billing
  pub limited : Bool
  pub locked : Bool
  pub enabled : Bool
