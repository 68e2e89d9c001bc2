-- ===== src/Policy/Bill.antt =====
-- Bills: `Model.Bill`, `fee`, `line`, `CountsTokens`, `SelfHosted` and `PriceAtFee` of
-- internal/policy/billing.go.
pub mod Laws
pub mod Fee
use keera_gateway.Base.{
  String, Bool, true, false, Option, none, some, ◌==◌, nat_eq, string_eq, not, ◌&&◌, if◌then◌else◌,
}
use keera_gateway.Base.Int.{ℤ, pos, quot_ℕ, ltb_ℤ}
use keera_gateway.Base.Int64.{add64, mul64}
use keera_gateway.Policy.Model.{Model, Tokens, Billing}
use keera_gateway.Policy.Cost.{clamped, cost, per_m}

pub record BillLine : Type 0 where
  pub alias : String
  pub provider : String
  pub backend_model : String
  pub input_tokens : ℤ
  pub cached_input_tokens : ℤ
  pub cache_write_tokens : ℤ
  pub output_tokens : ℤ
  pub micros : ℤ
  pub credit_micros : ℤ
  pub gateway_fee : Bool

-- `Model.line`, on a model whose billing is `b`
unfoldable pub line : Model → Billing → Tokens → ℤ → BillLine
line m b t micros = record {
  alias = m.alias;
  provider = b.provider;
  backend_model = m.backend_model;
  input_tokens = t.input;
  cached_input_tokens = t.cached_input;
  cache_write_tokens = t.cache_write;
  output_tokens = t.output;
  micros = micros;
  credit_micros = if b.credit then micros else pos 0;
  gateway_fee = false;
}

counts_by : Option Billing → Bool
counts_by none = false
counts_by (some b) = ltb_ℤ (pos 0) b.fee_micros_per_mtok && not b.at_provider

-- `Model.CountsTokens`
unfoldable pub counts_tokens : Model → Bool
unfolding counts_by
counts_tokens m = counts_by m.billing

-- `cmp.Or` on strings
abbrev pub or_else : String → String → String
or_else a b = if a == "" then b else a

-- `Model.fee`, on a model whose billing is `b`
unfoldable pub fee : Model → Billing → Tokens → Tokens → BillLine
unfolding counts_tokens
fee m b reported counted =
    let t = clamped (if counts_tokens m then counted else reported) in
    let micros = quot_ℕ (mul64 (add64 t.input t.output) b.fee_micros_per_mtok) per_m in
    record (line m b t micros) {
      gateway_fee = true;
      backend_model = or_else m.backend_model m.alias;
    }

bill_by : Model → Option Billing → Tokens → Tokens → Option BillLine
bill_by m none reported counted = none
bill_by m (some b) reported counted =
    if ltb_ℤ (pos 0) b.fee_micros_per_mtok
    then some (fee m b reported counted)
    else if m.subscription
    then none
    else (let t = clamped reported in some (line m b t (cost m t)))

-- `Model.Bill`
unfoldable pub bill : Model → Tokens → Tokens → Option BillLine
unfolding bill_by
bill m reported counted = bill_by m m.billing reported counted

-- `Model.SelfHosted`
unfoldable pub self_hosted : Model → Bool
self_hosted m = m.provider == ""

-- `Model.PriceAtFee`, with the model that it leaves
unfoldable pub price_at_fee : Model → ℤ → Model × Bool
unfolding self_hosted
price_at_fee m fee =
    if self_hosted m
    then (
      record m {
        input_micros_per_mtok = fee;
        output_micros_per_mtok = fee;
        cached_input_micros_per_mtok = fee;
        cache_write_micros_per_mtok = fee;
        long_prompt = none;
      },
      true,
    )
    else (m, false)
