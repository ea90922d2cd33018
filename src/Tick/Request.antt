-- ===== src/Tick/Request.antt =====
-- What a submission is made of: the audit symbol, the declared trials, the account and the request.
use research_orchestrator.Prelude.{
  ℕ, String, str_eq, Bool, true, false, ◌&&◌, ◌||◌, not, Option, none, some, List, [], ◌∷◌, ◌==◌,
  ◌/◌, ◌^◌, if◌then◌else◌, any,
}
use research_orchestrator.Prelude.Dict.{Dict, merge}
use research_orchestrator.Sweep.{Value, null, bool, number, text, SweepConfig}
use research_orchestrator.Tick.Tables.{Account, Payload}

-- `_AUDIT_SYMBOL_ALLOWLIST`
abbrev pub audit_symbol_allowlist : List String
audit_symbol_allowlist =
    "BTCUSDT" ∷ "ETHUSDT" ∷ "SOLUSDT" ∷ "BNBUSDT" ∷ "XRPUSDT" ∷ "ADAUSDT" ∷ "DOGEUSDT" ∷ "AVAXUSDT"
    ∷ "ZECUSDT" ∷ "NEARUSDT" ∷ "LINKUSDT" ∷ "XLMUSDT" ∷ "FETUSDT" ∷ []

-- A universe that is empty is as good as none.
unfoldable pub is_cross_sectional : List String → Bool
is_cross_sectional [] = false
is_cross_sectional (s ∷ ss) = true

unfoldable pub audit_symbol : (universe : List String) (instrument : String) → Option String
unfolding is_cross_sectional
audit_symbol universe instrument =
    if is_cross_sectional universe
    then none
    else if any (str_eq instrument) audit_symbol_allowlist
    then some instrument
    else none

-- max(0, n) of a number by its sign and magnitude
unfoldable pub clamped : Bool → ℕ → ℕ
clamped true n = 0
clamped false n = n

unfoldable pub parsed : Option (Bool × ℕ) → ℕ
unfolding clamped
parsed none = 0
parsed (some (negative, n)) = clamped negative n

-- max(0, int(float(raw))), and 0 for what float() rejects. `parse_float` is int(float(s)).
unfoldable pub coerced : (String → Option (Bool × ℕ)) → Value → ℕ
unfolding clamped parsed
coerced parse_float null = 0
coerced parse_float (bool true) = 1
coerced parse_float (bool false) = 0
coerced parse_float (number negative mantissa exponent) =
    clamped negative (mantissa / 10 ^ exponent)
coerced parse_float (text s) = parsed (parse_float s)

unfoldable pub external_declared_trials : (String → Option (Bool × ℕ)) → SweepConfig → ℕ
unfolding coerced
external_declared_trials parse_float config = elim config.external_trials [
  | none ↦ 0
  | some raw ↦ coerced parse_float raw
]

-- NULL means TRUE.
unfoldable pub or_true : Option Bool → Bool
or_true none = true
or_true (some flag) = flag

unfoldable pub is_account : (code : String) → Option ℕ → Account → Bool
is_account code none a = str_eq a.strategy_code code && not a.is_deleted
is_account code (some id) a = str_eq a.strategy_code code && a.account_id == id && not a.is_deleted

-- `_resolve_account_strategy`. A LIMIT 1 without an order takes the first row of the table.
unfoldable pub resolve_account_strategy : (code : String) → Option ℕ → List Account → Option Account
unfolding is_account
resolve_account_strategy code id [] = none
resolve_account_strategy code id (a ∷ others) =
    if is_account code id a then some a else resolve_account_strategy code id others

-- A direction that the sweep pins, or the account's.
unfoldable pub pinned : Option Bool → Option Bool → Bool
unfolding or_true
pinned none anchor = or_true anchor
pinned (some flag) anchor = flag

-- `start_time_override or "2024-01-01T00:00:00"`
unfoldable pub start_or_default : Option String → String
start_or_default none = "2024-01-01T00:00:00"
start_or_default (some s) = if str_eq s "" then "2024-01-01T00:00:00" else s

-- The cross-sectional run takes its asset from the universe.
unfoldable pub asset_of : List String → String → String
asset_of [] instrument = instrument
asset_of (s ∷ ss) instrument = s

unfoldable pub build_submit_payload :
    Account
    → (strategy_code asset interval_name : String) (overrides : Dict Value)
      (allow_long allow_short : Bool) (start_time : Option String)
      (ml_overrides : Dict (Dict Value)) (universe : List String)
    → Payload
unfolding start_or_default asset_of
build_submit_payload a code asset interval overrides allow_long allow_short start_time ml universe =
    record {
      account_strategy_id = a.account_strategy_id;
      strategy_code = code;
      asset = asset_of universe asset;
      interval_name = interval;
      start_time = start_or_default start_time;
      allow_long = allow_long;
      allow_short = allow_short;
      strategy_param_overrides = overrides;
      ml_overrides = ml;
      universe = universe;
    }

-- `strategy_code.upper() in IN_SPEC_ML_GATE_CODES`: these engines read the sentinels themselves.
-- `upper` is Python's.
unfoldable pub spec_overrides : (upper : String) → Dict Value × Dict Value → Dict Value
spec_overrides upper (regular, ml) =
    if str_eq upper "VBO" || str_eq upper "VBO_RESEARCH" then merge regular ml else regular
