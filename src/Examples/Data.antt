-- ===== src/Examples/Data.antt =====
-- A contract of three products and one account, for the examples.
use sweat_jar.Base.{ℕ, ◌*◌, ◌^◌, true, false, ltb, none, some, List, [], ◌∷◌, Result, ok, panic}
use sweat_jar.Decimal.{UDecimal}
use sweat_jar.Time.{pos, ms_in_day}
use sweat_jar.Score.{AccountScore}
use sweat_jar.Product.{Product, constant, fixed, flexible, tiered_score_based, fix, percent}
use sweat_jar.Jar.{Jar, Deposit}
use sweat_jar.Account.{Account}
use sweat_jar.Contract.{Env, Contract}
use sweat_jar.Deposits.{DepositTicket}

-- What a call returns, or else the given value.
abbrev pub result_or {ℓ} : {A : Type ℓ} → A → Result A → A
result_or a (ok b) = b
result_or a (panic _) = a

abbrev pub env : Env
env = record {
  now = 40 * ms_in_day;
  predecessor = "alice.near";
  current_account = "jars.near";
  attached_yocto = 1;
  gas_left = 300 * 10 ^ 12;
  has_role = λ _ _. true;
  verifies = λ _ _ _. true;
  below_one = λ d. ltb d.significand (10 ^ d.exponent);
}

abbrev pub twelve_percent : UDecimal
twelve_percent = record { significand = 12; exponent = 2 }

abbrev pub flex : Product
flex = record {
  id = "flex";
  cap = record { min_cap = 100; max_cap = 1000000 };
  terms = flexible (constant twelve_percent);
  withdrawal_fee = some (fix 10);
  public_key = none;
  is_enabled = true;
}

abbrev pub year : Product
year = record {
  id = "year";
  cap = record { min_cap = 100; max_cap = 1000000 };
  terms = fixed (30 * ms_in_day) (constant twelve_percent);
  withdrawal_fee = some (percent (record { significand = 1; exponent = 2 }));
  public_key = none;
  is_enabled = true;
}

abbrev pub steps : Product
steps = record {
  id = "steps";
  cap = record { min_cap = 100; max_cap = 1000000 };
  terms = tiered_score_based (constant 20000) (30 * ms_in_day);
  withdrawal_fee = none;
  public_key = some (7 ∷ []);
  is_enabled = true;
}

abbrev pub deposit_at : ℕ → ℕ → Deposit
deposit_at day principal = record { created_at = day * ms_in_day; principal = principal }

abbrev jar_of : List Deposit → Jar
jar_of ds = record { deposits = ds; cache = none; is_locked = false; claim_remainder = 0 }

abbrev pub year_jar : Jar
year_jar = jar_of (deposit_at 1 200000 ∷ deposit_at 20 300000 ∷ [])

abbrev pub score_of : ℕ → ℕ → ℕ → AccountScore
score_of day today yesterday = record {
  updated_at = day * ms_in_day;
  history0 = record { value = today; booster = 0 };
  history1 = record { value = yesterday; booster = 0 };
}

abbrev pub alice : Account
alice = record {
  nonce = 3;
  jars = ("flex", jar_of (deposit_at 10 100000 ∷ [])) ∷ ("year", year_jar) ∷ [];
  timezone = record { shift = pos 0 };
  score = score_of 39 5000 7000;
  features = record { bits = 1 };
}

abbrev pub bank : Contract
bank = record {
  token_account_id = "token.near";
  fee_account_id = "fees.near";
  products = ("flex", flex) ∷ ("year", year) ∷ ("steps", steps) ∷ [];
  accounts = ("alice.near", alice) ∷ [];
  fee_amount = 50;
  previous_version_account_id = "old.near";
}

abbrev pub ticket : DepositTicket
ticket = record { product_id = "flex"; valid_until = 41 * ms_in_day; timezone = none }
