-- ===== src/Payments/Readers.antt =====
-- What the verifier reads from texts. The regular expressions, Unicode's normalization, the parsing of
-- dates and decimals and the hash are arguments. Amounts are whole cents, times are seconds.
use Prim.Native.Char.{code}
use social_media_manager.Prelude.{
  ℕ, suc, ◌+◌, ◌*◌, ◌/◌, String, Bool, true, false, not, ◌&&◌, ◌||◌, Option, none, some, List, [],
  ◌∷◌, ◌++◌, ◌==◌, leb, nat_eq, any, find?, filter, if◌then◌else◌,
}
use social_media_manager.Prelude.Text.{strip, upper, contains, occurs}

pub record Readers : Type 0 where
  pub normalize_catalog_text : String → String
  pub parse_transaction_date : String → Option ℕ
  pub safe_decimal : String → Option ℕ
  pub sha256 : String → String
  pub emails : String → List String
  pub numbers : String → List String
  pub segments : String → List String

-- The answer of the model that looks at the screenshot.
pub record Vision : Type 0 where
  pub analyzed : Bool
  pub confidence : String
  pub date : String
  pub reference : String
  pub proof_hash : String
  pub payment_method : String
  pub currency : String
  pub amount : String
  pub recipient_identifier : String
  pub recipient_name : String
  pub status : String

pub record PaymentMethod : Type 0 where
  pub name : String
  pub information : String

-- A positive rate of bolívares to the dollar, as a fraction.
pub record Rate : Type 0 where
  pub numerator : ℕ
  pub denominator : ℕ

abbrev pub is_digit : ℕ → Bool
is_digit c = leb 48 c && leb c 57

-- `[a-f0-9]*` and `[a-z0-9]`
unfoldable pub all_hex : String → Bool
all_hex String.[] = true
all_hex (String.◌∷◌ c s) = (is_digit (code c) || (leb 97 (code c) && leb (code c) 102)) && all_hex s

unfoldable pub keep_alphanumeric : String → String
keep_alphanumeric String.[] = ""
keep_alphanumeric (String.◌∷◌ c s) =
    let rest = keep_alphanumeric s in
    if is_digit (code c) || (leb 97 (code c) && leb (code c) 122) then String.◌∷◌ c rest else rest

unfoldable pub len : String → ℕ
len String.[] = 0
len (String.◌∷◌ c s) = suc (len s)

unfoldable pub is_proof_hash : String → Bool
unfolding all_hex len
is_proof_hash s = all_hex s && nat_eq (len s) 64

unfoldable pub normalize_payment_reference : Readers → String → String
unfolding keep_alphanumeric
normalize_payment_reference r value = keep_alphanumeric (r.normalize_catalog_text value)

unfoldable pub find_payment_method : Readers → List PaymentMethod → String → Option PaymentMethod
find_payment_method r methods name =
    find? (λ m. r.normalize_catalog_text m.name == r.normalize_catalog_text name) methods

unfoldable pub classify_payment_method_name : Readers → String → Option String
unfolding occurs
classify_payment_method_name r name =
    let normalized = r.normalize_catalog_text name in
    if occurs "zelle" normalized
    then some "zelle"
    else if occurs "binance" normalized
    then some "binance"
    else if occurs "zinli" normalized
    then some "zinli"
    else if any (λ token. occurs token normalized)
        ("bolivar" ∷ "transferencia" ∷ "banco" ∷ "pago movil" ∷ [])
    then some "bank_transfer"
    else none

-- `METHOD_CURRENCIES`
unfoldable pub method_currency : String → Option String
method_currency kind =
    if kind == "zelle" || kind == "zinli"
    then some "USD"
    else if kind == "binance"
    then some "USDT"
    else if kind == "bank_transfer"
    then some "VES"
    else none

unfoldable pub currency_alias : String → String
currency_alias text =
    if contains ("$" ∷ "DOLLAR" ∷ "DOLLARS" ∷ "DOLAR" ∷ "DOLARES" ∷ []) text
    then "USD"
    else if contains ("BS" ∷ "BS." ∷ "BOLIVAR" ∷ "BOLIVARES" ∷ []) text
    then "VES"
    else text

unfoldable pub normalize_currency : Readers → String → Option String
unfolding currency_alias
normalize_currency r value =
    let normalized = currency_alias (upper (r.normalize_catalog_text value)) in
    if contains ("USD" ∷ "VES" ∷ "USDT" ∷ []) normalized then some normalized else none

-- `quantize(Decimal("0.01"), rounding=ROUND_HALF_UP)` of the amount in bolívares
unfoldable pub in_bolivares : ℕ → Rate → ℕ
in_bolivares amount rate = (2 * amount * rate.numerator + rate.denominator) / (2 * rate.denominator)

unfoldable pub expected_receipt_amount : Option Rate → ℕ → String → String → Option ℕ
unfolding in_bolivares
expected_receipt_amount rate amount order_currency receipt_currency =
    if not (upper order_currency == "USD")
    then none
    else if contains ("USD" ∷ "USDT" ∷ []) receipt_currency
    then some amount
    else if not (receipt_currency == "VES")
    then none
    else elim rate [ none ↦ none | some r ↦ some (in_bolivares amount r) ]

-- Times that would be before the epoch are out of reach of `now`.
abbrev pub max_proof_age : ℕ
max_proof_age = 604800

unfoldable pub is_transaction_date_valid : ℕ → Option ℕ → ℕ → Bool
is_transaction_date_valid now none order_date = false
is_transaction_date_valid now (some t) order_date =
    leb t (now + 600) && leb now (t + max_proof_age) && leb order_date (t + 86400)

-- `_is_recent_transaction` with `MAX_VES_PROOF_AGE`
abbrev pub is_recent : ℕ → Option ℕ → Bool
is_recent now none = false
is_recent now (some t) = leb now (t + 259200)

-- `expected & detected`
unfoldable pub meet : List String → List String → Bool
meet expected detected = any (λ e. contains detected e) expected

abbrev pub is_filled : List String → Bool
is_filled [] = false
is_filled (s ∷ ss) = true

unfoldable pub validate_payment_identifier_match : Readers → String → Vision → Bool
unfolding meet
validate_payment_identifier_match r information v =
    let info = strip information in
    let id = v.recipient_identifier in
    let name = v.recipient_name in
    if info == ""
    then false
    else if is_filled (r.emails info)
    then meet (r.emails info) (r.emails id ++ r.emails name)
    else if is_filled (r.numbers info)
    then meet (r.numbers info) (r.numbers id ++ r.numbers name)
    else meet
        (filter
          (λ s.
            not (s == "")
            && not (contains ("nombre" ∷ "correo" ∷ "telefono" ∷ "instrucciones" ∷ "pago" ∷ []) s))
          (r.segments info))
        (r.normalize_catalog_text id ∷ r.normalize_catalog_text name ∷ [])
