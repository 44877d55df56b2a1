-- ===== src/Payments/Proof.antt =====
-- The checks of a proof against an order, in the order in which they are made.
use Prim.Native.String.{◌++◌}
use social_media_manager.Prelude.{
  ℕ, ◌+◌, String, Bool, false, not, ◌&&◌, ◌||◌, Option, none, some, List, ◌==◌, ltb,
}
use social_media_manager.Prelude.Text.{strip, lower}
use social_media_manager.Prelude.Result.{Result, ok, err, ◌>>=◌, ◌>>◌, raise_if}
use social_media_manager.Orders.Table.{Order}
use social_media_manager.Orders.Payment.{ProofMetadata}
use social_media_manager.Payments.Readers.{
  Readers, Vision, PaymentMethod, Rate, len, is_proof_hash, normalize_payment_reference,
  find_payment_method, classify_payment_method_name, method_currency, normalize_currency,
  expected_receipt_amount, is_transaction_date_valid, is_recent, validate_payment_identifier_match,
}

pub data VerificationStatus : Type 0 where
  verified no_open_order ambiguous_order unreadable amount_mismatch currency_mismatch :
      VerificationStatus
  method_mismatch recipient_mismatch not_completed low_confidence invalid_date : VerificationStatus
  duplicate_proof manual_review : VerificationStatus

-- What a proof is checked against besides the order.
pub record Desk : Type 0 where
  pub readers : Readers
  pub methods : List PaymentMethod
  pub now : ℕ
  pub rate : Option Rate
  pub currency_of : Order → String

-- A proof that has passed.
pub record Checked : Type 0 where
  pub expected : ℕ
  pub detected : ℕ
  pub kind : String
  pub currency : String
  pub proof : ProofMetadata

-- `PaymentVerificationResult`; of the message's context, the payment method.
pub record Verification : Type 0 where
  pub status : VerificationStatus
  pub order_id : Option String
  pub expected_amount : Option ℕ
  pub detected_amount : Option ℕ
  pub expected_currency : Option String
  pub detected_currency : Option String
  pub payment_method : Option String

-- `_result` with its defaults
abbrev pub result : VerificationStatus → Option String → Verification
result status id = record {
  status = status;
  order_id = id;
  expected_amount = none;
  detected_amount = none;
  expected_currency = none;
  detected_currency = none;
  payment_method = none;
}

-- A missing value is an error.
abbrev pub require : {A : Type 0} → Option A → Verification → Result Verification A
require none e = err e
require (some a) e = ok a

abbrev pub equals_option : Option String → String → Bool
equals_option none s = false
equals_option (some t) s = t == s

abbrev clean : String → String
clean s = lower (strip s)

-- `f"{method}|{kind}|{currency}|{reference}"`, hashed
abbrev pub reference_key : Readers → String → String → String → String → String
reference_key r method kind currency reference =
    r.sha256 (r.normalize_catalog_text method ++ "|" ++ kind ++ "|" ++ currency ++ "|" ++ reference)

-- `abs(detected - expected) > AMOUNT_TOLERANCE`
abbrev pub differs : ℕ → ℕ → Bool
differs detected expected = ltb (expected + 1) detected || ltb (detected + 1) expected

-- A refusal with the order's amount, and one with what was compared besides.
abbrev refuse : Order → VerificationStatus → Verification
refuse order status = record (result status (some order.id)) { expected_amount = some order.total }

abbrev compare_currency : Order → VerificationStatus → Option String → Option String → Verification
compare_currency order status expected detected = record (refuse order status) {
  expected_currency = expected;
  detected_currency = detected;
}

abbrev pub compare_amount :
    Order → VerificationStatus → ℕ → Option ℕ → Option String → Option String → Verification
compare_amount order status expected amount currency detected =
    record (compare_currency order status currency detected) {
      expected_amount = some expected;
      detected_amount = amount;
    }

unfoldable pub check_proof : Desk → Order → Vision → Result Verification Checked
check_proof d order v =
    let method = strip order.terms.payment_method in
    let at = d.readers.parse_transaction_date v.date in
    let reference = normalize_payment_reference d.readers (strip v.reference) in
    let proof_hash = clean v.proof_hash in
    let detected_currency = normalize_currency d.readers v.currency in
    raise_if (not v.analyzed) (refuse order unreadable)
    >> raise_if (not (clean v.confidence == "high")) (refuse order low_confidence)
    >> raise_if (not (is_transaction_date_valid d.now at order.created_at))
        (refuse order invalid_date)
    >> raise_if (ltb (len reference) 4 || not (is_proof_hash proof_hash))
        (refuse order manual_review)
    >> (require (find_payment_method d.readers d.methods method) (refuse order manual_review)
        >>= λ configured.
            require (classify_payment_method_name d.readers method) (refuse order method_mismatch)
            >>= λ kind.
                raise_if (not (clean v.payment_method == kind)) (refuse order method_mismatch)
                >> (require (method_currency kind)
                      (compare_currency order currency_mismatch none detected_currency)
                    >>= λ currency.
                        raise_if (not (equals_option detected_currency currency)) (
                          compare_currency order currency_mismatch (some currency)
                            detected_currency)
                        >> raise_if (currency == "VES" && not (is_recent d.now at))
                            (compare_currency order invalid_date (some currency) detected_currency)
                        >> (require
                              (expected_receipt_amount d.rate order.total (d.currency_of order)
                                currency)
                              (compare_currency order manual_review (some currency)
                                detected_currency)
                            >>= λ expected.
                                require (d.readers.safe_decimal v.amount) (
                                  compare_amount order unreadable expected none (some currency)
                                    detected_currency)
                                >>= λ detected.
                                    raise_if (differs detected expected) (
                                      compare_amount order amount_mismatch expected (some detected)
                                        (some currency) detected_currency)
                                    >> raise_if
                                        (not (
                                          validate_payment_identifier_match d.readers
                                            configured.information v))
                                        (compare_amount order recipient_mismatch order.total
                                          (some detected) none none)
                                    >> raise_if (not (clean v.status == "completed")) (
                                        compare_amount order not_completed order.total
                                          (some detected) none none)
                                    >> ok (record {
                                      expected = expected;
                                      detected = detected;
                                      kind = kind;
                                      currency = currency;
                                      proof = record {
                                        proof_hash = proof_hash;
                                        reference_key =
                                            reference_key d.readers method kind currency reference;
                                      };
                                    }))))
