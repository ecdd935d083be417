-- ===== src/Risk/Durable/Tests.antt =====
-- The theorems on stored records at a record of a fill, with values of a small JSON.
use pmkit.Base.Dict.{get, Dict}
use pmkit.Risk.Durable.Amounts.{AllValid, durable_account_event-AllValid}
use pmkit.Base.Replies.{ok, err}
use pmkit.Risk.Tests.{limits}
use pmkit.Event.{taker}
use pmkit.Event.Account.{account_fill, transport_fill, PmAccountEvent}
use pmkit.Risk.State.{default_risk, RiskStateError}
use pmkit.Base.Results.{ok_or}
use pmkit.Risk.Durable.Safety.{apply_durable_account_record-again}
use pmkit.Risk.Durable.Restore.{
  durable_account_event, owned_account_event, apply_durable_account_record,
}
use pmkit.Risk.Durable.{PmEnvelope, durable_fill_identity, Json, durable_fill}
use pmkit.Base.{
  ℤ, text_key, ℕ, false, if◌then◌else◌, refl, pos, some, String, ◌∷◌, ◌==◌, ◌≡◌, ◌⊎◌, [], none,
  Option, Bool, true,
}
use pmkit.Domain.{up, buy}
use pmkit.Decimals.Millionths.{millionths, whole_of, cents}

-- An object is its entries, one after the other.
data JsonValue : Type 0 where
  json_null json_end : JsonValue
  json_text : String → JsonValue
  json_number : ℕ → JsonValue
  json_entry : String → JsonValue → JsonValue → JsonValue

abbrev json_field : String → JsonValue → Option JsonValue
json_field name (json_entry key v rest) =
    let later = json_field name rest in if key == name then some v else later
json_field name _ = none

abbrev json_as_str : JsonValue → Option String
json_as_str (json_text s) = some s
json_as_str _ = none

abbrev json_as_i64 : JsonValue → Option ℤ
json_as_i64 (json_number n) = some (pos n)
json_as_i64 _ = none

abbrev json_as_u64 : JsonValue → Option ℕ
json_as_u64 (json_number n) = some n
json_as_u64 _ = none

abbrev json_is_null : JsonValue → Bool
json_is_null json_null = true
json_is_null _ = false

abbrev small_numbers : Dict String ℤ
small_numbers = ("0.1", cents 10) ∷ ("0.4", cents 40) ∷ ("10", whole_of 10) ∷ []

abbrev small_json : Json ℤ
small_json = record {
  Value = JsonValue;
  field = json_field;
  as_str = json_as_str;
  as_i64 = json_as_i64;
  as_u64 = json_as_u64;
  is_null = json_is_null;
  decimal_from_str = λ text. ok_or (get text small_numbers) "invalid decimal";
  is_blank = λ text. text == "";
}

abbrev payload : JsonValue
payload = json_entry "kind" (json_text "fill") (
    json_entry "ts" (json_number 1000) (
      json_entry "strategy" json_null (
        json_entry "order_id" (json_text "venue-1") (
          json_entry "market" (json_text "btc-5m") (
            json_entry "outcome" (json_text "up") (
              json_entry "price" (json_text "0.4") (
                json_entry "size" (json_text "10") (
                  json_entry "fee" (json_text "0.1") (
                    json_entry "side" (json_text "buy")
                      (json_entry "liquidity" (json_text "taker") json_end))))))))))

abbrev stored : PmEnvelope small_json
stored = record {
  source_id = "user";
  connection_id = "c-1";
  connection_epoch = pos 1;
  frame_sequence = pos 7;
  normalized =
      json_entry "portfolio" (json_text "main")
        (json_entry "schema_version" (json_number 2) (json_entry "payload" payload json_end));
}

abbrev stored_event : PmAccountEvent
stored_event =
    account_fill (transport_fill "user" "c-1" (pos 1) (pos 7)) none "venue-1" "btc-5m" up (cents 40)
      (whole_of 10) buy (cents 10) taker (pos 1000)

it_reads : durable_account_event small_json stored "main" ≡ ok (some stored_event)
unfolding durable_account_event owned_account_event durable_fill durable_fill_identity get
it_reads = refl

durable_account_event-AllValid_example : AllValid small_json (some stored_event)
durable_account_event-AllValid_example =
    durable_account_event-AllValid small_json stored "main" (some stored_event) it_reads

apply_durable_account_record-again_example :
    let action = apply_durable_account_record small_json stored "main" limits in
    let (reply, s') = action default_risk in
    ((error : RiskStateError) → reply ≡ err error → s' ≡ default_risk)
    × (reply ≡ ok tt → action s' ≡ (ok tt, s'))
    × ((s' ≡ default_risk)
        ⊎ ((owner : JsonValue) × (json_field "portfolio" stored.normalized ≡ some owner)
            × (json_as_str owner ≡ some "main")))
apply_durable_account_record-again_example =
    apply_durable_account_record-again small_json stored "main" limits default_risk
