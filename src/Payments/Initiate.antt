-- ===== src/Payments/Initiate.antt =====
-- `initiate` of apps/api/src/core/payments/payments.service.ts, with `validatePurpose` and
-- `buildCallbackUrl`. The purposes that modules have registered, the configured callback address
-- and the port are arguments.
use saziqo_platform.Prelude.{
  ℕ, Bool, true, false, not, ◌&&◌, ◌||◌, Option, none, some, List, [], ◌∷◌, ◌++◌, leb, ◌==◌,
  if◌then◌else◌, ℤ, Text, codes, to_string, text_eq, starts_with, any, reverse, get_or,
}
use saziqo_platform.Action.{
  Action, ok, http, ErrorCode, bad_request, not_found_status, bad_gateway, pure, throw, or_throw,
  throw_if, gets, ◌>>=◌, ◌>>◌,
}
use saziqo_platform.Table.{find_unique, insert}
use saziqo_platform.Store.{Store, Payment, PaymentStatus, Metadata, User, payment_key, user_key}
use saziqo_platform.Payments.{
  Answer, answered, thrown, GatewayInitiate, GatewayInitiated, PaymentProvider, message_of,
  update_payment, wallet_topup, clipped,
}

-- `[a-z_]`
abbrev pub is_purpose_letter : ℕ → Bool
is_purpose_letter c = (leb b'a' c && leb c b'z') || c == b'_'

-- `.`: anything but the ends of a line.
abbrev pub is_dot : ℕ → Bool
is_dot c = not (c == 10 || (c == 13 || (c == 8232 || c == 8233)))

unfoldable pub all_dots : Text → Bool
all_dots [] = true
all_dots (c ∷ s) = is_dot c && all_dots s

-- `.+`
abbrev pub some_dots : Text → Bool
some_dots [] = false
some_dots (c ∷ s) = all_dots (c ∷ s)

-- `(:.+)?$`, behind at least one letter.
unfoldable pub purpose_rest : Text → Bool
unfolding all_dots
purpose_rest [] = true
purpose_rest (c ∷ s) = if c == b':' then some_dots s else is_purpose_letter c && purpose_rest s

-- `PURPOSE_PATTERN`, /^[a-z_]+(:.+)?$/
unfoldable pub matches_purpose : Text → Bool
unfolding purpose_rest
matches_purpose [] = false
matches_purpose (c ∷ s) = is_purpose_letter c && purpose_rest s

-- `validatePurpose`
unfoldable pub is_valid_purpose : List Text → Text → Bool
unfolding matches_purpose
is_valid_purpose allowed purpose =
    text_eq purpose wallet_topup || (any (text_eq purpose) allowed || matches_purpose purpose)

abbrev pub drop_prefix : Text → Text → Text
drop_prefix [] s = s
drop_prefix (_ ∷ p) [] = []
drop_prefix (_ ∷ p) (_ ∷ s) = drop_prefix p s

-- `replace(/\/callback\/?$/, '')`
unfoldable pub without_callback : Text → Text
unfolding starts_with
without_callback url =
    let r = reverse url in
    let slashed = reverse (codes "/callback/") in
    let bare = reverse (codes "/callback") in
    if starts_with slashed r
    then reverse (drop_prefix slashed r)
    else if starts_with bare r
    then reverse (drop_prefix bare r)
    else url

-- What the configuration has: an unset or empty address is falsy.
pub record Config : Type 0 where
  pub callback_url : Option Text
  pub port : Text

abbrev pub local_callback : Config → Text → Text
local_callback c i =
    codes "http://localhost:" ++ c.port ++ codes "/api/v1/payments/" ++ i ++ codes "/callback"

abbrev pub callback_at : Config → Text → Text → Text
callback_at c [] i = local_callback c i
callback_at c (x ∷ configured) i =
    without_callback (x ∷ configured) ++ codes "/" ++ i ++ codes "/callback"

-- `buildCallbackUrl`
unfoldable pub build_callback_url : Config → ℕ → Text
unfolding without_callback
build_callback_url c i = callback_at c (get_or c.callback_url []) (to_string i)

-- `InitiateInput` of the service
pub record InitiateInput : Type 0 where
  pub user_id : ℕ
  pub amount : ℤ
  pub purpose : Text
  pub description : Text
  pub metadata : Option Metadata

pub record InitiateResult : Type 0 where
  pub payment_id : ℕ
  pub redirect_url : Text

abbrev given : Option Metadata → Metadata
given none = []
given (some m) = m

abbrev pub new_payment : PaymentProvider → InitiateInput → ℕ → Payment
new_payment provider input i = record {
  id = i;
  user_id = input.user_id;
  amount = input.amount;
  purpose = input.purpose;
  description = input.description;
  status = PaymentStatus.pending;
  provider_name = provider.name;
  provider_reference = none;
  reference_code = none;
  card_pan_masked = none;
  metadata = given input.metadata;
  completed_at = none;
  failure_reason = none;
}

abbrev pub create_payment : (ℕ → Payment) → Action Store Payment
create_payment mk s = (ok (mk s.payments.next), record s { payments = insert mk s.payments })

abbrev pub as_failed : Text → ℕ → Payment → Payment
as_failed reason now p = record p {
  status = PaymentStatus.failed;
  completed_at = some now;
  failure_reason = some (clipped reason);
}

abbrev pub with_reference : Text → Payment → Payment
with_reference r p = record p { provider_reference = some r }

abbrev pub started : Payment → ℕ → Answer GatewayInitiated → Action Store InitiateResult
started payment now (thrown e) = do
  failed ← update_payment payment.id (as_failed (message_of e) now)
  throw (http ErrorCode.payment_initiation_failed bad_gateway)
started payment now (answered result) = do
  updated ← update_payment payment.id (with_reference result.provider_reference)
  pure (record { payment_id = payment.id; redirect_url = result.redirect_url })

-- What the gateway is asked.
abbrev pub asked : Config → InitiateInput → User → Payment → GatewayInitiate
asked config input user payment = record {
  amount = input.amount;
  description = input.description;
  callback_url = build_callback_url config payment.id;
  reference_id = to_string payment.id;
  user_mobile = user.phone;
  user_email = user.email;
}

-- `initiate`
unfoldable pub initiate :
    Config → List Text → PaymentProvider → ℕ → InitiateInput → Action Store InitiateResult
unfolding update_payment build_callback_url
initiate config allowed provider now input = do
  throw_if (not (is_valid_purpose allowed input.purpose))
      (http ErrorCode.validation_error bad_request)
  found ← gets (λ s. find_unique input.user_id s.users)
  user ← or_throw found (http ErrorCode.not_found not_found_status)
  payment ← create_payment (new_payment provider input)
  started payment now (provider.initiate (asked config input user payment))
