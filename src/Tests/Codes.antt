-- ===== src/Tests/Codes.antt =====
-- The theorems on apps/api/src/core/otp/otp.service.ts at concrete inputs, with a hash that changes
-- nothing.
use saziqo_platform.Prelude.{◌≡◌, refl, true, false, [], ◌∷◌, arith, codes, Text, text_eq}
use saziqo_platform.Action.{ok, err, http, ErrorCode, too_many_requests}
use saziqo_platform.Otp.{
  OtpAttempt, OtpStore, Config, valid, attempt_key, generate_and_store, verify, verify_attempt,
  increment, new_attempt,
}
use saziqo_platform.Otp.Verified.{Compared, comparison, verify_lem}
use saziqo_platform.Otp.Cooldown.{verifies, called_all, generate_once}

abbrev config : Config
config = record { sha256 = λ t. t; salt = codes "s"; is_test = false; user_exists = λ p. true }

abbrev nothing_yet : OtpStore
nothing_yet = record {
  attempts = record { rows = []; next = 1 };
  locks = [];
  hashes = [];
  test_codes = [];
}

abbrev phone : Text
phone = codes "+989123456789"

abbrev one_row : OtpStore
one_row = record nothing_yet {
  attempts = record { rows = new_attempt config phone (codes "123456") 0 1 ∷ []; next = 2 };
}

accepted : (verify config phone (codes "123456") 5 one_row).0 ≡ ok (valid true)
unfolding verify verify_attempt increment text_eq
accepted = refl

verify_lem_example :
    (a : OtpAttempt) × Compared config phone 5 one_row
      (verify config phone (codes "123456") 5 one_row).1
      a
    × (valid true ≡ comparison config phone (codes "123456") a)
verify_lem_example = verify_lem config phone (codes "123456") 5 one_row (valid true) refl accepted

made : (generate_and_store config phone (codes "123456") 10 nothing_yet).0 ≡ ok (codes "123456")
unfolding generate_and_store
made = refl

generate_once_example :
    let t =
      called_all
        (verifies config phone (codes "000000") 20 ∷ [])
        (generate_and_store config phone (codes "123456") 10 nothing_yet).1 in
    generate_and_store config phone (codes "654321") 30 t
    ≡ (err (http ErrorCode.otp_rate_limited too_many_requests), t)
generate_once_example =
    generate_once (verifies config phone (codes "000000") 20 ∷ []) config phone (codes "123456")
      (codes "654321") 10 30 nothing_yet made (omega arith)
