-- ===== src/Tests/IapWitnesses.antt =====
-- The theorems on internal/auth/iap.go at concrete data.
use estate_ci.Prelude.{◌≡◌, ◌+◌, ◌*◌, refl, some, pos, bytes, ok}
use estate_ci.Go.Time.{parse_time, second, unix_epoch, unix_seconds}
use estate_ci.Auth.Identity.{Identity}
use estate_ci.Auth.Iap.{validate}
use estate_ci.Auth.Iap.Keys.{key_for}
use estate_ci.Auth.Iap.Validated.{IsValid, validate-IsValid}
use estate_ci.Auth.Iap.CachedKeys.{Keeps, key_for-ArePoints}
use estate_ci.Storage.Cloud.Decoding.{strict_json}
use estate_ci.Tests.Everything.{everything}
use estate_ci.Tests.Parts.{iap_validator}
use estate_ci.Tests.Fixtures.{operator_email}
use estate_ci.Tests.Data.{noon_time}
use estate_ci.Tests.IapFixtures.{test_ecdsa, test_keys, test_validator, empty_cache, assertion}

-- The clock of 1970.
epoch_parsed : parse_time (bytes "1970-01-01T00:00:00Z") ≡ some unix_epoch
unfolding everything
epoch_parsed = refl

noon_in_seconds : unix_seconds noon_time ≡ pos 1788350400
unfolding everything unix_seconds
noon_in_seconds = refl

abbrev asserted : Identity
asserted = record {
  subject = bytes "operator";
  email = operator_email;
  issued_at = noon_time;
  expires_at = noon_time + 600 * second;
}

validated : (validate test_validator assertion (empty_cache, 0)).0 ≡ ok asserted
unfolding everything iap_validator strict_json
validated = refl

validate-IsValid_example : IsValid test_validator assertion (empty_cache, 0) asserted
validate-IsValid_example =
    validate-IsValid test_validator assertion (empty_cache, 0) asserted validated

key_for-ArePoints_example :
    Keeps test_ecdsa test_keys noon_time empty_cache
      (key_for test_keys test_ecdsa (λ n. (noon_time, n)) (bytes "k1") (empty_cache, 0)).1
key_for-ArePoints_example =
    key_for-ArePoints test_ecdsa test_keys (λ n. (noon_time, n)) (bytes "k1") empty_cache 0 tt
