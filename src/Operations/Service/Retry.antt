-- ===== src/Operations/Service/Retry.antt =====
-- `requestMatchesIntent` of internal/operations/service.go on the retry of an intent.
use estate_ci.Prelude.{◌≡◌, Text, ◌==◌, text_instance, int_instance, text_eq_refl, int_eq_refl}
use estate_ci.Go.Time.{Time, format_time}
use estate_ci.Go.Strings.{equal_fold-to_lower}
use estate_ci.Contract.Models.{OperationIntent}
use estate_ci.Operations.Documents.{request_of, request_matches_intent}

-- The request that `Create` makes of an intent matches the same intent of the same requester if
-- and only if the intent's expiry is spelled the way the program spells times.
pub request_matches_own_intent :
    (i : OperationIntent) (email nonce : Text) (now expires_at : Time)
    → request_matches_intent (request_of i email now expires_at nonce) i email
      ≡ (format_time expires_at == i.expires_at)
unfolding request_matches_intent request_of
request_matches_own_intent i email nonce now expires_at =
    simp (text_eq_refl, int_eq_refl, equal_fold-to_lower)
