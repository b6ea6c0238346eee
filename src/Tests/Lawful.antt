-- ===== src/Tests/Lawful.antt =====
-- The laws of the concrete signer and world.
use estate_ci.Prelude.{◌≡◌, refl, true, text_eq_refl, ok-inj, bytes}
use estate_ci.Contract.Crypto.{IsSigner}
use estate_ci.Contract.Patterns.{is_key_id}
use estate_ci.Operations.Service.Laws.{IsCounter}
use estate_ci.Tests.Fixtures.{
  test_crypto, test_signer, test_environment, dispatches, bytes_of, checksum, length-bytes_of,
  IsByte-bytes_of,
}

key_id_IsValid : is_key_id test_signer.key_id ≡ true
unfolding is_key_id bytes
key_id_IsValid = refl

pub lawful-IsSigner : IsSigner test_crypto test_signer
lawful-IsSigner = record {
  length_sum256 = λ p. length-bytes_of 32 (checksum 0 p);
  byte_sum256 = λ p. IsByte-bytes_of 32 (checksum 0 p);
  valid_key_id = key_id_IsValid;
  length_public_key = length-bytes_of 32 1;
  length_sign = λ m v h. rw (← ok-inj _ refl h) (length-bytes_of 64 (checksum 7 m));
  byte_sign = λ m v h. rw (← ok-inj _ refl h) (IsByte-bytes_of 64 (checksum 7 m));
  verify_sign = λ m v h. rw (← ok-inj _ refl h) (text_eq_refl (bytes_of 64 (checksum 7 m)));
}

pub lawful-IsCounter : IsCounter test_environment (λ w. dispatches w.dispatched)
lawful-IsCounter = record {
  now_keeps = λ w id. refl;
  random_keeps = λ w id. refl;
  role_keeps = λ a w id. refl;
  prepare_keeps = λ t r w id. refl;
  recover_keeps = λ t r k w id. refl;
  dispatch_counts = λ t r k w id. refl;
}
