-- ===== src/Auth/Identity.antt =====
-- The identity that internal/auth/iap.go takes from a verified assertion.
use estate_ci.Prelude.{Text}
use estate_ci.Go.Time.{Time}

pub record Identity : Type 0 where
  pub subject : Text
  pub email : Text
  pub issued_at : Time
  pub expires_at : Time
