-- ===== src/Github/Config.antt =====
-- The configuration checks of internal/githubapp/client.go.
use Prim.Native.String.{String}
use estate_ci.Prelude.{
  Bool, not, ◌&&◌, ◌||◌, Option, Text, bytes, Result, ◌>>=◌, ◌>>◌, guard, require, is_empty,
  is_positive, ℤ, ◌==◌, text_instance,
}
use estate_ci.Go.Url.{Url}

pub record AppConfig : Type 0 where
  pub app_id : ℤ
  pub installation_id : ℤ
  pub private_key_file : Text

abbrev pub valid_base : Url → Bool
valid_base u =
    let local_http =
      u.scheme == bytes "http"
      && (u.hostname == bytes "127.0.0.1" || u.hostname == bytes "localhost") in
    not (is_empty u.host)
    && not u.has_user
    && is_empty u.raw_query
    && is_empty u.fragment
    && is_empty u.path
    && (u.scheme == bytes "https" || local_http)

unfoldable pub validate_api_base : (Text → Option Url) → Text → Result String (Unit {0})
validate_api_base parse value = do
  u ← require (parse value) "GitHub API base must use HTTPS"
  guard (valid_base u) "GitHub API base must use HTTPS"

-- `NewInstallationTokenSource` and `NewClient` check what they are given; here nothing is nil.
unfoldable pub check_app_config : (Text → Option Url) → AppConfig → Text → Result String (Unit {0})
check_app_config parse config api_base = do
  guard
      (is_positive config.app_id
        && is_positive config.installation_id
        && not (is_empty config.private_key_file))
      "GitHub App identity configuration is incomplete"
  validate_api_base parse api_base
