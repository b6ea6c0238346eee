-- ===== src/Api/Config.antt =====
-- `NewServer` of internal/api/server.go.
use Prim.Native.String.{String}
use estate_ci.Prelude.{
  Bool, not, ◌&&◌, ◌||◌, Option, Text, bytes, Result, ok, ◌>>=◌, ◌>>◌, guard, require, is_empty,
  ◌==◌, text_instance,
}
use estate_ci.Go.Url.{Url}
use estate_ci.Operations.Catalog.{Catalog}
use estate_ci.Api.Server.{Config, Server, connected, source_ready}

abbrev valid_origin : Url → Bool
valid_origin u =
    (u.scheme == bytes "http" || u.scheme == bytes "https")
    && not (is_empty u.host)
    && not u.has_user
    && is_empty u.raw_query
    && is_empty u.fragment
    && (is_empty u.path || u.path == bytes "/")

-- The checks of the configuration against the catalog, of dependencies that are not nil.
unfoldable pub check_config : (Text → Option Url) → Config → Catalog → Result String (Unit {0})
check_config parse config catalog = do
  origin ← require (parse config.allowed_origin) "allowed origin must be an exact scheme and host"
  guard (valid_origin origin) "allowed origin must be an exact scheme and host"
  guard (not (config.secure_cookies && not (origin.scheme == bytes "https")))
      "secure API requires an HTTPS origin"
  guard
      (config.runtime_state == bytes "development-simulation"
        || config.runtime_state == source_ready
        || config.runtime_state == connected)
      "API runtime state is invalid"
  guard
      (not (
        config.runtime_state == source_ready && catalog.connected
        || not (config.runtime_state == source_ready) && not catalog.connected))
      "API runtime state and exact operation catalog disagree"

unfoldable pub new_server :
    {S W : Type 0} → (Text → Option Url) → Server S W → Result String (Server S W)
new_server parse server = do check_config parse server.config server.catalog; ok server
