-- ===== src/Go/Http.antt =====
-- Package net/http: a client's exchanges, over the state `W` of the network. Redirects are those of
-- the client that the program is given.
use estate_ci.Prelude.{ℕ, Option, List, Text, Result}
use Prim.Native.String.{String}

pub record HttpRequest : Type 0 where
  pub method : Text
  pub url : Text
  pub headers : List (Text × Text)
  pub body : Text

pub record HttpResponse : Type 0 where
  pub status : ℕ
  -- `Header.Get`, empty if there is none
  pub header : Text → Text
  -- what the server sends, `none` if the connection breaks before its end
  pub body : Option Text

-- `client.Do`: an error means that no response came.
abbrev pub Exchange : Type 0 → Type 0
Exchange W = HttpRequest → W → Result String HttpResponse × W
