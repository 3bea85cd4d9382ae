-- ===== src/Registry/Url.antt =====
-- What registry/target.go takes from net/url and net: the parse of a URL into its parts, the case
-- folding of a host, and the test for an IP literal. They are arguments of the model.
use ne_kiro.Prelude.{Bool, Option}
use ne_kiro.Prelude.Text.{Text}

-- `*url.URL` after `url.Parse`, with the results of its methods.
pub record Url : Type 0 where
  pub scheme : Text
  pub opaque : Text
  pub user_present : Bool
  pub host : Text
  pub path : Text
  pub raw_path : Text
  pub force_query : Bool
  pub raw_query : Text
  pub fragment : Text
  pub raw_fragment : Text
  pub hostname : Text  -- `Hostname()`
  pub port_text : Text  -- `Port()`
  pub escaped_path : Text  -- `EscapedPath()`

pub record Net : Type 0 where
  pub parse : Text → Option Url  -- `url.Parse`; `none` is its error
  pub to_lower : Text → Text  -- `strings.ToLower`
  pub is_ip : Text → Bool  -- `net.ParseIP(host) != nil`
