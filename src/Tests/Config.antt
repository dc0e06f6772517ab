-- ===== src/Tests/Config.antt =====
-- Loading the configuration from an environment in which two variables are set.
use bipa_coding_challenge.Common.{
  ◌≡◌, ◌↔◌, refl, Option, none, some, Text, codes, text_eq, if◌then◌else◌, ok,
}
use bipa_coding_challenge.Std.ParseInt.{parse_u64}
use bipa_coding_challenge.Config.{
  Config, import_interval_key, invalid, zero_reason, from_lookup, load_database_url, load_bind_addr,
  load_mempool_url, load_import_interval,
}
use bipa_coding_challenge.Config.Load.{IsLoaded, from_lookup-ok_iff}
use bipa_coding_challenge.Config.Errors.{Blames, from_lookup-err}
use bipa_coding_challenge.Tests.Outside.{text_net, text_defaults}

abbrev environment : Text → Text → Option Text
environment interval name =
    if text_eq name (codes "DATABASE_URL")
    then some (codes "postgres://localhost/bipa")
    else if text_eq name (codes "IMPORT_INTERVAL_SECS")
    then some interval
    else none

abbrev loaded : Config text_net
loaded = record {
  database_url = codes "postgres://localhost/bipa";
  bind_addr = codes "0.0.0.0:3000";
  mempool_url =
      (codes "https", codes "//mempool.space/api/v1/lightning/nodes/rankings/connectivity");
  import_interval = 30;
  http_client_timeout = 10;
}

from_lookup-ok_iff_example :
    (from_lookup text_net (environment (codes "30")) ≡ ok loaded)
    ↔ IsLoaded text_net (environment (codes "30")) loaded
from_lookup-ok_iff_example = from_lookup-ok_iff text_net (environment (codes "30")) loaded

from_lookup-err_example :
    Blames text_net (environment (codes "0")) (invalid import_interval_key (codes "0") zero_reason)
unfolding from_lookup load_database_url load_bind_addr load_mempool_url load_import_interval
    parse_u64
from_lookup-err_example =
    from_lookup-err text_net text_defaults (environment (codes "0"))
      (invalid import_interval_key (codes "0") zero_reason) refl
