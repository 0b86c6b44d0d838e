-- ===== src/Examples/Chains.antt =====
-- A client on the allow-list and a blocked one, through the whole middleware chain.
use redxt.Common.{
  pos, Bool, true, false, [], ◌∷◌, Option, none, some, Text, bytes, ◌=ᵗ◌, ◌≡◌, refl, trim_space,
  trim_left, to_lower, split_on, has_prefix, contains,
}
use redxt.RateLimit.Paths.{trim_slash}
use redxt.RateLimit.Policy.{RateBucket, RateLimitConfig}
use redxt.RateLimit.Gate.{memory_call, rate_limit}
use redxt.RateLimit.Window.{MemoryStore, new_memory_store}
use redxt.Middleware.Segments.{clean, clean_segments, clean_segment, join, ends_in_slash}
use redxt.Middleware.Paths.{
  url_normalize, canonical, last_segment_is_file, last_segment, path_security, is_rejected,
  cleaned_path,
}
use redxt.Middleware.Requests.{HttpRequest}
use redxt.Middleware.Csrf.{csrf, csrf_required, is_safe_method}
use redxt.Middleware.Cors.{cors, resolve_cors}
use redxt.Middleware.Lists.{allowlist, blocklist, geoip}
use redxt.Middleware.Auth.{resolve_identity, auth}
use redxt.Middleware.Chain.{
  Options, Handled, handled, blocked, after_auth, after_geoip, after_rate_limit, rate_limit_stage,
  after_blocklist, after_csrf, after_cors, after_path_security, after_normalize, serve,
}
use redxt.Middleware.Chain.Laws.{early_refusal_costs_nothing}
use redxt.Middleware.Chain.Guards.{IsGuarded, handler_past_guards}

abbrev unset : RateBucket
unset = record { requests = pos 0; window = pos 0 }

abbrev limits : RateLimitConfig
limits = record {
  enabled = true;
  read = unset;
  write = unset;
  health = unset;
  global_burst = pos 0;
  auth = record { login = unset; password_reset = unset; registration = unset };
}

abbrev no_parse : Text → Option (Text × Text)
no_parse raw = none

abbrev no_glob : Text → Text → Bool
no_glob pattern path = false

abbrev no_values : Text → Text
no_values name = []

abbrev no_cookies : Text → Option Text
no_cookies name = none

abbrev get_zones : Text → HttpRequest
get_zones client = record {
  method = bytes "GET";
  path = bytes "/zones//a";
  raw_path = [];
  raw_query = [];
  host = bytes "dns.example";
  remote_addr = client;
  tls = true;
  header = no_values;
  cookie = no_cookies;
  form = no_values;
  query = no_values;
}

abbrev monitor : Text
monitor = bytes "192.0.2.7"

abbrev is_monitor : Text → Bool
is_monitor ip = ip =ᵗ monitor

abbrev is_anyone : Text → Bool
is_anyone ip = true

abbrev peer : HttpRequest → Text
peer req = req.remote_addr

abbrev chain_options : Options MemoryStore Text Text
chain_options = record {
  lowercase_paths = false;
  max_path_length = 0;
  cors = record { configured = []; domains = []; learned_origins = none; is_trusted_proxy = none };
  csrf = record {
    enabled = true;
    exempt_paths = [];
    session_cookie_names = bytes "session" ∷ [];
    session_same_site_strict = false;
    cookie_name = [];
    header_names = [];
    field_name = [];
    is_public_path = none;
    self_origin = none;
  };
  client_ip = peer;
  allowlist = record { enabled = true; contains = some is_monitor };
  blocklist = record { enabled = true; contains = some is_anyone };
  rate_config = limits;
  auth_rules = [];
  health_paths = [];
  store = some memory_call;
  geoip = record { lookup = none; blocked = none };
  auth = record { verifier = none; session_cookie_names = []; is_public_path = none };
}

abbrev served_zones : Handled Text
served_zones = record { path = bytes "/zones/a"; allowlisted = true; geo = none; identity = none }

monitor_is_served :
    (serve no_parse no_glob chain_options (get_zones monitor) (pos 5) new_memory_store).0
    ≡ handled served_zones
unfolding serve after_normalize after_path_security after_cors after_csrf after_blocklist
    rate_limit_stage after_rate_limit after_geoip after_auth url_normalize canonical
    last_segment_is_file last_segment trim_slash path_security is_rejected cleaned_path clean
    clean_segments clean_segment join split_on ends_in_slash has_prefix contains to_lower cors
    resolve_cors trim_space trim_left csrf csrf_required is_safe_method allowlist blocklist
    rate_limit geoip auth resolve_identity ◌=ᵗ◌
monitor_is_served = refl

handler_past_guards_example :
    IsGuarded no_parse no_glob chain_options
      (record (get_zones monitor) { path = bytes "/zones/a" })
      served_zones
handler_past_guards_example =
    handler_past_guards no_parse no_glob chain_options (get_zones monitor) (pos 5) new_memory_store
      (bytes "zones//a") served_zones refl monitor_is_served

abbrev stranger : Text
stranger = bytes "198.51.100.1"

stranger_is_blocked :
    (serve no_parse no_glob chain_options (get_zones stranger) (pos 5) new_memory_store).0 ≡ blocked
unfolding serve after_normalize after_path_security after_cors after_csrf after_blocklist
    url_normalize canonical last_segment_is_file last_segment trim_slash path_security is_rejected
    cleaned_path clean clean_segments clean_segment join split_on ends_in_slash has_prefix contains
    to_lower cors resolve_cors trim_space trim_left csrf csrf_required is_safe_method allowlist
    blocklist ◌=ᵗ◌
stranger_is_blocked = refl

early_refusal_costs_nothing_example :
    (serve no_parse no_glob chain_options (get_zones stranger) (pos 5) new_memory_store).1
    ≡ new_memory_store
early_refusal_costs_nothing_example =
    early_refusal_costs_nothing no_parse no_glob chain_options (get_zones stranger) (pos 5)
      new_memory_store (rw stranger_is_blocked tt)
