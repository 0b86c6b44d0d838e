-- ===== src/Middleware/Lists.antt =====
-- src/server/middleware/accesslist.go and geoip.go: the stages that decide from the client's
-- address. `none` is a nil function, and a stage that is switched off is the identity.
use redxt.Common.{Bool, ◌&&◌, not, Option, none, some, Text, if◌then◌else◌}
use redxt.Middleware.Csrf.{Passage, admitted, forbidden, holds_for}

pub record ListOptions : Type 0 where
  pub enabled : Bool
  pub contains : Option (Text → Bool)

-- Allowlist: the mark that it leaves on the request.
unfoldable pub allowlist : ListOptions → Text → Bool
allowlist opts ip = opts.enabled && holds_for opts.contains ip

-- Blocklist, on a request with this mark.
unfoldable pub blocklist : ListOptions → Bool → Text → Passage
blocklist opts allowlisted ip =
    if not (opts.enabled && holds_for opts.contains ip)
    then admitted
    else if allowlisted
    then admitted
    else forbidden

pub record GeoOptions (G : Type 0) : Type 0 where
  pub lookup : Option (Text → Option G)
  pub blocked : Option (Text → Bool)

geo_checked : {G : Type 0} → Option (Text → Option G) → Bool → Text → Option (Option G)
geo_checked none refused ip = some none
geo_checked (some lookup) refused ip = if refused then none else some (lookup ip)

-- GeoIP: the annotation, or nothing where the request is refused.
unfoldable pub geoip : {G : Type 0} → GeoOptions G → Bool → Text → Option (Option G)
unfolding geo_checked
geoip opts allowlisted ip =
    geo_checked opts.lookup (not allowlisted && holds_for opts.blocked ip) ip
