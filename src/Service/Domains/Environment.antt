-- ===== src/Service/Domains/Environment.antt =====
-- What src/server/service/domain.go gets from outside the package: the configuration, the DNS
-- resolver, the ACME manager and Go's regular expressions.
use redxt.Common.{Bool, List, Option, Text, Result, ℤ}

pub record DomainPolicy : Type 0 where
  pub enabled : Bool
  pub max_per_org : ℤ
  pub require_ssl : Bool
  pub allow_apex : Bool
  pub allow_subdomain : Bool
  pub allow_wildcard : Bool
  pub reserved : List Text
  pub blocked_patterns : List Text
  pub renewal_days : ℤ

-- A *net.DNSError with IsNotFound, and every other error of a lookup.
pub data DnsError : Type 0 where
  no_such_host lookup_failed : DnsError

pub record Certificate : Type 0 where
  pub not_before : ℤ
  pub not_after : ℤ

pub record CertManager : Type 0 where
  pub challenge : Text
  pub issue_for : Text → Result Text Certificate

-- The answers of one call; `match_pattern` gives `none` for a pattern that does not compile.
pub record Outside : Type 0 where
  pub lookup_txt : Text → Result DnsError (List Text)
  pub certs : Option CertManager
  pub match_pattern : Text → Text → Option Bool
