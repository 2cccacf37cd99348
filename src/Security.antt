-- ===== src/Security.antt =====
-- src/security.rs, `SecurityChecker`: connections by address, TLS failures by address, and blocked
-- addresses. Each method holds the map entries that it changes, and runs as one step. The request
-- filter of the same file is `Waf.antt`.
pub mod Slots
pub mod Abuse
mod Tests
use curf.Common.{
  ℕ, ◌+◌, ◌-◌, ◌%◌, ◌^◌, Bool, true, false, not, Option, none, some, List, [], if◌then◌else◌, leb,
  ltb, Result, ok, err,
}
use curf.Common.Dict.{Dict, lookup, insert}
use curf.Common.Address.{IpAddr, ip_key}
use curf.Config.{SecurityFlags}

pub record SecurityChecker : Type 0 where
  pub max_connections_per_ip : ℕ
  pub connections : Dict IpAddr ℕ
  pub tls_failures : Dict IpAddr ℕ
  pub blocked_ips : Dict IpAddr (Unit {0})
  pub flags : SecurityFlags

unfoldable pub new : ℕ → SecurityFlags → SecurityChecker
new max flags = record {
  max_connections_per_ip = max;
  connections = [];
  tls_failures = [];
  blocked_ips = [];
  flags = flags;
}

abbrev pub contains_key {ℓ} : {V : Type ℓ} → Option V → Bool
contains_key none = false
contains_key (some v) = true

-- `or_insert(0)`
abbrev pub or_zero : Option ℕ → ℕ
or_zero none = 0
or_zero (some n) = n

abbrev pub is_blocked : IpAddr → SecurityChecker → Bool
is_blocked ip s = contains_key (lookup ip s.blocked_ips)

abbrev pub connections_of : IpAddr → SecurityChecker → ℕ
connections_of ip s = or_zero (lookup ip s.connections)

abbrev pub tls_failures_of : IpAddr → SecurityChecker → ℕ
tls_failures_of ip s = or_zero (lookup ip s.tls_failures)

-- Where the limit is reached the entry is there all the same.
unfoldable pub check_and_acquire_connection :
    IpAddr → SecurityChecker → SecurityChecker × Result (Unit {0}) (Unit {0})
check_and_acquire_connection ip s =
    let count = connections_of ip s in
    let entered = record s { connections = insert ip count s.connections } in
    if is_blocked ip s
    then (s, err tt)
    else if leb s.max_connections_per_ip count
    then (entered, err tt)
    else (record s { connections = insert ip (count + 1) s.connections }, ok tt)

abbrev pub release_count : IpAddr → Option ℕ → SecurityChecker → SecurityChecker
release_count ip none s = s
release_count ip (some count) s =
    if ltb 0 count then record s { connections = insert ip (count - 1) s.connections } else s

unfoldable pub release_connection : IpAddr → SecurityChecker → SecurityChecker
release_connection ip s = release_count ip (lookup ip s.connections) s

-- The counter is a `u32`, and wraps.
unfoldable pub record_tls_failure : IpAddr → SecurityChecker → SecurityChecker
record_tls_failure ip s =
    let count = (tls_failures_of ip s + 1) % 4294967296 in
    let counted = record s { tls_failures = insert ip count s.tls_failures } in
    if not s.flags.block_tls_abusers
    then s
    else if leb s.flags.max_tls_failures count
    then record counted { blocked_ips = insert ip tt s.blocked_ips }
    else counted
