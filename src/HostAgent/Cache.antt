-- ===== src/HostAgent/Cache.antt =====
-- src/bin/egressy-isolation-agent.rs: the host policy is kept in a file, for when the gateway does
-- not answer. What the file system refuses, and what it leaves of a failed write, are arguments.
use egressy.Base.{
  ℕ, String, Bool, true, false, not, ◌&&◌, Option, none, some, List, [], ◌∷◌, ◌==◌, if◌then◌else◌,
  Map, lookup, insert, remove, string_key,
}
use egressy.Base.Results.{Result, ok, err, to_option}
use egressy.HostPolicy.{HostPolicy}
use egressy.HostAgent.{Fault, not_stored}
use egressy.HostAgent.Document.{Formats, parse_host_policy}

abbrev pub Files : Type 0
Files = Map String (List ℕ)

pub record Disk : Type 0 where
  pub can_read : String → Bool
  pub can_write : String → Bool
  pub can_rename : String → String → Bool
  pub torn : List ℕ → List ℕ
  -- `with_extension("tmp")`.
  pub staging : String → String

abbrev pub same_bytes : List ℕ → List ℕ → Bool
same_bytes [] [] = true
same_bytes (a ∷ more) (b ∷ bs) = let rest = same_bytes more bs in a == b && rest
same_bytes _ _ = false

abbrev pub holds_bytes : List ℕ → Option (List ℕ) → Bool
holds_bytes body none = false
holds_bytes body (some current) = same_bytes current body

module _ (disk : Disk) where
  -- `std::fs::read`, which can fail on a file that is there.
  unfoldable pub read_file : String → Files → Option (List ℕ)
  read_file path files = if disk.can_read path then lookup path files else none

  unfoldable pub store_cached_policy : String → List ℕ → Files → Result Fault (Unit {0}) × Files
  store_cached_policy path body files =
      if holds_bytes body (read_file path files)
      then (ok tt, files)
      else (if not (disk.can_write (disk.staging path))
          then (err not_stored, insert (disk.staging path) (disk.torn body) files)
          else (if disk.can_rename (disk.staging path) path
              then (ok tt, insert path body (remove (disk.staging path) files))
              else (err not_stored, insert (disk.staging path) body files)))

  module _ (f : Formats) where
    abbrev pub load_from : Option (List ℕ) → Option HostPolicy
    load_from none = none
    load_from (some body) = to_option (parse_host_policy f body)

    unfoldable pub load_cached_policy : String → Files → Option HostPolicy
    load_cached_policy path files = load_from (read_file path files)

    abbrev pub cached : Option String → Files → Option HostPolicy
    cached none files = none
    cached (some path) files = load_cached_policy path files

    abbrev pub refreshed : Option String → List ℕ → Files → Files
    refreshed none body files = files
    refreshed (some path) body files = (store_cached_policy path body files).1

    abbrev pub fall_back : Option HostPolicy → Fault → Result Fault (HostPolicy × Option Fault)
    fall_back none error = err error
    fall_back (some policy) error = ok (policy, some error)

    unfoldable pub resolve_host_policy :
        Result Fault (HostPolicy × List ℕ)
        → Option String
        → Files
        → Result Fault (HostPolicy × Option Fault) × Files
    resolve_host_policy (ok (policy, body)) cache files =
        (ok (policy, none), refreshed cache body files)
    resolve_host_policy (err error) cache files = (fall_back (cached cache files) error, files)
