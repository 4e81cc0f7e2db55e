-- ===== src/HostAgent/Remembered.antt =====
-- The cached policy of src/bin/egressy-isolation-agent.rs.
use egressy.Base.{
  ℕ, ◌≡◌, refl, inl, inr, String, Bool, true, false, not, Option, none, some, List, [], ◌∷◌,
  if◌then◌else◌, arith, Bool-cases, lookup, insert, remove, lookup-insert, str_eq, eq_iff,
  string_key,
}
use egressy.Base.Results.{Result, ok, err}
use egressy.HostPolicy.{HostPolicy}
use egressy.HostAgent.{Fault, not_stored}
use egressy.HostAgent.Document.{Formats, parse_host_policy}
use egressy.HostAgent.Cache.{
  Files, Disk, same_bytes, holds_bytes, read_file, store_cached_policy, load_cached_policy,
  resolve_host_policy,
}

same_bytes_lem : (a b : List ℕ) → same_bytes a b ≡ true → a ≡ b
same_bytes_lem [] [] h = refl
same_bytes_lem [] (y ∷ b) h = absurd (ground (arith, h))
same_bytes_lem (x ∷ a) [] h = absurd (ground (arith, h))
same_bytes_lem (x ∷ a) (y ∷ b) h = ground (arith, h, same_bytes_lem a b)

module _ (disk : Disk) (path : String) (body : List ℕ) (files : Files) where
  -- The cache is replaced as a whole or not at all: a success leaves the new body in it, a failure
  -- leaves it as it was. The staging file is another file.
  pub store_cached_policy_atomic :
      str_eq (disk.staging path) path ≡ false
      → ((store_cached_policy disk path body files).0 ≡ ok tt
          → lookup path (store_cached_policy disk path body files).1 ≡ some body)
        × ((e : Fault)
            → (store_cached_policy disk path body files).0 ≡ err e
            → lookup path (store_cached_policy disk path body files).1 ≡ lookup path files)
  unfolding store_cached_policy read_file
  store_cached_policy_atomic apart =
      elim (Bool-cases (holds_bytes body (read_file disk path files))) [
        | inl e ↦ rw e (λ r. held (disk.can_read path) (lookup path files) e, λ f r. refl)
        | inr e ↦ rw e (
            written (disk.can_write (disk.staging path)) (disk.can_rename (disk.staging path) path))
      ]
    where
      held :
          (reads : Bool) (o : Option (List ℕ))
          → holds_bytes body (if reads then o else none) ≡ true
          → o ≡ some body
      held false o h = absurd (ground (arith, h))
      held true none h = absurd (ground (arith, h))
      held true (some current) h = ground (arith, same_bytes_lem current body h)

      outcome : Bool → Bool → Result Fault (Unit {0}) × Files
      outcome writes renames =
          if not writes
          then (err not_stored, insert (disk.staging path) (disk.torn body) files)
          else (if renames
              then (ok tt, insert path body (remove (disk.staging path) files))
              else (err not_stored, insert (disk.staging path) body files))

      written :
          (writes renames : Bool)
          → ((outcome writes renames).0 ≡ ok tt
              → lookup path (outcome writes renames).1 ≡ some body)
            × ((e : Fault)
                → (outcome writes renames).0 ≡ err e
                → lookup path (outcome writes renames).1 ≡ lookup path files)
      written false renames = (
        λ r. absurd (ground (arith, r)),
        λ e r. ground (arith, lookup-insert (disk.staging path) path (disk.torn body) files, apart),
      )
      written true true = (
        λ r. ground (
          arith,
          lookup-insert path path body (remove (disk.staging path) files),
          eq_iff path path,
        ),
        λ e r. absurd (ground (arith, r)),
      )
      written true false = (
        λ r. absurd (ground (arith, r)),
        λ e r. ground (arith, lookup-insert (disk.staging path) path body files, apart),
      )

  -- A policy that the gateway answered with, and that was stored, is the one that is asserted when
  -- the gateway does not answer, if the file can be read then; the failure to reach the gateway is
  -- still reported. The staging file is another file, and what the disk refuses may have changed.
  pub resolve_host_policy_remembers :
      (then_disk : Disk) (f : Formats) (p : HostPolicy) (e : Fault)
      → str_eq (disk.staging path) path ≡ false
      → then_disk.can_read path ≡ true
      → parse_host_policy f body ≡ ok p
      → (store_cached_policy disk path body files).0 ≡ ok tt
      → resolve_host_policy then_disk f
          (err e)
          (some path)
          (resolve_host_policy disk f (ok (p, body)) (some path) files).1
        ≡ (ok (p, some e), (resolve_host_policy disk f (ok (p, body)) (some path) files).1)
  unfolding resolve_host_policy load_cached_policy read_file
  resolve_host_policy_remembers then_disk f p e apart reads parses stored =
      rw (reads, (store_cached_policy_atomic apart).0 stored) (rw parses refl)
