-- ===== src/Enforcement/Counters.antt =====
-- The counters of src/enforcement.rs: totals that outlive the tables of the kernel.
use egressy.Base.{
  is_ascii_alphanumeric, append, ℕ, zero, suc, ◌-◌, String, Option, none, leb, if◌then◌else◌,
  saturating_add_u64, str_eq,
}

pub record CounterAccumulator : Type 0 where
  pub total : ℕ
  pub last_raw : ℕ

-- `CounterAccumulator::default`.
abbrev pub no_count : CounterAccumulator
no_count = record { total = 0; last_raw = 0 }

-- `CounterAccumulator::observe`.
unfoldable pub observe : ℕ → CounterAccumulator → CounterAccumulator
observe raw a =
    let delta = if leb a.last_raw raw then raw - a.last_raw else raw in
    record { total = saturating_add_u64 a.total delta; last_raw = raw }

-- `CounterAccumulator::seeded`.
unfoldable pub seed : CounterAccumulator → CounterAccumulator
seed a = record a { last_raw = a.total }

pub record ClientCounterTotals : Type 0 where
  pub download_packets : ℕ
  pub downloaded_bytes : ℕ
  pub upload_packets : ℕ
  pub uploaded_bytes : ℕ

pub record ClientCounters (Ip6 : Type 0) : Type 0 where
  pub address : ℕ
  pub ipv6_address : Option Ip6
  pub download_packets : CounterAccumulator
  pub downloaded_bytes : CounterAccumulator
  pub upload_packets : CounterAccumulator
  pub uploaded_bytes : CounterAccumulator

-- `NftCounter`.
pub record NftCounter : Type 0 where
  pub name : String
  pub packets : ℕ
  pub bytes : ℕ

-- `filter` and `take`, over the characters.
unfoldable pub alphanumerics : ℕ → String → String
alphanumerics zero s = ""
alphanumerics (suc n) String.[] = ""
alphanumerics (suc n) (String.◌∷◌ c s) =
    if is_ascii_alphanumeric c then String.◌∷◌ c (alphanumerics n s) else alphanumerics (suc n) s

-- `client_counter_name` of src/host.rs.
unfoldable pub client_counter_name : String → String → String
unfolding alphanumerics
client_counter_name direction container_id =
    append "client_" (append direction (append "_" (alphanumerics 64 container_id)))

module _ {Ip6 : Type 0} where
  unfoldable pub new : ℕ → ClientCounters Ip6
  new address = record {
    address = address;
    ipv6_address = none;
    download_packets = no_count;
    downloaded_bytes = no_count;
    upload_packets = no_count;
    uploaded_bytes = no_count;
  }

  unfoldable pub totals : ClientCounters Ip6 → ClientCounterTotals
  totals c = record {
    download_packets = c.download_packets.total;
    downloaded_bytes = c.downloaded_bytes.total;
    upload_packets = c.upload_packets.total;
    uploaded_bytes = c.uploaded_bytes.total;
  }

  -- `ClientCounters::seeded`.
  unfoldable pub seed_all : ClientCounters Ip6 → ClientCounters Ip6
  unfolding seed
  seed_all c = record c {
    download_packets = seed c.download_packets;
    downloaded_bytes = seed c.downloaded_bytes;
    upload_packets = seed c.upload_packets;
    uploaded_bytes = seed c.uploaded_bytes;
  }

  -- The body of the inner loop of `observe_kernel_locked`.
  unfoldable pub observe_counter : NftCounter → String → ClientCounters Ip6 → ClientCounters Ip6
  unfolding observe client_counter_name
  observe_counter counter container_id c =
      if str_eq counter.name (client_counter_name "down" container_id)
      then record c {
        download_packets = observe counter.packets c.download_packets;
        downloaded_bytes = observe counter.bytes c.downloaded_bytes;
      }
      else (if str_eq counter.name (client_counter_name "up" container_id)
          then record c {
            upload_packets = observe counter.packets c.upload_packets;
            uploaded_bytes = observe counter.bytes c.uploaded_bytes;
          }
          else c)
