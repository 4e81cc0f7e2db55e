-- ===== src/Dns/Cache.antt =====
-- src/dns_cache.rs: the bounded cache of upstream responses. The messages are those of the library
-- hickory_proto: of a message the model has the fields that the cache reads or writes, and the
-- library's codec and its folding of a name are parameters. The lock makes the calls a sequence.
pub mod Ttl
pub mod Bounded
pub mod Serving
pub mod Answers
use egressy.Base.{
  ℕ, zero, suc, ◌+◌, ◌-◌, ◌*◌, ◌/◌, ◌%◌, ◌^◌, min, max, Bool, true, false, not, ◌&&◌, ◌||◌, Option,
  none, some, List, [], ◌∷◌, ltb, leb, ◌==◌, if◌then◌else◌, is_some, length, Map, Key, lookup,
  insert, remove, String, str_eq, eq_iff, ◌↔◌, ◌≡◌, arith, map,
}

abbrev pub second : ℕ
second = 1_000_000_000

-- `MAX_TTL` and `MIN_TTL`.
abbrev pub max_ttl : ℕ
max_ttl = 300_000_000_000

abbrev pub min_ttl : ℕ
min_ttl = 1_000_000_000

pub data MessageType : Type 0 where
  query response : MessageType

-- Any other code is its number.
pub data ResponseCode : Type 0 where
  no_error nx_domain : ResponseCode
  other_code : ℕ → ResponseCode

-- A resource record: `soa_minimum` is the `minimum` of its data if that is `RData::SOA`.
pub record Record (Data : Type 0) : Type 0 where
  pub ttl : ℕ  -- u32
  pub soa_minimum : Option ℕ
  pub content : Data

pub record Question (Name : Type 0) : Type 0 where
  pub name : Name
  pub query_type : ℕ
  pub query_class : ℕ

pub record Message (Name Data : Type 0) : Type 0 where
  pub id : ℕ
  pub recursion_desired : Bool
  pub message_type : MessageType
  pub truncation : Bool
  pub response_code : ResponseCode
  pub queries : List (Question Name)
  pub answers : List (Record Data)
  pub authorities : List (Record Data)
  pub additionals : List (Record Data)
  pub others : Data

-- `Key`.
pub record CacheKey (Addr : Type 0) : Type 0 where
  pub upstream : Addr
  pub name : String
  pub record_type : ℕ
  pub dns_class : ℕ

pub record Entry (Name Data : Type 0) : Type 0 where
  pub response : Message Name Data
  pub stored_at : ℕ
  pub ttl : ℕ

abbrev pub cache_key_eq : {Addr : Type 0} ⦃a : Key Addr⦄ → CacheKey Addr → CacheKey Addr → Bool
cache_key_eq ⦃a⦄ x y =
    a.beq x.upstream y.upstream
    && (str_eq x.name y.name && (x.record_type == y.record_type && x.dns_class == y.dns_class))

pub cache_key_eq_iff :
    {Addr : Type 0} ⦃a : Key Addr⦄ (x y : CacheKey Addr) → (cache_key_eq x y ≡ true) ↔ (x ≡ y)
cache_key_eq_iff ⦃a⦄ x y = ground (arith, a.beq_iff x.upstream y.upstream, eq_iff x.name y.name)

-- The order of a `HashMap`'s entries is not specified: here, of insertion.
instance abbrev pub cache_key_key : {Addr : Type 0} ⦃a : Key Addr⦄ → Key (CacheKey Addr)
cache_key_key ⦃a⦄ = record { beq = cache_key_eq; before = λ x y. false; beq_iff = cache_key_eq_iff }

-- `iter().min()`.
abbrev pub least : List ℕ → Option ℕ
least [] = none
least (n ∷ ns) = let rest = least ns in elim rest [ none ↦ some n | some m ↦ some (min n m) ]

abbrev pub is_response : MessageType → Bool
is_response response = true
is_response query = false

-- `Duration::from_secs(..).min(MAX_TTL)`, if it is not below `MIN_TTL`.
abbrev pub usable : Option ℕ → Option ℕ
usable none = none
usable (some seconds) =
    let ttl = min (seconds * second) max_ttl in if leb min_ttl ttl then some ttl else none

-- `Option::or_else`.
abbrev pub or_else {ℓ} : {A : Type ℓ} → Option A → Option A → Option A
or_else none y = y
or_else (some x) y = some x

module _ {Data : Type 0} where
  -- `filter_map` over the authorities.
  abbrev pub soa_ttls : List (Record Data) → List ℕ
  soa_ttls [] = []
  soa_ttls (r ∷ rs) =
      let rest = soa_ttls rs in
      elim r.soa_minimum [ none ↦ rest | some minimum ↦ min r.ttl minimum ∷ rest ]

module _ {Name Data : Type 0} where
  unfoldable pub negative_ttl_seconds : Message Name Data → Option ℕ
  negative_ttl_seconds m = least (soa_ttls m.authorities)

  -- The `match` on the response code.
  unfoldable pub seconds_for : ResponseCode → Message Name Data → Option ℕ
  unfolding negative_ttl_seconds
  seconds_for no_error m = elim m.answers [
    | [] ↦ negative_ttl_seconds m
    | _ ↦ least (map (λ r. r.ttl) m.answers)
  ]
  seconds_for nx_domain m = negative_ttl_seconds m
  seconds_for (other_code n) m = none

  unfoldable pub cacheable_ttl : Message Name Data → Option ℕ
  unfolding seconds_for
  cacheable_ttl m =
      if not (is_response m.message_type) || m.truncation
      then none
      else usable (seconds_for m.response_code m)

-- `DnsCache`, and the entries behind its lock.
pub record DnsCache (Addr Name Data : Type 0) : Type 0 where
  pub entries : Map (CacheKey Addr) (Entry Name Data)
  pub capacity : ℕ

module _ {Addr Name Data : Type 0} ⦃a : Key Addr⦄ where
  unfoldable pub new : ℕ → DnsCache Addr Name Data
  new capacity = record { entries = []; capacity = max capacity 1 }

  -- `find` of an expired entry.
  unfoldable pub first_expired : ℕ → Map (CacheKey Addr) (Entry Name Data) → Option (CacheKey Addr)
  first_expired now [] = none
  first_expired now ((k, e) ∷ m) =
      if leb e.ttl (now - e.stored_at) then some k else first_expired now m

  -- `min_by_key` keeps the first of the least.
  unfoldable pub oldest_from :
      CacheKey Addr → ℕ → Map (CacheKey Addr) (Entry Name Data) → CacheKey Addr
  oldest_from best at [] = best
  oldest_from best at ((k, e) ∷ m) =
      if ltb e.stored_at at then oldest_from k e.stored_at m else oldest_from best at m

  unfoldable pub oldest : Map (CacheKey Addr) (Entry Name Data) → Option (CacheKey Addr)
  unfolding oldest_from
  oldest [] = none
  oldest ((k, e) ∷ m) = some (oldest_from k e.stored_at m)

  unfoldable pub victim_of : ℕ → Map (CacheKey Addr) (Entry Name Data) → Option (CacheKey Addr)
  victim_of now m = or_else (first_expired now m) (oldest m)

  unfoldable pub drop_victim :
      Option (CacheKey Addr)
      → Map (CacheKey Addr) (Entry Name Data)
      → Map (CacheKey Addr) (Entry Name Data)
  drop_victim none m = m
  drop_victim (some k) m = remove k m

  unfoldable pub evict_one :
      ℕ → Map (CacheKey Addr) (Entry Name Data) → Map (CacheKey Addr) (Entry Name Data)
  unfolding drop_victim
  evict_one now m = drop_victim (victim_of now m) m

  -- The eviction of `store`, at a full table without the key.
  unfoldable pub make_space :
      CacheKey Addr → ℕ → DnsCache Addr Name Data → Map (CacheKey Addr) (Entry Name Data)
  make_space k now c =
      if leb c.capacity (length c.entries) && not (is_some (lookup k c.entries))
      then evict_one now c.entries
      else c.entries

  -- `store` once the key and the TTL are known.
  unfoldable pub keep_entry :
      CacheKey Addr → Message Name Data → ℕ → ℕ → DnsCache Addr Name Data → DnsCache Addr Name Data
  keep_entry k parsed ttl now c = record c {
    entries =
        insert k (record { response = parsed; stored_at = now; ttl = ttl }) (make_space k now c);
  }

abbrev pub with_ttl : {Data : Type 0} → ℕ → List (Record Data) → List (Record Data)
with_ttl remaining [] = []
with_ttl remaining (r ∷ rs) = record r { ttl = remaining } ∷ with_ttl remaining rs

-- What is served of an entry, for a request: `as u32` keeps the low 32 bits. The additional section
-- is served as it was stored.
unfoldable pub served :
    {Name Data : Type 0} → Entry Name Data → Message Name Data → ℕ → Message Name Data
served e request elapsed =
    let remaining = (e.ttl - elapsed) / second % 2 ^ 32 in
    record (e.response) {
      id = request.id;
      recursion_desired = request.recursion_desired;
      queries = request.queries;
      answers = with_ttl remaining e.response.answers;
      authorities = with_ttl remaining e.response.authorities;
    }

-- The library's codec, `from_vec` and `to_vec`, and `name().to_ascii().to_ascii_lowercase()`.
pub record Codec (Name Data Bytes : Type 0) : Type 0 where
  pub from_vec : Bytes → Option (Message Name Data)
  pub to_vec : Message Name Data → Option Bytes
  pub folded : Name → String

module _ {Addr Name Data Bytes : Type 0} ⦃a : Key Addr⦄ (codec : Codec Name Data Bytes) where
  open codec use {from_vec, to_vec, folded}

  -- Only a message with one question has a key.
  unfoldable pub key_for : Message Name Data → Addr → Option (CacheKey Addr)
  key_for request upstream = elim request.queries [
    | [] ↦ none
    | question ∷ more ↦ elim more [
      | [] ↦ some (record {
        upstream = upstream;
        name = folded question.name;
        record_type = question.query_type;
        dns_class = question.query_class;
      })
      | _ ↦ none
    ]
  ]

  -- `lookup` once the key is known, and once the entry is.
  unfoldable pub serve_entry :
      CacheKey Addr
      → Message Name Data
      → ℕ
      → DnsCache Addr Name Data
      → Option (Entry Name Data)
      → DnsCache Addr Name Data × Option Bytes
  serve_entry k request now c none = (c, none)
  serve_entry k request now c (some e) =
      let elapsed = now - e.stored_at in
      if leb e.ttl elapsed
      then (record c { entries = remove k c.entries }, none)
      else (c, to_vec (served e request elapsed))

  unfoldable pub serve_key :
      Option (CacheKey Addr)
      → Message Name Data
      → ℕ
      → DnsCache Addr Name Data
      → DnsCache Addr Name Data × Option Bytes
  unfolding serve_entry
  serve_key none request now c = (c, none)
  serve_key (some k) request now c = serve_entry k request now c (lookup k c.entries)

  -- `DnsCache::lookup`.
  unfoldable pub answer_from :
      Bytes → Addr → ℕ → DnsCache Addr Name Data → DnsCache Addr Name Data × Option Bytes
  unfolding serve_key
  answer_from query_bytes upstream now c = elim (from_vec query_bytes) [
    | none ↦ (c, none)
    | some request ↦ serve_key (key_for request upstream) request now c
  ]

  -- The `let .. else` chain of `store`: the request, the response, the key and the TTL.
  unfoldable pub storable : Bytes → Bytes → Addr → Option (CacheKey Addr × Message Name Data × ℕ)
  storable query_bytes response_bytes upstream = elim (from_vec query_bytes) [
    | none ↦ none
    | some request ↦ elim (from_vec response_bytes) [
      | none ↦ none
      | some parsed ↦ elim (key_for request upstream) [
        | none ↦ none
        | some k ↦ elim (cacheable_ttl parsed) [ none ↦ none | some ttl ↦ some (k, parsed, ttl) ]
      ]
    ]
  ]

  -- `DnsCache::store`.
  unfoldable pub store :
      Bytes → Bytes → Addr → ℕ → DnsCache Addr Name Data → DnsCache Addr Name Data
  unfolding keep_entry
  store query_bytes response_bytes upstream now c =
      elim (storable query_bytes response_bytes upstream) [
        | none ↦ c
        | some (k, parsed, ttl) ↦ keep_entry k parsed ttl now c
      ]
