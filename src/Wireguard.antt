-- ===== src/Wireguard.antt =====
-- src/wireguard.rs: a WireGuard profile, the values of its directives, and how they are set. The
-- networks and the addresses are other packages'; what is used of them is a parameter.
pub mod Directives
pub mod Parsing
pub mod Changes
pub mod Accepted
pub mod Kinds
pub mod Redaction
pub mod Secrecy
use egressy.Base.{
  ℕ, ◌+◌, String, Char, Bool, true, false, not, ◌&&◌, ◌||◌, Option, none, some, List, [], ◌∷◌, ◌++◌,
  append, length, byte_len, is_empty, all_chars, is_char, is_ascii_alphanumeric, starts_with_char,
  ends_with_char, trim, lower, split, rsplit_once, keep, map, ltb, leb, ◌==◌, str_eq, if◌then◌else◌,
  is_some, parse_unsigned, u16_max, Key,
}
use egressy.Base.Results.{Result, ok, err, ◌>>=◌, ◌>>◌, ensure, ok_or}

abbrev pub max_profile_bytes : ℕ
max_profile_bytes = 262144

abbrev pub max_peers : ℕ
max_peers = 32

abbrev pub max_list_values : ℕ
max_list_values = 128

pub record ProfileError : Type 0 where
  pub code : String
  pub field : Option String
  pub line : Option ℕ
  pub message : String

abbrev pub error_at : String → ℕ → String → ProfileError
error_at field line message = record {
  code = "invalid_wireguard_profile";
  field = some field;
  line = some line;
  message = message;
}

abbrev pub general : String → ProfileError
general message = record {
  code = "invalid_wireguard_profile";
  field = none;
  line = none;
  message = message;
}

-- A secret is its text.
pub record Interface (Net Addr : Type 0) : Type 0 where
  pub private_key : Option String
  pub addresses : List Net
  pub dns : List Addr
  pub listen_port : Option ℕ
  pub mtu : Option ℕ

pub record Endpoint : Type 0 where
  pub host : String
  pub port : ℕ
  pub address_family : String

pub record Peer (Net : Type 0) : Type 0 where
  pub public_key : String
  pub preshared_key : Option String
  pub endpoint : Option Endpoint
  pub allowed_ips : List Net
  pub persistent_keepalive : Option ℕ

pub record WireGuardProfile (Net Addr : Type 0) : Type 0 where
  pub interface : Interface Net Addr
  pub peers : List (Peer Net)

pub data ApplyKind : Type 0 where
  no_change dns_reload sync_conf sync_conf_and_routes tunnel_recycle : ApplyKind

-- A socket address: its host, its port, and whether it is of IPv4.
pub record Socket : Type 0 where
  pub ip : String
  pub port : ℕ
  pub is_ipv4 : Bool

pub record Addresses (Net Addr : Type 0) : Type 0 where
  pub parse_net : String → Option Net
  pub parse_addr : String → Option Addr
  pub parse_socket : String → Option Socket
  pub net_text : Net → String
  pub addr_text : Addr → String
  pub net_is_ipv6 : Net → Bool
  pub prefix_len : Net → ℕ
  pub addr_is_ipv6 : Addr → Bool

unfoldable pub parse_secret : String → String → ℕ → Result ProfileError String
parse_secret value field line =
    let secret = trim value in
    if is_empty secret || ltb 128 (byte_len secret)
    then err (error_at field line "secret must be 1-128 characters")
    else ok secret

unfoldable pub set_once : {T : Type 0} → Option T → T → String → ℕ → Result ProfileError (Option T)
set_once none value field line = ok (some value)
set_once (some old) value field line = err (error_at field line "directive may appear only once")

unfoldable pub set_string_once : String → String → String → ℕ → Result ProfileError String
set_string_once target value field line =
    if not (is_empty target)
    then err (error_at field line "directive may appear only once")
    else (if is_empty value || ltb 128 (byte_len value)
        then err (error_at field line "key must be 1-128 characters")
        else ok value)

abbrev pub contains_value : {T : Type 0} ⦃k : Key T⦄ → T → List T → Bool
contains_value v [] = false
contains_value ⦃k⦄ v (x ∷ xs) = let rest = contains_value v xs in k.beq x v || rest

unfoldable pub push_unique :
    {T : Type 0} ⦃k : Key T⦄ → List T → List T → String → ℕ → Result ProfileError (List T)
push_unique target [] field line = ok target
push_unique target (value ∷ values) field line =
    let rest = push_unique (target ++ (value ∷ [])) values field line in
    if contains_value value target then err (error_at field line "duplicate value") else rest

unfoldable pub extend_unique :
    {T : Type 0} ⦃k : Key T⦄ → List T → List T → String → ℕ → Result ProfileError (List T)
extend_unique target values field line =
    if ltb max_list_values (length target + length values)
    then err (error_at field line "field exceeds the 128-value limit")
    else push_unique target values field line

-- Every value, or the first that is not read.
unfoldable pub parse_each :
    {T : Type 0} → (String → Option T) → List String → ProfileError → Result ProfileError (List T)
parse_each parse [] e = ok []
parse_each parse (text ∷ texts) e =
    let rest = parse_each parse texts e in ok_or (parse text) e >>= λ v. rest >>= λ vs. ok (v ∷ vs)

abbrev pub some_values : {T : Type 0} → List T → ProfileError → Result ProfileError (List T)
some_values [] e = err e
some_values (v ∷ vs) e = ok (v ∷ vs)

unfoldable pub parse_list :
    {T : Type 0} → (String → Option T) → String → String → ℕ → Result ProfileError (List T)
parse_list parse value field line =
    parse_each parse (keep (λ text. not (is_empty text)) (map trim (split 44 value)))
      (error_at field line "invalid address or network")
    >>= λ values. some_values values (error_at field line "at least one value is required")

unfoldable pub parse_number : String → String → ℕ → ℕ → ℕ → Result ProfileError ℕ
parse_number value field line minimum maximum =
    ok_or (parse_unsigned u16_max value) (error_at field line "invalid integer") >>= λ n.
    if leb minimum n && leb n maximum
    then ok n
    else err (error_at field line "integer is outside the supported range")

abbrev pub in_hostname : Char → Bool
in_hostname c = is_ascii_alphanumeric c || (is_char 45 c || is_char 46 c)

abbrev pub is_hostname : String → Bool
is_hostname host = not (is_empty host) && (leb (byte_len host) 253 && all_chars in_hostname host)

abbrev pub endpoint_of : Socket → Endpoint
endpoint_of s = record {
  host = s.ip;
  port = s.port;
  address_family = if s.is_ipv4 then "ipv4" else "ipv6";
}

abbrev pub named_endpoint : String → String → String → ℕ → Result ProfileError Endpoint
named_endpoint host port field line =
    ensure (not (starts_with_char 91 host || ends_with_char 93 host))
      (error_at field line "malformed bracketed endpoint")
    >> (ensure (is_hostname host) (error_at field line "endpoint hostname is invalid")
        >> (ok_or (parse_unsigned u16_max port) (error_at field line "endpoint port is invalid")
            >>= λ number.
                ok (record { host = lower host; port = number; address_family = "hostname" })))

unfoldable pub parse_endpoint :
    (String → Option Socket) → String → String → ℕ → Result ProfileError Endpoint
parse_endpoint parse_socket value field line = elim (parse_socket value) [
  | some socket ↦ ok (endpoint_of socket)
  | none ↦ elim (rsplit_once 58 value) [
    | none ↦ err (error_at field line "endpoint must contain a port")
    | some (host, port) ↦ named_endpoint (trim host) port field line
  ]
]

abbrev pub is_hook : String → Bool
is_hook key =
    str_eq key "saveconfig"
    || (str_eq key "preup"
        || (str_eq key "postup" || (str_eq key "predown" || str_eq key "postdown")))

unfoldable pub reject_owned_or_dangerous : String → ℕ → Result ProfileError (Unit {0})
reject_owned_or_dangerous key line =
    if str_eq (lower key) "table"
    then err (error_at "Interface.Table" line "Table is owned by Egressy and must not be supplied")
    else (if is_hook (lower key)
        then err (error_at key line "privileged hooks and SaveConfig are prohibited")
        else ok tt)
