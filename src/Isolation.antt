-- ===== src/Isolation.antt =====
-- src/isolation.rs: the isolation of clients from each other on the bridge: the policy's data, and
-- the texts that an operator or a pod's author writes. An IPv4 address is the number of its four
-- bytes.
pub mod Screening
pub mod Policy
pub mod Building
pub mod Render
pub mod Texts
pub mod Containers
pub mod Pods
pub mod Allowances
pub mod Consent
pub mod Binding
pub mod Complete
use Prim.Native.Char.{char, IsScalar}
use egressy.Base.{
  ℕ, ◌≡◌, ◌↔◌, ◌+◌, ◌-◌, ◌*◌, ◌/◌, ◌%◌, String, Char, code, len, append, concat, Bool, true, false,
  not, ◌&&◌, ◌||◌, Option, none, some, List, [], ◌∷◌, length, all_chars, is_empty, in_range,
  is_char, is_ascii_digit, is_ascii_lowercase, is_ascii_uppercase, is_ascii_hexdigit,
  is_ascii_alphanumeric, str_eq, ltb, leb, ◌==◌, if◌then◌else◌, split, split_once, trim, join,
  decimal, parse_unsigned, arith, Key, map,
}
use egressy.Base.Results.{Result, ok, err, ◌>>=◌, ◌>>◌, ok_or, ensure, collect}

pub data IsolationMode : Type 0 where
  disabled audit enforce : IsolationMode

unfoldable pub mode_from_str : String → Result String IsolationMode
mode_from_str value =
    if str_eq value "disabled"
    then ok disabled
    else (if str_eq value "audit"
        then ok audit
        else (if str_eq value "enforce"
            then ok enforce
            else err "isolation mode must be disabled, audit, or enforce"))

pub data IsolationProtocol : Type 0 where
  tcp udp : IsolationProtocol

unfoldable pub nft_name : IsolationProtocol → String
nft_name tcp = "tcp"
nft_name udp = "udp"

pub record IsolationAllowance : Type 0 where
  pub destination_id : String
  pub destination_address : ℕ
  pub port : ℕ
  pub protocol : IsolationProtocol

pub record IsolationParticipant : Type 0 where
  pub container_id : String
  pub name : String
  pub isolation_id : Option String
  pub ipv4_address : ℕ
  pub allowances : List IsolationAllowance
  pub mac : Option String

pub record IsolationPolicy : Type 0 where
  pub schema_version : ℕ
  pub generated_at_unix_ms : ℕ
  pub network : String
  pub bridge : String
  pub subnet : String
  pub eligible_for_enforcement : Bool
  pub reason_code : String
  pub safe_message : String
  pub issues : List String
  pub participants : List IsolationParticipant
  pub ipv6_subnet : Option String
  pub bound_range : Option String
  pub gateway_address : Option ℕ
  pub rejected : List String

pub data CandidateSource : Type 0 where
  docker kubernetes : CandidateSource

pub record IsolationCandidate : Type 0 where
  pub container_id : String
  pub name : String
  pub ipv4_address : ℕ
  pub isolation_id : Option String
  pub allow : Option String
  pub mac : Option String
  pub source : CandidateSource
  pub accept : Option String

pub record AllowSpec : Type 0 where
  pub destination_id : String
  pub port : ℕ
  pub protocol : IsolationProtocol

-- The derived equality and order of the protocol.
abbrev pub protocol_eq : IsolationProtocol → IsolationProtocol → Bool
protocol_eq tcp tcp = true
protocol_eq udp udp = true
protocol_eq _ _ = false

abbrev pub protocol_before : IsolationProtocol → IsolationProtocol → Bool
protocol_before tcp udp = true
protocol_before _ _ = false

pub protocol_eq_iff : (a b : IsolationProtocol) → (protocol_eq a b ≡ true) ↔ (a ≡ b)
protocol_eq_iff tcp tcp = ground arith
protocol_eq_iff tcp udp = ground arith
protocol_eq_iff udp tcp = ground arith
protocol_eq_iff udp udp = ground arith

instance abbrev pub protocol_key : Key IsolationProtocol
protocol_key = record { beq = protocol_eq; before = protocol_before; beq_iff = protocol_eq_iff }

abbrev pub is_docker : IsolationCandidate → Bool
is_docker c = elim c.source [ docker ↦ true | kubernetes ↦ false ]

-- The first test of `valid_identity`'s characters.
abbrev pub starts_identity : Char → Bool
starts_identity c = is_ascii_lowercase c || is_ascii_digit c

abbrev pub in_identity : Char → Bool
in_identity c =
    is_ascii_lowercase c || (is_ascii_digit c || (is_char 45 c || (is_char 95 c || is_char 46 c)))

abbrev pub first_is : (Char → Bool) → String → Bool
first_is p String.[] = false
first_is p (String.◌∷◌ c s) = p c

-- The length is of bytes; where it decides, every character is one byte.
unfoldable pub valid_identity : String → Bool
valid_identity value =
    not (is_empty value)
    && (leb (len value) 64 && (first_is starts_identity value && all_chars in_identity value))

abbrev pub hex_value : Char → ℕ
hex_value c =
    if is_ascii_digit c
    then code c - 48
    else (if is_ascii_uppercase c then code c - 55 else code c - 87)

-- `from_str_radix` of base 16 on hexadecimal digits.
unfoldable pub from_hex : ℕ → String → ℕ
from_hex n String.[] = n
from_hex n (String.◌∷◌ c s) = from_hex (n * 16 + hex_value c) s

unfoldable pub octet_of : String → Option ℕ
unfolding from_hex
octet_of octet =
    if len octet == 2 && all_chars is_ascii_hexdigit octet then some (from_hex 0 octet) else none

pub hex_fits : (n : ℕ) → IsScalar (87 + n % 16)
hex_fits n = ground arith

pub low_hex_fits : (n : ℕ) → IsScalar (48 + n % 10)
low_hex_fits n = ground arith

abbrev pub hex_char : ℕ → Char
hex_char n =
    if ltb n 10 then char (48 + n % 10) (low_hex_fits n) else char (87 + n % 16) (hex_fits n)

-- `{:02x}` of a byte.
abbrev pub hex_octet : ℕ → String
hex_octet n = String.◌∷◌ (hex_char (n / 16)) (String.◌∷◌ (hex_char (n % 16)) "")

abbrev pub octets_of : List String → Option (List ℕ)
octets_of [] = some []
octets_of (part ∷ parts) =
    let rest = octets_of parts in
    elim (octet_of part) [
      | none ↦ none
      | some octet ↦ elim rest [ none ↦ none | some octets ↦ some (octet ∷ octets) ]
    ]

abbrev pub all_zero : List ℕ → Bool
all_zero [] = true
all_zero (n ∷ ns) = let rest = all_zero ns in n == 0 && rest

-- `octets[0] & 1 == 1`; the length is tested before.
abbrev pub is_multicast : List ℕ → Bool
is_multicast [] = false
is_multicast (n ∷ ns) = n % 2 == 1

unfoldable pub normalize_mac : String → Option String
unfolding octet_of
normalize_mac raw = elim (octets_of (split 58 raw)) [
  | none ↦ none
  | some octets ↦
      if not (length octets == 6) || (is_multicast octets || all_zero octets)
      then none
      else some (join ":" (map hex_octet octets))
]

abbrev pub mac_of : IsolationCandidate → Option String
mac_of c = elim c.mac [ none ↦ none | some raw ↦ normalize_mac raw ]

abbrev pub protocol_of : String → String → Result String IsolationProtocol
protocol_of entry protocol =
    if str_eq protocol "tcp"
    then ok tcp
    else (if str_eq protocol "udp"
        then ok udp
        else err (append "invalid isolation protocol in " entry))

-- `parse::<u16>` that is not zero.
abbrev pub port_of : String → Option ℕ
port_of port = elim (parse_unsigned 65535 port) [
  | none ↦ none
  | some n ↦ if n == 0 then none else some n
]

-- The closure of `parse_allow_list`, on an entry that is trimmed.
unfoldable pub parse_entry : String → Result String AllowSpec
parse_entry entry = do
  (destination_id, service) ←
      ok_or (split_once 58 entry) (append "invalid isolation allowance " entry)
  (port, protocol) ← ok_or (split_once 47 service) (append "invalid isolation allowance " entry)
  ensure (valid_identity destination_id) (append "invalid isolation destination " destination_id)
  number ← ok_or (port_of port) (append "invalid isolation port in " entry)
  kind ← protocol_of entry protocol
  ok (record { destination_id = destination_id; port = number; protocol = kind })

unfoldable pub parse_allow_list : String → Result String (List AllowSpec)
parse_allow_list raw =
    if is_empty (trim raw) then ok [] else collect parse_entry (map trim (split 44 raw))

abbrev pub octets_text : ℕ → ℕ → ℕ → ℕ → String
octets_text a b c d = concat (decimal a ∷ "." ∷ decimal b ∷ "." ∷ decimal c ∷ "." ∷ decimal d ∷ [])

-- `Display` of an IPv4 address.
unfoldable pub ip_text : ℕ → String
ip_text n = octets_text (n / 16777216 % 256) (n / 65536 % 256) (n / 256 % 256) (n % 256)

abbrev pub keep_chars : (Char → Bool) → ℕ → String → String
keep_chars p n String.[] = ""
keep_chars p n (String.◌∷◌ c s) =
    let kept = p c && not (n == 0) in
    let rest = keep_chars p (if kept then n - 1 else n) s in
    if kept then String.◌∷◌ c rest else rest

unfoldable pub safe_counter_component : String → String
safe_counter_component value = keep_chars is_ascii_alphanumeric 64 value

unfoldable pub pair_counter_name : String → String → String
unfolding safe_counter_component
pair_counter_name source_id destination_id =
    concat (
      "isop_" ∷ safe_counter_component source_id ∷ "_" ∷ safe_counter_component destination_id ∷ [])
