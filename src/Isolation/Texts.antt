-- ===== src/Isolation/Texts.antt =====
-- The allowances that src/isolation.rs reads from a label or an annotation.
use Prim.Native.Char.{char}
use text.Mathlib.TextLemmas.{nil-append, cons-append}
use egressy.Base.{
  ℕ, ◌≡◌, refl, inl, inr, subst, ◌≤◌, String, Char, append, true, false, some, List, [], ◌∷◌, All,
  any_char, all_chars, is_char, decimal, decimal_free, parse_unsigned, parse_unsigned-decimal,
  parse_unsigned-le, split_once, split_once-append, arith, Bool-cases, Option-cases, is_empty, trim,
  split, map,
}
use egressy.Base.Results.{ok, collect, Result-cases, ok_injective}
use egressy.Isolation.{
  AllowSpec, IsolationProtocol, tcp, udp, nft_name, valid_identity, in_identity, parse_entry,
  parse_allow_list, port_of, protocol_of,
}

abbrev pub entry_text : AllowSpec → String
entry_text spec =
    append spec.destination_id
      (append ":" (append (decimal spec.port) (append "/" (nft_name spec.protocol))))

identity_free : (s : String) → all_chars in_identity s ≡ true → any_char (is_char 58) s ≡ false
identity_free String.[] h = refl
identity_free (String.◌∷◌ c s) h = ground (arith, h, identity_free s)

-- What an entry may name: a valid identity, and a port of sixteen bits that is not zero.
abbrev pub IsAllowSpec : AllowSpec → Type 0
IsAllowSpec spec =
    (valid_identity spec.destination_id ≡ true) × (1 ≤ spec.port) × (spec.port ≤ 65535)

port_of-decimal : (n : ℕ) → 1 ≤ n → n ≤ 65535 → port_of (decimal n) ≡ some n
port_of-decimal n low high = rw (parse_unsigned-decimal 65535 n high, port_of) (ground arith)

protocol_of-nft_name :
    (entry : String) (p : IsolationProtocol) → protocol_of entry (nft_name p) ≡ ok p
unfolding nft_name
protocol_of-nft_name entry tcp = refl
protocol_of-nft_name entry udp = refl

abbrev colon : Char
colon = char 58 tt

abbrev slash : Char
slash = char 47 tt

onto : (c : Char) (s : String) → append (String.◌∷◌ c "") s ≡ String.◌∷◌ c s
onto c s = rw (cons-append c "" s) (rw (nil-append s) refl)

split_identity :
    (i rest : String)
    → valid_identity i ≡ true
    → split_once 58 (append i (append ":" rest)) ≡ some (i, rest)
unfolding valid_identity
split_identity i rest named =
    rw (onto colon rest)
      (split_once-append 58 i colon rest (identity_free i (ground (arith, named))) refl)

split_port :
    (n : ℕ) (rest : String)
    → split_once 47 (append (decimal n) (append "/" rest)) ≡ some (decimal n, rest)
split_port n rest =
    rw (onto slash rest)
      (split_once-append 47 (decimal n) slash rest (decimal_free 47 n (omega arith)) refl)

-- An allowance that is written as its identity, port and protocol is read back.
pub parse_entry-entry_text :
    (spec : AllowSpec) → IsAllowSpec spec → parse_entry (entry_text spec) ≡ ok spec
unfolding parse_entry
parse_entry-entry_text spec (named, low, high) =
    rw
      (split_identity spec.destination_id
        (append (decimal spec.port) (append "/" (nft_name spec.protocol))) named)
      (rw (split_port spec.port (nft_name spec.protocol)) (
        rw named (
          rw (port_of-decimal spec.port low high)
            (rw (protocol_of-nft_name (entry_text spec) spec.protocol) refl))))

port_of_lem : (s : String) (n : ℕ) → port_of s ≡ some n → (1 ≤ n) × (n ≤ 65535)
port_of_lem s n e = elim (Option-cases (parse_unsigned 65535 s)) [
  | inl absent ↦ absurd (ground (arith, absent, e))
  | inr (m, read) ↦ ground (arith, read, e, parse_unsigned-le 65535 s m read)
]

-- What is read of an entry is an allowance that can be written.
parse_entry-IsAllowSpec :
    (entry : String) (spec : AllowSpec) → parse_entry entry ≡ ok spec → IsAllowSpec spec
unfolding parse_entry
parse_entry-IsAllowSpec entry spec e = elim (Option-cases (split_once 58 entry)) [
  | inl none_is ↦ absurd (ground (arith, none_is, e))
  | inr ((i, service), at_colon) ↦ elim (Option-cases (split_once 47 service)) [
    | inl none_is ↦ absurd (ground (arith, at_colon, none_is, e))
    | inr ((port, protocol), at_slash) ↦ elim (Bool-cases (valid_identity i)) [
      | inr invalid ↦ absurd (ground (arith, at_colon, at_slash, invalid, e))
      | inl named ↦ elim (Option-cases (port_of port)) [
        | inl none_is ↦ absurd (ground (arith, at_colon, at_slash, named, none_is, e))
        | inr (n, number) ↦ elim (Result-cases (protocol_of entry protocol)) [
          | inr (error, kind) ↦ absurd (ground (arith, at_colon, at_slash, named, number, kind, e))
          | inl (p, kind) ↦
              ground (arith, at_colon, at_slash, named, number, kind, e, port_of_lem port n number)
        ]
      ]
    ]
  ]
]

collect-IsAllowSpec :
    (es : List String) (specs : List AllowSpec)
    → collect parse_entry es ≡ ok specs
    → All IsAllowSpec specs
unfolding collect
collect-IsAllowSpec [] specs e = subst (All IsAllowSpec) (ok_injective e) tt
collect-IsAllowSpec (x ∷ xs) specs e = elim (Result-cases (parse_entry x)) [
  | inr (error, bad) ↦ absurd (ground (arith, bad, e))
  | inl (spec, read) ↦ elim (Result-cases (collect parse_entry xs)) [
    | inr (error, bad) ↦ absurd (ground (arith, read, bad, e))
    | inl (rest, later) ↦
        let same : spec ∷ rest ≡ specs = ground (arith, read, later, e) in
        subst (All IsAllowSpec) same
          (parse_entry-IsAllowSpec x spec read, collect-IsAllowSpec xs rest later)
  ]
]

-- A list of allowances that is accepted names only valid identities and ports from 1 to 65535.
pub parse_allow_list-IsAllowSpec :
    (raw : String) (specs : List AllowSpec)
    → parse_allow_list raw ≡ ok specs
    → All IsAllowSpec specs
unfolding parse_allow_list
parse_allow_list-IsAllowSpec raw specs e = elim (Bool-cases (is_empty (trim raw))) [
  | inl empty ↦ let same : [] ≡ specs = ground (arith, empty, e) in subst (All IsAllowSpec) same tt
  | inr full ↦ collect-IsAllowSpec (map trim (split 44 raw)) specs (ground (arith, full, e))
]
