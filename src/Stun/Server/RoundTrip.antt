-- ===== src/Stun/Server/RoundTrip.antt =====
-- src/stun/mod.rs: a server address in its text form, read by `from_str`.
use Prim.Native.Char.{code}
use text.Mathlib.TextLemmas.{cons-append, nil-append}
use jrok_rs.Base.{
  ℕ, ◌<◌, ◌^◌, ◌≡◌, ◌≢◌, refl, ap, ◌∙◌, inl, inr, Bool, true, false, ◌||◌, some, String, List, [],
  ◌∷◌, ◌++◌, ◌==◌, arith, Bool-cases, if◌then◌else◌,
}
use jrok_rs.Base.Text.{◌+s◌, show_ℕ}
use jrok_rs.Base.Text.Decimal.{AllDigits, show_ℕ-AllDigits, parse_uint-show_ℕ}
use jrok_rs.Error.{ok, err, internal}
use jrok_rs.Stun.Server.{onto_first, split_colon, parse_u16, from_parts, from_str}

abbrev pub has_colon : String → Bool
has_colon String.[] = false
has_colon (String.◌∷◌ c s) = (code c == b':') || has_colon s

cons_ne : (x : String) (xs : List String) → x ∷ xs ≢ []
cons_ne x xs empty = ground arith

onto_first_ne : (c : String) (xs : List String) → onto_first c xs ≢ []
onto_first_ne c [] = cons_ne c []
onto_first_ne c (x ∷ xs) = cons_ne (c +s x) xs

if_ne : (b : Bool) (xs ys : List String) → xs ≢ [] → ys ≢ [] → (if b then xs else ys) ≢ []
if_ne true xs ys ne ne' = ne
if_ne false xs ys ne ne' = ne'

split_colon_ne : (s : String) → split_colon s ≢ []
unfolding split_colon
split_colon_ne String.[] = cons_ne "" []
split_colon_ne (String.◌∷◌ c s) =
    if_ne (code c == b':') ("" ∷ split_colon s)
      (onto_first (String.◌∷◌ c String.[]) (split_colon s)) (cons_ne "" (split_colon s))
      (onto_first_ne (String.◌∷◌ c String.[]) (split_colon s))

head_of : (xs : List String) → xs ≢ [] → (x : String) × (rest : List String) × (xs ≡ x ∷ rest)
head_of [] ne = absurd (ne refl)
head_of (x ∷ xs) ne = (x, xs, refl)

onto_first-append :
    (c : String) (xs ys : List String) → xs ≢ [] → onto_first c (xs ++ ys) ≡ onto_first c xs ++ ys
onto_first-append c [] ys ne = absurd (ne refl)
onto_first-append c (x ∷ xs) ys ne = refl

-- The parts on the two sides of a colon.
split_colon-append : (s t : String) → split_colon (s +s ":" +s t) ≡ split_colon s ++ split_colon t
unfolding split_colon
split_colon-append String.[] t =
    ap split_colon (nil-append (":" +s t) ∙ cons-append ":" String.[] t)
    ∙ ap (λ u. "" ∷ split_colon u) (nil-append t)
split_colon-append (String.◌∷◌ c s) t =
    ap split_colon (cons-append c s (":" +s t)) ∙ elim (Bool-cases (code c == b':')) [
      | inl colon ↦ rw (colon, split_colon) (ap (λ parts. "" ∷ parts) (split_colon-append s t))
      | inr other ↦
          rw (other, split_colon)
            (ap (onto_first (String.◌∷◌ c String.[])) (split_colon-append s t)
              ∙ onto_first-append (String.◌∷◌ c String.[]) (split_colon s) (split_colon t)
                  (split_colon_ne s))
    ]

split_colon-one : (s : String) → has_colon s ≡ false → split_colon s ≡ s ∷ []
unfolding split_colon
split_colon-one String.[] none_in = refl
split_colon-one (String.◌∷◌ c s) none_in = elim (Bool-cases (code c == b':')) [
  | inl colon ↦ absurd (ground arith)
  | inr other ↦
      rw (other, split_colon)
        (ap (onto_first (String.◌∷◌ c String.[])) (split_colon-one s (ground arith))
          ∙ ap (λ t. t ∷ []) (cons-append c String.[] s ∙ ap (String.◌∷◌ c) (nil-append s)))
]

split_colon-more :
    (s : String)
    → has_colon s ≡ true
    → (a : String) × (b : String) × (rest : List String) × (split_colon s ≡ a ∷ b ∷ rest)
unfolding split_colon
split_colon-more String.[] colon = ground arith
split_colon-more (String.◌∷◌ c s) colon = elim (Bool-cases (code c == b':')) [
  | inl hit ↦
      let (x, rest, eq) = head_of (split_colon s) (split_colon_ne s) in
      ("", x, rest, rw (hit, split_colon) (ap (λ parts. "" ∷ parts) eq))
  | inr other ↦
      let (a, b, rest, eq) = split_colon-more s (ground arith) in
      (
        String.◌∷◌ c String.[] +s a,
        b,
        rest,
        rw (other, split_colon) (ap (onto_first (String.◌∷◌ c String.[])) eq),
      )
]

digits-has_colon : (s : String) → AllDigits s → has_colon s ≡ false
digits-has_colon String.[] given = refl
digits-has_colon (String.◌∷◌ c s) (low, high, given) = ground (arith, digits-has_colon s given)

from_parts-more :
    (text a b port : String) (rest : List String)
    → from_parts text (a ∷ b ∷ (rest ++ (port ∷ [])))
      ≡ err (internal ("Invalid STUN server address: " +s text))
unfolding from_parts
from_parts-more text a b port [] = refl
from_parts-more text a b port (c ∷ rest) = refl

from_parts-two :
    (text addr port : String) (p : ℕ)
    → parse_u16 port ≡ some p
    → from_parts text (addr ∷ port ∷ []) ≡ ok (record { addr = addr; port = p })
unfolding from_parts
from_parts-two text addr port p read = rw (read, from_parts) refl

-- An address and a port that are written with a colon between them are read as they are, unless the
-- address has a colon of its own, as an IPv6 address has: then they are refused.
pub from_str-show_ℕ :
    (addr : String) (port : ℕ)
    → port < 2 ^ 16
    → let text = addr +s ":" +s show_ℕ port in
      from_str text ≡ (
        if has_colon addr
        then err (internal ("Invalid STUN server address: " +s text))
        else ok (record { addr = addr; port = port }))
unfolding from_str parse_u16
from_str-show_ℕ addr port small =
    let text = addr +s ":" +s show_ℕ port in
    let port_parts : split_colon (show_ℕ port) ≡ show_ℕ port ∷ [] =
      split_colon-one (show_ℕ port) (digits-has_colon (show_ℕ port) (show_ℕ-AllDigits port)) in
    let parts : split_colon text ≡ split_colon addr ++ (show_ℕ port ∷ []) =
      split_colon-append addr (show_ℕ port) ∙ ap (λ ps. split_colon addr ++ ps) port_parts in
    elim (Bool-cases (has_colon addr)) [
      | inl colon ↦
          let (a, b, rest, eq) = split_colon-more addr colon in
          rw colon (
            ap (from_parts text) (parts ∙ ap (λ ps. ps ++ (show_ℕ port ∷ [])) eq)
            ∙ from_parts-more text a b (show_ℕ port) rest)
      | inr plain ↦ rw plain (
          ap (from_parts text)
            (parts ∙ ap (λ ps. ps ++ (show_ℕ port ∷ [])) (split_colon-one addr plain))
          ∙ from_parts-two text addr (show_ℕ port) port
              (parse_uint-show_ℕ 65536 port (omega arith) (omega arith)))
    ]
