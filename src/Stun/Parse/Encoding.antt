-- ===== src/Stun/Parse/Encoding.antt =====
-- An encoder of STUN messages (RFC 5389, section 6 and 15), and what the parser makes of its output.
use mathlib.Core.List.{append_assoc}
use mathlib.Core.Path.{fun_ext}
use jrok_rs.Base.{
  ℕ, zero, suc, ◌+◌, ◌-◌, ◌/◌, ◌%◌, ◌≤◌, ◌<◌, ◌≡◌, refl, sym, ap, ◌∙◌, List, [], ◌∷◌, ◌++◌, arith,
  length, some, get_elem?, length-append, lt→ltb, le→ltb_false,
}
use jrok_rs.Bytes.{slice, be16, align4, to_be16}
use jrok_rs.Bytes.Laws.{
  be16_lem, slice_in_bounds, le-align4, get_elem?-append, drop-append, take-append,
}
use jrok_rs.Exec.{Exec, returns, ◌>>=◌}
use jrok_rs.Stun.Parse.{Found, on_attribute, parse_attributes}

-- An attribute with its value and the bytes that fill it up to a multiple of four.
pub record Attribute : Type 0 where
  pub kind : ℕ
  pub value : List ℕ
  pub padding : List ℕ

pub record IsAttribute (a : Attribute) : Type 0 where
  pub kind_fits : a.kind < 65536
  pub length_fits : length a.value < 65536
  pub padded : length a.value + length a.padding ≡ align4 (length a.value)

abbrev pub AllAttributes : List Attribute → Type 0
AllAttributes [] = Unit {0}
AllAttributes (a ∷ rest) = IsAttribute a × AllAttributes rest

unfoldable pub encode_attributes : List Attribute → List ℕ
encode_attributes [] = []
encode_attributes (a ∷ rest) =
    to_be16 a.kind ++ to_be16 (length a.value) ++ (a.value ++ (a.padding ++ encode_attributes rest))

-- The attributes taken in order, each handed to the parser's `match`.
unfoldable pub meaning : List Attribute → Found → Exec Found
meaning [] found = returns found
meaning (a ∷ rest) found = on_attribute a.kind a.value found >>= meaning rest

abbrev pub header : Attribute → List ℕ
header a = to_be16 a.kind ++ to_be16 (length a.value)

-- A big-endian number behind a prefix reads back.
pub be16-behind :
    (pre tail : List ℕ) (i k n : ℕ)
    → n < 65536
    → i ≡ length pre + k
    → get_elem? tail k ≡ some (n / 256 % 256)
    → get_elem? tail (k + 1) ≡ some (n % 256)
    → be16 (pre ++ tail) i ≡ returns n
be16-behind pre tail i k n h e p q =
    be16_lem (pre ++ tail) i (get_elem?-append pre tail i k e ∙ p)
      (get_elem?-append pre tail (i + 1) (k + 1) (omega arith) ∙ q)
    ∙ ap returns (omega arith)

parse_attributes_step :
    (fuel : ℕ) (response : List ℕ) (stop pos kind len : ℕ) (value : List ℕ) (found : Found)
    → pos < stop
    → pos + 4 + align4 len ≤ length response
    → be16 response pos ≡ returns kind
    → be16 response (pos + 2) ≡ returns len
    → slice response (pos + 4) (pos + 4 + len) ≡ returns value
    → parse_attributes (suc fuel) response stop pos found ≡ (
        on_attribute kind value found
        >>= parse_attributes fuel response stop (pos + 4 + align4 len))
unfolding parse_attributes
parse_attributes_step fuel response stop pos kind len value found h fits k l v =
    rw
      (
        lt→ltb pos stop h,
        le→ltb_false (length response) (pos + 4) (omega arith),
        k,
        l,
        le→ltb_false (length response) (pos + 4 + align4 len) fits,
        v,
      )
      refl

module _ (pre : List ℕ) (a : Attribute) (tail : List ℕ) (v : IsAttribute a) where
  abbrev pub whole : List ℕ
  whole = pre ++ (header a ++ (a.value ++ (a.padding ++ tail)))

  pub read_kind : be16 whole (length pre) ≡ returns a.kind
  read_kind = be16-behind pre _ (length pre) 0 a.kind v.kind_fits (omega arith) refl refl

  pub read_length : be16 whole (length pre + 2) ≡ returns (length a.value)
  read_length =
      be16-behind pre _ (length pre + 2) 2 (length a.value) v.length_fits (omega arith) refl refl

  pub length-whole : length whole ≡ length pre + 4 + align4 (length a.value) + length tail
  length-whole = omega (
    arith,
    v.padded,
    length-append pre (header a ++ (a.value ++ (a.padding ++ tail))),
    length-append a.value (a.padding ++ tail),
    length-append a.padding tail,
  )

  read_value : slice whole (length pre + 4) (length pre + 4 + length a.value) ≡ returns a.value
  read_value =
      slice_in_bounds whole (length pre + 4) (length pre + 4 + length a.value) (omega arith)
        (omega (arith, length-whole, le-align4 (length a.value)))
      ∙ ap returns (
          rw
            (drop-append pre (header a ++ (a.value ++ (a.padding ++ tail))) (length pre + 4) 4 refl)
            (take-append a.value (a.padding ++ tail)
              (length pre + 4 + length a.value - (length pre + 4)) (omega arith)))

  -- The prefix that the next round stands behind.
  abbrev pub next_prefix : List ℕ
  next_prefix = pre ++ (header a ++ (a.value ++ a.padding))

  pub regroup : whole ≡ next_prefix ++ tail
  regroup = simp append_assoc

  pub length-next_prefix : length next_prefix ≡ length pre + 4 + align4 (length a.value)
  length-next_prefix = omega (
    arith,
    v.padded,
    length-append pre (header a ++ (a.value ++ a.padding)),
    length-append a.value a.padding,
  )

-- The loop over an encoded list of attributes takes them one after another.
pub parse_attributes-encode :
    (rest : List Attribute) (fuel : ℕ) (pre : List ℕ) (stop : ℕ) (found : Found)
    → AllAttributes rest
    → stop ≡ length pre + length (encode_attributes rest)
    → length (encode_attributes rest) < fuel
    → parse_attributes fuel (pre ++ encode_attributes rest) stop (length pre) found
      ≡ meaning rest found
unfolding parse_attributes encode_attributes meaning
parse_attributes-encode rest zero pre stop found v s f = absurd (omega arith)
parse_attributes-encode [] (suc fuel) pre stop found v s f =
    rw (le→ltb_false (length pre) stop (omega arith)) refl
parse_attributes-encode (a ∷ rest) (suc fuel) pre stop found v s f =
    parse_attributes_step fuel (whole pre a tail v.0) stop (length pre) a.kind (length a.value)
      a.value found (omega (arith, size, s)) (omega (arith, size)) (read_kind pre a tail v.0)
      (read_length pre a tail v.0) (read_value pre a tail v.0)
    ∙ ap (λ k. on_attribute a.kind a.value found >>= k)
        (fun_ext λ found'.
          (λ i.
            parse_attributes fuel (regroup pre a tail v.0 i) stop
              (sym (length-next_prefix pre a tail v.0) i) found')
          ∙ parse_attributes-encode rest fuel (next_prefix pre a tail v.0) stop found' v.1
              (omega (
                arith,
                size,
                s,
                length-append pre (encode_attributes (a ∷ rest)),
                length-next_prefix pre a tail v.0,
              ))
              (omega (arith, size, f, length-append pre (encode_attributes (a ∷ rest)))))
  where
    tail : List ℕ
    tail = encode_attributes rest

    size : length (whole pre a tail v.0) ≡ length pre + 4 + align4 (length a.value) + length tail
    size = length-whole pre a tail v.0
