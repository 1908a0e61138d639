-- ===== src/Examples/Verbatim.antt =====
-- A codec that meets the laws: every non-empty text is one number literal.
use delegatd.Prelude.{
  ◌≡◌, ◌≢◌, refl, sym, ap, ◌∙◌, [], ◌∷◌, ◌++◌, GoString, codes, Result, ok, err, plain,
  ok_injective,
}
use delegatd.Domain.Json.{
  Json, null, bool, number, int, text, array, object, Items, nil, cons, Fields, end, field, Decoded,
  value, eof, Codec, IsCodec,
}

unfoldable pub decode_verbatim : GoString → Decoded
decode_verbatim [] = eof
decode_verbatim (b ∷ s) = value (number (b ∷ s)) []

unfoldable pub encode_verbatim : Json → Result GoString
encode_verbatim (number s) = ok (s ++ 10 ∷ [])
encode_verbatim v = err (plain (codes "not a number"))

unfoldable mutual
  pub flat : Json → GoString
  flat null = codes "null"
  flat (bool b) = codes "bool"
  flat (number s) = s
  flat (int n) = codes "int"
  flat (text s) = s
  flat (array xs) = codes "[" ++ flat_items xs
  flat (object fs) = codes "{" ++ flat_fields fs

  pub flat_items : Items → GoString
  flat_items nil = codes "]"
  flat_items (cons x xs) = flat x ++ codes "," ++ flat_items xs

  pub flat_fields : Fields → GoString
  flat_fields end = codes "}"
  flat_fields (field k x fs) = k ++ codes ":" ++ flat x ++ codes "," ++ flat_fields fs

abbrev pub verbatim : Codec
verbatim = record { decode = decode_verbatim; encode = encode_verbatim; marshal = λ v. ok (flat v) }

verbatim_stable :
    (input rest written : GoString) (v : Json)
    → decode_verbatim input ≡ value v rest
    → encode_verbatim v ≡ ok written
    → (s : GoString) × (written ≡ s ++ 10 ∷ []) × (s ≢ []) × (decode_verbatim s ≡ value v [])
unfolding decode_verbatim encode_verbatim
verbatim_stable [] rest written v d e = cc
verbatim_stable (b ∷ s) rest written v d e =
    let same : number (b ∷ s) ≡ v = cc d in
    (
      b ∷ s,
      ok_injective (sym e ∙ ap encode_verbatim (sym same)),
      λ q. cc q,
      ap (λ u. value u []) same,
    )

pub verbatim-IsCodec : IsCodec verbatim
verbatim-IsCodec = record {
  end_of_input = unfold decode_verbatim in refl;
  stable = verbatim_stable;
}
