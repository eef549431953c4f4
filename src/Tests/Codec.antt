-- ===== src/Tests/Codec.antt =====
-- An encoding of maps of texts: each character has a tag before it, and two tags end a text.
use Prim.Native.Char.{Char, code}
use baetyl_cloud.Common.{String, ◌≡◌, refl, ap, ◌∙◌, List, [], ◌∷◌, if◌then◌else◌, nat_eq}
use baetyl_cloud.Common.Dict.{Dict}

unfoldable pub encode_text : String → String → String
encode_text String.[] rest = String.◌∷◌ "0" (String.◌∷◌ "0" rest)
encode_text (String.◌∷◌ c s) rest = String.◌∷◌ "1" (String.◌∷◌ c (encode_text s rest))

unfoldable pub encode : Dict String → String
encode [] = ""
encode ((k, v) ∷ m) = encode_text k (encode_text v (encode m))

abbrev onto : Char → List String → List String
onto c [] = []
onto c (s ∷ ss) = String.◌∷◌ c s ∷ ss

unfoldable pub decode : String → List String
decode String.[] = []
decode (String.◌∷◌ t String.[]) = []
decode (String.◌∷◌ t (String.◌∷◌ c r)) =
    let rest = decode r in if nat_eq (code t) b'0' then "" ∷ rest else onto c rest

unfoldable pub pairs : List String → Dict String
pairs [] = []
pairs (k ∷ []) = []
pairs (k ∷ (v ∷ r)) = (k, v) ∷ pairs r

decode-encode_text : (s rest : String) → decode (encode_text s rest) ≡ s ∷ decode rest
unfolding encode_text decode
decode-encode_text String.[] rest = refl
decode-encode_text (String.◌∷◌ c s) rest = ap (onto c) (decode-encode_text s rest)

-- A map is decoded to itself.
pub decode-encode : (d : Dict String) → pairs (decode (encode d)) ≡ d
unfolding encode decode pairs
decode-encode [] = refl
decode-encode ((k, v) ∷ m) =
    ap pairs (
      decode-encode_text k (encode_text v (encode m))
      ∙ ap (λ t. k ∷ t) (decode-encode_text v (encode m)))
    ∙ ap (λ t. (k, v) ∷ t) (decode-encode m)
