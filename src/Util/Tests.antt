-- ===== src/Util/Tests.antt =====
-- The text functions at short texts.
use routn.Base.{
  ℕ, ◌+◌, ◌*◌, ◌/◌, ◌≡◌, refl, true, false, List, [], ◌∷◌, ◌++◌, length, some, none, arith,
}
use routn.Util.Url.{uri_chars, xdigit_chars, url_encode, url_decode}
use routn.Util.Url.Plain.{plain_encode, plain_decode, url-plain}
use routn.Util.Url.RoundTrip.{url_decode-url_encode}
use routn.Util.Base64.{base64_chars, base64encode}
use routn.Util.Base64.Decoding.{base64_decode, base64_decode-base64encode}
use routn.Util.Trim.{trim, trim_right}
use routn.Util.Replace.{replace}
use routn.Util.Replace.Single.{plain_replace, replace_single, replace_endless}
use routn.Util.Trim.Ends.{trim_result, trim_right_cuts}

uri_chars_length : length uri_chars ≡ 256
uri_chars_length = refl

xdigit_chars_length : length xdigit_chars ≡ 256
xdigit_chars_length = refl

base64_chars_length : length (base64_chars true) ≡ 64
unfolding base64_chars
base64_chars_length = refl

-- "a b+%"
abbrev sample : List ℕ
sample = 97 ∷ 32 ∷ 98 ∷ 43 ∷ 37 ∷ []

url-plain_example :
    (url_encode sample true ≡ plain_encode true sample)
    × (url_decode sample true ≡ plain_decode true sample)
url-plain_example = url-plain sample true

url_decode-url_encode_example : url_decode (url_encode sample true) true ≡ sample
url_decode-url_encode_example =
    url_decode-url_encode sample true
      (omega arith, (omega arith, (omega arith, (omega arith, (omega arith, tt)))))

base64_decode-base64encode_example :
    (base64_decode false (base64encode sample false) ≡ sample)
    × (length (base64encode sample false) ≡ 4 * ((length sample + 2) / 3))
base64_decode-base64encode_example =
    base64_decode-base64encode sample false
      (omega arith, (omega arith, (omega arith, (omega arith, (omega arith, tt)))))

trim_result_example :
    trim ((32 ∷ []) ++ ((97 ∷ 32 ∷ []) ++ (98 ∷ (32 ∷ 10 ∷ [])))) (32 ∷ 10 ∷ [])
    ≡ (97 ∷ 32 ∷ []) ++ (98 ∷ [])
trim_result_example =
    trim_result (32 ∷ 10 ∷ []) (32 ∷ []) (97 ∷ 32 ∷ []) (32 ∷ 98 ∷ []) (32 ∷ 10 ∷ []) 97 98
      (refl, tt) (refl, (refl, tt)) refl refl refl (omega arith)

trim_right_cuts_example : trim_right ((97 ∷ []) ++ (98 ∷ (32 ∷ []))) (32 ∷ []) ≡ 97 ∷ []
trim_right_cuts_example = trim_right_cuts (32 ∷ []) (97 ∷ []) (32 ∷ []) 98 (refl, tt) refl

replace_single_example :
    replace 5 sample (32 ∷ []) (32 ∷ 32 ∷ []) ≡ some (plain_replace 32 (32 ∷ 32 ∷ []) sample)
replace_single_example = replace_single 32 (32 ∷ 32 ∷ []) sample

replace_endless_example : replace 3 sample [] (97 ∷ []) ≡ none
replace_endless_example = replace_endless 3 (97 ∷ []) sample
