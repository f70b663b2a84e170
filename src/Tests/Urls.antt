-- ===== src/Tests/Urls.antt =====
-- `StringUtil` of saturn/util.cc at concrete inputs.
use saturn.Base.{◌≡◌, refl, true, false, [], ◌∷◌, arith}
use saturn.StringUtil.{
  uri_chars, char_is_unreserved, hexdigits, escape, url_encode_step, url_encode_loop, url_encode,
  two_xdigits, url_decode_step, url_decode_loop, url_decode,
}
use saturn.StringUtil.Url.{url_decode-url_encode}

-- "a +" becomes "a+%2B".
url_encode_run : url_encode (97 ∷ 32 ∷ 43 ∷ []) true ≡ 97 ∷ 43 ∷ 37 ∷ 50 ∷ 66 ∷ []
unfolding url_encode url_encode_loop url_encode_step char_is_unreserved escape hexdigits uri_chars
url_encode_run = refl

-- "%2" stays as it is.
url_decode_run : url_decode (37 ∷ 50 ∷ []) false ≡ 37 ∷ 50 ∷ []
unfolding url_decode url_decode_loop url_decode_step two_xdigits
url_decode_run = refl

url_decode-url_encode_example :
    url_decode (url_encode (97 ∷ 32 ∷ 255 ∷ []) false) false ≡ 97 ∷ 32 ∷ 255 ∷ []
url_decode-url_encode_example =
    url_decode-url_encode (97 ∷ 32 ∷ 255 ∷ []) false (omega arith, (omega arith, (omega arith, tt)))
