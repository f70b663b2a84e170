-- ===== src/Tests/Params.antt =====
-- The parameters and the maps of saturn/http/http.cc at concrete inputs.
use saturn.Base.{ℕ, ◌≡◌, refl, inl, List, [], ◌∷◌, bytes, arith}
use saturn.Http.{chars_to_http_method}
use saturn.Http.Fields.{MapType}
use saturn.Http.Params.{parse_params}
use saturn.Http.ParamLaws.{print_params, insert_all, parse_params-print_params}

abbrev fields : MapType
fields = (bytes "Host", bytes "a") ∷ []

abbrev params : List (List ℕ × List ℕ)
params = (bytes "q", bytes "a b") ∷ (bytes "r", bytes "&") ∷ []

chars_to_http_method_run : chars_to_http_method (bytes "GETX") ≡ chars_to_http_method (bytes "GET")
unfolding chars_to_http_method
chars_to_http_method_run = refl

parse_params-print_params_example :
    parse_params 38 (λ k. k) (print_params 38 params) [] ≡ insert_all (λ k. k) params []
parse_params-print_params_example =
    parse_params-print_params 38 (λ k. k) (inl refl) params []
      (
        ((refl, tt), (omega arith, (omega arith, (omega arith, tt)))),
        (((refl, tt), (omega arith, tt)), tt),
      )
