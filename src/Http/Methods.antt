-- ===== src/Http/Methods.antt =====
-- The conversions of methods and statuses against each other.
use saturn.Base.{ℕ, ◌≡◌, refl, List, ◌++◌, All}
use saturn.Http.{
  http_method_map, http_status_map, string_to_http_method, chars_to_http_method,
  http_method_to_string, http_status_to_string,
}

-- What the conversions make of one row.
abbrev pub MethodRow : ℕ × List ℕ → Type 0
MethodRow (n, s) =
    (http_method_to_string n ≡ s)
    × (string_to_http_method s ≡ n)
    × ((rest : List ℕ) → chars_to_http_method (s ++ rest) ≡ n)

-- The proofs of the rows one after the other.
infixr 2 ◌then_row◌
abbrev ◌then_row◌ {ℓ κ} : {A : Type ℓ} {B : Type κ} → A → B → A × B
a then_row b = (a, b)

-- Every method of the table is printed as its text, and is read back from it, by `StringToHttpMethod` from
-- the text alone and by `CharsToHttpMethod` whatever follows the text: no method begins with another.
pub method_rows : All MethodRow http_method_map
unfolding http_method_map string_to_http_method chars_to_http_method http_method_to_string
method_rows =
    (refl, refl, λ rest. refl)
    then_row (refl, refl, λ rest. refl)
    then_row (refl, refl, λ rest. refl)
    then_row (refl, refl, λ rest. refl)
    then_row (refl, refl, λ rest. refl)
    then_row (refl, refl, λ rest. refl)
    then_row (refl, refl, λ rest. refl)
    then_row (refl, refl, λ rest. refl)
    then_row (refl, refl, λ rest. refl)
    then_row (refl, refl, λ rest. refl)
    then_row (refl, refl, λ rest. refl)
    then_row (refl, refl, λ rest. refl)
    then_row (refl, refl, λ rest. refl)
    then_row (refl, refl, λ rest. refl)
    then_row (refl, refl, λ rest. refl)
    then_row (refl, refl, λ rest. refl)
    then_row (refl, refl, λ rest. refl)
    then_row (refl, refl, λ rest. refl)
    then_row (refl, refl, λ rest. refl)
    then_row (refl, refl, λ rest. refl)
    then_row (refl, refl, λ rest. refl)
    then_row (refl, refl, λ rest. refl)
    then_row (refl, refl, λ rest. refl)
    then_row (refl, refl, λ rest. refl)
    then_row (refl, refl, λ rest. refl)
    then_row (refl, refl, λ rest. refl)
    then_row (refl, refl, λ rest. refl)
    then_row (refl, refl, λ rest. refl)
    then_row (refl, refl, λ rest. refl)
    then_row (refl, refl, λ rest. refl)
    then_row (refl, refl, λ rest. refl)
    then_row (refl, refl, λ rest. refl)
    then_row (refl, refl, λ rest. refl)
    then_row (refl, refl, λ rest. refl)
    then_row tt

-- Every status of the table is printed as its message.
pub status_rows : All (λ (row : ℕ × List ℕ). http_status_to_string row.0 ≡ row.1) http_status_map
unfolding http_status_map http_status_to_string
status_rows =
    refl then_row refl then_row refl then_row refl then_row refl then_row refl then_row refl
    then_row refl then_row refl then_row refl then_row refl then_row refl then_row refl
    then_row refl then_row refl then_row refl then_row refl then_row refl then_row refl
    then_row refl then_row refl then_row refl then_row refl then_row refl then_row refl
    then_row refl then_row refl then_row refl then_row refl then_row refl then_row refl
    then_row refl then_row refl then_row refl then_row refl then_row refl then_row refl
    then_row refl then_row refl then_row refl then_row refl then_row refl then_row refl
    then_row refl then_row refl then_row refl then_row refl then_row refl then_row refl
    then_row refl then_row refl then_row refl then_row refl then_row refl then_row refl
    then_row refl then_row refl then_row refl then_row refl then_row tt
