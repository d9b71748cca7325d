-- ===== src/Errors.antt =====
-- Go error values: the text of Error(), and the sentinels that errors.Is finds in the chain.
use workspace_service.Base.{
  ◌≡◌, refl, ◌⊎◌, inl, inr, Bool, false, ◌||◌, Option, none, some, ◌==◌, List, [], ◌∷◌, ◌++◌, Text,
  codes, ℕ, format_uint,
}

-- The package variables that are made by errors.New and compared by errors.Is, and the APIError of
-- internal/domain/gateway/gateway.go, which errors.As finds.
pub data Sentinel : Type 0 where
  invalid_context : Sentinel
  invalid_file_request : Sentinel
  invalid_clone_req : Sentinel
  invalid_git_request : Sentinel
  not_found : Sentinel
  already_exists : Sentinel
  not_a_file : Sentinel
  not_a_directory : Sentinel
  file_too_large : Sentinel
  invalid_request : Sentinel
  api_error : (status_code : ℕ) (content_type body : Text) → Sentinel

pub record Error : Type 0 where
  pub message : Text
  pub chain : List Sentinel

-- A number for each variable; an APIError is none of them.
number_of : Sentinel → ℕ
number_of invalid_context = 0
number_of invalid_file_request = 1
number_of invalid_clone_req = 2
number_of invalid_git_request = 3
number_of not_found = 4
number_of already_exists = 5
number_of not_a_file = 6
number_of not_a_directory = 7
number_of file_too_large = 8
number_of invalid_request = 9
number_of (api_error status_code content_type body) = 10

text_of : Sentinel → Text
unfolding format_uint
text_of invalid_context = codes "invalid request context"
text_of invalid_file_request = codes "invalid file request"
text_of invalid_clone_req = codes "invalid git clone request"
text_of invalid_git_request = codes "invalid git request"
text_of not_found = codes "path not found"
text_of already_exists = codes "path already exists"
text_of not_a_file = codes "not a file"
text_of not_a_directory = codes "not a directory"
text_of file_too_large = codes "file too large for inline read"
text_of invalid_request = codes "invalid file request"
text_of (api_error status_code content_type body) =
    codes "gateway returned status " ++ format_uint status_code

-- The sentinel itself, as an error.
unfoldable pub sentinel : Sentinel → Error
unfolding text_of
sentinel s = record { message = text_of s; chain = s ∷ [] }

-- errors.New(text)
unfoldable pub new_error : Text → Error
new_error text = record { message = text; chain = [] }

-- fmt.Errorf("%w: text", s)
unfoldable pub sentinel_text : Sentinel → Text → Error
unfolding text_of
sentinel_text s text = record { message = text_of s ++ (codes ": " ++ text); chain = s ∷ [] }

-- fmt.Errorf("%w: %w", s, err)
unfoldable pub sentinel_wrap : Sentinel → Error → Error
unfolding text_of
sentinel_wrap s err = record {
  message = text_of s ++ (codes ": " ++ err.message);
  chain = s ∷ err.chain;
}

-- fmt.Errorf("%w: %v", s, err): the chain of err is cut off.
unfoldable pub sentinel_show : Sentinel → Error → Error
unfolding sentinel_text
sentinel_show s err = sentinel_text s err.message

-- fmt.Errorf("prefix: %w", err)
unfoldable pub prefix_wrap : Text → Error → Error
prefix_wrap text err = record err { message = text ++ (codes ": " ++ err.message) }

same_sentinel : Sentinel → Sentinel → Bool
unfolding number_of
same_sentinel a b = number_of a == number_of b

chain_has : Sentinel → List Sentinel → Bool
unfolding same_sentinel
chain_has s [] = false
chain_has s (t ∷ ts) = same_sentinel t s || chain_has s ts

-- errors.Is(err, s), with the sentinel first
unfoldable pub error_is : Sentinel → Error → Bool
unfolding chain_has
error_is s err = chain_has s err.chain

-- The first APIError of the chain.
first_api_error : List Sentinel → Option (ℕ × Text × Text)
first_api_error [] = none
first_api_error (api_error status_code content_type body ∷ ts) =
    some (status_code, content_type, body)
first_api_error (invalid_context ∷ ts) = first_api_error ts
first_api_error (invalid_file_request ∷ ts) = first_api_error ts
first_api_error (invalid_clone_req ∷ ts) = first_api_error ts
first_api_error (invalid_git_request ∷ ts) = first_api_error ts
first_api_error (not_found ∷ ts) = first_api_error ts
first_api_error (already_exists ∷ ts) = first_api_error ts
first_api_error (not_a_file ∷ ts) = first_api_error ts
first_api_error (not_a_directory ∷ ts) = first_api_error ts
first_api_error (file_too_large ∷ ts) = first_api_error ts
first_api_error (invalid_request ∷ ts) = first_api_error ts

-- errors.As(err, &apiErr)
unfoldable pub as_api_error : Error → Option (ℕ × Text × Text)
unfolding first_api_error
as_api_error err = first_api_error err.chain

-- A Go function's value and error, of which one counts.
pub data Result {ℓ} (A : Type ℓ) : Type ℓ where
  ok : (value : A) → Result A
  err : (error : Error) → Result A

-- `if err != nil { return ..., f(err) }`
abbrev pub map_err {ℓ} : {A : Type ℓ} → (Error → Error) → Result A → Result A
map_err f (err e) = err (f e)
map_err f (ok a) = ok a

infixl 5 ◌>>=◌
-- `if err != nil { return ..., err }`, and the rest of the function for the value
abbrev pub ◌>>=◌ {ℓ κ} : {A : Type ℓ} {B : Type κ} → Result A → (A → Result B) → Result B
err e >>= rest = err e
ok a >>= rest = rest a

infixl 5 ◌>>◌
abbrev pub ◌>>◌ {ℓ κ} : {A : Type ℓ} {B : Type κ} → Result A → Result B → Result B
first >> rest = first >>= λ _. rest

pub Result-cases {ℓ} :
    {A : Type ℓ} (m : Result A) → ((a : A) × (m ≡ ok a)) ⊎ ((e : Error) × (m ≡ err e))
Result-cases (ok a) = inl (a, refl)
Result-cases (err e) = inr (e, refl)

pub map_err-eq_ok {ℓ} :
    {A : Type ℓ} (g : Error → Error) (m : Result A) {a : A} → map_err g m ≡ ok a → m ≡ ok a
map_err-eq_ok g (ok a) h = h
map_err-eq_ok g (err e) h = cc

module _ {ℓ κ} {A : Type ℓ} {B : Type κ} (rest : A → Result B) where
  -- A success behind a call is a success of the call.
  pub >>=-eq-ok :
      (first : Result A) {b : B}
      → (first >>= rest) ≡ ok b
      → (a : A) × (first ≡ ok a) × (rest a ≡ ok b)
  >>=-eq-ok (err e) h = absurd (cc h)
  >>=-eq-ok (ok a) h = (a, refl, h)
