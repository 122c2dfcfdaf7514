-- ===== src/Auth.antt =====
-- pkg/tsctl/auth/token.go and types.go: the stored data and the tokens. The decoding of claims and
-- the clock are parameters. An int64 is its 64-bit word.
pub mod Switch
pub mod Race
mod Tests
use remote_docker_agent.Prelude.{
  ℕ, zero, suc, ◌+◌, ◌-◌, ◌%◌, ◌≡◌, Bool, true, false, not, ◌&&◌, ◌||◌, Option, none, some, List,
  [], ◌∷◌, ◌==◌, ltb, if◌then◌else◌, length, Text, codes, is_empty, text_eq, split, Result, ok, err,
  ◌>>=◌, ◌>>◌, guard, ℤ, pos, negsuc, atoi,
}

pub record UserInfo : Type 0 where
  pub id : Text
  pub first_name : Text
  pub last_name : Text

pub record OrganizationInfo : Type 0 where
  pub id : Text
  pub name : Text

pub record TokenInfo : Type 0 where
  pub id_token : Text
  pub refresh_token : Text

pub record EndpointsInfo : Type 0 where
  pub auth : Text
  pub open_api : Text
  pub connect : Text

pub record AuthData : Type 0 where
  pub user : Option UserInfo
  pub organization : Option OrganizationInfo
  pub token : Option TokenInfo
  pub endpoints : Option EndpointsInfo

pub record Organization : Type 0 where
  pub id : Text
  pub name : Text
  pub description : Text
  pub subscription : Text

pub record TokenResponse : Type 0 where
  pub access_token : Text
  pub token_type : Text
  pub expires_in : ℤ
  pub refresh_token : Text
  pub id_token : Text
  pub scope : Text

-- `IDTokenClaims`
pub record Claims : Type 0 where
  pub sub : Text
  pub first_name : Text
  pub last_name : Text
  pub email : Text
  pub exp : ℕ
  pub iat : ℕ

-- What is used of the time: whether now is after a Unix time, now as a Unix time, and whether the
-- quotient of two numbers in float64 is less than 0.2. `decode` decodes the payload of a token.
pub record Clock : Type 0 where
  pub decode : Text → Option Claims
  pub is_after : ℕ → Bool
  pub unix : ℕ
  pub below_fifth : ℕ → ℕ → Bool

unfoldable pub payload_of : List Text → Option Text
payload_of (header ∷ payload ∷ signature ∷ []) = some payload
payload_of _ = none

unfoldable pub decoded : Clock → Option Text → Option Claims
decoded clock none = none
decoded clock (some payload) = clock.decode payload

unfoldable pub parse_id_token : Clock → Text → Option Claims
parse_id_token clock id_token = decoded clock (payload_of (split b'.' id_token))

-- Subtraction of int64 words, and whether a word stands for a positive number.
unfoldable pub minus64 : ℕ → ℕ → ℕ
minus64 a b = (a + (18446744073709551616 - b % 18446744073709551616)) % 18446744073709551616

unfoldable pub is_positive : ℕ → Bool
is_positive n = ltb 0 n && ltb n 9223372036854775808

unfoldable pub is_token_expired : Clock → Text → Option Bool
is_token_expired clock id_token = elim (parse_id_token clock id_token) [
  | none ↦ none
  | some claims ↦ some (clock.is_after claims.exp)
]

-- The remaining part of the lifetime: nothing, or a quotient of words.
pub data Remaining : Type 0 where
  nothing : Remaining
  quotient : ℕ → ℕ → Remaining

unfoldable pub remaining_of : ℕ → Claims → Remaining
remaining_of now claims =
    let total_lifetime = minus64 claims.exp claims.iat in
    let remaining = minus64 claims.exp now in
    if is_positive total_lifetime && is_positive remaining
    then quotient remaining total_lifetime
    else nothing

unfoldable pub get_token_remaining_percentage : Clock → Text → Option Remaining
get_token_remaining_percentage clock id_token = elim (parse_id_token clock id_token) [
  | none ↦ none
  | some claims ↦ some (remaining_of clock.unix claims)
]

unfoldable pub is_below_fifth : Clock → Remaining → Bool
is_below_fifth clock nothing = true
is_below_fifth clock (quotient remaining total_lifetime) =
    clock.below_fifth remaining total_lifetime

unfoldable pub should_refresh_token : Clock → Text → Option Bool
should_refresh_token clock id_token = elim (get_token_remaining_percentage clock id_token) [
  | none ↦ none
  | some remaining ↦ some (is_below_fifth clock remaining)
]

unfoldable pub user_of : Claims → UserInfo
user_of claims = record {
  id = claims.sub;
  first_name = claims.first_name;
  last_name = claims.last_name;
}

unfoldable pub extract_user_info : Clock → Text → Option UserInfo
extract_user_info clock id_token = elim (parse_id_token clock id_token) [
  | none ↦ none
  | some claims ↦ some (user_of claims)
]
