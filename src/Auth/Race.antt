-- ===== src/Auth/Race.antt =====
-- pkg/tsctl/auth/command-switch-org.go: the refresh of the tokens in the background, while an
-- organization is selected.
use remote_docker_agent.Prelude.{◌≡◌, ◌≢◌, ◌↔◌, refl, Option, none, some, Text, text_eq_refl}
use remote_docker_agent.Auth.{
  OrganizationInfo, TokenInfo, AuthData, Organization, TokenResponse, Clock, extract_user_info,
}
use remote_docker_agent.Auth.Switch.{
  Stored, missing, unreadable, holds, with_organization, new_tokens, new_user, refreshed_data,
  refresh_token_async,
}

-- `SaveAuthData`, where there is something to save.
unfoldable pub saved : Option AuthData → Stored → Stored
saved none stored = stored
saved (some data_) stored = holds data_

-- Whether the selection is saved before the refresh loads the file, between its loading and its
-- saving, or after that.
pub data Schedule : Type 0 where
  selection_first selection_between selection_last : Schedule

-- The file after both, from one that both loaded or will load; the selection saves what was loaded
-- in the beginning, with the organization.
unfoldable pub run_schedule :
    Clock → Schedule → Organization → AuthData → Text → TokenResponse → Stored
run_schedule clock selection_first org data_ refresh_token response =
    let stored = saved (some (with_organization org data_)) (holds data_) in
    saved (refresh_token_async clock refresh_token (some response) stored) stored
run_schedule clock selection_between org data_ refresh_token response =
    let to_save = refresh_token_async clock refresh_token (some response) (holds data_) in
    saved to_save (saved (some (with_organization org data_)) (holds data_))
run_schedule clock selection_last org data_ refresh_token response =
    saved (some (with_organization org data_))
      (saved (refresh_token_async clock refresh_token (some response) (holds data_)) (holds data_))

unfoldable pub organization_of : Stored → Option OrganizationInfo
organization_of missing = none
organization_of unreadable = none
organization_of (holds data_) = data_.organization

unfoldable pub token_id : Option TokenInfo → Option Text
token_id none = none
token_id (some token) = some token.id_token

unfoldable pub id_token_of : Stored → Option Text
id_token_of missing = none
id_token_of unreadable = none
id_token_of (holds data_) = token_id data_.token

abbrev pub KeepsBoth : Organization → TokenResponse → Stored → Type 0
KeepsBoth org response stored =
    (organization_of stored ≡ some (record { id = org.id; name = org.name }))
    × (id_token_of stored ≡ some response.id_token)

loaded_tokens :
    (clock : Clock) (data_ : AuthData) (token : TokenInfo) (response : TokenResponse)
    → data_.token ≡ some token
    → refresh_token_async clock token.refresh_token (some response) (holds data_)
      ≡ some (record {
        user = new_user (extract_user_info clock response.id_token) data_.user;
        organization = data_.organization;
        token = some (new_tokens response token.refresh_token);
        endpoints = data_.endpoints;
      })
unfolding refresh_token_async refreshed_data
loaded_tokens clock data_ token response e = rw (e, text_eq_refl token.refresh_token) refl

-- When the tokens of the stored data are refreshed while another organization is selected, and the
-- refresh gives another id token, the file keeps both the organization and the new token exactly
-- when the selection is saved before the refresh loads the file: otherwise one of the two is lost.
pub run_schedule-KeepsBoth_iff :
    (clock : Clock) (schedule : Schedule) (org : Organization) (data_ : AuthData)
    (token : TokenInfo) (response : TokenResponse)
    → data_.token ≡ some token
    → data_.organization ≢ some (record { id = org.id; name = org.name })
    → token.id_token ≢ response.id_token
    → KeepsBoth org response (run_schedule clock schedule org data_ token.refresh_token response)
      ↔ (schedule ≡ selection_first)
unfolding run_schedule saved organization_of id_token_of token_id with_organization new_tokens
run_schedule-KeepsBoth_iff clock selection_first org data_ token response e other fresh = (
  λ k. refl,
  λ k. rw (loaded_tokens clock (with_organization org data_) token response e) (refl, refl),
)
run_schedule-KeepsBoth_iff clock selection_between org data_ token response e other fresh = (
  λ k. absurd (other (let i = rw (loaded_tokens clock data_ token response e) at (k.0) in i)),
  λ k. absurd cc,
)
run_schedule-KeepsBoth_iff clock selection_last org data_ token response e other fresh =
    (λ k. absurd (fresh (let i = k.1 in let j = e in cc)), λ k. absurd cc)
