-- ===== src/Secrets/Tests.antt =====
-- The theorems on secret keys at concrete inputs.
use cli_framework.Prelude.{String, ◌≡◌, refl, ◌↔◌, ◌≢◌, List, [], ◌∷◌, ok, err, All}
use cli_framework.Prelude.Text.{split, join}
use cli_framework.Secrets.Key.{
  SecretKey, all_allowed, validate_segment, join_segments, new_key, parse_key, invalid_segment,
}
use cli_framework.Secrets.Key.Laws.{IsValid, new_key_iff}

abbrev refresh : List String
refresh = "connection" ∷ "refresh_token" ∷ []

abbrev token : SecretKey
token = record { text = "connection/refresh_token" }

new_key_iff_example :
    (new_key refresh ≡ ok token) ↔ ((refresh ≢ []) × (All IsValid refresh × (token ≡ token)))
unfolding join
new_key_iff_example = new_key_iff refresh token

made : new_key refresh ≡ ok token
unfolding new_key join_segments validate_segment all_allowed
made = refl

-- A path upwards is no key.
upwards : parse_key "../etc" ≡ err (invalid_segment "..")
unfolding parse_key new_key join_segments validate_segment split
upwards = refl
