-- ===== src/Utils/Jwt/Laws.antt =====
-- Signing and verifying the two kinds of token.
use billing_app_microservice.Prelude.{
  ℕ, ◌+◌, ◌-◌, ◌*◌, ◌/◌, ◌≤◌, ◌<◌, String, true, false, some, none, ◌≡◌, ◌≢◌, refl, arith, inl, inr,
  Bool-cases, Option-cases, ◌==◌, eq_iff, ltb, ltb→lt, ltb→ge,
}
use native.Mathlib.Decide.{dec_lt}
use billing_app_microservice.Effect.{ok, err}
use billing_app_microservice.Utils.Errors.{Error, plain, status_of}
use billing_app_microservice.Utils.Duration.{get_expiration_time}
use billing_app_microservice.Utils.Jwt.{
  JsonWebToken, JwtConfig, Payload, Subject, payload_of, issued, stamped, generate_access_token,
  generate_refresh_token, verify_access_token, refresh_token, is_token_expired,
  get_token_remaining_time, expiry_of,
}

module _ (j : JsonWebToken) (c : JwtConfig) (now later : ℕ) (u : Subject) (token : String) where
  -- An access token is accepted until it expires, with the claims that it was made of.
  pub verify-generate_access :
      generate_access_token j c now u ≡ ok token
      → later < issued u.iat now + get_expiration_time c.access_expires_in
      → verify_access_token j c later token
        ≡ ok (stamped (payload_of u "access") now (get_expiration_time c.access_expires_in))
  unfolding generate_access_token verify_access_token
  verify-generate_access made early =
      elim (Option-cases (
        j.sign now (payload_of u "access") c.access_secret
          (get_expiration_time c.access_expires_in))) [
            | inl no_token ↦ absurd (ground arith)
            | inr (t, signed) ↦ ground (arith, j.verify-sign now later _ _ _ signed early)
          ]

  abbrev lifetime : ℕ
  lifetime = get_expiration_time c.refresh_expires_in

  refresh-signed :
      generate_refresh_token j c now u ≡ ok token
      → j.sign now (payload_of u "refresh") c.refresh_secret lifetime ≡ some token
  unfolding generate_refresh_token
  refresh-signed made =
      elim (Option-cases (j.sign now (payload_of u "refresh") c.refresh_secret lifetime)) [
        | inl no_token ↦ absurd (ground arith)
        | inr (t, signed) ↦ ground arith
      ]

  -- A refresh token is never accepted as an access token, even if the two secrets are the same.
  pub refresh_not_access :
      generate_refresh_token j c now u ≡ ok token
      → (p : Payload) → verify_access_token j c later token ≢ ok p
  unfolding verify_access_token
  refresh_not_access made p accepted =
      let signed = refresh-signed made in
      elim (Bool-cases (c.access_secret == c.refresh_secret)) [
        | inl same ↦
            let secret : c.access_secret ≡ c.refresh_secret = (eq_iff _ _).0 same in
            let held = rw secret at accepted in
            elim (dec_lt later (issued u.iat now + lifetime)) [
              | yes early ↦ ground (arith, j.verify-sign now later _ _ _ signed early)
              | no late ↦ ground (arith, j.verify-sign_late now later _ _ _ signed (omega arith))
            ]
        | inr other ↦
            let differ : c.access_secret ≢ c.refresh_secret =
              λ e. ground (arith, eq_iff c.access_secret c.refresh_secret) in
            ground (arith, j.verify-sign_ne now later _ _ c.access_secret _ signed differ)
      ]

  -- `refreshToken` throws for every token that `generateRefreshToken` has made: the verified payload
  -- has an `exp`, and signing it again with `expiresIn` is refused.
  pub refresh_token-throws :
      generate_refresh_token j c now u ≡ ok token
      → (e : Error) × (refresh_token j c later token ≡ err e)
  unfolding refresh_token
  refresh_token-throws made =
      let signed = refresh-signed made in
      elim (dec_lt later (issued u.iat now + lifetime)) [
        | yes early ↦ (
          plain "Bad \"options.expiresIn\"",
          ground (
            arith,
            j.verify-sign now later _ _ _ signed early,
            j.sign_twice later (stamped (payload_of u "access") now lifetime) c.access_secret
                (get_expiration_time c.access_expires_in) {e = issued u.iat now + lifetime} refl,
          ),
        )
        | no late ↦ (
          plain "Refresh token expired",
          ground (arith, j.verify-sign_late now later _ _ _ signed (omega arith)),
        )
      ]

-- Whatever makes `verifyAccessToken` throw, it throws a plain `Error`, with no status code.
pub verify_access-plain :
    (j : JsonWebToken) (c : JwtConfig) (now : ℕ) (token : String) {e : Error}
    → verify_access_token j c now token ≡ err e
    → status_of e ≡ none
unfolding verify_access_token
verify_access-plain j c now token h = ground arith

-- For a token that names an expiry: once it has expired, no time remains; before, the time that
-- remains is the number of whole seconds up to the expiry.
pub remaining_time-expired :
    (j : JsonWebToken) (now_ms : ℕ) (token : String) {e : ℕ}
    → expiry_of (j.decode token) ≡ some e
    → (is_token_expired j now_ms token ≡ true → get_token_remaining_time j now_ms token ≡ 0)
      × (is_token_expired j now_ms token ≡ false
          → (now_ms + get_token_remaining_time j now_ms token * 1000 ≤ e * 1000)
            × (e * 1000 < now_ms + get_token_remaining_time j now_ms token * 1000 + 1000))
unfolding is_token_expired get_token_remaining_time
remaining_time-expired j now_ms token {e} known =
    let time : get_token_remaining_time j now_ms token ≡ (e * 1000 - now_ms) / 1000 =
      ground arith in
    let late : is_token_expired j now_ms token ≡ ltb (e * 1000) now_ms = ground arith in
    rw (time, late) (λ h. omega (arith, ltb→lt _ _ h), λ h. omega (arith, ltb→ge _ _ h))
