-- ===== src/Signaling/Endpoint/Verify.antt =====
-- cloud/signaling/app/api/signal.py: `verify_token_and_device` on any token.
use lem.Base.{ℕ, ◌≡◌, ◌↔◌, true, Option, none, some, Result, ok, err, nat_beq, arith}
use lem.Text.{Text}
use lem.Signaling.Endpoint.{Auth, owner, verify_token_and_device}

owner-accepts :
    (auth : Auth) (device_id : Text) (user_id : ℕ)
    → ((asking : ℕ) → auth.owns asking device_id ≡ nat_beq user_id asking)
    → (r : Result (Option ℕ)) → (owner auth device_id r ≡ true) ↔ (r ≡ ok (some user_id))
unfolding owner
owner-accepts auth device_id user_id own (err e) = (λ h. cc, λ h. cc)
owner-accepts auth device_id user_id own (ok none) = (λ h. cc, λ h. cc)
owner-accepts auth device_id user_id own (ok (some asking)) =
    (λ h. ground (arith, own asking, h), λ h. ground (arith, own asking, h))

-- Where the table has the device for one user alone, the tokens of that user are accepted, and no
-- others.
pub verify-accepts :
    (auth : Auth) (token device_id : Text) (user_id : ℕ)
    → ((asking : ℕ) → auth.owns asking device_id ≡ nat_beq user_id asking)
    → (verify_token_and_device auth token device_id ≡ true)
      ↔ (auth.user_of token ≡ ok (some user_id))
unfolding verify_token_and_device
verify-accepts auth token device_id user_id own =
    owner-accepts auth device_id user_id own (auth.user_of token)
