-- ===== src/Auth/Tests/Filter.antt =====
-- Runs of the middlewares and of the callback's state, and the theorems on them.
use rcp_server.Base.{◌≡◌, refl, false, none, some, [], Text, codes}
use rcp_server.Effects.{ok}
use rcp_server.Table.{texts, select}
use rcp_server.Auth.{user_of}
use rcp_server.Auth.Filter.{
  Request, Environment, Context, passes, access_token_from_request, is_dev_bypass, auth_required,
  admin_chain,
}
use rcp_server.Auth.Filter.Access.{IsAuthentic, auth_required-IsAuthentic}
use rcp_server.Auth.Filter.Admin.{IsListed, admin_chain-IsListed}
use rcp_server.Auth.Tests.Plain.{plain}
use rcp_server.Auth.Tests.Data.{opened, secret, email, access_claims, row, world, user}

abbrev env : Environment
env = record {
  admin_emails = codes "b@khu.ac.kr, A@khu.ac.kr";
  lower_beyond_ascii = λ c. c;
  dev_auth_bypass = codes "0";
  dev_auth_email = [];
}

abbrev asks : Text → Request
asks token = record { authorization = []; access_cookie = some token; refresh_cookie = none }

abbrev context : Context
context = record {
  user_email = email;
  auth_claims = some access_claims;
  user = user_of email (row (codes "j1"));
}

bypass_off : (token : Text) → is_dev_bypass env token ≡ false
unfolding opened
bypass_off token = refl

let_in :
    auth_required plain secret env 5 9 (asks user.access_token) (world (codes "j1"))
    ≡ (passes context, world (codes "j1"))
unfolding opened
let_in = refl

bearer :
    access_token_from_request
      (record { authorization = codes "bearer  abc "; access_cookie = none; refresh_cookie = none })
    ≡ ok (codes "abc")
unfolding opened
bearer = refl

auth_required-IsAuthentic_example :
    IsAuthentic plain secret 9 (asks user.access_token) (world (codes "j1")) context
    × ((world (codes "j1")).rows ≡ (world (codes "j1")).rows)
auth_required-IsAuthentic_example =
    auth_required-IsAuthentic plain secret env 5 9 (asks user.access_token) (world (codes "j1"))
      context (world (codes "j1")) bypass_off let_in

carried_token : access_token_from_request (asks user.access_token) ≡ ok user.access_token
unfolding opened
carried_token = refl

there : select email (world (codes "j1")).rows ≡ some (row (codes "j1"))
unfolding opened
there = refl

let_in_admin :
    admin_chain plain secret env 5 9 (asks user.access_token) (world (codes "j1"))
    ≡ (passes context, world (codes "j1"))
unfolding opened
let_in_admin = refl

admin_chain-IsListed_example :
    (auth_required plain secret env 5 9 (asks user.access_token) (world (codes "j1"))
      ≡ (passes context, world (codes "j1")))
    × IsListed env email
admin_chain-IsListed_example =
    admin_chain-IsListed plain secret env 5 9 (asks user.access_token) (world (codes "j1")) context
      (world (codes "j1")) let_in_admin
