-- ===== src/Routes/Tests.antt =====
-- Sequences of requests to the small server.
use invoices_contracts.Base.{◌≡◌, ℕ, refl, ◌*◌, ◌⊎◌, List, [], ◌∷◌, some, ascii, text_beq}
use invoices_contracts.Database.{Database}
use invoices_contracts.Server.{Server}
use invoices_contracts.Program.{value, ◌>>=◌, map_err, ok_of, ignore}
use invoices_contracts.Crypto.Toy.{encode}
use invoices_contracts.Database.Accounts.{insert_jwt, insert_refresh, revoke_refresh_rows}
use invoices_contracts.Auth.Store.{
  second, decode_jwt, access, insertion, text_ltb, generate_jwt, hash_token, store_jwt,
  generate_refresh_token, store_refresh_token, get_valid_refresh_token, revoke_refresh_token,
  get_user_by_id,
}
use invoices_contracts.Auth.Cookies.{AuthUser, extract_cookie}
use invoices_contracts.Auth.Extract.{Parts, login_page, refresh, authenticate, from_request_parts}
use invoices_contracts.Auth.Toy.{services, config, calm, request}
use invoices_contracts.Accounts.Replies.{Answer}
use invoices_contracts.Accounts.Setup.{SetupResponse, already_done}
use invoices_contracts.Accounts.FirstUser.{limited_setup}
use invoices_contracts.Accounts.World.{at, enter, found, both}
use invoices_contracts.Accounts.Tests.{token, raw, inside, nobody, set_up, founded, sets_up}
use invoices_contracts.Accounts.SessionTests.{
  jwt_carried, refresh_carried, jwt_stored, refresh_stored,
}
use invoices_contracts.Contracts.World.{world}
use invoices_contracts.Invoices.Tests.{naturals}
use invoices_contracts.Routes.{
  Environment, Request, public, protected, get_index, get_dashboard, get_profile, post_login,
  post_setup, any_logout, sent_away, setup_reply, serve, serve_all,
}
use invoices_contracts.Routes.Users.{setup_refused_for_good}
use invoices_contracts.Routes.Sessions.{
  IsLapsed, old_token, logged_out_of_every_route, refresh_spent_for_good,
}

abbrev pub small : Environment ℕ ℕ ℕ
small = record {
  services = services;
  config = config;
  externals = world;
  amounts = naturals;
  parse_header = λ t. some t;
  format_ist = λ t. t;
}

abbrev later : List Request
later = public get_index ∷ (public (post_login (at 200) enter) ∷ [])

outside : Server
outside = serve_all small (public (any_logout calm (some token) (some raw)) ∷ later) inside

logged_out_of_every_route_example :
    serve small (protected (request 300 (both token raw)) get_dashboard) outside
    ≡ (sent_away login_page, outside)
unfolding outside
logged_out_of_every_route_example =
    logged_out_of_every_route small calm token raw inside later (request 300 (both token raw))
      get_dashboard refl refl jwt_stored refresh_stored jwt_carried refresh_carried

closed : Server
closed = serve_all small later set_up

setup_refused_for_good_example :
    (e : Answer SetupResponse) × (after : Server) × (serve small
        (public (post_setup (at 300) found))
        closed
      ≡ (setup_reply e, after))
    × ((e ≡ already_done) ⊎ (e ≡ limited_setup))
    × (closed.db ≡ after.db)
unfolding closed
setup_refused_for_good_example =
    setup_refused_for_good small (at 100) (at 300) found found nobody set_up founded later refl refl
      sets_up

-- The access token has expired.
abbrev pub late : Parts
late = request (2000 * second) (both token raw)

abbrev later_still : Parts
later_still = request (3000 * second) (both token raw)

late-IsLapsed : IsLapsed small late
unfolding extract_cookie decode_jwt
late-IsLapsed = old_token token refl refl

later_still-IsLapsed : IsLapsed small later_still
unfolding extract_cookie decode_jwt
later_still-IsLapsed = old_token token refl refl

renewed : Database
renewed = (from_request_parts services config late inside.db).1

abbrev renewed_user : AuthUser
renewed_user = record {
  email = ascii "ann@x.y";
  refreshed_tokens = some (record {
    new_jwt = 2900 ∷ (2000 ∷ (0 ∷ (1 ∷ ascii "ann@x.y")));
    new_refresh_token = encode late.bytes;
  });
}

renews : from_request_parts services config late inside.db ≡ (value renewed_user, renewed)
unfolding renewed from_request_parts authenticate extract_cookie decode_jwt refresh ◌>>=◌ ok_of
    get_valid_refresh_token access get_user_by_id generate_jwt map_err store_jwt ignore
    revoke_refresh_token store_refresh_token generate_refresh_token insertion insert_jwt
    insert_refresh revoke_refresh_rows hash_token encode text_beq text_ltb
renews = refl

beyond : Server
beyond = serve_all small (protected late (get_profile calm) ∷ later) inside

refresh_spent_for_good_example :
    serve small (protected later_still get_dashboard) beyond ≡ (sent_away login_page, beyond)
unfolding beyond
refresh_spent_for_good_example =
    refresh_spent_for_good small late later_still (get_profile calm) get_dashboard raw inside
      renewed_user renewed later late-IsLapsed later_still-IsLapsed refresh_carried refresh_carried
      refl renews
