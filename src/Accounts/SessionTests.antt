-- ===== src/Accounts/SessionTests.antt =====
-- A session of the small server: opened, used, refreshed and closed.
use invoices_contracts.Base.{◌≡◌, refl, true, some, text_beq, ascii, any}
use invoices_contracts.Base.Int.{pos}
use invoices_contracts.Database.Accounts.{is_jwt, is_refresh, insert_jwt, insert_refresh}
use invoices_contracts.Server.{Server, internal_server_error}
use invoices_contracts.Program.{value, ◌>>=◌, map_err}
use invoices_contracts.Crypto.Toy.{encode}
use invoices_contracts.Auth.Config.{cookie_name, refresh_cookie_name}
use invoices_contracts.Auth.Store.{
  access, insertion, generate_jwt, hash_token, store_jwt, generate_refresh_token,
  store_refresh_token,
}
use invoices_contracts.Auth.Cookies.{extract_cookie}
use invoices_contracts.Auth.Extract.{from_request_parts}
use invoices_contracts.Auth.Toy.{services, toy_decodes, config, request}
use invoices_contracts.Accounts.Replies.{on_db}
use invoices_contracts.Accounts.Login.{issue_tokens, refused}
use invoices_contracts.Accounts.Sessions.{Decodes, opened_session_authenticates}
use invoices_contracts.Accounts.Tests.{token, raw, inside}
use invoices_contracts.Accounts.World.{home, at, both, ann_session}

pub jwt_carried : extract_cookie (both token raw) cookie_name ≡ some token
unfolding extract_cookie
jwt_carried = refl

pub refresh_carried : extract_cookie (both token raw) refresh_cookie_name ≡ some raw
unfolding extract_cookie
refresh_carried = refl

pub jwt_stored : any (is_jwt (hash_token services token)) inside.db.jwt_tokens ≡ true
unfolding hash_token encode text_beq
jwt_stored = refl

pub refresh_stored : any (is_refresh (hash_token services raw)) inside.db.refresh_tokens ≡ true
unfolding hash_token encode text_beq
refresh_stored = refl

opened : Server
opened =
    (issue_tokens services config (refused internal_server_error) (at 100) (pos 1) (ascii "ann@x.y")
      home).1

opens :
    issue_tokens services config
      (refused internal_server_error)
      (at 100)
      (pos 1)
      (ascii "ann@x.y")
      home
    ≡ (value (token, raw), opened)
unfolding opened issue_tokens ◌>>=◌ generate_jwt on_db map_err store_jwt access insertion insert_jwt
    store_refresh_token insert_refresh generate_refresh_token encode
opens = refl

services-Decodes : Decodes services
services-Decodes secret t claims now e early = toy_decodes secret t claims now e early

opened_session_authenticates_example :
    from_request_parts services config (request 300 (both token raw)) opened.db
    ≡ (value ann_session, opened.db)
opened_session_authenticates_example =
    opened_session_authenticates services config (refused internal_server_error) (at 100) (pos 1)
      (ascii "ann@x.y") home opened (token, raw) (request 300 (both token raw)) services-Decodes
      opens jwt_carried refl refl
