-- ===== src/Accounts/World.antt =====
-- A small server with one user, and the requests that the tests make of it.
use invoices_contracts.Base.{◌*◌, ◌++◌, [], ◌∷◌, Option, none, some, Text, ascii}
use invoices_contracts.Base.Int.{pos}
use invoices_contracts.RateLimit.{Time}
use invoices_contracts.RateLimit.Table.{v4}
use invoices_contracts.Models.{User}
use invoices_contracts.Server.{Server}
use invoices_contracts.Contracts.World.{start}
use invoices_contracts.Auth.Config.{cookie_name, refresh_cookie_name}
use invoices_contracts.Auth.Store.{second}
use invoices_contracts.Auth.Toy.{calm}
use invoices_contracts.Auth.Cookies.{AuthUser}
use invoices_contracts.Accounts.Replies.{Visit}
use invoices_contracts.Accounts.Login.{LoginRequest}
use invoices_contracts.Accounts.Setup.{SetupRequest}
use invoices_contracts.Accounts.Profile.{UpdateUserRequest}

abbrev pub ann : User
ann = record {
  id = pos 1;
  name = ascii "Ann";
  email = ascii "ann@x.y";
  address = ascii "A";
  tax_id = ascii "T";
  password = ascii "hsesame";
}

abbrev pub home : Server
home = record start { db = record start.db { users = ann ∷ []; next_user = 2 } }

-- A visit at a number of seconds.
abbrev pub at : Time → Visit
at n = record {
  client_ip = v4 1;
  check_at = n * second;
  failed_at = n * second;
  issued_at = n * second;
  jwt_stored_at = n * second;
  refresh_stored_at = n * second;
  bytes = n ∷ [];
  salt = [];
  conditions = calm;
}

abbrev pub enter : LoginRequest
enter = record { email = ascii "ann@x.y"; password = ascii "sesame" }

abbrev pub guess : LoginRequest
guess = record { email = ascii "ann@x.y"; password = ascii "open" }

abbrev pub stranger : LoginRequest
stranger = record { email = ascii "bob@x.y"; password = ascii "open" }

abbrev pub found : SetupRequest
found = record {
  name = ascii "Ann";
  email = ascii "ann@x.y";
  address = ascii "A";
  tax_id = ascii "T";
  password = ascii "sesame";
}

abbrev pub move : UpdateUserRequest
move = record {
  name = ascii "Ann";
  email = ascii "ann@z.y";
  address = ascii "B";
  tax_id = ascii "T";
  current_password = some (ascii "sesame");
  new_password = some (ascii "sesame-open");
}

abbrev pub ann_session : AuthUser
ann_session = record { email = ascii "ann@x.y"; refreshed_tokens = none }

-- The header of a browser that holds both cookies.
abbrev pub both : Text → Text → Option Text
both token raw =
    some (cookie_name ++ (b'=' ∷ (token ++ (ascii "; " ++ (refresh_cookie_name ++ (b'=' ∷ raw))))))
