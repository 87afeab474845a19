-- ===== src/Auth/Tests.antt =====
-- The reading of a header with two cookies.
use invoices_contracts.Base.{◌≡◌, refl, [], ◌∷◌, List, some, Text, ascii, text_beq}
use invoices_contracts.Auth.Config.{cookie_name}
use invoices_contracts.Auth.Cookies.{extract_cookie}
use invoices_contracts.Auth.Headers.{render, extract_cookie-render}

abbrev theme : Text × Text
theme = (ascii "theme", ascii "a=b")

abbrev others : List (Text × Text)
others = (cookie_name, ascii "xyz") ∷ []

extract_cookie-render_example :
    extract_cookie (some (render theme others)) cookie_name ≡ some (ascii "xyz")
unfolding text_beq
extract_cookie-render_example =
    extract_cookie-render cookie_name theme others refl ((refl, refl), ((refl, refl), tt))
