-- ===== src/Stdlib/Tests.antt =====
-- Runs of the standard library's functions.
use rcp_server.Base.{◌≡◌, refl, true, false, codes}
use rcp_server.Stdlib.Strings.{trim_space, to_lower}
use rcp_server.Stdlib.Json.{valid}

valid_tests :
    (valid (codes "{\"a\": [1, -0.5e+3, true, null], \"b\": {}}") ≡ true)
    × (valid (codes " 12 ") ≡ true)
    × (valid (codes "{\"a\" 1}") ≡ false)
    × (valid (codes "[1,]") ≡ false)
    × (valid (codes "01") ≡ false)
    × (valid (codes "") ≡ false)
    × (valid (codes "{} {}") ≡ false)
unfolding valid
valid_tests = (refl, refl, refl, refl, refl, refl, refl)

strings_tests : (trim_space (codes "  a b ") ≡ codes "a b") × (to_lower (codes "Ab1") ≡ codes "ab1")
unfolding trim_space to_lower
strings_tests = (refl, refl)
