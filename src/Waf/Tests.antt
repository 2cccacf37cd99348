-- ===== src/Waf/Tests.antt =====
-- Requests that the filter refuses or lets through, and its theorems at them.
use curf.Common.{◌≡◌, ◌↔◌, refl, true, Option, none, some, Text, codes, Result, ok, err, map}
use curf.Common.Search.{contains, trim}
use curf.Config.{SecurityFlags, default_security_flags}
use curf.Waf.{
  check_request, no_user_agent, path_traversal, sql_injection, xss_detected, any_contained,
}
use curf.Waf.Filter.{IsClean, ascii_lower, check_request_iff}

filter : Unit {0}
unfolding check_request contains trim any_contained
filter = tt

-- `str::to_lowercase` on ASCII text.
abbrev lowers : Text → Text
lowers = map ascii_lower

abbrev flags : SecurityFlags
flags = default_security_flags

abbrev check : Text → Option Text → Result (Unit {0}) Text
check path query = check_request lowers flags path query none

answers :
    (check (codes "/a/../b") none ≡ err path_traversal)
    × (check (codes "/q") (some (codes "x=1' Or 'y")) ≡ err sql_injection)
    × (check (codes "/<SCRIPT>") none ≡ err xss_detected)
    × (check (codes "/a/b.html") (some (codes "x=1")) ≡ ok tt)
unfolding filter
answers = (refl, refl, refl, refl)

blank_agent :
    check_request lowers
      (record flags { block_empty_user_agent = true })
      (codes "/")
      none
      (some (codes "  "))
    ≡ err no_user_agent
unfolding filter
blank_agent = refl

check_request_iff_example :
    (check_request lowers flags (codes "/a/b.html") none none ≡ ok tt)
    ↔ IsClean lowers flags (codes "/a/b.html") none none
check_request_iff_example = check_request_iff lowers flags (codes "/a/b.html") none none
