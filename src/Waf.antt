-- ===== src/Waf.antt =====
-- src/security.rs, `SecurityChecker::check_request`: the filter of request targets. `lower` is
-- `str::to_lowercase`, whose tables of Unicode are not part of the program.
pub mod Filter
mod Tests
use curf.Common.{
  ℕ, Bool, true, false, Option, none, some, List, [], ◌∷◌, ◌++◌, ◌&&◌, ◌||◌, if◌then◌else◌, Result,
  ok, err, Text, codes,
}
use curf.Common.Search.{contains, trim, is_empty}
use curf.Config.{SecurityFlags}

abbrev pub sqli_patterns : List Text
sqli_patterns =
    codes " or 1=1"
    ∷ codes "' or '"
    ∷ codes "' or 1"
    ∷ codes "union select"
    ∷ codes "union all select"
    ∷ codes "select * from"
    ∷ codes "drop table"
    ∷ codes "insert into"
    ∷ codes "delete from"
    ∷ codes "--"
    ∷ codes "xp_cmdshell"
    ∷ codes "exec("
    ∷ []

abbrev pub xss_patterns : List Text
xss_patterns =
    codes "<script"
    ∷ codes "javascript:"
    ∷ codes "onerror="
    ∷ codes "onload="
    ∷ codes "onclick="
    ∷ codes "alert("
    ∷ codes "document.cookie"
    ∷ codes "eval("
    ∷ codes "<iframe"
    ∷ codes "vbscript:"
    ∷ []

abbrev pub up_slash : Text
up_slash = codes "../"

abbrev pub up_backslash : Text
up_backslash = codes "..\\"

abbrev pub no_user_agent : Text
no_user_agent = codes "No User-Agent"

abbrev pub path_traversal : Text
path_traversal = codes "Path traversal attempt"

abbrev pub sql_injection : Text
sql_injection = codes "SQL injection pattern detected"

abbrev pub xss_detected : Text
xss_detected = codes "XSS pattern detected"

abbrev pub or_blank : Option Text → Text
or_blank none = []
or_blank (some s) = s

-- `format!("{}?{}", path, q)`, or the path alone.
abbrev pub target_of : Text → Option Text → Text
target_of path none = path
target_of path (some q) = path ++ (b'?' ∷ q)

-- The loops over the patterns.
unfoldable pub any_contained : List Text → Text → Bool
any_contained [] lower = false
any_contained (pat ∷ pats) lower = contains pat lower || any_contained pats lower

unfoldable pub check_lower : SecurityFlags → Text → Result (Unit {0}) Text
unfolding any_contained
check_lower flags lower =
    if flags.waf_path_traversal && (contains up_slash lower || contains up_backslash lower)
    then err path_traversal
    else if flags.waf_sqli && any_contained sqli_patterns lower
    then err sql_injection
    else if flags.waf_xss && any_contained xss_patterns lower
    then err xss_detected
    else ok tt

unfoldable pub check_request :
    (Text → Text) → SecurityFlags → Text → Option Text → Option Text → Result (Unit {0}) Text
unfolding check_lower
check_request to_lowercase flags path query user_agent =
    if flags.block_empty_user_agent && is_empty (trim (or_blank user_agent))
    then err no_user_agent
    else check_lower flags (to_lowercase (target_of path query))
