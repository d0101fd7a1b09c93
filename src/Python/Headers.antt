-- ===== src/Python/Headers.antt =====
-- `email.message.Message.get`: the first header of a name, whatever the case of its letters.
use xmlrpc_extended.Prelude.{List, [], ◌∷◌, Option, none, some, if◌then◌else◌}
use xmlrpc_extended.Python.Text.{Text, text_eq, lower}

abbrev pub Headers : Type 0
Headers = List (Text × Text)

unfoldable pub get : Headers → Text → Option Text
unfolding text_eq lower
get [] name = none
get ((key, value) ∷ rest) name =
    if text_eq (lower key) (lower name) then some value else get rest name

-- `get(name, default)`
abbrev pub or_default : Option Text → Text → Text
or_default none d = d
or_default (some value) d = value
