-- ===== src/Server/Handler/Tests.antt =====
-- Requests with concrete headers.
use xmlrpc_extended.Prelude.{◌≡◌, refl, false, true, [], ◌∷◌, some, length, if◌then◌else◌}
use xmlrpc_extended.Prelude.Int.{pos, negsuc, ltb_ℤ}
use xmlrpc_extended.Python.Headers.{Headers, get}
use xmlrpc_extended.Python.Number.{str, digits_onto, int, within}
use xmlrpc_extended.Python.Text.{codes, lower, text_eq}
use xmlrpc_extended.Server.Handler.{
  super_do_post, chunked_unsupported, length_required, length_invalid, too_large, is_chunked,
  do_post,
}
use xmlrpc_extended.Server.Handler.Laws.{Answers, do_post-Answers, do_post-str}

abbrev sized : Headers
sized = (codes "Host", codes "a") ∷ (codes "Content-LENGTH", codes " 1_0 ") ∷ []

abbrev chunked : Headers
chunked = (codes "Transfer-Encoding", codes "Chunked") ∷ sized

replies :
    (do_post 4_300 (pos 10) sized ≡ super_do_post)
    × (do_post 4_300 (pos 9) sized ≡ too_large)
    × (do_post 4_300 (pos 9) chunked ≡ chunked_unsupported)
    × (do_post 4_300 (pos 9) [] ≡ length_required)
    × (do_post 4_300 (pos 9) ((codes "content-length", codes "-1") ∷ []) ≡ length_invalid)
    × (do_post 4_300 (pos 9) ((codes "content-length", codes "1__0") ∷ []) ≡ length_invalid)
unfolding do_post get int
replies = (refl, refl, refl, refl, refl, refl)

numbers :
    (int 0 (codes "+007") ≡ some (pos 7))
    × (int 0 (codes "-12") ≡ some (negsuc 11))
    × (str 1_048_576 ≡ codes "1048576")
unfolding int str digits_onto
numbers = (refl, refl, refl)

do_post-Answers_example : Answers 4_300 (pos 10) chunked (do_post 4_300 (pos 10) chunked)
do_post-Answers_example = do_post-Answers 4_300 (pos 10) chunked

abbrev announced : Headers
announced = (codes "Content-Length", codes "12") ∷ []

announced_whole : is_chunked announced ≡ false
unfolding get lower text_eq
announced_whole = refl

announced_size : get announced (codes "content-length") ≡ some (str 12)
unfolding get str digits_onto
announced_size = refl

announced_within : within 4_300 (length (str 12)) ≡ true
unfolding str digits_onto
announced_within = refl

do_post-str_example :
    do_post 4_300 (pos 10) announced
    ≡ (if ltb_ℤ (pos 10) (pos 12) then too_large else super_do_post)
do_post-str_example =
    do_post-str 4_300 12 (pos 10) announced announced_whole announced_size announced_within
