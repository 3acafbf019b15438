-- ===== src/Http/Clean.antt =====
-- `clean` of crates/rustorr-vfs/src/lib.rs and `slash_clean` of
-- crates/rustorr-http/src/webdav/lock.rs.
use rustorr.Base.{Bool, List, [], ◌∷◌, ◌++◌, not, if◌then◌else◌}
use rustorr.Text.{Text, text_eq, is_empty_text, starts_with, split}

abbrev slash : Text
slash = b'/' ∷ []

abbrev dot : Text
dot = b'.' ∷ []

abbrev dots : Text
dots = b'.' ∷ b'.' ∷ []

-- The parts are kept with the last one first.
unfoldable pub push_part : Bool → List Text → Text → List Text
push_part rooted [] part =
    if is_empty_text part
    then []
    else if text_eq part dot
    then []
    else if text_eq part dots
    then (if rooted then [] else dots ∷ [])
    else part ∷ []
push_part rooted (last ∷ parts) part =
    if is_empty_text part
    then last ∷ parts
    else if text_eq part dot
    then last ∷ parts
    else if text_eq part dots
    then (if not (text_eq last dots)
        then parts
        else if rooted
        then last ∷ parts
        else dots ∷ last ∷ parts)
    else part ∷ last ∷ parts

unfoldable pub push_parts : Bool → List Text → List Text → List Text
unfolding push_part
push_parts rooted parts [] = parts
push_parts rooted parts (p ∷ ps) = push_parts rooted (push_part rooted parts p) ps

-- `join("/")` of parts in that order.
unfoldable pub join_parts : List Text → Text
join_parts [] = []
join_parts (p ∷ []) = p
join_parts (p ∷ q ∷ ps) = join_parts (q ∷ ps) ++ (b'/' ∷ p)

unfoldable pub clean : Text → Text
unfolding push_parts join_parts
clean path =
    let rooted = starts_with slash path in
    let joined = join_parts (push_parts rooted [] (split b'/' path)) in
    if rooted then b'/' ∷ joined else if is_empty_text joined then dot else joined

unfoldable pub slash_clean : Text → Text
unfolding clean
slash_clean name = if starts_with slash name then clean name else clean (b'/' ∷ name)
