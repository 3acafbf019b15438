-- ===== src/Http/Lock/Tests.antt =====
-- Locks on a small tree, and the theorems about them there.
use rustorr.Base.{◌≡◌, refl, true, false, [], ◌∷◌, none, some, ok, err, wrapping_add, wrapping_sub}
use rustorr.Base.Map.{lookup, insert, remove}
use rustorr.Text.{
  Text, text_has_eq, is_empty_text, parse_digits, split, starts_with, strip_prefix, text_eq,
  to_string, trim, trim_start,
}
use rustorr.Http.Clean.{slash_clean, clean}
use rustorr.Http.Lock.{
  MemLs, Node, LockDetails, Condition, locked, no_such_lock, new, expired_roots, find_root,
  collect_expired,
}
use rustorr.Http.Lock.Header.{parse_timeout, parse_if, lex, parse_condition}
use rustorr.Http.Lock.Laws.{
  IsLocked, create-IsLocked, create-create, can_create_below, find_root_found, IsConfirmed,
}
use rustorr.Http.Lock.System.{create, can_create, unlock, contains_text}
use rustorr.Http.Lock.Walk.{ancestors, last_of, root_path, last_of-ancestors, parent}

abbrev path_a : Text
path_a = b'/' ∷ b'a' ∷ []

abbrev path_ab : Text
path_ab = b'/' ∷ b'a' ∷ b'/' ∷ b'b' ∷ []

abbrev deep : LockDetails
deep = record { root = path_a; duration = some 60; owner_xml = []; zero_depth = false }

abbrev token : Text
token = b'8' ∷ []

abbrev node_a : Node
node_a = record { details = deep; token = token; ref_count = 1; expiry = some 65; held = false }

abbrev node_root : Node
node_root = record {
  details = record { root = root_path; duration = none; owner_xml = []; zero_depth = false };
  token = [];
  ref_count = 1;
  expiry = none;
  held = false;
}

abbrev one_lock : MemLs
one_lock = record {
  by_name = (path_a, node_a) ∷ (root_path, node_root) ∷ [];
  by_token = (token, path_a) ∷ [];
  generation = 8;
}

created : create (new 7) 5 deep ≡ (ok token, one_lock)
unfolding create slash_clean new ancestors starts_with split is_empty_text text_eq lookup
    collect_expired parent to_string insert wrapping_add
created = refl

unlocked : unlock one_lock 6 token ≡ (ok tt, record { by_name = []; by_token = []; generation = 8 })
unfolding unlock lookup collect_expired is_empty_text text_eq ancestors remove parent insert
    wrapping_sub
unlocked = refl

expired : (unlock one_lock 65 token).0 ≡ err no_such_lock
unfolding unlock lookup collect_expired is_empty_text text_eq remove
expired = refl

cleaned :
    clean (b'/' ∷ b'a' ∷ b'/' ∷ b'.' ∷ b'.' ∷ b'/' ∷ b'/' ∷ b'b' ∷ b'/' ∷ []) ≡ b'/' ∷ b'b' ∷ []
unfolding clean starts_with split is_empty_text text_eq
cleaned = refl

five_seconds :
    parse_timeout (b'S' ∷ b'e' ∷ b'c' ∷ b'o' ∷ b'n' ∷ b'd' ∷ b'-' ∷ b'5' ∷ []) ≡ ok (some 5)
unfolding parse_timeout is_empty_text text_eq trim split strip_prefix parse_digits
five_seconds = refl

unclosed : parse_if (b'(' ∷ b'<' ∷ b'1' ∷ b'>' ∷ []) ≡ none
unfolding parse_if lex trim_start trim parse_condition
unclosed = refl

abbrev by_first : Condition
by_first = record { negated = false; token = token; etag = [] }

none_expired : expired_roots 9 one_lock.by_name ≡ []
unfolding expired_roots is_empty_text
none_expired = refl

a_there : lookup path_a one_lock.by_name ≡ some node_a
unfolding lookup text_eq
a_there = refl

a_filled : is_empty_text token ≡ false
unfolding is_empty_text
a_filled = refl

a_above : contains_text path_a (ancestors path_ab) ≡ true
unfolding ancestors contains_text text_eq parent
a_above = refl

a_found : find_root one_lock path_ab (by_first ∷ []) ≡ some path_a
unfolding find_root lookup text_eq starts_with
a_found = refl

last_of-ancestors_example : last_of (ancestors path_ab) ≡ some root_path
last_of-ancestors_example = last_of-ancestors path_ab

create-IsLocked_example : IsLocked one_lock 5 (record deep { root = slash_clean path_a }) token
create-IsLocked_example = create-IsLocked (new 7) one_lock 5 deep token created

create-create_example : create one_lock 9 deep ≡ (err locked, one_lock)
create-create_example = create-create (new 7) one_lock 5 9 deep deep token created none_expired refl

can_create_below_example : can_create one_lock path_ab true ≡ false
can_create_below_example =
    can_create_below one_lock true path_ab path_a node_a a_there a_filled refl a_above

find_root_found_example : IsConfirmed one_lock path_ab path_a (by_first ∷ [])
find_root_found_example = find_root_found one_lock path_ab path_a (by_first ∷ []) a_found
