-- ===== src/Attachments/Tests.antt =====
-- Runs on given values, and the properties at them.
use mathlib.Core.Path.{ap₂}
use aqua_matrix_connector.Common.Assoc.{lookup, insert}
use aqua_matrix_connector.Common.Decimal.{digits, decimal}
use aqua_matrix_connector.Format.{is_control}
use aqua_matrix_connector.Format.Origin.{is_alphanumeric}
use aqua_matrix_connector.Common.{
  none, Option, All, ◌∷◌, ◌≡◌, [], refl, true, ◌≤◌, length, take, ℕ, some, ap, if◌then◌else◌, drop,
  sym, ◌++◌, ◌==◌, ◌∙◌, ◌+◌, arith,
}
use aqua_matrix_connector.Attachments.Name.{
  sanitize_filename, stored_name, name_char, max_name_bytes, shorten, push_name, strip_edges,
  last_component, name_loop,
}
use aqua_matrix_connector.Attachments.Store.{
  Bytes, Fetched, Files, find_cached, read_file, store, prune, file_path, no_store_fault,
  StoreError, too_large, write_private_atomic, meta_path,
}
use aqua_matrix_connector.Common.Text.{codes, Text, len}
use aqua_matrix_connector.Attachments.Safe.{IsVisible}
use aqua_matrix_connector.Attachments.Disk.{stored_name-Safe}
use aqua_matrix_connector.Attachments.{AttachmentPolicy, check_size}
use aqua_matrix_connector.AllowList.Parse.{ok, Result, err}
use aqua_matrix_connector.Attachments.Cache.{find_cached-store, find_cached-intact}

traversal : sanitize_filename (codes "../../etc/pass wd") ≡ codes "pass_wd"
unfolding shorten push_name strip_edges sanitize_filename last_component name_char is_alphanumeric
    is_control len name_loop
traversal = refl

hidden : sanitize_filename (codes "..bashrc") ≡ codes "bashrc"
unfolding shorten push_name strip_edges sanitize_filename last_component name_char is_alphanumeric
    is_control len name_loop
hidden = refl

nothing_left : sanitize_filename (codes "a/..") ≡ codes "attachment"
unfolding shorten push_name strip_edges sanitize_filename last_component name_char is_alphanumeric
    is_control len name_loop
nothing_left = refl

numbered : stored_name 42 (codes "a b.pdf") ≡ codes "42-a_b.pdf"
unfolding shorten stored_name push_name digits strip_edges sanitize_filename last_component
    name_char is_alphanumeric is_control len name_loop decimal
numbered = refl

stored_name-Safe_example :
    let name = stored_name 7 (codes "../x.sh") in
    All (λ c. name_char c ≡ true) name × IsVisible name × (len name ≤ 20 + 1 + max_name_bytes)
stored_name-Safe_example = stored_name-Safe 7 (codes "../x.sh") (omega arith)

-- A hash and an encoding for runs: the first byte, and the fields with their lengths in front.
abbrev toy_hash : Bytes → Text
toy_hash [] = []
toy_hash (b ∷ bs) = b ∷ []

unfoldable put : Text → Bytes → Bytes
put s rest = length s ∷ (s ++ rest)

unfoldable take_text : Bytes → Text × Bytes
take_text [] = ([], [])
take_text (n ∷ s) = (take n s, drop n s)

unfoldable put_option : Option Text → Bytes → Bytes
unfolding put
put_option none rest = 0 ∷ rest
put_option (some s) rest = 1 ∷ put s rest

unfoldable take_option : Bytes → Option Text × Bytes
unfolding take_text
take_option [] = (none, [])
take_option (n ∷ s) = if n == 0 then (none, s) else (some (take_text s).0, (take_text s).1)

abbrev take_number : Bytes → ℕ × Bytes
take_number [] = (0, [])
take_number (n ∷ s) = (n, s)

abbrev toy_encode : Fetched → Option Bytes
toy_encode r = some (
    put r.path (put r.event_id (put r.filename (put_option r.mimetype (r.size ∷ put r.sha256 [])))))

abbrev toy_decode : Bytes → Option Fetched
toy_decode b =
    let (path, b) = take_text b in
    let (event_id, b) = take_text b in
    let (filename, b) = take_text b in
    let (mimetype, b) = take_option b in
    let (size, b) = take_number b in
    some (record {
      path = path;
      event_id = event_id;
      filename = filename;
      mimetype = mimetype;
      size = size;
      sha256 = (take_text b).0;
    })

taken : (s : Text) (rest : Bytes) → take (length s) (s ++ rest) ≡ s
taken [] rest = refl
taken (c ∷ s) rest = ap (◌∷◌ c) (taken s rest)

dropped : (s : Text) (rest : Bytes) → drop (length s) (s ++ rest) ≡ rest
dropped [] rest = refl
dropped (c ∷ s) rest = dropped s rest

take_text-put : (s : Text) (rest : Bytes) → take_text (put s rest) ≡ (s, rest)
unfolding take_text put
take_text-put s rest = ap₂ (λ a b. (a, b)) (taken s rest) (dropped s rest)

take_option-put : (o : Option Text) (rest : Bytes) → take_option (put_option o rest) ≡ (o, rest)
unfolding take_option put_option
take_option-put none rest = refl
take_option-put (some s) rest = ap (λ r. (some r.0, r.1)) (take_text-put s rest)

toy_decode-encode : (r : Fetched) (b : Bytes) → toy_encode r ≡ some b → toy_decode b ≡ some r
toy_decode-encode r b e =
    ap (λ (o : Option Bytes). elim o [ none ↦ none | some c ↦ toy_decode c ]) (sym e)
    ∙ simp (take_text-put, take_option-put) refl

abbrev dir : Text
dir = codes "/a"

abbrev small : AttachmentPolicy
small = record { max_bytes = 3; retention_days = 1 }

abbrev stored : Files × Result StoreError Fetched
stored =
    store toy_hash toy_encode dir small 7 (codes "$e") (codes "x y") none (1 ∷ 2 ∷ []) 1000
      no_store_fault []

abbrev the_record : Fetched
the_record = record {
  path = codes "/a/7-x_y";
  event_id = codes "$e";
  filename = codes "x_y";
  mimetype = none;
  size = 2;
  sha256 = 1 ∷ [];
}

stores : stored.1 ≡ ok the_record
unfolding is_alphanumeric strip_edges store sanitize_filename push_name last_component check_size
    len name_loop shorten stored_name name_char digits is_control file_path decimal
stores = refl

find_cached-store_example :
    (find_cached toy_hash toy_decode dir stored.0 7 (codes "$e") (codes "x y") ≡ some the_record)
    × (read_file the_record.path stored.0 ≡ some (1 ∷ 2 ∷ []))
find_cached-store_example =
    find_cached-store toy_hash toy_decode toy_encode toy_decode-encode dir small 7 (codes "$e")
      (codes "x y") none (1 ∷ 2 ∷ []) 1000 [] no_store_fault the_record stores

same_event :
    find_cached toy_hash toy_decode dir stored.0 7 (codes "$e") (codes "x y") ≡ some the_record
unfolding strip_edges store sanitize_filename check_size len shorten stored_name
    write_private_atomic lookup meta_path digits read_file insert file_path decimal find_cached
    is_alphanumeric push_name last_component name_loop name_char is_control take_text put
    take_option put_option
same_event = refl

other_event : find_cached toy_hash toy_decode dir stored.0 7 (codes "$f") (codes "x y") ≡ none
unfolding strip_edges store sanitize_filename check_size len shorten stored_name
    write_private_atomic lookup meta_path digits read_file insert file_path decimal find_cached
    is_alphanumeric push_name last_component name_loop name_char is_control take_text put
other_event = refl

find_cached-intact_example :
    (bytes : Bytes) × (read_file the_record.path stored.0 ≡ some bytes)
    × (the_record.path ≡ file_path dir 7 (codes "x y"))
    × (the_record.event_id ≡ codes "$e")
    × (length bytes ≡ the_record.size)
    × (toy_hash bytes ≡ the_record.sha256)
find_cached-intact_example =
    find_cached-intact toy_hash toy_decode dir stored.0 7 (codes "$e") (codes "x y") the_record
      same_event

too_long :
    (store toy_hash toy_encode dir small 7
      (codes "$e")
      (codes "x")
      none
      (1 ∷ 2 ∷ 3 ∷ 4 ∷ [])
      0
      no_store_fault
      []).1
    ≡ err (too_large 4)
unfolding check_size store
too_long = refl

pruned_later : (prune 1 90000 (λ name. true) stored.0).1 ≡ 2
unfolding strip_edges store sanitize_filename last_component check_size len name_loop shorten
    stored_name prune write_private_atomic meta_path digits insert file_path decimal is_alphanumeric
    push_name name_char is_control
pruned_later = refl

kept_at_first : (prune 1 87400 (λ name. true) stored.0).1 ≡ 0
unfolding strip_edges store sanitize_filename last_component check_size len name_loop shorten
    stored_name prune write_private_atomic meta_path digits insert file_path decimal is_alphanumeric
    push_name name_char is_control
kept_at_first = refl
