-- ===== src/Attachments/Cache.antt =====
-- What the store serves from its files.
use aqua_matrix_connector.Common.{
  ℕ, some, none, ◌>>=◌, Option, ◌≡◌, arith, ◌++◌, if◌then◌else◌, refl, false, length, ◌∷◌, [],
  ==_refl, Option-cases, Bool-cases, inl, inr, ◌∙◌, ap, subst,
}
use aqua_matrix_connector.Common.Text.{Text, text_eq, codes, text_eq_sound, text_eq_refl}
use aqua_matrix_connector.Attachments.Store.{
  Bytes, Fetched, join, is_cached, find_cached, Files, read_file, fetched_record, file_path,
  write_private_atomic, meta_path, write_both, store, StoreFault, no_directory, file_write_fails,
  meta_write_fails, no_store_fault,
}
use aqua_matrix_connector.Attachments.{AttachmentPolicy, check_size}
use aqua_matrix_connector.Attachments.Name.{stored_name}
use aqua_matrix_connector.Common.Assoc.{lookup-insert}
use aqua_matrix_connector.AllowList.Parse.{ok}
use aqua_matrix_connector.AllowList.Observers.{ok_injective}

bind-some :
    {A : Type 0} {B : Type 0} (o : Option A) (f : A → Option B) (b : B)
    → (o >>= f) ≡ some b
    → (a : A) × (o ≡ some a) × (f a ≡ some b)
bind-some none f b e = ground arith
bind-some (some a) f b e = (a, refl, e)

path-apart : (s : Text) → text_eq (s ++ codes ".meta.json") s ≡ false
path-apart [] = refl
path-apart (c ∷ s) = ground (arith, path-apart s)

join-apart :
    (dir name : Text) → text_eq (join dir (name ++ codes ".meta.json")) (join dir name) ≡ false
join-apart [] name = path-apart name
join-apart (c ∷ dir) name = ground (arith, join-apart dir name)

module _ (sha256_hex : Bytes → Text) (decode : Bytes → Option Fetched) where
  -- The record as it was read, with the path that is asked for.
  served :
      (event_id file : Text) (rec : Fetched) (bytes : Bytes) (f : Fetched)
      → (if is_cached sha256_hex event_id rec bytes
          then some (record rec { path = file })
          else none)
        ≡ some f
      → (f.path ≡ file)
        × (f.event_id ≡ event_id)
        × (length bytes ≡ f.size)
        × (sha256_hex bytes ≡ f.sha256)
  unfolding is_cached
  served event_id file rec bytes f e =
      ground
        (arith, e, text_eq_sound rec.event_id event_id, text_eq_sound (sha256_hex bytes) rec.sha256)

  -- A cached attachment is one of the event that was asked for, lies at the path of this entry, and its
  -- file now has the size and the hash that are recorded, whatever happened to the files before.
  pub find_cached-intact :
      (dir : Text) (files : Files) (inbox_seq : ℕ) (event_id raw_name : Text) (f : Fetched)
      → find_cached sha256_hex decode dir files inbox_seq event_id raw_name ≡ some f
      → (bytes : Bytes) × (read_file f.path files ≡ some bytes)
        × (f.path ≡ file_path dir inbox_seq raw_name)
        × (f.event_id ≡ event_id)
        × (length bytes ≡ f.size)
        × (sha256_hex bytes ≡ f.sha256)
  unfolding find_cached
  find_cached-intact dir files inbox_seq event_id raw_name f e =
      let file = file_path dir inbox_seq raw_name in
      let (json, e1, r1) = bind-some (read_file (meta_path dir inbox_seq raw_name) files) _ f e in
      let (rec, e2, r2) = bind-some (decode json) _ f r1 in
      let (bytes, e3, r3) = bind-some (read_file file files) _ f r2 in
      let (path, event, size, hash) = served event_id file rec bytes f r3 in
      (bytes, ap (λ (p : Text). read_file p files) path ∙ e3, path, event, size, hash)

  module _ (encode : Fetched → Option Bytes)
      (decode-encode : (r : Fetched) (b : Bytes) → encode r ≡ some b → decode b ≡ some r)
      (dir : Text) (policy : AttachmentPolicy) (inbox_seq : ℕ) (event_id raw_name : Text)
      (mimetype : Option Text) (bytes : Bytes) (now : ℕ) (files : Files) where
    abbrev rec : Fetched
    rec = fetched_record sha256_hex dir inbox_seq event_id raw_name mimetype bytes

    read_back :
        (json : Bytes)
        → let file = file_path dir inbox_seq raw_name in
          let meta = meta_path dir inbox_seq raw_name in
          let all =
            write_private_atomic meta json now (write_private_atomic file bytes now files) in
          (read_file meta all ≡ some json) × (read_file file all ≡ some bytes)
    unfolding read_file write_private_atomic file_path meta_path
    read_back json =
        let name = stored_name inbox_seq raw_name in
        let file = join dir name in
        let meta = join dir (name ++ codes ".meta.json") in
        (
          rw lookup-insert (rw (text_eq_refl meta) refl),
          rw lookup-insert
              (rw (join-apart dir name) (rw lookup-insert (rw (text_eq_refl file) refl))),
        )

    -- What is found in the files, and the bytes at its path.
    abbrev IsServed : Files → Fetched → Type 0
    IsServed after f =
        (find_cached sha256_hex decode dir after inbox_seq event_id raw_name ≡ some f)
        × (read_file f.path after ≡ some bytes)

    found :
        (json : Bytes)
        → encode rec ≡ some json
        → let written = write_private_atomic (file_path dir inbox_seq raw_name) bytes now files in
          IsServed (write_private_atomic (meta_path dir inbox_seq raw_name) json now written) rec
    unfolding find_cached is_cached fetched_record
    found json e = (
      rw ((read_back json).0, decode-encode rec json e, (read_back json).1)
          (rw (text_eq_refl event_id, ==_refl (length bytes), text_eq_refl (sha256_hex bytes))
            refl),
      (read_back json).1,
    )

    found_after :
        (fault : StoreFault) (f : Fetched)
        → let r = write_both sha256_hex encode dir inbox_seq raw_name rec bytes now fault files in
          r.1 ≡ ok f → IsServed r.0 f
    unfolding write_both
    found_after no_directory f h = ground arith
    found_after file_write_fails f h = ground arith
    found_after meta_write_fails f h = elim (Option-cases (encode rec)) [
      | inl gone ↦ ground (arith, gone, h)
      | inr (json, e) ↦ ground (arith, e, h)
    ]
    found_after no_store_fault f h = elim (Option-cases (encode rec)) [
      | inl gone ↦ ground (arith, gone, h)
      | inr (json, e) ↦
          subst
            (IsServed
              (write_both sha256_hex encode dir inbox_seq raw_name rec bytes now no_store_fault
                files).0)
            (ok_injective rec f (rw (e, write_both) at h)) (rw (e, write_both) (found json e))
    ]

    -- Once an attachment is stored, whatever the files held, the next look for the same entry finds it,
    -- with the record that was answered, and the file at the path of that record holds the bytes as they
    -- came. Decoding must read what encoding wrote.
    pub find_cached-store :
        (fault : StoreFault) (f : Fetched)
        → let r =
            store sha256_hex encode dir policy inbox_seq event_id raw_name mimetype bytes now fault
              files in
          r.1 ≡ ok f
          → (find_cached sha256_hex decode dir r.0 inbox_seq event_id raw_name ≡ some f)
            × (read_file f.path r.0 ≡ some bytes)
    unfolding store
    find_cached-store fault f h = elim (Bool-cases (check_size policy (length bytes))) [
      | inl fits ↦ rw fits (found_after fault f (rw fits at h))
      | inr large ↦ ground (arith, large, h)
    ]
