-- ===== src/Attachments/Store.antt =====
-- crates/aqua-messenger/src/attachments.rs: the store's files. A write goes to a temporary file that
-- is renamed, so one that fails leaves the target as it was. Hashing and `serde_json` are parameters.
use aqua_matrix_connector.Common.{◌>>=◌}
use aqua_matrix_connector.Common.{
  ℕ, some, none, List, Option, Bool, ◌++◌, ◌&&◌, true, false, filter, length, ◌∷◌, if◌then◌else◌,
  leb, not, ◌==◌, ltb, count, min, ◌*◌, ◌^◌, ◌-◌,
}
use aqua_matrix_connector.Common.Text.{Text, text_eq, codes}
use aqua_matrix_connector.Common.Assoc.{Assoc, insert, lookup}
use aqua_matrix_connector.Attachments.Name.{stored_name, sanitize_filename}
use aqua_matrix_connector.AllowList.Parse.{Result, err, ok}
use aqua_matrix_connector.Attachments.{AttachmentPolicy, check_size}

pub record Fetched : Type 0 where
  pub path : Text
  pub event_id : Text
  pub filename : Text
  pub mimetype : Option Text
  pub size : ℕ
  pub sha256 : Text

abbrev pub Bytes : Type 0
Bytes = List ℕ

-- A directory entry; the modification time is in seconds.
pub record StoredFile : Type 0 where
  pub bytes : Bytes
  pub modified : Option ℕ
  pub is_file : Bool

abbrev pub Files : Type 0
Files = Assoc StoredFile

-- Which step of `store` fails, if any.
pub data StoreFault : Type 0 where
  no_store_fault : StoreFault
  no_directory : StoreFault
  file_write_fails : StoreFault
  meta_write_fails : StoreFault

pub data StoreError : Type 0 where
  too_large : ℕ → StoreError
  store_failed : StoreFault → StoreError
  not_encoded : StoreError

-- `Path::join` of a file name.
abbrev pub join : Text → Text → Text
join dir name = dir ++ 47 ∷ name

unfoldable pub file_path : Text → ℕ → Text → Text
file_path dir inbox_seq raw_name = join dir (stored_name inbox_seq raw_name)

unfoldable pub meta_path : Text → ℕ → Text → Text
meta_path dir inbox_seq raw_name = join dir (stored_name inbox_seq raw_name ++ codes ".meta.json")

unfoldable pub read_file : Text → Files → Option Bytes
read_file path files = do f ← lookup path files; if f.is_file then some f.bytes else none

unfoldable pub write_private_atomic : Text → Bytes → ℕ → Files → Files
write_private_atomic path bytes now files =
    insert path (record { bytes = bytes; modified = some now; is_file = true }) files

-- Older than the retention allows, by a time that is not in the future.
unfoldable pub expired : ℕ → ℕ → StoredFile → Bool
expired retention_days now f = f.is_file && elim f.modified [
  | none ↦ false
  | some m ↦ leb m now && ltb (min (retention_days * 86400) (2 ^ 64 - 1)) (now - m)
]

-- What `prune` deletes, where `removable` says which deletions work.
unfoldable pub prune : ℕ → ℕ → (Text → Bool) → Files → Files × ℕ
unfolding expired
prune retention_days now removable files =
    let gone = λ (f : Text × StoredFile). expired retention_days now f.1 && removable f.0 in
    (filter (λ f. not (gone f)) files, count gone files)

module _ (sha256_hex : Bytes → Text) where
  -- The two checks on what was read.
  unfoldable pub is_cached : Text → Fetched → Bytes → Bool
  is_cached event_id rec bytes =
      text_eq rec.event_id event_id
      && length bytes == rec.size
      && text_eq (sha256_hex bytes) rec.sha256

  unfoldable pub fetched_record : Text → ℕ → Text → Text → Option Text → Bytes → Fetched
  fetched_record dir inbox_seq event_id raw_name mimetype bytes = record {
    path = file_path dir inbox_seq raw_name;
    event_id = event_id;
    filename = sanitize_filename raw_name;
    mimetype = mimetype;
    size = length bytes;
    sha256 = sha256_hex bytes;
  }

  module _ (decode : Bytes → Option Fetched) where
    unfoldable pub find_cached : Text → Files → ℕ → Text → Text → Option Fetched
    unfolding is_cached
    find_cached dir files inbox_seq event_id raw_name = do
      let file = file_path dir inbox_seq raw_name
      json ← read_file (meta_path dir inbox_seq raw_name) files
      rec ← decode json
      bytes ← read_file file files
      if is_cached event_id rec bytes then some (record rec { path = file }) else none

  module _ (encode : Fetched → Option Bytes) where
    -- The file first, then the record beside it.
    unfoldable pub write_both :
        Text
        → ℕ
        → Text
        → Fetched
        → Bytes
        → ℕ
        → StoreFault
        → Files
        → Files × Result StoreError Fetched
    write_both dir inbox_seq raw_name rec bytes now fault files =
        let written = write_private_atomic (file_path dir inbox_seq raw_name) bytes now files in
        elim fault [
          | no_directory ↦ (files, err (store_failed no_directory))
          | file_write_fails ↦ (files, err (store_failed file_write_fails))
          | meta_write_fails ↦ elim (encode rec) [
            | none ↦ (written, err not_encoded)
            | some json ↦ (written, err (store_failed meta_write_fails))
          ]
          | no_store_fault ↦ elim (encode rec) [
            | none ↦ (written, err not_encoded)
            | some json ↦
                (write_private_atomic (meta_path dir inbox_seq raw_name) json now written, ok rec)
          ]
        ]

    unfoldable pub store :
        Text
        → AttachmentPolicy
        → ℕ
        → Text
        → Text
        → Option Text
        → Bytes
        → ℕ
        → StoreFault
        → Files
        → Files × Result StoreError Fetched
    unfolding fetched_record write_both
    store dir policy inbox_seq event_id raw_name mimetype bytes now fault files =
        if check_size policy (length bytes)
        then write_both dir inbox_seq raw_name
            (fetched_record dir inbox_seq event_id raw_name mimetype bytes) bytes now fault files
        else (files, err (too_large (length bytes)))
