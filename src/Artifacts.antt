-- ===== src/Artifacts.antt =====
-- certmon/artifacts.py: `ArtifactStore`, a directory of files for each certificate. The file names
-- are kept with their text; a private file holds its sealed text under its name with `.enc`.
-- `base_name` stands for `Path(name).name`, `dump` for `json.dumps`, and the four functions of the
-- vault (certmon/vault.py) for `encrypt`, `decrypt` and the JSON form of a sealed text.
use certmon.Prelude.{
  String, Bool, not, ◌==◌, ◌&&◌, ◌||◌, none, some, List, [], ◌∷◌, ◌++◌, if◌then◌else◌, contains,
  is_none, ends_with, find, delete,
}
use Prim.Native.String
use certmon.Outcome.{
  Result, ok, err, Action, value_error, file_exists, file_not_found, private_artifact,
}
use certmon.Db.{Details}

pub record Vault (Blob : Type 0) : Type 0 where
  pub encrypt : String → String → Blob
  pub decrypt : Blob → String → Result String
  pub serialize : Blob → String
  pub deserialize : String → Result Blob
  pub base_name : String → String
  pub dump : Details → String

abbrev pub Files : Type 0
Files = List (String × String)

pub record CertificateSet : Type 0 where
  pub id : String
  pub files : Files

abbrev pub Store : Type 0
Store = List CertificateSet

abbrev pub private_names : List String
private_names = "private-key.pem" ∷ "combined.pem" ∷ []

abbrev pub encrypted_name : String → String
encrypted_name name = String.◌++◌ name ".enc"

abbrev pub purpose : String → String → String
purpose id name = String.◌++◌ "certificate-artifact:" (String.◌++◌ id (String.◌++◌ ":" name))

-- a write of a file, and its text
unfoldable pub write_file : String → String → Files → Files
write_file name content [] = (name, content) ∷ []
write_file name content ((n, c) ∷ files) =
    if n == name then (n, content) ∷ files else (n, c) ∷ write_file name content files

unfoldable pub read_file : String → Files → Result String
read_file name [] = err file_not_found
read_file name ((n, c) ∷ files) = if n == name then ok c else read_file name files

abbrev pub has_set_id : String → CertificateSet → Bool
has_set_id id s = s.id == id

module _ {Blob : Type 0} (vault : Vault Blob) where
  abbrev pub is_plain_name : String → Bool
  is_plain_name name = not (name == "") && vault.base_name name == name

  -- the loops of `_create_certificate_set`; an error removes the temporary directory
  unfoldable pub write_public : Files → Files → Result Files
  unfolding write_file
  write_public [] files = ok files
  write_public ((name, content) ∷ rest) files =
      if not (is_plain_name name)
      then err (value_error "Invalid artifact name")
      else if contains name private_names
      then err private_artifact
      else write_public rest (write_file name content files)

  unfoldable pub write_private : String → Files → Files → Result Files
  unfolding write_file
  write_private id [] files = ok files
  write_private id ((name, content) ∷ rest) files =
      if is_plain_name name
      then write_private id rest (
          write_file (encrypted_name name)
            (vault.serialize (vault.encrypt content (purpose id name))) files)
      else err (value_error "Invalid artifact name")

  abbrev pub finish_files : String → Files → Details → Result Files → Result Files
  finish_files id private_files metadata (err e) = err e
  finish_files id private_files metadata (ok files) = elim (write_private id private_files files) [
    | err e ↦ err e
    | ok all ↦ ok (write_file "metadata.json" (vault.dump metadata) all)
  ]

  abbrev pub add_set : String → Store → Result Files → Result Unit × Store
  add_set id store (err e) = (err e, store)
  add_set id store (ok files) = (ok tt, store ++ record { id = id; files = files } ∷ [])

  unfoldable pub create_certificate_set : String → Files → Files → Details → Action Store Unit
  unfolding write_public write_private
  create_certificate_set id public_files private_files metadata store =
      if not (is_plain_name id)
      then (err (value_error "Invalid certificate ID"), store)
      else if not (is_none (find (has_set_id id) store))
      then (err file_exists, store)
      else add_set id store (finish_files id private_files metadata (write_public public_files []))

  unfoldable pub has_certificate : String → Store → Result Bool
  has_certificate id store =
      if is_plain_name id
      then ok (not (is_none (find (has_set_id id) store)))
      else err (value_error "Invalid certificate ID")

  unfoldable pub delete_certificate_set : String → Action Store Unit
  delete_certificate_set id store =
      if is_plain_name id
      then (ok tt, delete (has_set_id id) store)
      else (err (value_error "Invalid certificate ID"), store)

  abbrev pub file_of : String → String → Store → Result String
  file_of id name store = elim (find (has_set_id id) store) [
    | none ↦ err file_not_found
    | some s ↦ read_file name s.files
  ]

  unfoldable pub read_public : String → String → Store → Result String
  unfolding read_file ends_with
  read_public id name store =
      if not (is_plain_name name)
      then err (value_error "Invalid artifact name")
      else if contains name private_names || ends_with name ".enc"
      then err private_artifact
      else if is_plain_name id
      then file_of id name store
      else err (value_error "Invalid certificate ID")

  abbrev pub unseal : String → Result Blob → Result String
  unseal purpose (err e) = err e
  unseal purpose (ok blob) = vault.decrypt blob purpose

  abbrev pub unseal_file : String → Result String → Result String
  unseal_file purpose (err e) = err e
  unseal_file purpose (ok file) = unseal purpose (vault.deserialize file)

  -- the bytes of the temporary file, which is gone when the caller's block ends
  unfoldable pub materialize_private : String → String → Store → Result String
  unfolding read_file
  materialize_private id name store =
      if not (is_plain_name name)
      then err (value_error "Invalid artifact name")
      else if not (contains name private_names)
      then err private_artifact
      else if is_plain_name id
      then unseal_file (purpose id name) (file_of id (encrypted_name name) store)
      else err (value_error "Invalid certificate ID")
