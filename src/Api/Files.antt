-- ===== src/Api/Files.antt =====
-- The file store of api/batches.py. Ids, names and bytes are numbers and lists of them; the id of a
-- new file, which the schema makes, is an argument.
pub mod Fifo
pub mod Tests
use superl8_serve.Prelude.{
  ℕ, zero, suc, ◌+◌, List, [], ◌∷◌, ◌++◌, Option, none, some, Bool, true, false, if◌then◌else◌,
  ◌==◌, ltb, length,
}

pub record FileObject : Type 0 where
  pub id : ℕ
  pub bytes : ℕ
  pub filename : List ℕ
  pub purpose : List ℕ

-- A Python dict in its order of insertion.
abbrev pub Dict : Type 0 → Type 0
Dict A = List (ℕ × A)

module _ {A : Type 0} where
  abbrev pub keys : Dict A → List ℕ
  keys [] = []
  keys ((k, v) ∷ d) = k ∷ keys d

  abbrev pub find : ℕ → Dict A → Option A
  find k [] = none
  find k ((j, v) ∷ d) = if j == k then some v else find k d

  -- `d[k] = v`: a new key is last, an old one keeps its place.
  abbrev pub assign : ℕ → A → Dict A → Dict A
  assign k v [] = (k, v) ∷ []
  assign k v ((j, w) ∷ d) = if j == k then (j, v) ∷ d else (j, w) ∷ assign k v d

  -- `d.pop(k, None)`.
  abbrev pub discard : ℕ → Dict A → Dict A
  discard k [] = []
  discard k ((j, w) ∷ d) = if j == k then d else (j, w) ∷ discard k d

pub record FileStore : Type 0 where
  pub content : Dict (List ℕ)
  pub meta : Dict FileObject
  pub max_files : ℕ

-- The `while` of `put`; the oldest key is the first, so that `pop` of it leaves the rest.
unfoldable pub evict : ℕ → Dict (List ℕ) → Dict FileObject → Dict (List ℕ) × Dict FileObject
evict max_files [] meta = ([], meta)
evict max_files ((oldest, v) ∷ content) meta =
    let next = evict max_files content (discard oldest meta) in
    if ltb max_files (suc (length content)) then next else ((oldest, v) ∷ content, meta)

unfoldable pub put : ℕ → List ℕ → List ℕ → List ℕ → FileStore → FileStore × FileObject
unfolding evict
put id content filename purpose s =
    let obj : FileObject = record {
      id = id;
      bytes = length content;
      filename = filename;
      purpose = purpose;
    } in
    let (kept, meta) = evict s.max_files (assign id content s.content) (assign id obj s.meta) in
    (record s { content = kept; meta = meta }, obj)

-- `none` is the 404.
unfoldable pub content_of : ℕ → FileStore → Option (List ℕ)
content_of file_id s = find file_id s.content

unfoldable pub meta_of : ℕ → FileStore → Option FileObject
meta_of file_id s = find file_id s.meta
