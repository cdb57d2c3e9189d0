-- ===== src/PdbInfo/Written.antt =====
-- src/pdbi.rs: an information stream as it is written.
use pdb.Prelude.{
  ℕ, ◌*◌, ◌^◌, ◌<◌, ◌≡◌, List, [], ◌∷◌, ◌++◌, map, length, length-append, length-le_bytes, le_bytes,
  arith, All,
}
use pdb.Buffer.Text.{IsText}
use pdb.Dbi.Header.{header_version}
use pdb.PdbInfo.{Guid, Fields, PdbInformation, StreamName}

-- An entry: the name with what stands before it and behind its null byte among the names, and the stream.
pub record Entry : Type 0 where
  pub before : List ℕ
  pub name : List ℕ
  pub after : List ℕ
  pub stream_id : ℕ

-- What is written. The bits of the sets are kept as bytes.
pub record Written : Type 0 where
  pub version : ℕ
  pub signature : ℕ
  pub age : ℕ
  pub guid : Guid
  pub names : List ℕ
  pub entries_size : ℕ
  pub ok_words : ℕ
  pub ok_bits : List ℕ
  pub deleted_words : ℕ
  pub deleted_bits : List ℕ
  pub entries : List Entry

abbrev pub entry_bytes : List Entry → List ℕ
entry_bytes [] = []
entry_bytes (e ∷ es) = le_bytes 4 (length e.before) ++ (le_bytes 4 e.stream_id ++ entry_bytes es)

abbrev pub map_bytes : Written → List ℕ
map_bytes w =
    le_bytes 4 (length w.entries)
    ++ (le_bytes 4 w.entries_size
        ++ (le_bytes 4 w.ok_words
            ++ (w.ok_bits
                ++ (le_bytes 4 w.deleted_words ++ (w.deleted_bits ++ entry_bytes w.entries)))))

abbrev pub front : Written → List ℕ
front w =
    le_bytes 4 w.version
    ++ (le_bytes 4 w.signature
        ++ (le_bytes 4 w.age
            ++ (le_bytes 4 w.guid.d1
                ++ (le_bytes 2 w.guid.d2
                    ++ (le_bytes 2 w.guid.d3 ++ (w.guid.d4 ++ le_bytes 4 (length w.names)))))))

abbrev pub stream_of : Written → List ℕ
stream_of w = front w ++ (w.names ++ map_bytes w)

abbrev pub IsWord : ℕ → Type 0
IsWord n = n < 2 ^ 32

abbrev pub IsEntry : List ℕ → Entry → Type 0
IsEntry names e =
    (names ≡ e.before ++ (e.name ++ (0 ∷ e.after))) × IsText e.name × (e.stream_id < 2 ^ 16)

pub record IsWritten (w : Written) : Type 0 where
  pub version : IsWord w.version
  pub signature : IsWord w.signature
  pub age : IsWord w.age
  pub d1 : IsWord w.guid.d1
  pub d2 : w.guid.d2 < 2 ^ 16
  pub d3 : w.guid.d3 < 2 ^ 16
  pub d4 : length w.guid.d4 ≡ 8
  pub names : IsWord (length w.names)
  pub count : IsWord (length w.entries)
  pub entries_size : IsWord w.entries_size
  pub ok_words : IsWord w.ok_words
  pub ok_bits : length w.ok_bits ≡ w.ok_words * 4
  pub deleted_words : IsWord w.deleted_words
  pub deleted_bits : length w.deleted_bits ≡ w.deleted_words * 4
  pub entries : All (IsEntry w.names) w.entries
  pub small : length (stream_of w) < 2 ^ 63

abbrev pub info_of : Written → PdbInformation
info_of w = record {
  version = header_version w.version;
  signature = w.signature;
  age = w.age;
  guid = w.guid;
  names_offset = 32;
  names_size = length w.names;
  stream = stream_of w;
}

abbrev pub fields_of : Written → Fields
fields_of w = record {
  version = header_version w.version;
  signature = w.signature;
  age = w.age;
  guid = w.guid;
  names_size = length w.names;
}

abbrev pub names_in : List Entry → List StreamName
names_in es = map (λ e. record { name = e.name; stream_id = e.stream_id }) es

abbrev pub named : ℕ → List ℕ → StreamName
named stream_id name = record { name = name; stream_id = stream_id }

pub length-front : (w : Written) → IsWritten w → length (front w) ≡ 32
length-front w is = omega (
  arith,
  is.d4,
  length-append w.guid.d4 (le_bytes 4 (length w.names)),
  length-le_bytes 4 (length w.names),
)
